-- ===== src/Server/Runs/Tests.antt =====
-- `SourceLimiter` (crates/throcc-server/src/limits.rs) with eleven runs of one host, and one more after
-- one is forgiven.
use throcc.Prelude.{ℕ, ◌≡◌, refl, true, false, List, [], ◌∷◌, arith}
use throcc.Prelude.Table.{find, put, retain}
use throcc.Server.Sources.{SourceKey, v4, network, region, source_eq}
use throcc.Server.Runs.{
  no_runs, begin, forgive, forgive_run, sweep, over, count, expire, expire_all, record_run,
  pop_back,
}
use throcc.Server.Runs.Reference.{
  Call, begins, forgives, answers, allowed, no_logs, InOrder, answers-no_runs,
}

abbrev host : SourceKey
host = v4 0x0a000001

abbrev calls : List (ℕ × Call)
calls =
    (0, begins host)
    ∷ (0, begins host)
    ∷ (0, begins host)
    ∷ (0, begins host)
    ∷ (0, begins host)
    ∷ (0, begins host)
    ∷ (0, begins host)
    ∷ (0, begins host)
    ∷ (0, begins host)
    ∷ (3, begins host)
    ∷ (4, begins host)
    ∷ (5, forgives host)
    ∷ (600000000001, begins host)
    ∷ []

in_order : InOrder 0 calls
in_order = ground arith

answers-no_runs_example : answers calls no_runs ≡ allowed calls no_logs
answers-no_runs_example = answers-no_runs calls in_order

runs :
    answers calls no_runs
    ≡ true ∷ true ∷ true ∷ true ∷ true ∷ true ∷ true ∷ true ∷ true ∷ true ∷ false ∷ true ∷ []
unfolding answers no_runs begin forgive forgive_run sweep over count expire expire_all retain
    record_run pop_back network region find put
runs = refl
