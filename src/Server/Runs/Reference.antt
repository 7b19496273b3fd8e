-- ===== src/Server/Runs/Reference.antt =====
-- `SourceLimiter` of crates/throcc-server/src/limits.rs and one that counts in logs from which nothing
-- is dropped.
use throcc.Prelude.{
  ℕ, ◌≤◌, ◌≡◌, refl, ap₂, Bool, ◌&&◌, not, List, [], ◌∷◌, ◌++◌, leb, ltb, if◌then◌else◌, arith,
  Bool-cases, inl, inr,
}
use throcc.Server.Sources.{SourceKey, network, region, source_eq}
use throcc.Server.Runs.{
  SourceLimiter, no_runs, sweep, over, begin, forgive, count, pop_back, source_runs, network_runs,
  region_runs, is_due,
}
use throcc.Server.Runs.Window.{recent, Log, changed}
use throcc.Server.Runs.Answers.{
  Tracks, Tracks-nil, Tracks-later, Tracks-expire_all, Tracks-record_run, Tracks-forgive_run,
  Tracks-count,
}

-- The runs of each source, network and region that were let begin and not forgiven since.
pub record Logs : Type 0 where
  pub sources : Log
  pub networks : Log
  pub regions : Log

abbrev pub no_logs : Logs
no_logs = record { sources = λ key. []; networks = λ key. []; regions = λ key. [] }

-- Every key of the source has room in its window.
abbrev pub is_allowed : SourceKey → ℕ → Logs → Bool
is_allowed source now l =
    ltb (recent now (l.sources source)) source_runs
    && ltb (recent now (l.networks (network source))) network_runs
    && ltb (recent now (l.regions (region source))) region_runs

abbrev pub all_changed : SourceKey → (List ℕ → List ℕ) → Logs → Logs
all_changed source f l = record {
  sources = changed source f l.sources;
  networks = changed (network source) f l.networks;
  regions = changed (region source) f l.regions;
}

pub data Call : Type 0 where
  begins forgives : SourceKey → Call

-- What each `begin` of a sequence of calls answers, each call with its time.
unfoldable pub answers : List (ℕ × Call) → SourceLimiter → List Bool
answers [] s = []
answers ((now, begins source) ∷ calls) s =
    let (s', answer) = begin source now s in answer ∷ answers calls s'
answers ((now, forgives source) ∷ calls) s = answers calls (forgive source s)

-- What it is to answer.
pub allowed : List (ℕ × Call) → Logs → List Bool
allowed [] l = []
allowed ((now, begins source) ∷ calls) l =
    is_allowed source now l
    ∷ allowed calls
        (if is_allowed source now l then all_changed source (λ times. times ++ now ∷ []) l else l)
allowed ((now, forgives source) ∷ calls) l = allowed calls (all_changed source pop_back l)

-- The times of the calls do not fall, from `t` on.
abbrev pub InOrder : ℕ → List (ℕ × Call) → Type 0
InOrder t [] = Unit {0}
InOrder t ((now, call) ∷ calls) = (t ≤ now) × InOrder now calls

record Matches (now : ℕ) (s : SourceLimiter) (l : Logs) : Type 0 where
  sources : Tracks now s.sources l.sources
  networks : Tracks now s.networks l.networks
  regions : Tracks now s.regions l.regions

Matches-later :
    (t now : ℕ) (s : SourceLimiter) (l : Logs) → t ≤ now → Matches t s l → Matches now s l
Matches-later t now s l h m = record {
  sources = Tracks-later t now s.sources l.sources h m.sources;
  networks = Tracks-later t now s.networks l.networks h m.networks;
  regions = Tracks-later t now s.regions l.regions h m.regions;
}

sweep-Matches :
    (now : ℕ) (s : SourceLimiter) (l : Logs) → Matches now s l → Matches now (sweep now s) l
unfolding sweep
sweep-Matches now s l m = elim (Bool-cases (is_due s.next_sweep now)) [
  | inl q ↦
      rw (q, sweep)
        record {
          sources = Tracks-expire_all now s.sources l.sources m.sources;
          networks = Tracks-expire_all now s.networks l.networks m.networks;
          regions = Tracks-expire_all now s.regions l.regions m.regions;
        }
  | inr q ↦ rw (q, sweep) m
]

over-Matches :
    (source : SourceKey) (now : ℕ) (s : SourceLimiter) (l : Logs)
    → Matches now s l
    → Matches now (over source now s).0 l × ((over source now s).1 ≡ not (is_allowed source now l))
unfolding over
over-Matches source now s l m =
    let a = Tracks-count now source s.sources l.sources m.sources in
    let b = Tracks-count now (network source) s.networks l.networks m.networks in
    let c = Tracks-count now (region source) s.regions l.regions m.regions in
    elim (Bool-cases (leb source_runs (count source now s.sources).1)) [
      | inl p ↦
          rw (p, over)
            (
              record { sources = a.0; networks = m.networks; regions = m.regions },
              ground (arith, a.1),
            )
      | inr p ↦ elim (Bool-cases (leb network_runs (count (network source) now s.networks).1)) [
        | inl q ↦
            rw (p, q, over)
              (
                record { sources = a.0; networks = b.0; regions = m.regions },
                ground (arith, a.1, b.1),
              )
        | inr q ↦
            rw (p, q, over)
              (
                record { sources = a.0; networks = b.0; regions = c.0 },
                ground (arith, a.1, b.1, c.1),
              )
      ]
    ]

begin-Matches :
    (source : SourceKey) (now : ℕ) (s : SourceLimiter) (l : Logs)
    → Matches now s l
    → Matches now
        (begin source now s).0
        (if is_allowed source now l then all_changed source (λ times. times ++ now ∷ []) l else l)
      × ((begin source now s).1 ≡ is_allowed source now l)
unfolding begin
begin-Matches source now s l m =
    let o = over-Matches source now (sweep now s) l (sweep-Matches now s l m) in
    let c = (over source now (sweep now s)).0 in
    elim (Bool-cases (is_allowed source now l)) [
      | inl p ↦
          rw (p, begin, o.1)
            (rw p (
              record {
                sources = Tracks-record_run now source c.sources l.sources o.0.sources;
                networks =
                    Tracks-record_run now (network source) c.networks l.networks o.0.networks;
                regions = Tracks-record_run now (region source) c.regions l.regions o.0.regions;
              },
              refl,
            ))
      | inr p ↦ rw (p, begin, o.1) (rw p (o.0, refl))
    ]

forgive-Matches :
    (source : SourceKey) (now : ℕ) (s : SourceLimiter) (l : Logs)
    → Matches now s l
    → Matches now (forgive source s) (all_changed source pop_back l)
unfolding forgive
forgive-Matches source now s l m = record {
  sources = Tracks-forgive_run now source s.sources l.sources m.sources;
  networks = Tracks-forgive_run now (network source) s.networks l.networks m.networks;
  regions = Tracks-forgive_run now (region source) s.regions l.regions m.regions;
}

answers-allowed :
    (calls : List (ℕ × Call)) (t : ℕ) (s : SourceLimiter) (l : Logs)
    → InOrder t calls
    → Matches t s l
    → answers calls s ≡ allowed calls l
unfolding answers allowed
answers-allowed [] t s l h m = refl
answers-allowed ((now, forgives source) ∷ calls) t s l h m =
    answers-allowed calls now (forgive source s) (all_changed source pop_back l) h.1
      (forgive-Matches source now s l (Matches-later t now s l h.0 m))
answers-allowed ((now, begins source) ∷ calls) t s l h m =
    let l' =
      if is_allowed source now l then all_changed source (λ times. times ++ now ∷ []) l else l in
    let b = begin-Matches source now s l (Matches-later t now s l h.0 m) in
    ap₂ (λ x xs. x ∷ xs) b.1 (answers-allowed calls now (begin source now s).0 l' h.1 b.0)

-- For calls of `begin` and `forgive` in the order of their times, a limiter that starts without
-- runs answers as one that keeps every run, in logs per source, network and region: a run may
-- begin exactly if, for each of its three keys, fewer runs than the limit were let begin within the
-- last ten minutes and not forgiven, where to forgive takes the newest run out of each log.
pub answers-no_runs :
    (calls : List (ℕ × Call)) → InOrder 0 calls → answers calls no_runs ≡ allowed calls no_logs
answers-no_runs calls h = answers-allowed calls 0 no_runs no_logs h (
    unfold no_runs in
    record { sources = Tracks-nil 0; networks = Tracks-nil 0; regions = Tracks-nil 0 })
