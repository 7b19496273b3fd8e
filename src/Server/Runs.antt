-- ===== src/Server/Runs.antt =====
-- `SourceLimiter` and `RunWindow` of crates/throcc-server/src/limits.rs: enrollment runs in a
-- sliding window. Times are in nanoseconds.
mod Window
mod Answers
mod Reference
mod Tests
use throcc.Prelude.{
  ℕ, ◌+◌, ◌-◌, ◌*◌, ◌^◌, Bool, true, false, List, [], ◌∷◌, ◌++◌, Option, none, some, leb, ltb,
  length, if◌then◌else◌,
}
use throcc.Prelude.Table.{Table, find, put, retain}
use throcc.Server.Sources.{SourceKey, network, region, source_eq}

abbrev pub source_runs : ℕ
source_runs = 10

abbrev pub network_runs : ℕ
network_runs = 30

abbrev pub region_runs : ℕ
region_runs = 100

abbrev pub source_window : ℕ
source_window = 10 * 60 * 10 ^ 9

abbrev pub run_sweep : ℕ
run_sweep = 60 * 10 ^ 9

-- Oldest first.
abbrev pub RunWindow : Type 0
RunWindow = Table SourceKey (List ℕ)

-- `while` the front is out of the window, it is popped.
pub expire : ℕ → List ℕ → List ℕ
expire now [] = []
expire now (t ∷ times) =
    let rest = expire now times in if ltb source_window (now - t) then rest else t ∷ times

abbrev pub unless_empty : List ℕ → Option (List ℕ)
unless_empty [] = none
unless_empty (t ∷ times) = some (t ∷ times)

pub expire_all : ℕ → RunWindow → RunWindow
expire_all now window = retain (λ times. unless_empty (expire now times)) window

pub count : SourceKey → ℕ → RunWindow → RunWindow × ℕ
count key now window = elim (find key window) [
  | none ↦ (window, 0)
  | some times ↦ (put key (expire now times) window, length (expire now times))
]

abbrev pub or_empty : Option (List ℕ) → List ℕ
or_empty none = []
or_empty (some times) = times

pub record_run : SourceKey → ℕ → RunWindow → RunWindow
record_run key now window = put key (or_empty (find key window) ++ now ∷ []) window

pub pop_back : List ℕ → List ℕ
pop_back [] = []
pop_back (t ∷ []) = []
pop_back (t ∷ u ∷ times) = t ∷ pop_back (u ∷ times)

pub forgive_run : SourceKey → RunWindow → RunWindow
forgive_run key window = elim (find key window) [
  | none ↦ window
  | some times ↦ put key (pop_back times) window
]

pub record SourceLimiter : Type 0 where
  pub sources : RunWindow
  pub networks : RunWindow
  pub regions : RunWindow
  pub next_sweep : Option ℕ

pub no_runs : SourceLimiter
no_runs = record { sources = []; networks = []; regions = []; next_sweep = none }

abbrev is_due : Option ℕ → ℕ → Bool
is_due none now = true
is_due (some t) now = leb t now

pub sweep : ℕ → SourceLimiter → SourceLimiter
sweep now s =
    if is_due s.next_sweep now
    then record {
      sources = expire_all now s.sources;
      networks = expire_all now s.networks;
      regions = expire_all now s.regions;
      next_sweep = some (now + run_sweep);
    }
    else s

-- The three counts that are read, the later ones only if the earlier are below their limits.
pub over : SourceKey → ℕ → SourceLimiter → SourceLimiter × Bool
over source now s =
    let (sources, n) = count source now s.sources in
    let (networks, m) = count (network source) now s.networks in
    let (regions, k) = count (region source) now s.regions in
    if leb source_runs n
    then (record s { sources = sources }, true)
    else if leb network_runs m
    then (record s { sources = sources; networks = networks }, true)
    else (record s { sources = sources; networks = networks; regions = regions }, leb region_runs k)

pub begin : SourceKey → ℕ → SourceLimiter → SourceLimiter × Bool
begin source now s =
    let (counted, refused) = over source now (sweep now s) in
    if refused then (counted, false) else (
      record counted {
        sources = record_run source now counted.sources;
        networks = record_run (network source) now counted.networks;
        regions = record_run (region source) now counted.regions;
      },
      true,
    )

pub forgive : SourceKey → SourceLimiter → SourceLimiter
forgive source s = record s {
  sources = forgive_run source s.sources;
  networks = forgive_run (network source) s.networks;
  regions = forgive_run (region source) s.regions;
}
