-- ===== src/Client/Reorder/Calls.antt =====
-- Sequences of calls of `Reorder` (media/reorder.rs), and what comes out.
use throcc.Prelude.{ℕ, ◌+◌, ◌^◌, ◌≤◌, ◌<◌, ◌⊎◌, List, [], ◌∷◌, ◌++◌, Option, none, some}
use throcc.Client.Units.{AccessUnit}
use throcc.Client.Reorder.{Output, unit, abandoned, late, Reorder, poll, push}

-- A unit has a number, and none that is the last of a u32.
abbrev pub IsUnit : AccessUnit → Type 0
IsUnit u = (u.first_seq ≤ u.last_seq) × (u.last_seq + 1 < 2 ^ 32)

abbrev pub Disjoint : AccessUnit → AccessUnit → Type 0
Disjoint u v = (u.last_seq < v.first_seq) ⊎ (v.last_seq < u.first_seq)

-- Each call is a push, or a poll without a unit, with its time.
abbrev pub Calls : Type 0
Calls = List (ℕ × Option AccessUnit)

abbrev pub DisjointAll : AccessUnit → Calls → Type 0
DisjointAll u [] = Unit {0}
DisjointAll u ((now, none) ∷ calls) = DisjointAll u calls
DisjointAll u ((now, some v) ∷ calls) = Disjoint u v × DisjointAll u calls

-- No two units that are pushed share a number.
abbrev pub Apart : Calls → Type 0
Apart [] = Unit {0}
Apart ((now, none) ∷ calls) = Apart calls
Apart ((now, some u) ∷ calls) = IsUnit u × DisjointAll u calls × Apart calls

abbrev pub step : ℕ → Option AccessUnit → Reorder → Reorder × List Output
step now none r = poll now r
step now (some u) r = push u now r

-- All that comes out.
unfoldable pub outputs : Calls → Reorder → List Output
outputs [] r = []
outputs ((now, call) ∷ calls) r = let (r', out) = step now call r in out ++ outputs calls r'

unfoldable pub units : List Output → List AccessUnit
units [] = []
units (unit u ∷ out) = u ∷ units out
units (abandoned from ∷ out) = units out
units (late ∷ out) = units out

-- Each unit starts after the last number of the one before it, the first at `lo` or later.
abbrev pub Ascending : ℕ → List AccessUnit → Type 0
Ascending lo [] = Unit {0}
Ascending lo (u ∷ us) = (lo ≤ u.first_seq) × Ascending (u.last_seq + 1) us
