-- ===== src/Client/Reorder.antt =====
-- crates/throcc-client-core/src/media/reorder.rs: units in the order of their numbers. Times are in
-- nanoseconds, and the map of the waiting units is in the order of their first numbers.
mod Calls
mod Chain
mod Order
mod Deadline
mod Tests
use throcc.Prelude.{
  ℕ, ◌+◌, ◌*◌, ◌^◌, Bool, false, List, [], ◌∷◌, Option, none, some, ltb, leb, length, if◌then◌else◌,
}
use throcc.Prelude.Map.{Map, insert}
use throcc.Client.Units.{AccessUnit}

abbrev pub reorder_window : ℕ
reorder_window = 50 * 10 ^ 6

abbrev pub max_waiting : ℕ
max_waiting = 256

pub data Output : Type 0 where
  unit : AccessUnit → Output
  abandoned : ℕ → Output
  late : Output

pub record Reorder : Type 0 where
  pub next : Option ℕ
  pub waiting : Map AccessUnit
  pub gap_since : Option ℕ

abbrev pub empty : Reorder
empty = record { next = none; waiting = []; gap_since = none }

abbrev pub unwrap_or {ℓ} : {A : Type ℓ} → Option A → A → A
unwrap_or none a = a
unwrap_or (some x) a = x

-- `checked_add(1)` of a u32.
abbrev pub checked_succ : ℕ → Option ℕ
checked_succ n = if ltb (n + 1) (2 ^ 32) then some (n + 1) else none

-- The loop of `poll`, over what waits; each round pops the first.
pub drain : ℕ → Option ℕ → Option ℕ → Map AccessUnit → Reorder × List Output
drain now next gap_since [] = (record { next = next; waiting = []; gap_since = gap_since }, [])
drain now next gap_since ((first, u) ∷ waiting) =
    let (rest, out) = drain now (checked_succ u.last_seq) none waiting in
    let since = unwrap_or gap_since now in
    if ltb (unwrap_or next first) first
    then if ltb now (since + reorder_window)
      then (record { next = next; waiting = (first, u) ∷ waiting; gap_since = some since }, [])
      else (rest, abandoned (unwrap_or next first) ∷ unit u ∷ out)
    else (rest, unit u ∷ out)

pub poll : ℕ → Reorder → Reorder × List Output
poll now r = drain now r.next r.gap_since r.waiting

abbrev pub pop_first {ℓ} : {V : Type ℓ} → Map V → Map V
pop_first [] = []
pop_first (entry ∷ m) = m

pub make_room : Map AccessUnit → Map AccessUnit
make_room waiting = if leb max_waiting (length waiting) then pop_first waiting else waiting

-- Whether every number of the unit comes before the next.
abbrev pub is_late : Option ℕ → AccessUnit → Bool
is_late none u = false
is_late (some next) u = ltb u.last_seq next

pub push : AccessUnit → ℕ → Reorder → Reorder × List Output
push u now r =
    if is_late r.next u
    then (r, late ∷ [])
    else poll now (record r {
      next = some (unwrap_or r.next u.first_seq);
      waiting = insert u.first_seq u (make_room r.waiting);
    })

pub deadline : Reorder → Option ℕ
deadline r = elim r.gap_since [ none ↦ none | some since ↦ some (since + reorder_window) ]
