-- ===== src/Server/Guesses.antt =====
-- crates/throcc-server/src/room_password.rs: wrong guesses at room passwords. Times are in
-- nanoseconds. Argon2, which compares a password with a hash, is not part of it.
mod Laws
mod Tests
use throcc.Prelude.{
  ℕ, ◌+◌, ◌-◌, ◌*◌, ◌^◌, Bool, true, not, ◌&&◌, List, [], ◌∷◌, Option, none, some, Result, ok, err,
  ltb, leb, min, ◌==◌, if◌then◌else◌,
}
use throcc.Server.Buckets.{Rate, Buckets, new, take_for, holds_for}

abbrev pub second : ℕ
second = 10 ^ 9

abbrev pub free_failures : ℕ
free_failures = 5

abbrev pub first_wait : ℕ
first_wait = 10 * second

abbrev pub longest_wait : ℕ
longest_wait = 60 * 60 * second

abbrev pub failure_memory : ℕ
failure_memory = 24 * 60 * 60 * second

abbrev pub failure_sweep : ℕ
failure_sweep = 60 * second

-- 100 guesses, and 100 of them refilled in 3600 seconds: a guess is 36 * 10 ^ 9 units.
abbrev pub room_rate : Rate
room_rate = record { unit = 36 * second; capacity = 100; refilled = 1 }

-- Why a guess has to wait.
pub data Wait : Type 0 where
  user : ℕ → Wait
  room : Wait

pub record Failures : Type 0 where
  pub count : ℕ
  pub last : ℕ

-- The wait after `count` wrong guesses, none for the free ones.
unfoldable pub wait_after : ℕ → ℕ
wait_after count =
    if ltb count free_failures
    then 0
    else min (first_wait * 2 ^ min (count - free_failures) 16) longest_wait

unfoldable pub next_try : Failures → ℕ
unfolding wait_after
next_try f = f.last + wait_after f.count

-- The map of failures by user and room.
abbrev pub Users : Type 0
Users = List ((ℕ × ℕ) × Failures)

unfoldable pub failures_of : ℕ → ℕ → Users → Option Failures
failures_of u r [] = none
failures_of u r (((v, q), f) ∷ rest) = if (u == v) && r == q then some f else failures_of u r rest

unfoldable pub set_failures : ℕ → ℕ → Failures → Users → Users
set_failures u r f [] = ((u, r), f) ∷ []
set_failures u r f (((v, q), g) ∷ users) =
    let rest = set_failures u r f users in
    if (u == v) && r == q then ((u, r), f) ∷ users else ((v, q), g) ∷ rest

unfoldable pub remove_failures : ℕ → ℕ → Users → Users
remove_failures u r [] = []
remove_failures u r (((v, q), g) ∷ users) =
    let rest = remove_failures u r users in if (u == v) && r == q then rest else ((v, q), g) ∷ rest

-- `retain` of the guesses that are still remembered.
unfoldable pub retain_recent : ℕ → Users → Users
retain_recent now [] = []
retain_recent now ((k, f) ∷ users) =
    let rest = retain_recent now users in
    if ltb (now - f.last) failure_memory then (k, f) ∷ rest else rest

pub record Guesses : Type 0 where
  pub users : Users
  pub rooms : Buckets
  pub next_sweep : Option ℕ

unfoldable pub no_guesses : Guesses
no_guesses = record { users = []; rooms = new room_rate; next_sweep = none }

unfoldable pub check : ℕ → ℕ → ℕ → Guesses → Guesses × Result Wait (Unit {0})
check u r now g = elim (failures_of u r g.users) [
  | none ↦ (g, ok tt)
  | some f ↦
      let (rooms, held) = holds_for g.rooms r 1 now in
      if ltb now (next_try f)
      then (g, err (user (next_try f - now)))
      else if held
      then (record g { rooms = rooms }, ok tt)
      else (record g { rooms = rooms }, err room)
]

unfoldable pub is_due : Option ℕ → ℕ → Bool
is_due none now = true
is_due (some t) now = leb t now

unfoldable pub forget_old : ℕ → Guesses → Guesses
unfolding is_due
forget_old now g =
    if is_due g.next_sweep now
    then record g { users = retain_recent now g.users; next_sweep = some (now + failure_sweep) }
    else g

abbrev pub count_of : Option Failures → ℕ
count_of none = 0
count_of (some f) = f.count

-- The user's wrong guesses at the room so far, and whether the room's allowance is used up.
unfoldable pub failed : ℕ → ℕ → ℕ → Guesses → Guesses × (ℕ × Bool)
failed u r now g =
    let swept = forget_old now g in
    let (rooms, taken) = take_for swept.rooms r 1 now in
    let count = count_of (failures_of u r swept.users) + 1 in
    (
      record swept {
        users = set_failures u r (record { count = count; last = now }) swept.users;
        rooms = rooms;
      },
      (count, not taken),
    )

unfoldable pub succeeded : ℕ → ℕ → Guesses → Guesses
succeeded u r g = record g { users = remove_failures u r g.users }
