-- ===== src/Client/Reorder/Tests.antt =====
-- `Reorder` (media/reorder.rs) with three units, the second of which comes last or not at all.
use throcc.Prelude.{ℕ, ◌+◌, ◌≡◌, ◌≤◌, refl, List, [], ◌∷◌, none, some, arith}
use throcc.Prelude.Map.{insert}
use throcc.Client.Units.{AccessUnit}
use throcc.Client.Reorder.{unit, abandoned, late, empty, drain, poll, push, make_room, deadline}
use throcc.Client.Reorder.Calls.{Calls, Ascending, outputs, units}
use throcc.Client.Reorder.Order.{Ascending-outputs}
use throcc.Client.Reorder.Deadline.{after, deadline-after}

abbrev numbered : ℕ → ℕ → AccessUnit
numbered first last = record {
  first_seq = first;
  last_seq = last;
  timestamp = 0;
  flags = record { bits = 6 };
  bytes = [];
}

abbrev one : AccessUnit
one = numbered 7 8

abbrev two : AccessUnit
two = numbered 9 9

abbrev three : AccessUnit
three = numbered 10 12

abbrev calls : Calls
calls = (0, some one) ∷ (1, some three) ∷ (2, some two) ∷ []

comes_in_order : outputs calls empty ≡ unit one ∷ unit two ∷ unit three ∷ []
unfolding outputs push poll drain make_room insert
comes_in_order = refl

Ascending-outputs_example : Ascending 0 (units (outputs calls empty))
Ascending-outputs_example = Ascending-outputs calls (ground arith)

abbrev late_calls : Calls
late_calls = (0, some one) ∷ (1, some three) ∷ (50000001, none) ∷ (50000002, some two) ∷ []

comes_late : outputs late_calls empty ≡ unit one ∷ abandoned 9 ∷ unit three ∷ late ∷ []
unfolding outputs push poll drain make_room insert
comes_late = refl

abbrev gap : Calls
gap = (0, some one) ∷ (1, some three) ∷ []

waits : (after gap empty).waiting ≡ (10, three) ∷ []
unfolding after push poll drain make_room insert
waits = refl

deadline-after_example :
    (d : ℕ) × (deadline (after gap empty) ≡ some d)
    × (d ≤ 50000001)
    × (us : List AccessUnit) × (units (poll (d + 3) (after gap empty)).1 ≡ three ∷ us)
deadline-after_example = deadline-after gap 1 10 three [] 3 (ground arith) waits
