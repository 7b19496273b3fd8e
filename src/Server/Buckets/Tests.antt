-- ===== src/Server/Buckets/Tests.antt =====
-- A bucket of 2 tokens that refills one a second, as in the tests of limits.rs.
use throcc.Prelude.{ℕ, ◌+◌, ◌-◌, ◌*◌, ◌^◌, ◌≤◌, ◌≡◌, refl, true, false, List, [], ◌∷◌, arith}
use throcc.Prelude.Map.{get, insert}
use throcc.Server.Buckets.{
  Rate, full, full_tokens, refill, take, is_full, retain_unfull, new, take_for, entry,
}
use throcc.Server.Buckets.Bound.{granted, full-granted_bound}
use throcc.Server.Buckets.Forget.{Ask, answers}

abbrev one_a_second : Rate
one_a_second = record { unit = 10 ^ 9; capacity = 2; refilled = 1 }

abbrev second : ℕ
second = 10 ^ 9

refills_one :
    granted (full one_a_second 0) ((1, 0) ∷ (1, 0) ∷ (1, 0) ∷ (1, second) ∷ (1, second) ∷ []) ≡ 3
unfolding granted full take refill
refills_one = refl

refuses_more_than_capacity : (take (full one_a_second 0) 3 (60 * second)).1 ≡ false
unfolding full take refill
refuses_more_than_capacity = refl

full-granted_bound_example :
    granted (full one_a_second 0) ((1, 0) ∷ (1, 0) ∷ (1, second) ∷ []) * 10 ^ 9
    ≤ full_tokens one_a_second + (second - 0) * 1
full-granted_bound_example =
    full-granted_bound one_a_second 0 ((1, 0) ∷ (1, 0) ∷ (1, second) ∷ []) second (omega arith)

abbrev asks : List Ask
asks = (1, 2, 0) ∷ (1, 1, 0) ∷ (2, 1, 0) ∷ (3, 2, 5 * second) ∷ (1, 2, 5 * second) ∷ []

forgets_full : answers (new one_a_second) asks ≡ true ∷ false ∷ true ∷ true ∷ true ∷ []
unfolding answers new take_for take entry full refill is_full retain_unfull get insert
forgets_full = refl
