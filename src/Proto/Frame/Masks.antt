-- ===== src/Proto/Frame/Masks.antt =====
-- The three flags, set and tested on any byte.
use throcc.Prelude.{
  ℕ, ◌-◌, ◌^◌, ◌<◌, bit_and, bit_or, ◌≡◌, refl, Bool, true, false, not, ◌&&◌, ltb, ◌==◌,
  if◌then◌else◌, arith, passes, passes_from, passes_at, IsByte,
}
use throcc.Proto.Frame.{Flags, contains, with}

-- The flag of bit `i`: `keyframe`, `first` and `last` are those of bits 0, 1 and 2.
abbrev pub flag : ℕ → Flags
flag i = record { bits = 2 ^ i }

abbrev same : Bool → Bool → Bool
same true b = b
same false b = not b

abbrev kept_at : ℕ → ℕ → ℕ → Bool
kept_at x i j =
    same (bit_and (bit_or x (2 ^ i)) (2 ^ j) == 2 ^ j)
      (if i == j then true else bit_and x (2 ^ j) == 2 ^ j)
    && same (bit_and (bit_and x (255 - 2 ^ i)) (2 ^ j) == 2 ^ j)
        (if i == j then false else bit_and x (2 ^ j) == 2 ^ j)
    && ltb (bit_or x (2 ^ i)) 256
    && ltb (bit_and x (255 - 2 ^ i)) 256

mask_table : passes (λ i. passes (λ j. passes (λ x. kept_at x i j) 256) 3) 3 ≡ true
unfolding passes_from
mask_table = refl

mask_at : (x i j : ℕ) → x < 256 → i < 3 → j < 3 → kept_at x i j ≡ true
mask_at x i j hx hi hj =
    let row = passes_at (λ i. passes (λ j. passes (λ x. kept_at x i j) 256) 3) 3 mask_table i hi in
    let cell = passes_at (λ j. passes (λ x. kept_at x i j) 256) 3 row j hj in
    passes_at (λ x. kept_at x i j) 256 cell x hx

-- Setting or clearing one flag in a byte decides that flag, leaves the other two as they were,
-- and gives a byte.
pub contains-with :
    (f : Flags) (i j : ℕ) (on : Bool)
    → IsByte f.bits
    → i < 3
    → j < 3
    → (contains (with f (flag i) on) (flag j) ≡ (if i == j then on else contains f (flag j)))
      × IsByte (with f (flag i) on).bits
unfolding contains with
contains-with f i j true h hi hj = ground (arith, mask_at f.bits i j h hi hj)
contains-with f i j false h hi hj = ground (arith, mask_at f.bits i j h hi hj)
