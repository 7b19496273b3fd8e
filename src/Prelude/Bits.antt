-- ===== src/Prelude/Bits.antt =====
-- Small numbers: bytes, and tests that are tried on every number of a range.
use Prim.Native.Nat.{ℕ, zero, suc, ◌+◌, ◌≤◌, ◌<◌}
use mathlib.Core.Path.{◌≡◌}
use mathlib.Core.Bool.{Bool, true, ◌&&◌}
use native.Mathlib.Omega.{arith}

-- What a u8 can hold.
abbrev pub IsByte : ℕ → Type 0
IsByte b = b < 256

-- Whether `count` numbers from `from` on pass `test`.
unfoldable pub passes_from : (ℕ → Bool) → (from count : ℕ) → Bool
passes_from test from zero = true
passes_from test from (suc count) = test from && passes_from test (suc from) count

-- Whether all numbers below `bound` pass `test`.
abbrev pub passes : (ℕ → Bool) → ℕ → Bool
passes test bound = passes_from test 0 bound

passes_from_at :
    (test : ℕ → Bool) (from count x : ℕ)
    → passes_from test from count ≡ true
    → from ≤ x
    → x < from + count
    → test x ≡ true
unfolding passes_from
passes_from_at test from zero x p above below = absurd (omega arith)
passes_from_at test from (suc count) x p above below =
    ground (arith, passes_from_at test (suc from) count x)

pub passes_at :
    (test : ℕ → Bool) (bound : ℕ) → passes test bound ≡ true → (x : ℕ) → x < bound → test x ≡ true
passes_at test bound p x below = passes_from_at test 0 bound x p (omega arith) (omega arith)
