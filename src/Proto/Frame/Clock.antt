-- ===== src/Proto/Frame/Clock.antt =====
-- The order of media timestamps, which wrap at 2 ^ 32.
use throcc.Prelude.{ℕ, ◌+◌, ◌-◌, ◌%◌, ◌^◌, ◌<◌, ◌≡◌, ◌≢◌, ◌↔◌, true, not, arith}
use throcc.Proto.Frame.{timestamp_before}

-- For two u32s, `a` comes before `b` exactly when `b` is `a` moved on by 1 to 2 ^ 31 - 1 ticks, across the wrap.
timestamp_before_iff :
    (a b : ℕ)
    → a < 2 ^ 32
    → b < 2 ^ 32
    → (timestamp_before a b ≡ true) ↔ ((k : ℕ) × (0 < k) × (k < 2 ^ 31) × (b ≡ (a + k) % 2 ^ 32))
unfolding timestamp_before
timestamp_before_iff a b ha hb = (
  λ e. ((b + 2 ^ 32 - a) % 2 ^ 32, ground arith, ground arith, ground arith),
  λ (k, p, q, e). ground arith,
)

-- Of two u32 timestamps that differ, and are not exactly half the range apart, one is before the other
-- and not the other way round.
pub timestamp_before-swap :
    (a b : ℕ)
    → a < 2 ^ 32
    → b < 2 ^ 32
    → a ≢ b
    → (b + 2 ^ 32 - a) % 2 ^ 32 ≢ 2 ^ 31
    → timestamp_before b a ≡ not (timestamp_before a b)
unfolding timestamp_before
timestamp_before-swap a b ha hb n d = ground arith
