-- ===== src/Server/Buckets.antt =====
-- `TokenBucket` and `Buckets` of crates/throcc-server/src/limits.rs.
-- The source counts tokens in f64 and time in `Instant`s. Here time is in nanoseconds, and
-- tokens in a unit so fine that a whole number of units is refilled each nanosecond: `unit`
-- says how many of them are one token. A bucket of 0.5 tokens a second has a unit of
-- 2 * 10 ^ 9 and refills 1. The f64 of the source rounds each time a bucket is refilled, which is
-- not modelled: near the edge of a token an answer there may differ from the one here.
mod Levels
mod Bound
mod Forget
mod Tests
use throcc.Prelude.{
  ℕ, ◌+◌, ◌-◌, ◌*◌, ◌^◌, min, Bool, true, false, [], ◌∷◌, Option, none, some, leb, if◌then◌else◌,
}
use throcc.Prelude.Map
use throcc.Prelude.Map.{Map}

pub record Rate : Type 0 where
  pub unit : ℕ
  -- In tokens.
  pub capacity : ℕ
  -- Units refilled each nanosecond.
  pub refilled : ℕ

pub record TokenBucket : Type 0 where
  pub rate : Rate
  pub open rate use *
  -- In units.
  pub tokens : ℕ
  pub updated : ℕ

abbrev pub full_tokens : Rate → ℕ
full_tokens r = r.capacity * r.unit

unfoldable pub full : Rate → ℕ → TokenBucket
full r now = record { rate = r; tokens = full_tokens r; updated = now }

-- `saturating_duration_since` is subtraction that stops at 0.
unfoldable pub refill : TokenBucket → ℕ → TokenBucket
refill b now = record b {
  tokens = min (b.tokens + (now - b.updated) * b.refilled) (full_tokens b.rate);
  updated = now;
}

unfoldable pub holds : TokenBucket → ℕ → ℕ → TokenBucket × Bool
holds b cost now = let b' = refill b now in (b', leb (cost * b'.unit) b'.tokens)

unfoldable pub take : TokenBucket → ℕ → ℕ → TokenBucket × Bool
unfolding holds
take b cost now =
    let (b', held) = holds b cost now in
    if held then (record b' { tokens = b'.tokens - cost * b'.unit }, true) else (b', false)

unfoldable pub is_full : TokenBucket → ℕ → TokenBucket × Bool
is_full b now = let b' = refill b now in (b', leb (full_tokens b'.rate) b'.tokens)

-- `BUCKET_SWEEP`, one second.
abbrev pub bucket_sweep : ℕ
bucket_sweep = 10 ^ 9

pub record Buckets : Type 0 where
  pub rate : Rate
  pub buckets : Map TokenBucket
  pub next_sweep : Option ℕ

unfoldable pub new : Rate → Buckets
new r = record { rate = r; buckets = []; next_sweep = none }

-- `retain(|_, bucket| !bucket.is_full(now))`, which refills each bucket that it asks. Here such a
-- refill loses nothing; in the f64 of the source it rounds, so that a bucket refilled in several
-- sweeps may hold a little less than one refilled at once.
unfoldable pub retain_unfull : ℕ → Map TokenBucket → Map TokenBucket
unfolding is_full
retain_unfull now [] = []
retain_unfull now ((k, b) ∷ m) =
    let (b', filled) = is_full b now in
    let rest = retain_unfull now m in if filled then rest else (k, b') ∷ rest

unfoldable pub is_due : Option ℕ → ℕ → Bool
is_due none now = true
is_due (some t) now = leb t now

-- The first half of `bucket`.
unfoldable pub sweep : Buckets → ℕ → Buckets
unfolding is_due
sweep s now =
    if is_due s.next_sweep now
    then record s { buckets = retain_unfull now s.buckets; next_sweep = some (now + bucket_sweep) }
    else s

-- The second half of `bucket`: the entry of a key, filled if it is new.
unfoldable pub entry : Buckets → ℕ → ℕ → TokenBucket
entry s key now = elim (Map.get key s.buckets) [ none ↦ full s.rate now | some b ↦ b ]

unfoldable pub store : Buckets → ℕ → TokenBucket → Buckets
store s key b = record s { buckets = Map.insert key b s.buckets }

-- `Buckets::take` and `Buckets::holds`.
unfoldable pub take_for : Buckets → ℕ → ℕ → ℕ → Buckets × Bool
unfolding sweep entry store
take_for s key cost now =
    let swept = sweep s now in
    let (b, taken) = take (entry swept key now) cost now in (store swept key b, taken)

unfoldable pub holds_for : Buckets → ℕ → ℕ → ℕ → Buckets × Bool
unfolding sweep entry store
holds_for s key cost now =
    let swept = sweep s now in
    let (b, held) = holds (entry swept key now) cost now in (store swept key b, held)
