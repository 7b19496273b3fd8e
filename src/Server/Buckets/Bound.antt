-- ===== src/Server/Buckets/Bound.antt =====
-- What one bucket lets through.
use throcc.Prelude.{ℕ, ◌+◌, ◌-◌, ◌*◌, ◌≤◌, ◌≡◌, List, [], ◌∷◌, if◌then◌else◌, arith, ap, subst, sym}
use throcc.Server.Buckets.{Rate, TokenBucket, full, full_tokens, refill, take}

-- A cost and the time it is asked for.
abbrev Ask : Type 0
Ask = ℕ × ℕ

-- The tokens that a row of asks is granted, by `take` from left to right.
unfoldable pub granted : TokenBucket → List Ask → ℕ
granted b [] = 0
granted b ((cost, now) ∷ asks) =
    let rest = granted (take b cost now).0 asks in (if (take b cost now).1 then cost else 0) + rest

-- The asks come in the order of their times, from `start` on and up to `stop`.
abbrev InOrder : ℕ → List Ask → ℕ → Type 0
InOrder start [] stop = start ≤ stop
InOrder start ((cost, now) ∷ asks) stop = (start ≤ now) × InOrder now asks stop

take_step :
    (b : TokenBucket) (cost now : ℕ)
    → ((take b cost now).0.updated ≡ now)
      × ((take b cost now).0.rate ≡ b.rate)
      × ((if (take b cost now).1 then cost else 0) * b.unit + (take b cost now).0.tokens
          ≤ b.tokens + (now - b.updated) * b.refilled)
unfolding take refill
take_step b cost now = ground arith

InOrder-le : (start : ℕ) (asks : List Ask) (stop : ℕ) → InOrder start asks stop → start ≤ stop
InOrder-le start [] stop o = o
InOrder-le start ((cost, now) ∷ asks) stop o = omega (arith, InOrder-le now asks stop o.1)

-- Time passes from `u` to `n` and on to `s`.
pub refilled_twice : (u n s r : ℕ) → u ≤ n → n ≤ s → (n - u) * r + (s - n) * r ≡ (s - u) * r
refilled_twice u n s r p q =
    let e : n - u + (s - n) ≡ s - u = omega arith in omega (arith, ap (λ (k : ℕ). k * r) e)

granted_bound :
    (b : TokenBucket) (asks : List Ask) (stop : ℕ)
    → InOrder b.updated asks stop
    → granted b asks * b.unit ≤ b.tokens + (stop - b.updated) * b.refilled
unfolding granted
granted_bound b [] stop o = omega arith
granted_bound b ((cost, now) ∷ asks) stop o =
    let b' = (take b cost now).0 in
    let (at, same, spent) = take_step b cost now in
    let later : granted b' asks * b'.unit ≤ b'.tokens + (stop - b'.updated) * b'.refilled =
      granted_bound b' asks stop (subst (λ t. InOrder t asks stop) (sym at) o.1) in
    let later' : granted b' asks * b.unit ≤ b'.tokens + (stop - now) * b.refilled =
      rw (at, same) at later in
    omega (
      arith,
      spent,
      later',
      refilled_twice b.updated now stop b.refilled o.0 (InOrder-le now asks stop o.1),
    )

-- However the asks fall, a bucket that starts full grants in any time at most its capacity and
-- what is refilled in that time.
pub full-granted_bound :
    (r : Rate) (start : ℕ) (asks : List Ask) (stop : ℕ)
    → InOrder start asks stop
    → granted (full r start) asks * r.unit ≤ full_tokens r + (stop - start) * r.refilled
unfolding full
full-granted_bound r start asks stop o = granted_bound (full r start) asks stop o
