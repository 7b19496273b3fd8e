-- ===== src/Server/Buckets/Levels.antt =====
-- Forgetting full buckets changes nothing: `Buckets` behaves as one bucket for each key, all of
-- them there from the start.
use throcc.Prelude.{
  ℕ, suc, ◌≤◌, ◌≡◌, refl, true, [], ◌∷◌, Option, none, some, if◌then◌else◌, arith, sym, Bool-cases,
  Option-cases, inl, inr, ◌∙◌,
}
use throcc.Prelude.Map
use throcc.Prelude.Map.{Map, get}
use throcc.Server.Buckets.{
  Rate, TokenBucket, Buckets, full, full_tokens, refill, is_full, retain_unfull, is_due, sweep,
  entry,
}
use throcc.Server.Buckets.Bound.{refilled_twice}

-- A bucket of the rate `r` that holds at most `r` allows, last used by the time `now`.
pub record IsBucket (r : Rate) (now : ℕ) (b : TokenBucket) : Type 0 where
  pub rate : b.rate ≡ r
  pub within : b.tokens ≤ full_tokens r
  pub past : b.updated ≤ now

pub refill-refill :
    (r : Rate) (b : TokenBucket) (now t : ℕ)
    → IsBucket r now b
    → now ≤ t
    → refill (refill b now) t ≡ refill b t
unfolding refill
refill-refill r b now t v h = ground (arith, refilled_twice b.updated now t b.refilled v.past h)

pub refill-IsBucket :
    (r : Rate) (b : TokenBucket) (now t : ℕ) → IsBucket r now b → IsBucket r t (refill b t)
unfolding refill
refill-IsBucket r b now t v = record {
  rate = v.rate;
  within = rw v.rate (omega arith);
  past = omega arith;
}

-- A bucket that is full at `now` is as good as none.
full-refill :
    (r : Rate) (b : TokenBucket) (now t : ℕ)
    → IsBucket r now b
    → now ≤ t
    → (is_full b now).1 ≡ true
    → (refill b t).tokens ≡ full_tokens r
unfolding refill is_full
full-refill r b now t v h e = ground (arith, refilled_twice b.updated now t b.refilled v.past h)

abbrev kept : Option TokenBucket → ℕ → Option TokenBucket
kept none now = none
kept (some b) now = if (is_full b now).1 then none else some (is_full b now).0

get-retain_unfull :
    (lo j now : ℕ) (m : Map TokenBucket)
    → Map.IsSorted lo m
    → get j (retain_unfull now m) ≡ kept (get j m) now
unfolding get retain_unfull
get-retain_unfull lo j now [] s = refl
get-retain_unfull lo j now ((k, b) ∷ m) s =
    ground (arith, get-retain_unfull (suc k) j now m s.1, Map.get_below j (suc k) m s.1)

-- Stored in key order, and each a bucket of the rate.
pub record IsValid (s : Buckets) (now : ℕ) : Type 0 where
  pub sorted : Map.IsSorted 0 s.buckets
  pub each : (k : ℕ) (b : TokenBucket) → get k s.buckets ≡ some b → IsBucket s.rate now b

pub full-IsBucket : (r : Rate) (now : ℕ) → IsBucket r now (full r now)
unfolding full
full-IsBucket r now = record { rate = refl; within = omega arith; past = omega arith }

refill-full : (r : Rate) (u t : ℕ) → refill (full r u) t ≡ full r t
unfolding refill full
refill-full r u t = ground arith

pub entry-IsBucket : (s : Buckets) (u j : ℕ) → IsValid s u → IsBucket s.rate u (entry s j u)
unfolding entry
entry-IsBucket s u j v = elim (Option-cases (get j s.buckets)) [
  | inl e ↦ rw (e, entry) (full-IsBucket s.rate u)
  | inr (b, e) ↦ rw (e, entry) (v.each j b e)
]

-- Waiting does not tell a stored bucket from a missing one.
pub entry_later :
    (s : Buckets) (u t j : ℕ)
    → IsValid s u
    → u ≤ t
    → refill (entry s j t) t ≡ refill (refill (entry s j u) u) t
unfolding entry
entry_later s u t j v h = elim (Option-cases (get j s.buckets)) [
  | inl e ↦ rw (e, entry, refill-full s.rate t t, refill-full s.rate u u, refill-full s.rate u t)
  | inr (b, e) ↦ rw (e, entry) (sym (refill-refill s.rate b u t (v.each j b e) h))
]

full_refilled :
    (r : Rate) (b : TokenBucket) (now : ℕ)
    → b.rate ≡ r
    → b.tokens ≤ full_tokens r
    → (is_full b now).1 ≡ true
    → refill b now ≡ full r now
unfolding refill is_full full
full_refilled r b now e w h = ground arith

-- Nor does the sweep.
refill-kept :
    (r : Rate) (o : Option TokenBucket) (now : ℕ)
    → ((b : TokenBucket) → o ≡ some b → IsBucket r now b)
    → refill (elim (kept o now) [ none ↦ full r now | some b ↦ b ]) now
      ≡ refill (elim o [ none ↦ full r now | some b ↦ b ]) now
refill-kept r none now v = refl
refill-kept r (some b) now v =
    let ok = v b refl in
    elim (Bool-cases (is_full b now).1) [
      | inl e ↦ rw e (refill-full r now now ∙ sym (full_refilled r b now ok.rate ok.within e))
      | inr e ↦ rw e (unfold is_full in refill-refill r b now now ok (omega arith))
    ]

retain_unfull-IsSorted :
    (lo now : ℕ) (m : Map TokenBucket) → Map.IsSorted lo m → Map.IsSorted lo (retain_unfull now m)
unfolding retain_unfull
retain_unfull-IsSorted lo now [] h = tt
retain_unfull-IsSorted lo now ((k, b) ∷ m) h = ground (
  arith,
  retain_unfull-IsSorted (suc k) now m h.1,
  Map.IsSorted-mono lo (suc k) (retain_unfull now m),
)

kept-IsBucket :
    (r : Rate) (o : Option TokenBucket) (now : ℕ) (b : TokenBucket)
    → ((a : TokenBucket) → o ≡ some a → IsBucket r now a)
    → kept o now ≡ some b
    → IsBucket r now b
unfolding is_full
kept-IsBucket r none now b v e = cc
kept-IsBucket r (some a) now b v e = ground (arith, refill-IsBucket r a now now (v a refl))

pub sweep-IsValid : (s : Buckets) (now : ℕ) → IsValid s now → IsValid (sweep s now) now
unfolding sweep
sweep-IsValid s now v = elim (Bool-cases (is_due s.next_sweep now)) [
  | inl e ↦
      rw (e, sweep)
        (record {
          sorted = retain_unfull-IsSorted 0 now s.buckets v.sorted;
          each = λ k b q.
              kept-IsBucket s.rate (get k s.buckets) now b (v.each k)
                (sym (get-retain_unfull 0 k now s.buckets v.sorted) ∙ q);
        })
  | inr e ↦ rw (e, sweep) v
]

pub sweep-entry :
    (s : Buckets) (now j : ℕ)
    → IsValid s now
    → ((sweep s now).rate ≡ s.rate)
      × (refill (entry (sweep s now) j now) now ≡ refill (entry s j now) now)
unfolding sweep entry
sweep-entry s now j v = elim (Bool-cases (is_due s.next_sweep now)) [
  | inl e ↦
      rw (e, sweep)
        (
          refl,
          rw (get-retain_unfull 0 j now s.buckets v.sorted, entry)
              (refill-kept s.rate (get j s.buckets) now (v.each j)),
        )
  | inr e ↦ rw (e, sweep) (refl, refl)
]
