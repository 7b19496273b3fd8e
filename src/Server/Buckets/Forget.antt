-- ===== src/Server/Buckets/Forget.antt =====
-- What sweeping `Buckets` (crates/throcc-server/src/limits.rs) does to answers, in the exact tokens
-- of the model. It does not carry over to the f64 of the source, which rounds in each refill.
use throcc.Prelude.{
  ℕ, ◌≤◌, ◌≡◌, refl, Bool, List, [], ◌∷◌, ◌==◌, if◌then◌else◌, arith, ap, ap₂, Bool-cases, inl, inr,
  ◌∙◌,
}
use throcc.Prelude.Map
use throcc.Prelude.Map.{Map, get}
use throcc.Server.Buckets.{
  Rate, TokenBucket, Buckets, new, full, refill, take, sweep, entry, take_for,
}
use throcc.Server.Buckets.Levels.{
  IsBucket, IsValid, refill-refill, refill-IsBucket, full-IsBucket, entry-IsBucket, entry_later,
  sweep-IsValid, sweep-entry,
}

-- What `take` does depends on the refilled bucket alone.
take-refill :
    (b c : TokenBucket) (cost now : ℕ)
    → refill b now ≡ refill c now
    → take b cost now ≡ take c cost now
unfolding take
take-refill b c cost now e = rw e

take-IsBucket :
    (r : Rate) (b : TokenBucket) (cost now : ℕ)
    → IsBucket r now b
    → IsBucket r now (take b cost now).0
unfolding take
take-IsBucket r b cost now v = ground (arith, refill-IsBucket r b now now v)

take_for-IsValid :
    (s : Buckets) (key cost now : ℕ) → IsValid s now → IsValid (take_for s key cost now).0 now
unfolding take_for
take_for-IsValid s key cost now v = record {
  sorted = Map.insert-IsSorted 0 key _ (sweep s now).buckets (omega arith) v'.sorted;
  each = λ k b e. ground (
    arith,
    Map.get-insert k key (take (entry (sweep s now) key now) cost now).0 (sweep s now).buckets,
    v'.each k b,
    take-IsBucket (sweep s now).rate (entry (sweep s now) key now) cost now
        (entry-IsBucket (sweep s now) now key v'),
  );
}
  where
    v' : IsValid (sweep s now) now
    v' = sweep-IsValid s now v

-- A bucket for each key.
abbrev pub AllBuckets : Type 0
AllBuckets = ℕ → TokenBucket

pub take_at : AllBuckets → ℕ → ℕ → ℕ → AllBuckets × Bool
take_at f key cost now =
    let (b, taken) = take (f key) cost now in (λ j. if j == key then b else f j, taken)

abbrev Same : Buckets → AllBuckets → ℕ → Type 0
Same s f now = (j : ℕ) → refill (entry s j now) now ≡ refill (f j) now

-- The two sides at one time.
record Agree (s : Buckets) (f : AllBuckets) (now : ℕ) : Type 0 where
  valid : IsValid s now
  each : (j : ℕ) → IsBucket s.rate now (f j)
  same : Same s f now

IsBucket-later : (r : Rate) (b : TokenBucket) (u t : ℕ) → u ≤ t → IsBucket r u b → IsBucket r t b
IsBucket-later r b u t h v = record { rate = v.rate; within = v.within; past = omega arith }

Agree-later : (s : Buckets) (f : AllBuckets) (u t : ℕ) → u ≤ t → Agree s f u → Agree s f t
Agree-later s f u t h a = record {
  valid = record {
    sorted = a.valid.sorted;
    each = λ k b e. IsBucket-later s.rate b u t h (a.valid.each k b e);
  };
  each = λ j. IsBucket-later s.rate (f j) u t h (a.each j);
  same = λ j.
      entry_later s u t j a.valid h
      ∙ ap (λ b. refill b t) (a.same j)
      ∙ refill-refill s.rate (f j) u t (a.each j) h;
}

take_for-outcome :
    (s : Buckets) (f : AllBuckets) (key cost now : ℕ)
    → Agree s f now
    → take (entry (sweep s now) key now) cost now ≡ take (f key) cost now
take_for-outcome s f key cost now a =
    take-refill (entry (sweep s now) key now) (f key) cost now
      ((sweep-entry s now key a.valid).1 ∙ a.same key)

take_for-rate :
    (s : Buckets) (key cost now : ℕ) → IsValid s now → (take_for s key cost now).0.rate ≡ s.rate
unfolding take_for
take_for-rate s key cost now v = (sweep-entry s now 0 v).0

take_for-entry :
    (s : Buckets) (key cost now j : ℕ)
    → entry (take_for s key cost now).0 j now ≡ (
        if j == key
        then (take (entry (sweep s now) key now) cost now).0
        else entry (sweep s now) j now)
unfolding take_for entry
take_for-entry s key cost now j = ground (
  arith,
  Map.get-insert j key (take (entry (sweep s now) key now) cost now).0 (sweep s now).buckets,
)

Agree-take :
    (s : Buckets) (f : AllBuckets) (key cost now : ℕ)
    → Agree s f now
    → ((take_for s key cost now).1 ≡ (take_at f key cost now).1)
      × Agree (take_for s key cost now).0 (take_at f key cost now).0 now
unfolding take_at
Agree-take s f key cost now a = (
  unfold take_for in ap (λ p. p.1) outcome,
  record {
    valid = take_for-IsValid s key cost now a.valid;
    each = λ j.
        rw same_rate (ground (arith, a.each j, take-IsBucket s.rate (f key) cost now (a.each key)));
    same = λ j. rw take_for-entry (elim (Bool-cases (j == key)) [
      | inl e ↦ rw (e, outcome)
      | inr e ↦ rw e ((sweep-entry s now j a.valid).1 ∙ a.same j)
    ]);
  },
)
  where
    outcome : take (entry (sweep s now) key now) cost now ≡ take (f key) cost now
    outcome = take_for-outcome s f key cost now a

    same_rate : (take_for s key cost now).0.rate ≡ s.rate
    same_rate = take_for-rate s key cost now a.valid

-- A key, a cost and a time.
abbrev pub Ask : Type 0
Ask = ℕ × ℕ × ℕ

-- What a row of asks is answered, from left to right.
unfoldable pub answers : Buckets → List Ask → List Bool
answers s [] = []
answers s ((key, cost, now) ∷ asks) =
    let (s', taken) = take_for s key cost now in taken ∷ answers s' asks

pub answers_at : AllBuckets → List Ask → List Bool
answers_at f [] = []
answers_at f ((key, cost, now) ∷ asks) =
    let (f', taken) = take_at f key cost now in taken ∷ answers_at f' asks

-- The asks come in the order of their times, from `start` on.
abbrev pub InOrder : ℕ → List Ask → Type 0
InOrder start [] = Unit
InOrder start ((key, cost, now) ∷ asks) = (start ≤ now) × InOrder now asks

Agree-answers :
    (s : Buckets) (f : AllBuckets) (u : ℕ) (asks : List Ask)
    → Agree s f u
    → InOrder u asks
    → answers s asks ≡ answers_at f asks
unfolding answers answers_at
Agree-answers s f u [] a o = refl
Agree-answers s f u ((key, cost, now) ∷ asks) a o =
    let (same, next) = Agree-take s f key cost now (Agree-later s f u now o.0 a) in
    ap₂ ◌∷◌ same
      (Agree-answers (take_for s key cost now).0 (take_at f key cost now).0 now asks next o.1)

-- Whatever is asked, for whatever keys, in the order of time: `Buckets`, which starts empty and
-- sweeps full buckets out, grants just what it would if each key had its own bucket, full from
-- the start and never forgotten. This is so of exact tokens: in f64 the refills of a sweep round.
new-answers :
    (r : Rate) (start : ℕ) (asks : List Ask)
    → InOrder start asks
    → answers (new r) asks ≡ answers_at (λ key. full r start) asks
unfolding new full entry get
new-answers r start asks o =
    Agree-answers (new r) (λ key. full r start) start asks
      (record {
        valid = record { sorted = tt; each = λ k b e. cc };
        each = λ j. full-IsBucket r start;
        same = λ j. refl;
      })
      o
