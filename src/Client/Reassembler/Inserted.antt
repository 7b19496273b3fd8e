-- ===== src/Client/Reassembler/Inserted.antt =====
-- `join_spans` of media/fragment.rs against the runs of the numbers with one more.
use throcc.Prelude.{
  ℕ, zero, suc, ◌^◌, ◌≤◌, ◌<◌, ◌≡◌, refl, subst, sym, inl, inr, Bool, true, false, [], ◌∷◌, ltb,
  leb, ◌==◌, ==_iff, if◌then◌else◌, arith, Bool-cases,
}
use throcc.Prelude.Map.{Map, get, insert, remove}
use throcc.Client.Reassembler.{last_upto, span_of, joined_lo, join_spans}
use throcc.Client.Reassembler.Spans.{Runs, span_of_within}
use throcc.Client.Reassembler.Joins.{
  get_absent, remove_absent, remove_below, insert_front, Runs-agree, Runs-raise, joined,
  joined_after, joined_lo_before,
}

-- `b'` is `b` with `seq`.
abbrev pub Adds : ℕ → (ℕ → Bool) → (ℕ → Bool) → Type 0
Adds seq b b' = (k : ℕ) → b' k ≡ (if k == seq then true else b k)

joined_nil : (seq : ℕ) → joined seq [] ≡ (seq, seq) ∷ []
unfolding joined joined_lo span_of last_upto get remove insert
joined_nil zero = refl
joined_nil (suc before) = refl

pub Runs-skip : (b : ℕ → Bool) (lo : ℕ) (w : Map ℕ) → Runs b lo w → b lo ≡ false → Runs b (suc lo) w
Runs-skip b lo [] r p = λ k i. r k (omega arith)
Runs-skip b lo ((a, h) ∷ w) r p = elim (Bool-cases (lo == a)) [
  | inl q ↦ absurd (ground (arith, r.1, r.3 lo))
  | inr q ↦ Runs-raise b lo (suc lo) a h w (omega arith) (ground (arith, r.0)) r
]

-- What is left of the runs after the new number and its neighbour.
Runs-above :
    (b b' : ℕ → Bool) (seq lo : ℕ) (w : Map ℕ)
    → Adds seq b b'
    → seq < lo
    → Runs b lo w
    → Runs b' lo w
Runs-above b b' seq lo w e i r = Runs-agree b b' lo w (λ k j. ground (arith, e k)) r

-- The new number is the end of the first run.
joined-end_alone :
    (b : ℕ → Bool) (lo a h : ℕ) (w : Map ℕ)
    → Runs b lo ((a, h) ∷ w)
    → b (suc (suc h)) ≡ false
    → joined (suc h) ((a, h) ∷ w) ≡ (a, suc h) ∷ w
unfolding joined joined_lo insert
joined-end_alone b lo a h w r p =
    rw
      (
        span_of_within b h a h w r.5 r.1 (omega arith),
        get_absent b lo (suc (suc h)) ((a, h) ∷ w) r p,
        remove_absent b lo (suc (suc h)) ((a, h) ∷ w) r p,
      )
      (ground arith)

joined-end_both :
    (b : ℕ → Bool) (lo a h h2 : ℕ) (w : Map ℕ)
    → Runs b lo ((a, h) ∷ (suc (suc h), h2) ∷ w)
    → joined (suc h) ((a, h) ∷ (suc (suc h), h2) ∷ w) ≡ (a, h2) ∷ w
unfolding joined joined_lo get remove insert
joined-end_both b lo a h h2 w r =
    rw (span_of_within b h a h ((suc (suc h), h2) ∷ w) r.5 r.1 (omega arith))
      (ground (arith, r.1, r.5.1, remove_below b (suc h2) (suc (suc h)) w r.5.5))

Runs-end_alone :
    (b b' : ℕ → Bool) (lo a h : ℕ) (w : Map ℕ)
    → Runs b lo ((a, h) ∷ w)
    → Adds (suc h) b b'
    → b (suc (suc h)) ≡ false
    → Runs b' lo ((a, suc h) ∷ w)
Runs-end_alone b b' lo a h w r e p = (
  r.0,
  omega (arith, r.1),
  λ k i j. ground (arith, e k, r.1, r.2 k),
  λ k i j. ground (arith, e k, r.3 k),
  ground (arith, e (suc (suc h))),
  Runs-above b b' (suc h) (suc (suc h)) w e (omega arith) (Runs-skip b (suc h) w r.5 r.4),
)

Runs-end_both :
    (b b' : ℕ → Bool) (lo a h h2 : ℕ) (w : Map ℕ)
    → Runs b lo ((a, h) ∷ (suc (suc h), h2) ∷ w)
    → Adds (suc h) b b'
    → Runs b' lo ((a, h2) ∷ w)
Runs-end_both b b' lo a h h2 w r e = (
  r.0,
  omega (arith, r.1, r.5.1),
  λ k i j. ground (arith, e k, r.1, r.2 k),
  λ k i j. ground (arith, e k, r.3 k, r.5.3 k),
  ground (arith, e (suc h2), r.5.4, r.5.1),
  Runs-above b b' (suc h) (suc h2) w e (omega (arith, r.5.1)) r.5.5,
)

-- The new number comes before the first run, and touches it or not.
joined-before :
    (b : ℕ → Bool) (lo seq a h : ℕ) (w : Map ℕ)
    → Runs b lo ((a, h) ∷ w)
    → suc seq < a
    → lo ≤ seq
    → joined seq ((a, h) ∷ w) ≡ (seq, seq) ∷ (a, h) ∷ w
unfolding joined insert
joined-before b lo seq a h w r i j =
    rw
      (
        joined_lo_before seq a h w (omega arith),
        get_absent b lo (suc seq) ((a, h) ∷ w) r (r.2 (suc seq) (omega arith) i),
        remove_absent b lo (suc seq) ((a, h) ∷ w) r (r.2 (suc seq) (omega arith) i),
      )
      (ground arith)

joined-touching :
    (b : ℕ → Bool) (lo seq h : ℕ) (w : Map ℕ)
    → Runs b lo ((suc seq, h) ∷ w)
    → joined seq ((suc seq, h) ∷ w) ≡ (seq, h) ∷ w
unfolding joined get remove
joined-touching b lo seq h w r = rw (joined_lo_before seq (suc seq) h w (omega arith)) (
    ground (arith, remove_below b (suc h) (suc seq) w r.5, r.1, insert_front b (suc h) seq h w r.5))

Runs-before :
    (b b' : ℕ → Bool) (lo seq a h : ℕ) (w : Map ℕ)
    → Runs b lo ((a, h) ∷ w)
    → Adds seq b b'
    → suc seq < a
    → lo ≤ seq
    → Runs b' lo ((seq, seq) ∷ (a, h) ∷ w)
Runs-before b b' lo seq a h w r e i j = (
  j,
  omega arith,
  λ k p q. ground (arith, e k, r.2 k),
  λ k p q. ground (arith, e k),
  ground (arith, e (suc seq), r.2 (suc seq)),
  Runs-above b b' seq (suc seq) ((a, h) ∷ w) e (omega arith)
      (Runs-raise b lo (suc seq) a h w (omega arith) (omega arith) r),
)

Runs-touching :
    (b b' : ℕ → Bool) (lo seq h : ℕ) (w : Map ℕ)
    → Runs b lo ((suc seq, h) ∷ w)
    → Adds seq b b'
    → lo ≤ seq
    → Runs b' lo ((seq, h) ∷ w)
Runs-touching b b' lo seq h w r e j = (
  j,
  omega (arith, r.1),
  λ k p q. ground (arith, e k, r.2 k),
  λ k p q. ground (arith, e k, r.3 k),
  ground (arith, e (suc h), r.1, r.4),
  Runs-above b b' seq (suc h) w e (omega (arith, r.1)) r.5,
)

joined-end-Runs :
    (b b' : ℕ → Bool) (lo a h : ℕ) (w : Map ℕ)
    → Runs b lo ((a, h) ∷ w)
    → Adds (suc h) b b'
    → Runs b' lo (joined (suc h) ((a, h) ∷ w))
joined-end-Runs b b' lo a h [] r e =
    let p = r.5 (suc (suc h)) (omega arith) in
    rw (joined-end_alone b lo a h [] r p) (Runs-end_alone b b' lo a h [] r e p)
joined-end-Runs b b' lo a h ((a2, h2) ∷ w) r e = elim (Bool-cases (b (suc (suc h)))) [
  | inl p ↦
      let q : a2 ≡ suc (suc h) = ground (arith, r.4, r.5.0, r.5.2 (suc (suc h)), r.5.3 a2, r.5.1) in
      let r' = subst (λ x. Runs b lo ((a, h) ∷ (x, h2) ∷ w)) q r in
      rw q (rw (joined-end_both b lo a h h2 w r') (Runs-end_both b b' lo a h h2 w r' e))
  | inr p ↦
      rw (joined-end_alone b lo a h ((a2, h2) ∷ w) r p)
        (Runs-end_alone b b' lo a h ((a2, h2) ∷ w) r e p)
]

joined-Runs :
    (b b' : ℕ → Bool) (lo seq : ℕ) (w : Map ℕ)
    → Runs b lo w
    → Adds seq b b'
    → lo ≤ seq
    → b seq ≡ false
    → Runs b' lo (joined seq w)
joined-Runs b b' lo seq [] r e j p = rw (joined_nil seq) (
  j,
  omega arith,
  λ k i q. ground (arith, e k, r k),
  λ k i q. ground (arith, e k),
  ground (arith, e (suc seq), r (suc seq)),
  λ k i. ground (arith, e k, r k),
)
joined-Runs b b' lo seq ((a, h) ∷ w) r e j p = elim (Bool-cases (ltb seq a)) [
  | inl q ↦ elim (Bool-cases (suc seq == a)) [
    | inl s ↦
        let s' = (==_iff (suc seq) a).0 s in
        rw (sym s') (
          rw (joined-touching b lo seq h w (rw s' r)) (Runs-touching b b' lo seq h w (rw s' r) e j))
    | inr s ↦
        rw (joined-before b lo seq a h w r (ground arith) j)
          (Runs-before b b' lo seq a h w r e (ground arith) j)
  ]
  | inr q ↦ elim (Bool-cases (leb seq h)) [
    | inl s ↦ absurd (ground (arith, r.3 seq))
    | inr s ↦ elim (Bool-cases (seq == suc h)) [
      | inl t ↦
          let t' = (==_iff seq (suc h)).0 t in
          rw t' (joined-end-Runs b b' lo a h w r (λ k. ground (arith, e k)))
      | inr t ↦ rw (joined_after b lo seq a h w r (ground arith)) (
        r.0,
        r.1,
        λ k m n. ground (arith, e k, r.2 k, r.1),
        λ k m n. ground (arith, e k, r.3 k),
        ground (arith, e (suc h), r.4),
        joined-Runs b b' (suc h) seq w r.5 e (ground arith) p,
      )
    ]
  ]
]

joined_last :
    (b : ℕ → Bool) (seq : ℕ) (w : Map ℕ)
    → Runs b 0 w
    → b (suc seq) ≡ false
    → joined seq w ≡ insert (joined_lo seq w) seq w
unfolding joined
joined_last b seq w r p =
    rw (get_absent b 0 (suc seq) w r p, remove_absent b 0 (suc seq) w r p) refl

pub join_spans-Runs :
    (b b' : ℕ → Bool) (seq : ℕ) (w : Map ℕ)
    → Runs b 0 w
    → Adds seq b b'
    → b seq ≡ false
    → ((k : ℕ) → 2 ^ 32 ≤ k → b k ≡ false)
    → Runs b' 0 (join_spans seq w)
unfolding join_spans
join_spans-Runs b b' seq w r e p top =
    let q = joined-Runs b b' 0 seq w r e (omega arith) p in
    elim (Bool-cases (ltb (suc seq) (2 ^ 32))) [
      | inl s ↦ rw (s, join_spans) (unfold joined in q)
      | inr s ↦
          rw (s, join_spans) (rw (sym (joined_last b seq w r (top (suc seq) (ground arith)))) q)
    ]
