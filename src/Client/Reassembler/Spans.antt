-- ===== src/Client/Reassembler/Spans.antt =====
-- `span_of` of media/fragment.rs, on spans that are the unbroken runs of a set of numbers.
use throcc.Prelude.{
  ℕ, suc, ◌≤◌, ◌<◌, ◌≡◌, refl, ◌∙◌, inl, inr, Bool, true, false, [], ◌∷◌, none, some, ltb, leb,
  arith, Bool-cases, Option-cases,
}
use throcc.Prelude.Map.{Map}
use throcc.Client.Reassembler.{last_upto, span_of}

-- From `lo` on, the spans are the unbroken runs of the numbers that `b` holds of.
abbrev pub Runs : (ℕ → Bool) → ℕ → Map ℕ → Type 0
Runs b lo [] = (k : ℕ) → lo ≤ k → b k ≡ false
Runs b lo ((a, h) ∷ w) =
    (lo ≤ a)
    × (a ≤ h)
    × ((k : ℕ) → lo ≤ k → k < a → b k ≡ false)
    × ((k : ℕ) → a ≤ k → k ≤ h → b k ≡ true)
    × (b (suc h) ≡ false)
    × Runs b (suc h) w

pub last_upto-none :
    (b : ℕ → Bool) (lo seq : ℕ) (w : Map ℕ) → Runs b lo w → seq < lo → last_upto seq w ≡ none
unfolding last_upto
last_upto-none b lo seq [] r h = refl
last_upto-none b lo seq ((a, e) ∷ w) r h = ground (arith, r.0)

pub span_of_before : (seq a h : ℕ) (w : Map ℕ) → seq < a → span_of seq ((a, h) ∷ w) ≡ none
unfolding span_of last_upto
span_of_before seq a h w p = ground arith

pub span_of_within :
    (b : ℕ → Bool) (seq a h : ℕ) (w : Map ℕ)
    → Runs b (suc h) w
    → a ≤ seq
    → seq ≤ h
    → span_of seq ((a, h) ∷ w) ≡ some (a, h)
unfolding span_of last_upto
span_of_within b seq a h w r p q = ground (arith, last_upto-none b (suc h) seq w r)

pub span_of_after :
    (seq a h : ℕ) (w : Map ℕ) → a ≤ h → h < seq → span_of seq ((a, h) ∷ w) ≡ span_of seq w
unfolding span_of last_upto
span_of_after seq a h w o p = ground (arith, Option-cases (last_upto seq w))

-- `a` to `h` is the unbroken run that holds `seq`.
pub record IsRun (b : ℕ → Bool) (lo seq a h : ℕ) : Type 0 where
  pub from_lo : lo ≤ a
  pub lower : a ≤ seq
  pub upper : seq ≤ h
  pub inside : (k : ℕ) → a ≤ k → k ≤ h → b k ≡ true
  pub ends : b (suc h) ≡ false
  pub begins : (k : ℕ) → lo ≤ k → suc k ≡ a → b k ≡ false

pub span_of_held :
    (b : ℕ → Bool) (lo seq : ℕ) (w : Map ℕ)
    → Runs b lo w
    → lo ≤ seq
    → b seq ≡ true
    → (a h : ℕ) × (span_of seq w ≡ some (a, h)) × IsRun b lo seq a h
span_of_held b lo seq [] r p q = absurd (ground (arith, r seq p))
span_of_held b lo seq ((a, h) ∷ w) r p q = elim (Bool-cases (ltb seq a)) [
  | inl e ↦ absurd (ground (arith, r.2 seq p))
  | inr e ↦ elim (Bool-cases (leb seq h)) [
    | inl f ↦ (
      a,
      h,
      span_of_within b seq a h w r.5 (ground arith) (ground arith),
      record {
        from_lo = r.0;
        lower = ground arith;
        upper = ground arith;
        inside = r.3;
        ends = r.4;
        begins = λ k i j. r.2 k i (omega arith);
      },
    )
    | inr f ↦
        let found = span_of_held b (suc h) seq w r.5 (ground arith) q in
        (
          found.0,
          found.1,
          span_of_after seq a h w r.1 (ground arith) ∙ found.2,
          record {
            from_lo = omega (arith, found.3.from_lo, r.0, r.1);
            lower = found.3.lower;
            upper = found.3.upper;
            inside = found.3.inside;
            ends = found.3.ends;
            begins = λ k i j. elim (Bool-cases (leb k h)) [
              | inl g ↦ absurd (
                  ground (
                    arith,
                    r.4,
                    found.3.inside (suc h),
                    found.3.from_lo,
                    found.3.lower,
                    found.3.upper,
                  ))
              | inr g ↦ found.3.begins k (ground arith) j
            ];
          },
        )
  ]
]

pub span_of_absent :
    (b : ℕ → Bool) (lo seq : ℕ) (w : Map ℕ)
    → Runs b lo w
    → lo ≤ seq
    → b seq ≡ false
    → span_of seq w ≡ none
span_of_absent b lo seq [] r p q = unfold span_of last_upto in refl
span_of_absent b lo seq ((a, h) ∷ w) r p q = elim (Bool-cases (ltb seq a)) [
  | inl e ↦ span_of_before seq a h w (ground arith)
  | inr e ↦ elim (Bool-cases (leb seq h)) [
    | inl f ↦ absurd (ground (arith, r.3 seq))
    | inr f ↦
        span_of_after seq a h w r.1 (ground arith)
        ∙ span_of_absent b (suc h) seq w r.5 (ground arith) q
  ]
]
