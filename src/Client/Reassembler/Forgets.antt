-- ===== src/Client/Reassembler/Forgets.antt =====
-- `forget_before` of media/fragment.rs: the spans from a number on.
use throcc.Prelude.{
  ℕ, suc, ◌≤◌, ◌<◌, ◌≡◌, refl, inl, inr, Bool, false, [], ◌∷◌, ltb, leb, if◌then◌else◌, arith,
  Bool-cases,
}
use throcc.Prelude.Map.{Map}
use throcc.Client.Reassembler.{last_upto, span_of, split_off, straddle}
use throcc.Client.Reassembler.Spans.{Runs, span_of_within, span_of_after, span_of_before}
use throcc.Client.Reassembler.Joins.{insert_front, Runs-agree}
use throcc.Client.Reassembler.Cuts.{Runs-lower}

-- `b'` is `b` from `seq` on.
abbrev pub Starts : ℕ → (ℕ → Bool) → (ℕ → Bool) → Type 0
Starts seq b b' = (k : ℕ) → b' k ≡ (if leb seq k then b k else false)

split_off_all :
    (b : ℕ → Bool) (lo seq : ℕ) (w : Map ℕ) → Runs b lo w → seq ≤ lo → split_off seq w ≡ w
unfolding split_off
split_off_all b lo seq [] r i = refl
split_off_all b lo seq ((a, h) ∷ w) r i = ground (arith, r.0)

straddle_before :
    (b : ℕ → Bool) (seq a h : ℕ) (w : Map ℕ)
    → Runs b (suc h) w
    → a ≤ h
    → seq ≤ a
    → straddle seq ((a, h) ∷ w) ≡ (a, h) ∷ w
unfolding straddle split_off
straddle_before b seq a h w r o i = elim (Bool-cases (ltb seq a)) [
  | inl p ↦ rw (span_of_before seq a h w (ground arith)) (ground arith)
  | inr p ↦ rw (span_of_within b seq a h w r (ground arith) (omega arith)) (ground arith)
]

straddle_within :
    (b : ℕ → Bool) (seq a h : ℕ) (w : Map ℕ)
    → Runs b (suc h) w
    → a < seq
    → seq ≤ h
    → straddle seq ((a, h) ∷ w) ≡ (seq, h) ∷ w
unfolding straddle split_off
straddle_within b seq a h w r i j =
    rw (span_of_within b seq a h w r (omega arith) j)
      (ground (arith, split_off_all b (suc h) seq w r, insert_front b (suc h) seq h w r))

straddle_after :
    (seq a h : ℕ) (w : Map ℕ) → a ≤ h → h < seq → straddle seq ((a, h) ∷ w) ≡ straddle seq w
unfolding straddle split_off
straddle_after seq a h w o i = rw (span_of_after seq a h w o i) (ground arith)

straddle_nil : (seq : ℕ) → straddle seq [] ≡ []
unfolding straddle span_of last_upto split_off
straddle_nil seq = refl

pub straddle-Runs :
    (b b' : ℕ → Bool) (lo seq : ℕ) (w : Map ℕ)
    → Runs b lo w
    → Starts seq b b'
    → Runs b' lo (straddle seq w)
straddle-Runs b b' lo seq [] r e = rw (straddle_nil seq) (λ k i. ground (arith, e k, r k))
straddle-Runs b b' lo seq ((a, h) ∷ w) r e = elim (Bool-cases (leb seq a)) [
  | inl p ↦ rw (straddle_before b seq a h w r.5 r.1 (ground arith)) (
    r.0,
    r.1,
    λ k i j. ground (arith, e k, r.2 k),
    λ k i j. ground (arith, e k, r.3 k),
    ground (arith, e (suc h), r.4),
    Runs-agree b b' (suc h) w (λ k i. ground (arith, e k, r.1)) r.5,
  )
  | inr p ↦ elim (Bool-cases (leb seq h)) [
    | inl q ↦ rw (straddle_within b seq a h w r.5 (ground arith) (ground arith)) (
      ground (arith, r.0),
      ground arith,
      λ k i j. ground (arith, e k),
      λ k i j. ground (arith, e k, r.3 k),
      ground (arith, e (suc h), r.4),
      Runs-agree b b' (suc h) w (λ k i. ground (arith, e k)) r.5,
    )
    | inr q ↦ rw (straddle_after seq a h w r.1 (ground arith)) (
        Runs-lower b' (suc h) lo (straddle seq w) (omega (arith, r.0, r.1))
          (λ k i j. ground (arith, e k)) (straddle-Runs b b' (suc h) seq w r.5 e))
  ]
]
