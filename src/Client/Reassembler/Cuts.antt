-- ===== src/Client/Reassembler/Cuts.antt =====
-- `unlink` of media/fragment.rs: the spans without a range of numbers.
use throcc.Prelude.{
  ℕ, suc, ◌+◌, ◌-◌, ◌≤◌, ◌<◌, ◌≡◌, inl, inr, Bool, true, false, ◌&&◌, [], ◌∷◌, ltb, leb,
  if◌then◌else◌, arith, Bool-cases,
}
use throcc.Prelude.Map.{Map, insert, remove}
use throcc.Client.Reassembler.{cut_left, cut_right, cut_spans}
use throcc.Client.Reassembler.Spans.{Runs, span_of_within, span_of_after, span_of_held}
use throcc.Client.Reassembler.Joins.{remove_below, insert_front, Runs-agree}

-- `b'` is `b` without the numbers from `first` to `last`.
abbrev pub Removes : ℕ → ℕ → (ℕ → Bool) → (ℕ → Bool) → Type 0
Removes first last b b' = (k : ℕ) → b' k ≡ (if leb first k && leb k last then false else b k)

pub Runs-lower :
    (b : ℕ → Bool) (lo lo' : ℕ) (w : Map ℕ)
    → lo' ≤ lo
    → ((k : ℕ) → lo' ≤ k → k < lo → b k ≡ false)
    → Runs b lo w
    → Runs b lo' w
Runs-lower b lo lo' [] i g r = λ k j. elim (Bool-cases (ltb k lo)) [
  | inl p ↦ g k j (ground arith)
  | inr p ↦ r k (ground arith)
]
Runs-lower b lo lo' ((a, h) ∷ w) i g r = (
  omega (arith, r.0),
  r.1,
  λ k j l. elim (Bool-cases (ltb k lo)) [
    | inl p ↦ g k j (ground arith)
    | inr p ↦ r.2 k (ground arith) l
  ],
  r.3,
  r.4,
  r.5,
)

abbrev right_of : ℕ → ℕ → Map ℕ → Map ℕ
right_of last h w = if ltb last h then (suc last, h) ∷ w else w

right_of-Runs :
    (b b' : ℕ → Bool) (first last h : ℕ) (w : Map ℕ)
    → Removes first last b b'
    → last ≤ h
    → ((k : ℕ) → last ≤ k → k ≤ h → b k ≡ true)
    → b (suc h) ≡ false
    → Runs b (suc h) w
    → Runs b' (suc last) (right_of last h w)
right_of-Runs b b' first last h w e i inside ends r = elim (Bool-cases (ltb last h)) [
  | inl p ↦ rw p (
    omega arith,
    ground arith,
    λ k j l. absurd (omega arith),
    λ k j l. ground (arith, e k, inside k),
    ground (arith, e (suc h)),
    Runs-agree b b' (suc h) w (λ k j. ground (arith, e k)) r,
  )
  | inr p ↦
      let q : last ≡ h = ground arith in
      rw (p, q) (Runs-agree b b' (suc h) w (λ k j. ground (arith, e k)) r)
]

cut_head :
    (b : ℕ → Bool) (first last a h : ℕ) (w : Map ℕ)
    → Runs b (suc h) w
    → a ≤ first
    → first ≤ last
    → last ≤ h
    → cut_spans first last ((a, h) ∷ w)
      ≡ (if ltb a first then (a, first - 1) ∷ right_of last h w else right_of last h w)
unfolding cut_spans cut_left cut_right insert remove
cut_head b first last a h w r i j k = rw (span_of_within b first a h w r i (omega arith)) (
    ground (
      arith,
      remove_below b (suc h) a w r,
      insert_front b (suc h) a (first - 1) w r,
      insert_front b (suc h) (last + 1) h w r,
    ))

cut_head-Runs :
    (b b' : ℕ → Bool) (lo first last a h : ℕ) (w : Map ℕ)
    → Removes first last b b'
    → Runs b lo ((a, h) ∷ w)
    → a ≤ first
    → first ≤ last
    → last ≤ h
    → Runs b' lo (if ltb a first then (a, first - 1) ∷ right_of last h w else right_of last h w)
cut_head-Runs b b' lo first last a h w e r i j k =
    let right = right_of-Runs b b' first last h w e k (λ n p q. r.3 n (omega arith) q) r.4 r.5 in
    elim (Bool-cases (ltb a first)) [
      | inl p ↦ rw p (
        r.0,
        ground arith,
        λ n l m. ground (arith, e n, r.2 n),
        λ n l m. ground (arith, e n, r.3 n),
        ground (arith, e (suc (first - 1))),
        Runs-lower b' (suc last) (suc (first - 1)) (right_of last h w) (ground arith)
            (λ n l m. ground (arith, e n)) right,
      )
      | inr p ↦ rw p (
          Runs-lower b' (suc last) lo (right_of last h w) (omega (arith, r.0))
            (λ n l m. ground (arith, e n, r.2 n)) right)
    ]

cut_after :
    (b : ℕ → Bool) (lo first last a h : ℕ) (w : Map ℕ)
    → Runs b lo ((a, h) ∷ w)
    → h < first
    → first ≤ last
    → b first ≡ true
    → cut_spans first last ((a, h) ∷ w) ≡ (a, h) ∷ cut_spans first last w
unfolding cut_spans cut_left cut_right insert remove
cut_after b lo first last a h w r i j p =
    let found = span_of_held b (suc h) first w r.5 i p in
    rw (span_of_after first a h w r.1 i, found.2) (ground (arith, r.1, found.3.from_lo))

pub cut_spans-Runs :
    (b b' : ℕ → Bool) (lo first last : ℕ) (w : Map ℕ)
    → Runs b lo w
    → Removes first last b b'
    → lo ≤ first
    → first ≤ last
    → ((k : ℕ) → first ≤ k → k ≤ last → b k ≡ true)
    → Runs b' lo (cut_spans first last w)
cut_spans-Runs b b' lo first last [] r e i j all = absurd (ground (arith, r first i, all first))
cut_spans-Runs b b' lo first last ((a, h) ∷ w) r e i j all = elim (Bool-cases (leb first h)) [
  | inl p ↦
      let below : a ≤ first = elim (Bool-cases (ltb first a)) [
        | inl q ↦ absurd (ground (arith, r.2 first i, all first))
        | inr q ↦ ground arith
      ] in
      let above : last ≤ h = elim (Bool-cases (ltb h last)) [
        | inl q ↦ absurd (ground (arith, r.4, all (suc h)))
        | inr q ↦ ground arith
      ] in
      rw (cut_head b first last a h w r.5 below j above)
        (cut_head-Runs b b' lo first last a h w e r below j above)
  | inr p ↦ rw (cut_after b lo first last a h w r (ground arith) j (all first (omega arith) j)) (
    r.0,
    r.1,
    λ k m n. ground (arith, e k, r.2 k, r.1),
    λ k m n. ground (arith, e k, r.3 k),
    ground (arith, e (suc h), r.4),
    cut_spans-Runs b b' (suc h) first last w r.5 e (ground arith) j all,
  )
]
