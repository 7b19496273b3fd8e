-- ===== src/Prelude/Table.antt =====
-- A hash map whose keys have a Boolean equality, in the order in which keys were first put in.
use Prim.Native.Nat.{ℕ}
use mathlib.Core.Path.{◌≡◌, refl, ap, ◌∙◌}
use mathlib.Core.Logic.{◌↔◌, inl, inr}
use mathlib.Core.Bool.{Bool, true, ◌&&◌}
use mathlib.Core.Option.{Option, none, some}
use mathlib.Core.List.{List, [], ◌∷◌}
use native.Mathlib.Omega.{arith}
use throcc.Prelude.Tests.{◌==◌, ==_iff, if◌then◌else◌, Bool-cases, Option-cases}

pub record Eq {ℓ} (K : Type ℓ) : Type ℓ where
  pub beq : K → K → Bool
  pub beq_iff : (a b : K) → (beq a b ≡ true) ↔ (a ≡ b)

abbrev pub Table {ℓ κ} : Type ℓ → Type κ → Type (ℓ ⊔ κ)
Table K V = List (K × V)

pub beq_refl {ℓ} : {K : Type ℓ} ⦃e : Eq K⦄ (k : K) → e.beq k k ≡ true
beq_refl ⦃e⦄ k = (e.beq_iff k k).1 refl

abbrev pub and_then {ℓ} : {V : Type ℓ} → Option V → (V → Option V) → Option V
and_then none f = none
and_then (some v) f = f v

module _ {ℓ κ} {K : Type ℓ} {V : Type κ} ⦃e : Eq K⦄ where
  unfoldable pub find : K → Table K V → Option V
  find k [] = none
  find k ((j, v) ∷ t) = if e.beq k j then some v else find k t

  unfoldable pub put : K → V → Table K V → Table K V
  put k v [] = (k, v) ∷ []
  put k v ((j, w) ∷ t) = let rest = put k v t in if e.beq k j then (k, v) ∷ t else (j, w) ∷ rest

  unfoldable pub erase : K → Table K V → Table K V
  erase k [] = []
  erase k ((j, w) ∷ t) = let rest = erase k t in if e.beq k j then rest else (j, w) ∷ rest

  -- Each entry is given a new value or, without one, is dropped.
  unfoldable pub retain : (V → Option V) → Table K V → Table K V
  retain f [] = []
  retain f ((j, w) ∷ t) =
      let rest = retain f t in elim (f w) [ none ↦ rest | some v ↦ (j, v) ∷ rest ]

  pub find-put :
      (j k : K) (v : V) (t : Table K V)
      → find j (put k v t) ≡ (if e.beq j k then some v else find j t)
  unfolding find put
  find-put j k v [] = refl
  find-put j k v ((i, w) ∷ t) =
      ground (arith, e.beq_iff k i, e.beq_iff j i, e.beq_iff j k, find-put j k v t)

  pub find-erase :
      (j k : K) (t : Table K V) → find j (erase k t) ≡ (if e.beq j k then none else find j t)
  unfolding find erase
  find-erase j k [] = ground arith
  find-erase j k ((i, w) ∷ t) =
      ground (arith, e.beq_iff k i, e.beq_iff j i, e.beq_iff j k, find-erase j k t)

  -- No key is in the table twice.
  abbrev pub Keyed : Table K V → Type (ℓ ⊔ κ)
  Keyed [] = Unit
  Keyed ((j, w) ∷ t) = (find j t ≡ none) × Keyed t

  pub put-Keyed : (k : K) (v : V) (t : Table K V) → Keyed t → Keyed (put k v t)
  unfolding put
  put-Keyed k v [] h = (unfold find in refl, tt)
  put-Keyed k v ((j, w) ∷ t) h = elim (Bool-cases (e.beq k j)) [
    | inl q ↦ rw q (ap (λ i. find i t) ((e.beq_iff k j).0 q) ∙ h.0, h.1)
    | inr q ↦ rw q (
      (find-put j k v t ∙ ground (arith, e.beq_iff k j, e.beq_iff j k, h.0)),
      put-Keyed k v t h.1,
    )
  ]

  retain_absent :
      (k : K) (f : V → Option V) (t : Table K V) → find k t ≡ none → find k (retain f t) ≡ none
  unfolding find retain
  retain_absent k f [] h = refl
  retain_absent k f ((j, w) ∷ t) h = ground (arith, retain_absent k f t, Option-cases (f w))

  pub retain-Keyed : (f : V → Option V) (t : Table K V) → Keyed t → Keyed (retain f t)
  unfolding retain
  retain-Keyed f [] h = tt
  retain-Keyed f ((j, w) ∷ t) h = elim (Option-cases (f w)) [
    | inl q ↦ rw (q, retain) (retain-Keyed f t h.1)
    | inr q ↦ rw (q.1, retain) (retain_absent j f t h.0, retain-Keyed f t h.1)
  ]

  pub find-retain :
      (k : K) (f : V → Option V) (t : Table K V)
      → Keyed t
      → find k (retain f t) ≡ and_then (find k t) f
  unfolding find retain
  find-retain k f [] h = refl
  find-retain k f ((j, w) ∷ t) h = elim (Bool-cases (e.beq k j)) [
    | inl q ↦ elim (Option-cases (f w)) [
      | inl p ↦
          rw (q, p, retain)
            (ap (λ i. find i (retain f t)) ((e.beq_iff k j).0 q) ∙ retain_absent j f t h.0)
      | inr p ↦ rw (q, p.1, retain) (rw (q, find) refl)
    ]
    | inr q ↦ elim (Option-cases (f w)) [
      | inl p ↦ rw (q, p, retain) (find-retain k f t h.1)
      | inr p ↦ rw (q, p.1, retain) (rw (q, find) (find-retain k f t h.1))
    ]
  ]

-- Pairs of numbers as keys.
abbrev pub Pair : Type 0
Pair = ℕ × ℕ

abbrev pub same_pair : Pair → Pair → Bool
same_pair a b = (a.0 == b.0) && (a.1 == b.1)

pub same_pair_iff : (a b : Pair) → (same_pair a b ≡ true) ↔ (a ≡ b)
same_pair_iff a b = ground (arith, ==_iff a.0 b.0, ==_iff a.1 b.1)

instance abbrev pub pair_eq : Eq Pair
pair_eq = record { beq = same_pair; beq_iff = same_pair_iff }
