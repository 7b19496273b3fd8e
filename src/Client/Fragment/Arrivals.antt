-- ===== src/Client/Fragment/Arrivals.antt =====
-- The fragments of a unit (media/fragment.rs) on their way to the receiver, numbered, in any order.
use mathlib.Core.List.{Permᴰ}
use mathlib.Core.List.Permᴰ.{nil, cons, swap, trans}
use throcc.Prelude.{
  ℕ, suc, ◌-◌, ◌≤◌, ◌<◌, ◌≡◌, refl, sym, ap, subst, ◌∙◌, inl, inr, List, [], ◌∷◌, none, some,
  length, ◌==◌, ==_iff, ltb, if◌then◌else◌, arith, Bool-cases,
}
use throcc.Prelude.Map.{Map, get, get_below, IsSorted}
use throcc.Client.Units.{AccessUnit}
use throcc.Client.Reassembler.{Received, Reassembler, map_or, push}
use throcc.Client.Fragment.{Fragment}
use throcc.Client.Fragment.Cut.{received}

-- A fragment with its number.
abbrev pub Arrival : Type 0
Arrival = ℕ × Received

unfoldable pub numbered : ℕ → List Fragment → Map Received
numbered s [] = []
numbered s (f ∷ fs) = (s, received f) ∷ numbered (suc s) fs

-- The receiver pushes what arrives, one after the other; the units that it emits.
unfoldable pub deliver : List Arrival → Reassembler → Reassembler × List AccessUnit
deliver [] r = (r, [])
deliver ((seq, (flags, bytes)) ∷ arrivals) r =
    let (r1, emitted) = push seq flags bytes r in
    let (r2, units) = deliver arrivals r1 in (r2, map_or emitted units (λ u. u ∷ units))

-- What arrives are entries of `m`, each once.
abbrev pub IsPart : Map Received → List Arrival → Type 0
IsPart m [] = Unit {0}
IsPart m (a ∷ arrivals) = (get a.0 m ≡ some a.1) × (get a.0 arrivals ≡ none) × IsPart m arrivals

abbrev IsSame : Map Received → List Arrival → List Arrival → Type 0
IsSame m xs ys = IsPart m xs × ((x : ℕ) → get x xs ≡ get x ys)

swapped-IsSame :
    (m : Map Received) (c d : Arrival) (l : List Arrival)
    → IsPart m (c ∷ d ∷ l)
    → IsSame m (d ∷ c ∷ l) (c ∷ d ∷ l)
unfolding get
swapped-IsSame m (j, f) (k, g) l p = (
  (p.2.0, ground (arith, p, ==_iff k j, ==_iff j k), (p.0, ground (arith, p), p.2.2)),
  λ x. ground (arith, p, ==_iff j k, ==_iff x j, ==_iff x k),
)

pub IsPart-Perm :
    (m : Map Received) {xs ys : List Arrival} → Permᴰ xs ys → IsPart m ys → IsSame m xs ys
unfolding get
IsPart-Perm m nil p = (tt, λ x. refl)
IsPart-Perm m (cons {a = a} {b = b} {l₁ = xs} e d) p =
    let (part, same) = IsPart-Perm m d p.2 in
    (
      subst (λ c. IsPart m (c ∷ xs)) (sym e) (p.0, same b.0 ∙ p.1, part),
      λ x. ap (λ c. if x == c.0 then some c.1 else get x xs) e ∙ ground (arith, same x),
    )
IsPart-Perm m (swap {a = a} {b = b} {a' = c} {b' = d} {l = l} e f) p =
    subst (λ u. IsSame m (u ∷ b ∷ l) (c ∷ d ∷ l)) (sym e)
      (subst (λ v. IsSame m (d ∷ v ∷ l) (c ∷ d ∷ l)) (sym f) (swapped-IsSame m c d l p))
IsPart-Perm m (trans d e) p =
    let (part, same) = IsPart-Perm m e p in
    let (part1, same1) = IsPart-Perm m d part in (part1, λ x. same1 x ∙ same x)

numbered-IsSorted : (s : ℕ) (fs : List Fragment) → IsSorted s (numbered s fs)
unfolding numbered
numbered-IsSorted s [] = tt
numbered-IsSorted s (f ∷ fs) = (omega arith, numbered-IsSorted (suc s) fs)

IsPart-sorted :
    (m : Map Received) (lo : ℕ) (xs : Map Received)
    → IsSorted lo xs
    → ((x : ℕ) (f : Received) → get x xs ≡ some f → get x m ≡ some f)
    → IsPart m xs
unfolding get
IsPart-sorted m lo [] s h = tt
IsPart-sorted m lo ((k, f) ∷ xs) s h = (
  h k f (ground (arith, ==_iff k k)),
  get_below k (suc k) xs s.1 (omega arith),
  IsPart-sorted m (suc k) xs s.1
      (λ x g e. h x g (ground (arith, e, ==_iff x k, get_below k (suc k) xs s.1))),
)

pub numbered-IsPart : (s : ℕ) (fs : List Fragment) → IsPart (numbered s fs) (numbered s fs)
numbered-IsPart s fs =
    IsPart-sorted (numbered s fs) s (numbered s fs) (numbered-IsSorted s fs) (λ x f e. e)

-- A map with keys below `hi` only, one of which is missing.
length-bound :
    (lo hi : ℕ) (m : Map Received)
    → IsSorted lo m
    → ((x : ℕ) → hi ≤ x → get x m ≡ none)
    → length m ≤ hi - lo
unfolding get
length-bound lo hi [] s h = omega arith
length-bound lo hi ((k, f) ∷ m) s h =
    let within : k < hi = ground (arith, h k, ==_iff k k) in
    omega (arith, within, s.0, length-bound (suc k) hi m s.1 (λ x i. ground (arith, h x i, within)))

pub length-missing :
    (x lo hi : ℕ) (m : Map Received)
    → IsSorted lo m
    → ((y : ℕ) → hi ≤ y → get y m ≡ none)
    → lo ≤ x
    → x < hi
    → get x m ≡ none
    → length m < hi - lo
unfolding get
length-missing x lo hi [] s h i j e = omega arith
length-missing x lo hi ((k, f) ∷ m) s h i j e =
    let within : k < hi = ground (arith, h k, ==_iff k k) in
    let above : (y : ℕ) → hi ≤ y → get y m ≡ none = λ y p. ground (arith, h y p, within) in
    elim (Bool-cases (ltb x k)) [
      | inl p ↦ ground (arith, p, s.0, within, length-bound (suc k) hi m s.1 above)
      | inr p ↦
          ground (arith, p, e, s.0, within, ==_iff x k, length-missing x (suc k) hi m s.1 above)
    ]
