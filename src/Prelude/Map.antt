-- ===== src/Prelude/Map.antt =====
-- A map with numbers for keys, in key order: Rust's `BTreeMap`, and its `HashMap` where no
-- order is read off.
use Prim.Native.Nat.{ℕ, suc, ◌+◌, ◌≤◌, ◌<◌}
use mathlib.Core.Path.{◌≡◌, refl}
use mathlib.Core.Bool.{Bool, true, false}
use mathlib.Core.Option.{Option, none, some}
use mathlib.Core.List.{List, [], ◌∷◌}
use native.Mathlib.Omega.{arith}
use throcc.Prelude.Tests.{ltb, ◌==◌, if◌then◌else◌}
use throcc.Prelude.Lists.{length}

abbrev pub Map {ℓ} : Type ℓ → Type ℓ
Map V = List (ℕ × V)

module _ {ℓ} {V : Type ℓ} where
  unfoldable pub get : ℕ → Map V → Option V
  get k [] = none
  get k ((j, w) ∷ m) = if k == j then some w else get k m

  unfoldable pub contains_key : ℕ → Map V → Bool
  contains_key k m = elim (get k m) [ none ↦ false | some v ↦ true ]

  unfoldable pub insert : ℕ → V → Map V → Map V
  insert k v [] = (k, v) ∷ []
  insert k v ((j, w) ∷ m) =
      let rest = insert k v m in
      if ltb k j then (k, v) ∷ (j, w) ∷ m else if k == j then (k, v) ∷ m else (j, w) ∷ rest

  unfoldable pub remove : ℕ → Map V → Map V
  remove k [] = []
  remove k ((j, w) ∷ m) = let rest = remove k m in if k == j then rest else (j, w) ∷ rest

  pub get-insert :
      (j k : ℕ) (v : V) (m : Map V) → get j (insert k v m) ≡ (if k == j then some v else get j m)
  unfolding get insert
  get-insert j k v [] = ground arith
  get-insert j k v ((i, w) ∷ m) = ground (arith, get-insert j k v m)

  pub get-remove : (j k : ℕ) (m : Map V) → get j (remove k m) ≡ (if k == j then none else get j m)
  unfolding get remove
  get-remove j k [] = ground arith
  get-remove j k ((i, w) ∷ m) = ground (arith, get-remove j k m)

  pub length-insert : (k : ℕ) (v : V) (m : Map V) → length (insert k v m) ≤ length m + 1
  unfolding insert
  length-insert k v [] = omega arith
  length-insert k v ((i, w) ∷ m) = ground (arith, length-insert k v m)

  pub length-remove : (k : ℕ) (m : Map V) → length (remove k m) ≤ length m
  unfolding remove
  length-remove k [] = omega arith
  length-remove k ((i, w) ∷ m) = ground (arith, length-remove k m)

-- The keys rise along the map, from `lo` on.
abbrev pub IsSorted {ℓ} : {V : Type ℓ} → ℕ → Map V → Type 0
IsSorted lo [] = Unit {0}
IsSorted lo ((k, v) ∷ m) = (lo ≤ k) × IsSorted (suc k) m

module _ {ℓ} {V : Type ℓ} where
  pub IsSorted-mono : (lo hi : ℕ) (m : Map V) → lo ≤ hi → IsSorted hi m → IsSorted lo m
  IsSorted-mono lo hi [] h s = tt
  IsSorted-mono lo hi ((k, v) ∷ m) h s = (omega arith, s.1)

  pub get_below : (j lo : ℕ) (m : Map V) → IsSorted lo m → j < lo → get j m ≡ none
  unfolding get
  get_below j lo [] s h = refl
  get_below j lo ((k, v) ∷ m) s h = ground (arith, get_below j (suc k) m s.1)

  pub insert-IsSorted :
      (lo k : ℕ) (v : V) (m : Map V) → lo ≤ k → IsSorted lo m → IsSorted lo (insert k v m)
  unfolding insert
  insert-IsSorted lo k v [] h s = (h, tt)
  insert-IsSorted lo k v ((j, w) ∷ m) h s =
      ground (arith, insert-IsSorted (suc j) k v m, IsSorted-mono (suc k) (suc j) m)

  pub remove-IsSorted : (lo k : ℕ) (m : Map V) → IsSorted lo m → IsSorted lo (remove k m)
  unfolding remove
  remove-IsSorted lo k [] s = tt
  remove-IsSorted lo k ((j, w) ∷ m) s =
      ground (arith, remove-IsSorted (suc j) k m, IsSorted-mono lo (suc j) (remove k m))

pub ruleset map_laws = (get-insert, get-remove)

-- A `BTreeSet` of numbers.
abbrev pub Set : Type 0
Set = Map (Unit {0})

unfoldable pub contains : ℕ → Set → Bool
contains k s = elim (get k s) [ none ↦ false | some _ ↦ true ]

pub contains-insert :
    (j k : ℕ) (s : Set) → contains j (insert k tt s) ≡ (if k == j then true else contains j s)
unfolding contains
contains-insert j k s = ground (arith, get-insert j k tt s)

pub contains-remove :
    (j k : ℕ) (s : Set) → contains j (remove k s) ≡ (if k == j then false else contains j s)
unfolding contains
contains-remove j k s = ground (arith, get-remove j k s)
