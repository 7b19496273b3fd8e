-- ===== src/Client/Reassembler/Ranges.antt =====
-- The range queries of BTreeMap and BTreeSet that media/fragment.rs uses.
use throcc.Prelude.{
  ℕ, zero, suc, ◌+◌, ◌≤◌, ◌<◌, ◌≡◌, refl, ◌∙◌, inl, inr, Bool, true, false, ◌&&◌, [], ◌∷◌, none,
  some, ltb, leb, ◌==◌, if◌then◌else◌, arith, Bool-cases, Option-cases, length,
}
use throcc.Prelude.Map.{
  Map, Set, get, contains, remove, get-remove, contains-insert, contains-remove, IsSorted,
  IsSorted-mono, get_below, remove-IsSorted, length-remove,
}
use throcc.Client.Reassembler.{last_upto, first_in, last_in, put_flag, remove_range, split_off}

pub contains-put_flag :
    (j seq : ℕ) (flag : Bool) (s : Set)
    → contains j (put_flag flag seq s) ≡ (if seq == j then flag else contains j s)
contains-put_flag j seq true s = contains-insert j seq s
contains-put_flag j seq false s = contains-remove j seq s

module _ {ℓ} {V : Type ℓ} where
  pub get-remove_range :
      (j first n : ℕ) (m : Map V)
      → get j (remove_range first n m)
        ≡ (if leb first j && ltb j (first + n) then none else get j m)
  unfolding remove_range
  get-remove_range j first zero m = ground arith
  get-remove_range j first (suc n) m =
      get-remove_range j (suc first) n (remove first m) ∙ ground (arith, get-remove j first m)

  pub remove_range-IsSorted :
      (lo first n : ℕ) (m : Map V) → IsSorted lo m → IsSorted lo (remove_range first n m)
  unfolding remove_range
  remove_range-IsSorted lo first zero m s = s
  remove_range-IsSorted lo first (suc n) m s =
      remove_range-IsSorted lo (suc first) n (remove first m) (remove-IsSorted lo first m s)

  pub length-remove_range : (first n : ℕ) (m : Map V) → length (remove_range first n m) ≤ length m
  unfolding remove_range
  length-remove_range first zero m = omega arith
  length-remove_range first (suc n) m =
      omega (arith, length-remove_range (suc first) n (remove first m), length-remove first m)

  pub get-split_off :
      (j lo seq : ℕ) (m : Map V)
      → IsSorted lo m
      → get j (split_off seq m) ≡ (if leb seq j then get j m else none)
  unfolding split_off get
  get-split_off j lo seq [] s = ground arith
  get-split_off j lo seq ((k, v) ∷ m) s =
      ground (arith, get-split_off j (suc k) seq m s.1, get_below j (suc k) m s.1)

  pub split_off-IsSorted : (lo seq : ℕ) (m : Map V) → IsSorted lo m → IsSorted lo (split_off seq m)
  unfolding split_off
  split_off-IsSorted lo seq [] s = tt
  split_off-IsSorted lo seq ((k, v) ∷ m) s =
      ground (arith, split_off-IsSorted (suc k) seq m, IsSorted-mono lo (suc k) (split_off seq m))

  pub length-split_off : (seq : ℕ) (m : Map V) → length (split_off seq m) ≤ length m
  unfolding split_off
  length-split_off seq [] = omega arith
  length-split_off seq ((k, v) ∷ m) = ground (arith, length-split_off seq m)

pub contains-remove_range :
    (j first n : ℕ) (s : Set)
    → contains j (remove_range first n s)
      ≡ (if leb first j && ltb j (first + n) then false else contains j s)
unfolding contains
contains-remove_range j first n s = ground (arith, get-remove_range j first n s)

pub contains-split_off :
    (j lo seq : ℕ) (s : Set)
    → IsSorted lo s
    → contains j (split_off seq s) ≡ (if leb seq j then contains j s else false)
unfolding contains
contains-split_off j lo seq s i = ground (arith, get-split_off j lo seq s i)

contains_below : (j lo : ℕ) (s : Set) → IsSorted lo s → j < lo → contains j s ≡ false
unfolding contains
contains_below j lo s i h = ground (arith, get_below j lo s i)

-- Whether `first_in` finds a number, it is the least in the range.
pub first_in-some :
    (lo hi l : ℕ) (s : Set)
    → first_in lo hi s ≡ some l
    → (lo ≤ l) × (l ≤ hi) × (contains l s ≡ true)
unfolding first_in contains get
first_in-some lo hi l [] e = absurd (ground (arith, e))
first_in-some lo hi l ((k, _) ∷ s) e = ground (arith, first_in-some lo hi l s)

pub first_in-none :
    (lo hi base k : ℕ) (s : Set)
    → IsSorted base s
    → lo ≤ k
    → k ≤ hi
    → first_in lo hi s ≡ none
    → contains k s ≡ false
unfolding first_in contains get
first_in-none lo hi base k [] i p q e = refl
first_in-none lo hi base k ((j, x) ∷ s) i p q e =
    ground (arith, first_in-none lo hi (suc j) k s i.1 p q, contains_below k (suc j) s i.1, i.0)

pub last_upto-some :
    (hi l : ℕ) (v : Unit {0}) (s : Set)
    → last_upto hi s ≡ some (l, v)
    → (l ≤ hi) × (contains l s ≡ true)
unfolding last_upto contains get
last_upto-some hi l v [] e = absurd (ground (arith, e))
last_upto-some hi l v ((k, _) ∷ s) e = elim (Option-cases (last_upto hi s)) [
  | inl p ↦ ground (arith, e, p)
  | inr p ↦ ground (arith, e, p.1, last_upto-some hi l v s)
]

pub last_in-some :
    (lo hi l : ℕ) (s : Set) → last_in lo hi s ≡ some l → (lo ≤ l) × (l ≤ hi) × (contains l s ≡ true)
unfolding last_in
last_in-some lo hi l s e = elim (Option-cases (last_upto hi s)) [
  | inl p ↦ absurd (ground (arith, e, p))
  | inr p ↦ ground (arith, e, p.1, last_upto-some hi l p.0.1 s)
]

-- The numbers that are looked for, from what is in the set.
pub first_in_least :
    (lo hi base l : ℕ) (s : Set)
    → IsSorted base s
    → lo ≤ l
    → l ≤ hi
    → contains l s ≡ true
    → ((k : ℕ) → lo ≤ k → k < l → contains k s ≡ false)
    → first_in lo hi s ≡ some l
unfolding first_in contains get
first_in_least lo hi base l [] i p q c least = absurd (ground (arith, c))
first_in_least lo hi base l ((j, x) ∷ s) i p q c least = elim (Bool-cases (j == l)) [
  | inl e ↦ ground arith
  | inr e ↦ ground (
    arith,
    least j,
    contains_below l (suc j) s i.1,
    first_in_least lo hi (suc j) l s i.1 p q (ground (arith, c))
        (λ k m n. ground (arith, least k m n, contains_below k (suc j) s i.1)),
  )
]

last_upto_greatest :
    (hi base l : ℕ) (s : Set)
    → IsSorted base s
    → l ≤ hi
    → contains l s ≡ true
    → ((k : ℕ) → l < k → k ≤ hi → contains k s ≡ false)
    → (v : Unit {0}) × (last_upto hi s ≡ some (l, v))
unfolding last_upto contains get
last_upto_greatest hi base l [] i p c most = absurd (ground (arith, c))
last_upto_greatest hi base l ((j, x) ∷ s) i p c most = elim (Bool-cases (j == l)) [
  | inl e ↦ elim (Option-cases (last_upto hi s)) [
    | inl f ↦ (x, rw f (ground arith))
    | inr f ↦
        let found = last_upto-some hi f.0.0 f.0.1 s f.1 in
        absurd (ground (arith, most f.0.0, found, contains_below f.0.0 (suc j) s i.1))
  ]
  | inr e ↦
      let above : j < l = ground (arith, c, contains_below l (suc j) s i.1) in
      let found =
        last_upto_greatest hi (suc j) l s i.1 p (ground (arith, c))
          (λ k m n. ground (arith, most k m n)) in
      (found.0, rw found.1 (ground arith))
]

pub last_in_greatest :
    (lo hi base l : ℕ) (s : Set)
    → IsSorted base s
    → lo ≤ l
    → l ≤ hi
    → contains l s ≡ true
    → ((k : ℕ) → l < k → k ≤ hi → contains k s ≡ false)
    → last_in lo hi s ≡ some l
unfolding last_in
last_in_greatest lo hi base l s i p q c most =
    let found = last_upto_greatest hi base l s i q c most in rw found.1 (ground arith)

-- What the search has passed over.
pub first_in_before :
    (lo hi base l k : ℕ) (s : Set)
    → IsSorted base s
    → lo ≤ k
    → k < l
    → first_in lo hi s ≡ some l
    → contains k s ≡ false
unfolding first_in contains get
first_in_before lo hi base l k [] i p q e = refl
first_in_before lo hi base l k ((j, x) ∷ s) i p q e =
    ground (arith, first_in_before lo hi (suc j) l k s i.1 p q, contains_below k (suc j) s i.1, i.0)

last_upto_absent :
    (hi base k : ℕ) (s : Set)
    → IsSorted base s
    → k ≤ hi
    → last_upto hi s ≡ none
    → contains k s ≡ false
unfolding last_upto contains get
last_upto_absent hi base k [] i p e = refl
last_upto_absent hi base k ((j, x) ∷ s) i p e =
    ground (arith, last_upto_absent hi (suc j) k s i.1 p, contains_below k (suc j) s i.1, i.0)

last_upto_after :
    (hi base l k : ℕ) (v : Unit {0}) (s : Set)
    → IsSorted base s
    → l < k
    → k ≤ hi
    → last_upto hi s ≡ some (l, v)
    → contains k s ≡ false
unfolding last_upto contains get
last_upto_after hi base l k v [] i p q e = refl
last_upto_after hi base l k v ((j, x) ∷ s) i p q e = elim (Option-cases (last_upto hi s)) [
  | inl f ↦
      ground (arith, e, f, last_upto_absent hi (suc j) k s i.1 q f, contains_below k (suc j) s i.1)
  | inr f ↦ ground (
    arith,
    e,
    f.1,
    last_upto-some hi f.0.0 f.0.1 s f.1,
    last_upto_after hi (suc j) l k v s i.1 p q,
    contains_below k (suc j) s i.1,
    contains_below f.0.0 (suc j) s i.1,
  )
]

pub last_in_after :
    (lo hi base l k : ℕ) (s : Set)
    → IsSorted base s
    → l < k
    → k ≤ hi
    → last_in lo hi s ≡ some l
    → contains k s ≡ false
unfolding last_in
last_in_after lo hi base l k s i p q e = elim (Option-cases (last_upto hi s)) [
  | inl f ↦ absurd (ground (arith, e, f))
  | inr f ↦ ground (arith, e, f.1, last_upto_after hi base l k f.0.1 s i p q)
]
