-- ===== src/Client/Fragment/Marks.antt =====
-- The flags that `fragment` of media/fragment.rs gives its fragments.
use throcc.Prelude.{
  ℕ, zero, suc, ◌≡◌, refl, ap, ◌∙◌, Bool, true, false, List, [], ◌∷◌, some, length, take, drop, All,
}
use throcc.Proto.Frame.{Flags, first, last, with, contains, to_be_bytes}
use throcc.Client.Fragment.{Fragment, union, base_flags, cut, mark_last, first_len, fragment}

-- A fragment that is not the last yet, and may be marked so.
abbrev Unmarked : Fragment → Type 0
Unmarked f = (contains f.flags last ≡ false) × (contains (union f.flags last) last ≡ true)

-- Only the last of the fragments is marked LAST.
abbrev pub LastMarked : List Fragment → Type 0
LastMarked [] = Unit {0}
LastMarked (f ∷ []) = contains f.flags last ≡ true
LastMarked (f ∷ g ∷ rest) = (contains f.flags last ≡ false) × LastMarked (g ∷ rest)

abbrev pub NotFirst : Fragment → Type 0
NotFirst f = contains f.flags first ≡ false

abbrev HasFlags : Flags → Fragment → Type 0
HasFlags flags f = f.flags ≡ flags

cut-HasFlags : (fuel : ℕ) (base : Flags) (rest : List ℕ) → All (HasFlags base) (cut fuel base rest)
unfolding cut
cut-HasFlags fuel base [] = tt
cut-HasFlags zero base (b ∷ rest) = tt
cut-HasFlags (suc fuel) base (b ∷ rest) = (refl, cut-HasFlags fuel base (drop 1133 (b ∷ rest)))

base-first : (k : Bool) → contains (base_flags k) first ≡ false
unfolding contains with
base-first true = refl
base-first false = refl

base-first_last : (k : Bool) → contains (union (base_flags k) last) first ≡ false
unfolding contains with
base-first_last true = refl
base-first_last false = refl

base-last :
    (k : Bool)
    → (contains (base_flags k) last ≡ false) × (contains (union (base_flags k) last) last ≡ true)
unfolding contains with
base-last true = (refl, refl)
base-last false = (refl, refl)

first-last :
    (k : Bool)
    → (contains (union (base_flags k) first) last ≡ false)
      × (contains (union (union (base_flags k) first) last) last ≡ true)
unfolding contains with
first-last true = (refl, refl)
first-last false = (refl, refl)

first-first :
    (k : Bool)
    → (contains (union (base_flags k) first) first ≡ true)
      × (contains (union (union (base_flags k) first) last) first ≡ true)
unfolding contains with
first-first true = (refl, refl)
first-first false = (refl, refl)

HasFlags-Unmarked :
    (k : Bool) (fs : List Fragment) → All (HasFlags (base_flags k)) fs → All Unmarked fs
HasFlags-Unmarked k [] h = tt
HasFlags-Unmarked k (f ∷ fs) h = (
  (
    ap (λ x. contains x last) h.0 ∙ (base-last k).0,
    ap (λ x. contains (union x last) last) h.0 ∙ (base-last k).1,
  ),
  HasFlags-Unmarked k fs h.1,
)

mark_last-LastMarked : (fs : List Fragment) → All Unmarked fs → LastMarked (mark_last fs)
unfolding mark_last
mark_last-LastMarked [] h = tt
mark_last-LastMarked (f ∷ []) h = h.0.1
mark_last-LastMarked (f ∷ g ∷ []) h = (h.0.0, h.1.0.1)
mark_last-LastMarked (f ∷ g ∷ i ∷ rest) h = (h.0.0, mark_last-LastMarked (g ∷ i ∷ rest) h.1)

mark_last-NotFirst :
    (k : Bool) (fs : List Fragment) → All (HasFlags (base_flags k)) fs → All NotFirst (mark_last fs)
unfolding mark_last
mark_last-NotFirst k [] h = tt
mark_last-NotFirst k (f ∷ []) h =
    (ap (λ x. contains (union x last) first) h.0 ∙ base-first_last k, tt)
mark_last-NotFirst k (f ∷ g ∷ rest) h =
    (ap (λ x. contains x first) h.0 ∙ base-first k, mark_last-NotFirst k (g ∷ rest) h.1)

-- Only the first fragment is marked FIRST.
abbrev pub FirstMarked : List Fragment → Type 0
FirstMarked [] = Unit {0}
FirstMarked (f ∷ rest) = (contains f.flags first ≡ true) × All NotFirst rest

mark_last-FirstMarked :
    (k : Bool) (f : Fragment) (fs : List Fragment)
    → f.flags ≡ union (base_flags k) first
    → All (HasFlags (base_flags k)) fs
    → FirstMarked (mark_last (f ∷ fs))
unfolding mark_last
mark_last-FirstMarked k f [] e h =
    (ap (λ x. contains (union x last) first) e ∙ (first-first k).1, tt)
mark_last-FirstMarked k f (g ∷ rest) e h =
    (ap (λ x. contains x first) e ∙ (first-first k).0, mark_last-NotFirst k (g ∷ rest) h)

pub fragment-LastMarked : (unit : List ℕ) (t : ℕ) (k : Bool) → LastMarked (fragment unit t k)
unfolding fragment
fragment-LastMarked unit t k =
    let n = first_len unit in
    let rest = cut (length (drop n unit)) (base_flags k) (drop n unit) in
    mark_last-LastMarked
      (record {
        flags = union (base_flags k) first;
        timestamp = some (to_be_bytes t);
        body = take n unit;
      }
        ∷ rest)
      (
        first-last k,
        HasFlags-Unmarked k rest (cut-HasFlags (length (drop n unit)) (base_flags k) (drop n unit)),
      )

pub fragment-FirstMarked : (unit : List ℕ) (t : ℕ) (k : Bool) → FirstMarked (fragment unit t k)
unfolding fragment
fragment-FirstMarked unit t k =
    let n = first_len unit in
    let rest = cut (length (drop n unit)) (base_flags k) (drop n unit) in
    mark_last-FirstMarked k
      (record {
        flags = union (base_flags k) first;
        timestamp = some (to_be_bytes t);
        body = take n unit;
      })
      rest refl (cut-HasFlags (length (drop n unit)) (base_flags k) (drop n unit))
