-- ===== src/Client/Fragment/Delivered.antt =====
-- `fragment` and `Reassembler::push` of media/fragment.rs together, from a sender to a receiver.
use throcc.Prelude.{
  ℕ, suc, ◌+◌, ◌-◌, ◌^◌, ◌≤◌, ◌<◌, ◌≡◌, refl, ap, ◌∙◌, Bool, true, false, List, [], ◌∷◌, some,
  length, map, All, arith, Bool-cases, inl, inr, ◌==◌, ==_iff,
}
use throcc.Prelude.Map.{Map, get, contains_key}
use throcc.Proto.Frame.{Flags}
use throcc.Proto.Frame as Frame
use throcc.Client.Reassembler.{Received, Reassembler, push, rounds, assemble}
use throcc.Client.Reassembler.Kept.{held, flagged}
use throcc.Client.Reassembler.Reached.{Reach}
use throcc.Client.Reassembler.Emits.{between, IsWhole}
use throcc.Client.Reassembler.Pushed.{buffered, push-IsWhole}
use throcc.Client.Fragment.{Fragment, fragment}
use throcc.Client.Fragment.Cut.{received, unit_flags, assemble-fragment}
use throcc.Client.Fragment.Marks.{
  LastMarked, FirstMarked, NotFirst, fragment-LastMarked, fragment-FirstMarked,
}

-- The fragments are in the buffer, numbered from `s` on.
abbrev pub Holds : Map Received → ℕ → List Fragment → Type 0
Holds m s [] = Unit {0}
Holds m s (f ∷ fs) = (get s m ≡ some (received f)) × Holds m (suc s) fs

held-Holds :
    (m : Map Received) (s k : ℕ) (fs : List Fragment)
    → Holds m s fs
    → s ≤ k
    → k < s + length fs
    → held m k ≡ true
unfolding contains_key
held-Holds m s k [] h i j = absurd (omega arith)
held-Holds m s k (f ∷ fs) h i j = elim (Bool-cases (k == s)) [
  | inl p ↦ rw ((==_iff k s).0 p) (ground (arith, h.0))
  | inr p ↦ held-Holds m (suc s) k fs h.1 (ground arith) (omega arith)
]

between-Holds :
    (m : Map Received) (s : ℕ) (fs : List Fragment)
    → Holds m s fs
    → between s (length fs) m ≡ map received fs
unfolding between
between-Holds m s [] h = refl
between-Holds m s (f ∷ fs) h = rw (h.0, between-Holds m (suc s) fs h.1) refl

pub flagged-first-Holds :
    (m : Map Received) (s k : ℕ) (fs : List Fragment)
    → Holds m s fs
    → All NotFirst fs
    → s ≤ k
    → k < s + length fs
    → flagged Frame.first (get k m) ≡ false
flagged-first-Holds m s k [] h a i j = absurd (omega arith)
flagged-first-Holds m s k (f ∷ fs) h a i j = elim (Bool-cases (k == s)) [
  | inl p ↦ rw ((==_iff k s).0 p, h.0) a.0
  | inr p ↦ flagged-first-Holds m (suc s) k fs h.1 a.1 (ground arith) (omega arith)
]

pub flagged-last-Holds :
    (m : Map Received) (s k : ℕ) (fs : List Fragment)
    → Holds m s fs
    → LastMarked fs
    → s ≤ k
    → k < s + length fs
    → flagged Frame.last (get k m) ≡ (suc k == s + length fs)
flagged-last-Holds m s k [] h a i j = absurd (omega arith)
flagged-last-Holds m s k (f ∷ []) h a i j =
    let same : k ≡ s = omega arith in rw (same, h.0) (a ∙ ground arith)
flagged-last-Holds m s k (f ∷ g ∷ fs) h a i j = elim (Bool-cases (k == s)) [
  | inl p ↦ rw ((==_iff k s).0 p, h.0) (a.0 ∙ ground arith)
  | inr p ↦
      flagged-last-Holds m (suc s) k (g ∷ fs) h.1 a.1 (ground arith) (omega arith) ∙ ground arith
]

Holds-IsWhole :
    (m : Map Received) (s l seq : ℕ) (fs : List Fragment)
    → Holds m s fs
    → LastMarked fs
    → FirstMarked fs
    → s ≤ seq
    → seq ≤ l
    → suc l ≡ s + length fs
    → IsWhole m seq s l
Holds-IsWhole m s l seq [] h a b i j e = absurd (omega arith)
Holds-IsWhole m s l seq (f ∷ fs) h a b i j e = record {
  lower = i;
  upper = j;
  inside = λ k p q. held-Holds m s k (f ∷ fs) h p (omega arith);
  begins = rw h.0 b.0;
  ends = flagged-last-Holds m s l (f ∷ fs) h a (omega arith) (omega arith) ∙ ground arith;
  no_first = λ k p q. flagged-first-Holds m (suc s) k fs h.1 b.1 (omega arith) (omega arith);
  no_last =
      λ k p q. flagged-last-Holds m s k (f ∷ fs) h a (omega arith) (omega arith) ∙ ground arith;
}

-- A sender cuts a unit with a u32 for its timestamp into fragments and numbers them from `s` on.
-- A receiver that pushed whatever it was sent, in any order, and may have forgotten some, pushes
-- a fragment with one of those numbers, a u32. If all the fragments of the unit are in its buffer
-- then, and they are no more than it takes, it emits the unit: the numbers from the first
-- fragment's to the last one's, the timestamp, the flags FIRST, LAST and, if it was set,
-- KEYFRAME, and the bytes that were cut.
pub push-fragment :
    {n : ℕ} {r : Reassembler} (seq : ℕ) (flags : Flags) (sent : List ℕ) (s t : ℕ) (unit : List ℕ)
    (k : Bool)
    → Reach n r
    → seq < 2 ^ 32
    → t < 2 ^ 32
    → Holds (buffered seq flags sent r) s (fragment unit t k)
    → s ≤ seq
    → seq < s + length (fragment unit t k)
    → length (fragment unit t k) ≤ r.max_fragments
    → (push seq flags sent r).1
      ≡ some (record {
        first_seq = s;
        last_seq = s + length (fragment unit t k) - 1;
        timestamp = t;
        flags = unit_flags k;
        bytes = unit;
      })
push-fragment {r = r} seq flags sent s t unit k reach h i holds a b c =
    let fs = fragment unit t k in
    let l = s + length fs - 1 in
    let m = buffered seq flags sent r in
    let count : rounds s l ≡ length fs = omega arith in
    push-IsWhole seq flags sent s l reach h
      (Holds-IsWhole m s l seq fs holds (fragment-LastMarked unit t k)
        (fragment-FirstMarked unit t k) a (omega arith) (omega arith))
      (omega arith)
    ∙ ap (assemble s l) (ap (λ x. between s x m) count ∙ between-Holds m s fs holds)
    ∙ assemble-fragment s l t unit k i
