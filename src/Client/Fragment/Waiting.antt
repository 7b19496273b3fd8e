-- ===== src/Client/Fragment/Waiting.antt =====
-- The receiver (media/fragment.rs) while fragments of a unit are still to arrive.
use throcc.Prelude.{
  ℕ, suc, ◌+◌, ◌^◌, ◌≤◌, ◌<◌, ◌≡◌, refl, sym, ap, subst, ◌∙◌, ◌⊎◌, inl, inr, true, List, [], ◌∷◌,
  none, some, length, ◌==◌, ==_iff, if◌then◌else◌, arith, Bool-cases, Option-cases,
}
use throcc.Prelude.Map.{Map, get, contains_key, insert, get-insert, IsSorted}
use throcc.Proto.Frame.{Flags}
use throcc.Proto.Frame as Frame
use throcc.Client.Reassembler.{Received, Reassembler, new, make_room, push}
use throcc.Client.Reassembler.Kept.{flagged}
use throcc.Client.Reassembler.Reached.{Reach, pushes, Reach-IsIndexed}
use throcc.Client.Reassembler.Pushed.{buffered}
use throcc.Client.Reassembler.Partial.{IsPartial, new_room, make_room-short, push-partial}
use throcc.Client.Fragment.{Fragment}
use throcc.Client.Fragment.Cut.{received}
use throcc.Client.Fragment.Marks.{LastMarked, FirstMarked}
use throcc.Client.Fragment.Delivered.{Holds, flagged-first-Holds, flagged-last-Holds}
use throcc.Client.Fragment.Arrivals.{Arrival, numbered, IsPart, length-missing}

-- Where `numbered` has its entries, and that a buffer with all of them holds the fragments.
pub numbered-bounds :
    (s x : ℕ) (f : Received) (fs : List Fragment)
    → get x (numbered s fs) ≡ some f
    → (s ≤ x) × (x < s + length fs)
unfolding numbered get
numbered-bounds s x f [] e = absurd (ground (arith, e))
numbered-bounds s x f (g ∷ fs) e = ground (arith, e, numbered-bounds (suc s) x f fs, ==_iff x s)

Holds-numbered :
    (m : Map Received) (s : ℕ) (fs : List Fragment)
    → ((x : ℕ) (f : Received) → get x (numbered s fs) ≡ some f → get x m ≡ some f)
    → Holds m s fs
unfolding numbered get
Holds-numbered m s [] h = tt
Holds-numbered m s (g ∷ fs) h = (
  h s (received g) (ground (arith, ==_iff s s)),
  Holds-numbered m (suc s) fs
      (λ x f e. h x f (ground (arith, e, ==_iff x s, numbered-bounds (suc s) x f fs e))),
)

raise-IsSorted :
    (s : ℕ) (m : Map Received) → IsSorted 0 m → ((x : ℕ) → x < s → get x m ≡ none) → IsSorted s m
unfolding get
raise-IsSorted s [] o h = tt
raise-IsSorted s ((k, f) ∷ m) o h = (ground (arith, h k, ==_iff k k), o.1)

-- Nothing is buffered but entries of the unit.
abbrev IsWithin : Map Received → ℕ → List Fragment → Type 0
IsWithin m s fs = (x : ℕ) (f : Received) → get x m ≡ some f → get x (numbered s fs) ≡ some f

first_alone :
    (s : ℕ) (fs : List Fragment) (k : ℕ) (f : Received)
    → FirstMarked fs
    → Holds (numbered s fs) s fs
    → get k (numbered s fs) ≡ some f
    → flagged Frame.first (some f) ≡ true
    → k ≡ s
first_alone s [] k f begins all e h = absurd (ground (arith, numbered-bounds s k f [] e))
first_alone s (g ∷ fs) k f begins all e h = elim (Bool-cases (k == s)) [
  | inl p ↦ (==_iff k s).0 p
  | inr p ↦
      let (lower, upper) = numbered-bounds s k f (g ∷ fs) e in
      let marked =
        flagged-first-Holds (numbered s (g ∷ fs)) (suc s) k fs all.1 begins.1
          (ground (arith, p, lower)) (omega (arith, upper)) in
      absurd (ground (arith, sym (ap (flagged Frame.first) e) ∙ marked, h))
]

module _ (s : ℕ) (fs : List Fragment) (ends : LastMarked fs) (begins : FirstMarked fs) where
  all_held : Holds (numbered s fs) s fs
  all_held = Holds-numbered (numbered s fs) s fs (λ x f e. e)

  last_alone :
      (k : ℕ) (f : Received)
      → get k (numbered s fs) ≡ some f
      → flagged Frame.last (some f) ≡ true
      → suc k ≡ s + length fs
  last_alone k f e h =
      let (lower, upper) = numbered-bounds s k f fs e in
      let marked = flagged-last-Holds (numbered s fs) s k fs all_held ends lower upper in
      ground (arith, sym (ap (flagged Frame.last) e) ∙ marked, h)

  IsWithin-IsPartial :
      (m : Map Received) (gap : ℕ)
      → IsWithin m s fs
      → s ≤ gap
      → gap < s + length fs
      → get gap m ≡ none
      → IsPartial m s (length fs) gap
  unfolding contains_key
  IsWithin-IsPartial m gap h i j e = record {
    only = λ k q. elim (Option-cases (get k m)) [
      | inl n ↦ absurd (ground (arith, q, n))
      | inr f ↦ numbered-bounds s k f.0 fs (h k f.0 f.1)
    ];
    from = i;
    upto = j;
    missing = ground (arith, e);
    first = λ k q. elim (Option-cases (get k m)) [
      | inl n ↦ absurd (ground (arith, q, n))
      | inr f ↦
          first_alone s fs k f.0 begins all_held (h k f.0 f.1)
            (sym (ap (flagged Frame.first) f.1) ∙ q)
    ];
    last = λ k q. elim (Option-cases (get k m)) [
      | inl n ↦ absurd (ground (arith, q, n))
      | inr f ↦ last_alone k f.0 (h k f.0 f.1) (sym (ap (flagged Frame.last) f.1) ∙ q)
    ];
  }

module _ (n s : ℕ) (fs : List Fragment) (ends : LastMarked fs) (begins : FirstMarked fs)
    (few : length fs ≤ n) (fits : length fs ≤ 4096) (top : s + length fs ≤ 2 ^ 32) where
  -- All of the unit has been pushed except what is still to arrive.
  pub record Awaits (r : Reassembler) (arrivals : List Arrival) : Type 0 where
    pub reach : Reach n r
    pub same_limit : r.max_fragments ≡ (new n).max_fragments
    pub same_room : r.max_buffered ≡ (new n).max_buffered
    pub there :
        (x : ℕ)
        → get x r.fragments ≡ (if contains_key x arrivals then none else get x (numbered s fs))

  Awaits-IsWithin :
      (r : Reassembler) (arrivals : List Arrival) → Awaits r arrivals → IsWithin r.fragments s fs
  Awaits-IsWithin r arrivals a x f e =
      let there = a.there x in ground (arith, there, e, Bool-cases (contains_key x arrivals))

  -- Where one of them is missing there is room.
  make_room-Awaits :
      (r : Reassembler) (seq x : ℕ) (arrivals : List Arrival)
      → Awaits r arrivals
      → s ≤ x
      → x < s + length fs
      → get x r.fragments ≡ none
      → make_room seq r ≡ r
  make_room-Awaits r seq x arrivals a i j e =
      let only : (y : ℕ) → (y < s) ⊎ (s + length fs ≤ y) → get y r.fragments ≡ none = λ y p.
        elim (Option-cases (get y r.fragments)) [
          | inl q ↦ q
          | inr f ↦
              let bounds = numbered-bounds s y f.0 fs (Awaits-IsWithin r arrivals a y f.0 f.1) in
              absurd (ground (arith, p, bounds))
        ] in
      let sorted =
        raise-IsSorted s r.fragments (Reach-IsIndexed a.reach).sorted (λ y p. only y (inl p)) in
      let short =
        length-missing x s (s + length fs) r.fragments sorted (λ y p. only y (inr p)) i j e in
      make_room-short seq r (omega (arith, short, (new_room (length fs) n few fits).1, a.same_room))

  -- After one more push all is there but what arrives later.
  there_next :
      (r : Reassembler) (m : Map Received) (seq : ℕ) (f : Received) (arrivals : List Arrival)
      → Awaits r ((seq, f) ∷ arrivals)
      → IsPart (numbered s fs) ((seq, f) ∷ arrivals)
      → m ≡ insert seq f r.fragments
      → (x : ℕ) → get x m ≡ (if contains_key x arrivals then none else get x (numbered s fs))
  unfolding get contains_key
  there_next r m seq f arrivals a p e x =
      ap (get x) e
      ∙ get-insert x seq f r.fragments
      ∙ ground (arith, a.there x, p, ==_iff x seq, ==_iff seq x)

  absent :
      (x : ℕ) (g : Received) (arrivals : List Arrival) (m : Map Received)
      → get x m ≡ (if contains_key x ((x, g) ∷ arrivals) then none else get x (numbered s fs))
      → get x m ≡ none
  unfolding get contains_key
  absent x g arrivals m e = e ∙ ground (arith, ==_iff x x)

  pub step :
      (r : Reassembler) (seq : ℕ) (flags : Flags) (bytes : List ℕ) (later : Arrival)
      (arrivals : List Arrival)
      → Awaits r ((seq, (flags, bytes)) ∷ later ∷ arrivals)
      → IsPart (numbered s fs) ((seq, (flags, bytes)) ∷ later ∷ arrivals)
      → ((push seq flags bytes r).1 ≡ none) × Awaits (push seq flags bytes r).0 (later ∷ arrivals)
  step r seq flags bytes (x, g) arrivals a p =
      let f : Received = (flags, bytes) in
      let bounds = numbered-bounds s seq f fs p.0 in
      let gap = numbered-bounds s x g fs p.2.0 in
      let here = absent seq f ((x, g) ∷ arrivals) r.fragments (a.there seq) in
      let room =
        make_room-Awaits r seq seq ((seq, f) ∷ (x, g) ∷ arrivals) a bounds.0 bounds.1 here in
      let added = insert seq f r.fragments in
      let there1 = there_next r added seq f ((x, g) ∷ arrivals) a p refl in
      let inside : IsWithin added s fs =
        λ y h q. ground (arith, there1 y, q, Bool-cases (contains_key y ((x, g) ∷ arrivals))) in
      let partial =
        IsWithin-IsPartial s fs ends begins added x inside gap.0 gap.1
          (absent x g arrivals added (there1 x)) in
      let small : seq < 2 ^ 32 = omega (arith, bounds, top) in
      let (quiet, adds) =
        push-partial r s (length fs) x seq flags bytes (Reach-IsIndexed a.reach) small room partial
          (omega (arith, (new_room (length fs) n few fits).0, a.same_limit)) in
      (
        quiet,
        record {
          reach = pushes seq flags bytes a.reach small;
          same_limit = adds.same_limit ∙ a.same_limit;
          same_room = adds.same_room ∙ a.same_room;
          there = there_next r _ seq f ((x, g) ∷ arrivals) a p adds.fragments;
        },
      )

  pub last_step :
      (r : Reassembler) (seq : ℕ) (f : Received)
      → Awaits r ((seq, f) ∷ [])
      → IsPart (numbered s fs) ((seq, f) ∷ [])
      → Holds (buffered seq f.0 f.1 r) s fs
  unfolding get contains_key
  last_step r seq f a p =
      let bounds = numbered-bounds s seq f fs p.0 in
      let here = absent seq f [] r.fragments (a.there seq) in
      let room = make_room-Awaits r seq seq ((seq, f) ∷ []) a bounds.0 bounds.1 here in
      subst (λ r2. Holds (insert seq f r2.fragments) s fs) (sym room)
        (Holds-numbered (insert seq f r.fragments) s fs
          (λ x g e. there_next r (insert seq f r.fragments) seq f [] a p refl x ∙ e))
