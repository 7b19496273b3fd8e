-- ===== src/Client/Fragment/Arrived.antt =====
-- `fragment` and `Reassembler::push` of media/fragment.rs together: a unit on its way from a sender
-- to a receiver, whatever the order in which its fragments come.
use mathlib.Core.List.{Permᴰ}
use throcc.Prelude.{
  ℕ, ◌+◌, ◌-◌, ◌^◌, ◌≤◌, ◌<◌, ◌≡◌, refl, ap, ◌∙◌, Bool, List, [], ◌∷◌, none, some, length, ==_iff,
  arith, Option-cases,
}
use throcc.Prelude.Map.{get, contains_key}
use throcc.Proto.Frame.{Flags}
use throcc.Client.Units.{AccessUnit}
use throcc.Client.Reassembler.{Received, Reassembler, new, map_or, push}
use throcc.Client.Reassembler.Reached.{starts}
use throcc.Client.Reassembler.Partial.{new_room, new-fragments}
use throcc.Client.Fragment.{Fragment, fragment, mark_last}
use throcc.Client.Fragment.Cut.{received, unit_flags}
use throcc.Client.Fragment.Marks.{fragment-LastMarked, fragment-FirstMarked}
use throcc.Client.Fragment.Delivered.{push-fragment}
use throcc.Client.Fragment.Arrivals.{
  Arrival, numbered, deliver, IsPart, IsPart-Perm, numbered-IsPart,
}
use throcc.Client.Fragment.Waiting.{numbered-bounds, Awaits, step, last_step}

deliver_quiet :
    (seq : ℕ) (flags : Flags) (bytes : List ℕ) (arrivals : List Arrival) (r : Reassembler)
    → (push seq flags bytes r).1 ≡ none
    → (deliver ((seq, (flags, bytes)) ∷ arrivals) r).1
      ≡ (deliver arrivals (push seq flags bytes r).0).1
unfolding deliver
deliver_quiet seq flags bytes arrivals r e =
    let units = (deliver arrivals (push seq flags bytes r).0).1 in
    ap (λ o. map_or o units (λ u. u ∷ units)) e

deliver_last :
    (seq : ℕ) (flags : Flags) (bytes : List ℕ) (r : Reassembler) (u : AccessUnit)
    → (push seq flags bytes r).1 ≡ some u
    → (deliver ((seq, (flags, bytes)) ∷ []) r).1 ≡ u ∷ []
unfolding deliver
deliver_last seq flags bytes r u e = ap (λ o. map_or o [] (λ u. u ∷ [])) e

mark_last-some : (f : Fragment) (fs : List Fragment) → 0 < length (mark_last (f ∷ fs))
unfolding mark_last
mark_last-some f [] = omega arith
mark_last-some f (g ∷ fs) = omega arith

fragment-some : (unit : List ℕ) (t : ℕ) (k : Bool) → 0 < length (fragment unit t k)
unfolding fragment
fragment-some unit t k = mark_last-some _ _

numbered-some :
    (s : ℕ) (fs : List Fragment) → 0 < length fs → (f : Received) × (get s (numbered s fs) ≡ some f)
unfolding numbered get
numbered-some s [] h = absurd (omega arith)
numbered-some s (f ∷ fs) h = (received f, ground (arith, ==_iff s s))

module _ (n s t : ℕ) (unit : List ℕ) (k : Bool) (few : length (fragment unit t k) ≤ n)
    (fits : length (fragment unit t k) ≤ 4096) (top : s + length (fragment unit t k) ≤ 2 ^ 32)
    (stamp : t < 2 ^ 32) where
  abbrev cut_up : List Fragment
  cut_up = fragment unit t k

  abbrev whole : AccessUnit
  whole = record {
    first_seq = s;
    last_seq = s + length (fragment unit t k) - 1;
    timestamp = t;
    flags = unit_flags k;
    bytes = unit;
  }

  abbrev Waits : Reassembler → List Arrival → Type 0
  Waits r arrivals =
      Awaits n s cut_up (fragment-LastMarked unit t k) (fragment-FirstMarked unit t k) few fits top
        r arrivals

  deliver-Awaits :
      (seq : ℕ) (flags : Flags) (bytes : List ℕ) (arrivals : List Arrival) (r : Reassembler)
      → Waits r ((seq, (flags, bytes)) ∷ arrivals)
      → IsPart (numbered s cut_up) ((seq, (flags, bytes)) ∷ arrivals)
      → (deliver ((seq, (flags, bytes)) ∷ arrivals) r).1 ≡ whole ∷ []
  deliver-Awaits seq flags bytes [] r a p =
      let bounds = numbered-bounds s seq (flags, bytes) cut_up p.0 in
      let holds =
        last_step n s cut_up (fragment-LastMarked unit t k) (fragment-FirstMarked unit t k) few fits
          top r seq (flags, bytes) a p in
      let small : seq < 2 ^ 32 = omega (arith, bounds, top) in
      deliver_last seq flags bytes r whole (
        push-fragment seq flags bytes s t unit k a.reach small stamp holds bounds.0 bounds.1
          (omega (arith, (new_room (length cut_up) n few fits).0, a.same_limit)))
  deliver-Awaits seq flags bytes ((seq1, (flags1, bytes1)) ∷ arrivals) r a p =
      let (quiet, next) =
        step n s cut_up (fragment-LastMarked unit t k) (fragment-FirstMarked unit t k) few fits top
          r seq flags bytes (seq1, (flags1, bytes1)) arrivals a p in
      deliver_quiet seq flags bytes ((seq1, (flags1, bytes1)) ∷ arrivals) r quiet
      ∙ deliver-Awaits seq1 flags1 bytes1 arrivals (push seq flags bytes r).0 next p.2

  deliver-new :
      (arrivals : List Arrival)
      → IsPart (numbered s cut_up) arrivals
      → ((x : ℕ) → get x arrivals ≡ get x (numbered s cut_up))
      → (deliver arrivals (new n)).1 ≡ whole ∷ []
  unfolding get contains_key
  deliver-new [] p same =
      let first = numbered-some s cut_up (fragment-some unit t k) in
      absurd (ground (arith, same s, first.1))
  deliver-new ((seq, (flags, bytes)) ∷ arrivals) p same =
      deliver-Awaits seq flags bytes arrivals (new n)
        (record {
          reach = starts;
          same_limit = refl;
          same_room = refl;
          there = λ x.
              ap (get x) (new-fragments n)
              ∙ ground (arith, same x, Option-cases (get x (numbered s cut_up)));
        })
        p

-- A sender cuts a unit, with a u32 for its timestamp, into at most 4096 fragments and numbers them
-- from `s` on with u32s. A new receiver, for units of that many fragments or more, pushes each of
-- them once, in any order. Then it emits one unit, no more: the one that was sent, with the numbers
-- from the first fragment's to the last one's, the timestamp, the flags FIRST, LAST and, if it was
-- set, KEYFRAME, and the bytes that were cut.
pub deliver-fragment :
    (n s t : ℕ) (unit : List ℕ) (k : Bool) (arrivals : List Arrival)
    → length (fragment unit t k) ≤ n
    → length (fragment unit t k) ≤ 4096
    → s + length (fragment unit t k) ≤ 2 ^ 32
    → t < 2 ^ 32
    → Permᴰ arrivals (numbered s (fragment unit t k))
    → (deliver arrivals (new n)).1
      ≡ record {
        first_seq = s;
        last_seq = s + length (fragment unit t k) - 1;
        timestamp = t;
        flags = unit_flags k;
        bytes = unit;
      }
        ∷ []
deliver-fragment n s t unit k arrivals few fits top stamp order =
    let sent = numbered s (fragment unit t k) in
    let (part, same) = IsPart-Perm sent order (numbered-IsPart s (fragment unit t k)) in
    deliver-new n s t unit k few fits top stamp arrivals part same
