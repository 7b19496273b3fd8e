-- ===== src/Client/Reassembler/Cap.antt =====
-- How many fragments the operations of `Reassembler` (media/fragment.rs) leave in the buffer.
use throcc.Prelude.{
  ℕ, zero, suc, ◌+◌, ◌-◌, ◌≤◌, ◌<◌, ◌≡◌, refl, ◌∙◌, sym, inl, inr, true, false, ◌&&◌, not, List, [],
  ◌∷◌, Option, none, some, ltb, leb, arith, Bool-cases, Option-cases, length,
}
use throcc.Prelude.Map.{
  Map, get, contains_key, insert, remove, length-insert, get_below, IsSorted, length-remove,
}
use throcc.Proto.Frame.{Flags}
use throcc.Client.Reassembler.{
  Received, Reassembler, map_or, span_of, first_in, last_in, insert_fragment, remove_range, rounds,
  unlink, drop_run, drop_oldest, drop_unfinishable, take_unit, finish, within, complete, push,
  make_room, forget_before,
}
use throcc.Client.Reassembler.Ranges.{length-remove_range, length-split_off}

-- No more is buffered than was, under the same cap.
abbrev Shrinks : Reassembler → Reassembler → Type 0
Shrinks r r' =
    (length r'.fragments ≤ length r.fragments)
    × (r'.max_buffered ≡ r.max_buffered)
    × (r'.max_fragments ≡ r.max_fragments)

Shrinks-refl : (r : Reassembler) → Shrinks r r
Shrinks-refl r = (omega arith, refl, refl)

drop_run-Shrinks : (first last : ℕ) (r : Reassembler) → Shrinks r (drop_run first last r)
unfolding drop_run unlink
drop_run-Shrinks first last r =
    (length-remove_range first (rounds first last) r.fragments, refl, refl)

drop_unfinishable-Shrinks : (lo hi : ℕ) (r : Reassembler) → Shrinks r (drop_unfinishable lo hi r)
unfolding drop_unfinishable
drop_unfinishable-Shrinks lo hi r =
    let after_last = map_or (last_in lo hi r.lasts) lo (λ l. l + 1) in
    elim (Bool-cases (leb (r.max_fragments - 1) (hi - after_last))) [
      | inl p ↦
          rw (p, drop_unfinishable) (drop_run-Shrinks after_last (hi - (r.max_fragments - 1)) r)
      | inr p ↦ rw (p, drop_unfinishable) (Shrinks-refl r)
    ]

finish-Shrinks :
    (lo last : ℕ) (first : Option ℕ) (r : Reassembler) → Shrinks r (finish lo first last r).0
unfolding finish take_unit
finish-Shrinks lo last none r = elim (Bool-cases (leb (r.max_fragments - 1) (last - lo))) [
  | inl p ↦ rw (p, finish) (drop_run-Shrinks lo last r)
  | inr p ↦ rw (p, finish) (Shrinks-refl r)
]
finish-Shrinks lo last (some first) r = elim (Bool-cases (ltb (last - first) r.max_fragments)) [
  | inl p ↦ rw (p, finish) (drop_run-Shrinks first last r)
  | inr p ↦ rw (p, finish) (drop_run-Shrinks first last r)
]

within-Shrinks : (seq lo hi : ℕ) (r : Reassembler) → Shrinks r (within seq lo hi r).0
unfolding within
within-Shrinks seq lo hi r = elim (Option-cases (first_in seq hi r.lasts)) [
  | inl p ↦ rw (p, within) (drop_unfinishable-Shrinks lo hi r)
  | inr p ↦ rw (p.1, within) (finish-Shrinks lo p.0 (last_in lo seq r.firsts) r)
]

pub complete-Shrinks : (seq : ℕ) (r : Reassembler) → Shrinks r (complete seq r).0
unfolding complete
complete-Shrinks seq r = elim (Option-cases (span_of seq r.spans)) [
  | inl p ↦ rw (p, complete) (Shrinks-refl r)
  | inr p ↦ rw (p.1, complete) (within-Shrinks seq p.0.0 p.0.1 r)
]

module _ {ℓ} {V : Type ℓ} where
  length-insert_again :
      (lo k : ℕ) (v : V) (m : Map V)
      → IsSorted lo m
      → contains_key k m ≡ true
      → length (insert k v m) ≡ length m
  unfolding contains_key get insert
  length-insert_again lo k v [] s h = absurd (ground (arith, h))
  length-insert_again lo k v ((j, w) ∷ m) s h =
      ground (arith, length-insert_again (suc j) k v m s.1, get_below k (suc j) m s.1)

drop_oldest-length :
    (m : Map Received) (r : Reassembler)
    → r.fragments ≡ m
    → 0 < length m
    → length (drop_oldest m r).fragments < length m
unfolding drop_run remove_range remove
drop_oldest-length [] r q h = absurd (omega arith)
drop_oldest-length ((k, f) ∷ m) r q h =
    let once : suc k - k ≡ suc zero = omega arith in
    rw (q, once) (ground (arith, length-remove k m))

drop_oldest-Shrinks : (m : Map Received) (r : Reassembler) → Shrinks r (drop_oldest m r)
drop_oldest-Shrinks [] r = Shrinks-refl r
drop_oldest-Shrinks ((k, f) ∷ m) r = drop_run-Shrinks k k r

make_room_kept :
    (seq : ℕ) (r : Reassembler)
    → (leb r.max_buffered (length r.fragments) && not (contains_key seq r.fragments)) ≡ false
    → make_room seq r ≡ r
unfolding make_room
make_room_kept seq r q = rw (q, make_room) refl

-- Room is made unless the fragment is already there.
make_room-length :
    (seq : ℕ) (r : Reassembler)
    → 0 < r.max_buffered
    → length r.fragments ≤ r.max_buffered
    → contains_key seq (make_room seq r).fragments ≡ false
    → length (make_room seq r).fragments < r.max_buffered
unfolding make_room
make_room-length seq r p h c =
    elim (Bool-cases
      (leb r.max_buffered (length r.fragments) && not (contains_key seq r.fragments))) [
        | inl q ↦ rw (q, make_room) (ground (arith, drop_oldest-length r.fragments r refl))
        | inr q ↦
            let absent : contains_key seq r.fragments ≡ false =
              rw (sym (make_room_kept seq r q)) c in
            rw (make_room_kept seq r q) (ground (arith, q, absent))
      ]

pub make_room-Shrinks : (seq : ℕ) (r : Reassembler) → Shrinks r (make_room seq r)
unfolding make_room
make_room-Shrinks seq r =
    elim (Bool-cases
      (leb r.max_buffered (length r.fragments) && not (contains_key seq r.fragments))) [
        | inl q ↦ rw (q, make_room) (drop_oldest-Shrinks r.fragments r)
        | inr q ↦ rw (q, make_room) (Shrinks-refl r)
      ]

-- The cap holds after a push if it held before.
pub push-length :
    (seq : ℕ) (flags : Flags) (plaintext : List ℕ) (r : Reassembler)
    → IsSorted 0 (make_room seq r).fragments
    → 0 < r.max_buffered
    → length r.fragments ≤ r.max_buffered
    → (length (push seq flags plaintext r).0.fragments ≤ r.max_buffered)
      × ((push seq flags plaintext r).0.max_buffered ≡ r.max_buffered)
unfolding push insert_fragment
push-length seq flags plaintext r s p h =
    let made = make_room-Shrinks seq r in
    let done = complete-Shrinks seq (insert_fragment seq flags plaintext (make_room seq r)) in
    let inserted : length (insert seq (flags, plaintext) (make_room seq r).fragments)
        ≤ r.max_buffered =
      elim (Bool-cases (contains_key seq (make_room seq r).fragments)) [
        | inl q ↦ omega (
          arith,
          length-insert_again 0 seq (flags, plaintext) (make_room seq r).fragments s q,
          made.0,
        )
        | inr q ↦ omega (
          arith,
          length-insert seq (flags, plaintext) (make_room seq r).fragments,
          make_room-length seq r p h q,
        )
      ] in
    (omega (arith, done.0, inserted), done.1 ∙ made.1)

pub forget_before-length :
    (seq : ℕ) (r : Reassembler) → length (forget_before seq r).fragments ≤ length r.fragments
unfolding forget_before
forget_before-length seq r = length-split_off seq r.fragments
