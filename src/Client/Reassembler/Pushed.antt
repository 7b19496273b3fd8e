-- ===== src/Client/Reassembler/Pushed.antt =====
-- `Reassembler::push` of media/fragment.rs as a whole.
use throcc.Prelude.{ℕ, ◌-◌, ◌^◌, ◌<◌, ◌≡◌, subst, List, some, arith}
use throcc.Prelude.Map.{Map, insert}
use throcc.Proto.Frame.{Flags}
use throcc.Client.Units.{AccessUnit}
use throcc.Client.Reassembler.{
  Received, Reassembler, insert_fragment, make_room, push, assemble, rounds,
}
use throcc.Client.Reassembler.Kept.{insert_fragment-IsIndexed, make_room-IsIndexed}
use throcc.Client.Reassembler.Cap.{make_room-Shrinks}
use throcc.Client.Reassembler.Reached.{Reach, Reach-IsIndexed, held_inserted}
use throcc.Client.Reassembler.Emits.{between, IsWhole, complete-IsWhole, Emitted, complete-Emitted}

-- What is buffered once the fragment is in.
abbrev pub buffered : ℕ → Flags → List ℕ → Reassembler → Map Received
buffered seq flags plaintext r = insert seq (flags, plaintext) (make_room seq r).fragments

-- In every reassembler that pushes and forgetting lead to, whatever the order in which fragments
-- came, a fragment is pushed with a u32 for its number. If with it all the fragments from `first`
-- to `last` are buffered, fewer apart than the limit, and of those up to the new one just `first`
-- is marked FIRST and of those from it on just `last` is marked LAST, then the push emits the unit
-- that is assembled from them.
pub push-IsWhole :
    {n : ℕ} {r : Reassembler} (seq : ℕ) (flags : Flags) (plaintext : List ℕ) (first last : ℕ)
    → Reach n r
    → seq < 2 ^ 32
    → IsWhole (buffered seq flags plaintext r) seq first last
    → last - first < r.max_fragments
    → (push seq flags plaintext r).1
      ≡ assemble first last (between first (rounds first last) (buffered seq flags plaintext r))
unfolding push insert_fragment
push-IsWhole {r = r} seq flags plaintext first last reach h unit short =
    let w =
      insert_fragment-IsIndexed seq flags plaintext (make_room seq r) h
        (make_room-IsIndexed seq r (Reach-IsIndexed reach)) in
    complete-IsWhole (insert_fragment seq flags plaintext (make_room seq r)) w seq first last unit
      (omega (arith, short, (make_room-Shrinks seq r).2))

-- In every reassembler that pushes and forgetting lead to: if a push, with a u32 for its number,
-- emits a unit, then all the fragments with the unit's numbers were buffered with the new one,
-- fewer apart than the limit, of those up to the new one just the first was marked FIRST, of those
-- from it on just the last was marked LAST, and the unit is the one that is assembled from them.
pub push-Emitted :
    {n : ℕ} {r : Reassembler} (seq : ℕ) (flags : Flags) (plaintext : List ℕ) (u : AccessUnit)
    → Reach n r
    → seq < 2 ^ 32
    → (push seq flags plaintext r).1 ≡ some u
    → Emitted (buffered seq flags plaintext r) r.max_fragments seq u
unfolding push insert_fragment
push-Emitted {r = r} seq flags plaintext u reach h e =
    let r1 = insert_fragment seq flags plaintext (make_room seq r) in
    let w =
      insert_fragment-IsIndexed seq flags plaintext (make_room seq r) h
        (make_room-IsIndexed seq r (Reach-IsIndexed reach)) in
    let found =
      complete-Emitted r1 w seq u (held_inserted seq (flags, plaintext) (make_room seq r).fragments)
        e in
    subst (λ most. Emitted (buffered seq flags plaintext r) most seq u) (make_room-Shrinks seq r).2
      found
