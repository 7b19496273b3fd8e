-- ===== src/Client/Reassembler/Reached.antt =====
-- The states of `Reassembler` (media/fragment.rs) that its operations lead to.
use throcc.Prelude.{ℕ, ◌*◌, ◌^◌, ◌≤◌, ◌<◌, ◌≡◌, refl, ◌∙◌, true, List, min, max, arith, length}
use throcc.Prelude.Map.{Map, contains_key, insert, get-insert}
use throcc.Proto.Frame.{Flags}
use throcc.Client.Reassembler.{
  Received, Reassembler, new, insert_fragment, make_room, push, forget_before,
}
use throcc.Client.Reassembler.Kept.{
  held, IsIndexed, new-IsIndexed, insert_fragment-IsIndexed, forget_before-IsIndexed,
  make_room-IsIndexed,
}
use throcc.Client.Reassembler.Buffer.{complete-IsIndexed}
use throcc.Client.Reassembler.Cap.{push-length, forget_before-length}

-- What pushes of fragments, numbered by u32s, and `forget_before` lead to from
-- `new max_fragments`.
pub data Reach (max_fragments : ℕ) : Reassembler → Type 0 where
  starts : Reach max_fragments (new max_fragments)
  pushes :
      (seq : ℕ) (flags : Flags) (plaintext : List ℕ) {r : Reassembler}
      → Reach max_fragments r
      → seq < 2 ^ 32
      → Reach max_fragments (push seq flags plaintext r).0
  forgets :
      (seq : ℕ) {r : Reassembler}
      → Reach max_fragments r
      → Reach max_fragments (forget_before seq r)

pub held_inserted : (seq : ℕ) (f : Received) (m : Map Received) → held (insert seq f m) seq ≡ true
unfolding contains_key
held_inserted seq f m = ground (arith, get-insert seq seq f m)

push-IsIndexed :
    (seq : ℕ) (flags : Flags) (plaintext : List ℕ) (r : Reassembler)
    → seq < 2 ^ 32
    → IsIndexed r
    → IsIndexed (push seq flags plaintext r).0
unfolding push insert_fragment
push-IsIndexed seq flags plaintext r h w =
    complete-IsIndexed seq (insert_fragment seq flags plaintext (make_room seq r))
      (insert_fragment-IsIndexed seq flags plaintext (make_room seq r) h
        (make_room-IsIndexed seq r w))
      (held_inserted seq (flags, plaintext) (make_room seq r).fragments)

-- Whatever fragments are pushed or forgotten: the spans are exactly the unbroken runs of the
-- fragments that are buffered, in order, and the two sets are exactly those of them with the
-- flag FIRST and with the flag LAST.
pub Reach-IsIndexed : {n : ℕ} {r : Reassembler} → Reach n r → IsIndexed r
Reach-IsIndexed {n = n} starts = new-IsIndexed n
Reach-IsIndexed (pushes seq flags plaintext {r = r} reach h) =
    push-IsIndexed seq flags plaintext r h (Reach-IsIndexed reach)
Reach-IsIndexed (forgets seq {r = r} reach) = forget_before-IsIndexed seq r (Reach-IsIndexed reach)

max_buffered_pos : (n b : ℕ) → b ≡ (new n).max_buffered → 0 < b
unfolding new
max_buffered_pos n b e = omega (arith, e)

Reach-buffered :
    {n : ℕ} {r : Reassembler}
    → Reach n r
    → (r.max_buffered ≡ (new n).max_buffered) × (length r.fragments ≤ r.max_buffered)
unfolding new forget_before
Reach-buffered starts = (refl, omega arith)
Reach-buffered {n = n} (pushes seq flags plaintext {r = r} reach h) =
    let before = Reach-buffered reach in
    let sorted = (make_room-IsIndexed seq r (Reach-IsIndexed reach)).sorted in
    let bound =
      push-length seq flags plaintext r sorted (max_buffered_pos n r.max_buffered before.0)
        before.1 in
    (bound.1 ∙ before.0, omega (arith, bound.0, bound.1))
Reach-buffered (forgets seq {r = r} reach) =
    let before = Reach-buffered reach in
    (before.0, omega (arith, before.1, forget_before-length seq r))

-- Whatever fragments are pushed or forgotten, no more are buffered than 4096, nor than 64 units of
-- the longest that the reassembler was made for, which is at least one fragment long.
pub Reach-length :
    {n : ℕ} {r : Reassembler} → Reach n r → length r.fragments ≤ min 4096 (max n 1 * 64)
unfolding new
Reach-length {n = n} {r = r} reach =
    let bound = Reach-buffered reach in omega (arith, bound.0, bound.1)
