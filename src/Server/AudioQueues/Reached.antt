-- ===== src/Server/AudioQueues/Reached.antt =====
-- `push` and `pop` of `AudioQueues` (crates/throcc-server/src/egress.rs) in any order.
use throcc.Prelude.{
  ℕ, ◌-◌, ◌≤◌, ◌<◌, ◌≡◌, refl, inl, inr, List, [], ◌∷◌, none, some, leb, arith, Bool-cases,
  Option-cases,
}
use throcc.Prelude.Map.{Map, get}
use throcc.Server.AudioQueues.{
  Packets, AudioQueues, no_audio, max_queued_audio, or_default, is_empty, longest, tail, evict_from,
  evict_from_longest, make_room, enqueue, push, serve, pop_from, pop,
}
use throcc.Server.AudioQueues.Totals.{total, get-longest}
use throcc.Server.AudioQueues.Balance.{
  IsBalanced, no_audio-IsBalanced, enqueue-IsBalanced, evict_from-IsBalanced, serve-IsBalanced,
}

-- What pushes and pops lead to.
pub data Reach : AudioQueues → Type 0 where
  starts : Reach no_audio
  pushes : (id : ℕ) (bytes : List ℕ) {q : AudioQueues} → Reach q → Reach (push id bytes q).0
  pops : {q : AudioQueues} → Reach q → Reach (pop q).0

found-IsBalanced :
    (id : ℕ) (queue : Packets) (q : AudioQueues)
    → IsBalanced q
    → get id q.tracks ≡ some queue
    → IsBalanced (evict_from id queue q)
found-IsBalanced id [] q b e = absurd (ground (arith, b.filled id, e))
found-IsBalanced id (packet ∷ queue) q b e = evict_from-IsBalanced id packet queue q b e

make_room-IsBalanced : (q : AudioQueues) → IsBalanced q → IsBalanced (make_room q).0
unfolding make_room evict_from_longest
make_room-IsBalanced q b = elim (Bool-cases (leb max_queued_audio q.len)) [
  | inl p ↦ elim (Option-cases (longest q.tracks)) [
    | inl e ↦ rw (p, make_room) (rw (e, evict_from_longest) b)
    | inr e ↦
        rw (p, make_room)
          (rw (e.1, evict_from_longest)
            (found-IsBalanced e.0.0 e.0.1 q b (get-longest 0 e.0.0 e.0.1 q.tracks b.sorted e.1).1))
  ]
  | inr p ↦ rw (p, make_room) b
]

pop_from-IsBalanced :
    (turns : List ℕ) (q : AudioQueues)
    → q.turns ≡ turns
    → IsBalanced q
    → IsBalanced (pop_from turns q).0
unfolding pop_from
pop_from-IsBalanced [] q e b = b
pop_from-IsBalanced (id ∷ turns) q e b =
    serve-IsBalanced id turns (or_default (get id q.tracks)) q b e refl

longest-total : (m : Map Packets) → longest m ≡ none → total m ≡ 0
unfolding longest total
longest-total [] e = refl
longest-total ((id, queue) ∷ m) e = absurd (ground (arith, e, Option-cases (longest m)))

evict_from-len :
    (id : ℕ) (queue : Packets) (q : AudioQueues) → (evict_from id queue q).len ≡ q.len - 1
unfolding evict_from
evict_from-len id queue q = elim (Bool-cases (is_empty (tail queue))) [
  | inl p ↦ rw (p, evict_from) refl
  | inr p ↦ rw (p, evict_from) refl
]

make_room-len :
    (q : AudioQueues)
    → IsBalanced q
    → q.len ≤ max_queued_audio
    → (make_room q).0.len < max_queued_audio
unfolding make_room evict_from_longest
make_room-len q b h = elim (Bool-cases (leb max_queued_audio q.len)) [
  | inl p ↦ elim (Option-cases (longest q.tracks)) [
    | inl e ↦ absurd (ground (arith, p, b.counted, longest-total q.tracks e))
    | inr e ↦
        rw (p, make_room)
          (rw (e.1, evict_from_longest) (ground (arith, evict_from-len e.0.0 e.0.1 q)))
  ]
  | inr p ↦ rw (p, make_room) (ground arith)
]

serve-len :
    (id : ℕ) (turns : List ℕ) (queue : Packets) (q : AudioQueues)
    → (serve id turns queue q).0.len ≤ q.len
unfolding serve
serve-len id turns [] q = omega arith
serve-len id turns (packet ∷ queue) q = ground arith

pop_from-len : (turns : List ℕ) (q : AudioQueues) → (pop_from turns q).0.len ≤ q.len
unfolding pop_from
pop_from-len [] q = omega arith
pop_from-len (id ∷ turns) q = serve-len id turns (or_default (get id q.tracks)) q

enqueue-len :
    (id : ℕ) (bytes : List ℕ) (q : AudioQueues)
    → q.len < max_queued_audio
    → (enqueue id bytes q).len ≤ max_queued_audio
unfolding enqueue
enqueue-len id bytes q h = omega arith

-- Whatever packets are pushed and popped: the count is that of the packets that are queued, at
-- most 3400, a track has a turn exactly if packets of it are queued, and it has just one.
pub Reach-IsBalanced : {q : AudioQueues} → Reach q → IsBalanced q × (q.len ≤ max_queued_audio)
unfolding push pop
Reach-IsBalanced starts = (no_audio-IsBalanced, omega arith)
Reach-IsBalanced (pushes id bytes {q = q} reach) =
    let (b, h) = Reach-IsBalanced reach in
    (
      enqueue-IsBalanced id bytes (make_room q).0 (make_room-IsBalanced q b),
      enqueue-len id bytes (make_room q).0 (make_room-len q b h),
    )
Reach-IsBalanced (pops {q = q} reach) =
    let (b, h) = Reach-IsBalanced reach in
    (pop_from-IsBalanced q.turns q refl b, omega (arith, h, pop_from-len q.turns q))
