-- ===== src/Server/AudioQueues/Drops.antt =====
-- Which packet `push` of `AudioQueues` (crates/throcc-server/src/egress.rs) drops, and which stay.
use throcc.Prelude.{
  ℕ, ◌≤◌, ◌<◌, ◌≡◌, refl, sym, ap, ◌∙◌, inl, inr, true, false, List, [], ◌∷◌, ◌++◌, Option, none,
  some, ◌==◌, ==_iff, leb, length, if◌then◌else◌, arith, Bool-cases, Option-cases,
}
use throcc.Prelude.Map.{get, get-insert, get-remove}
use throcc.Server.AudioQueues.{
  Packets, AudioQueues, max_queued_audio, or_default, is_empty, longest, tail, evict_from,
  evict_from_longest, make_room, enqueue, push,
}
use throcc.Server.AudioQueues.Totals.{get-longest, longest-bound}
use throcc.Server.AudioQueues.Balance.{IsBalanced}
use throcc.Server.AudioQueues.Reached.{Reach, Reach-IsBalanced}

abbrev pub queue_of : ℕ → AudioQueues → Packets
queue_of id q = or_default (get id q.tracks)

-- The packets of a track less the oldest one of the track that loses one.
abbrev pub less_oldest : Option ℕ → ℕ → Packets → Packets
less_oldest none id queue = queue
less_oldest (some lost) id queue = if id == lost then tail queue else queue

is_empty-nil : (queue : Packets) → is_empty queue ≡ true → queue ≡ []
is_empty-nil [] e = refl
is_empty-nil (packet ∷ queue) e = absurd (ground (arith, e))

queue_of-evict_from :
    (x lost : ℕ) (queue : Packets) (q : AudioQueues)
    → get lost q.tracks ≡ some queue
    → queue_of x (evict_from lost queue q) ≡ less_oldest (some lost) x (queue_of x q)
unfolding evict_from
queue_of-evict_from x lost queue q e = elim (Bool-cases (is_empty (tail queue))) [
  | inl p ↦ rw p (
      rw (get-remove x lost q.tracks)
        (ground (arith, e, ==_iff x lost, ==_iff lost x, is_empty-nil (tail queue) p)))
  | inr p ↦ rw p (
      rw (get-insert x lost (tail queue) q.tracks)
        (ground (arith, e, ==_iff x lost, ==_iff lost x)))
]

queue_of-make_room :
    (x : ℕ) (q : AudioQueues)
    → IsBalanced q
    → queue_of x (make_room q).0 ≡ less_oldest (make_room q).1 x (queue_of x q)
unfolding make_room evict_from_longest
queue_of-make_room x q b = elim (Bool-cases (leb max_queued_audio q.len)) [
  | inl p ↦ elim (Option-cases (longest q.tracks)) [
    | inl e ↦ rw (p, make_room) (rw (e, evict_from_longest) refl)
    | inr e ↦
        rw (p, make_room)
          (rw (e.1, evict_from_longest)
            (queue_of-evict_from x e.0.0 e.0.1 q
              (get-longest 0 e.0.0 e.0.1 q.tracks b.sorted e.1).1))
  ]
  | inr p ↦ rw (p, make_room) refl
]

queue_of-enqueue :
    (x id : ℕ) (bytes : List ℕ) (q : AudioQueues)
    → queue_of x (enqueue id bytes q)
      ≡ (if x == id then queue_of x q ++ bytes ∷ [] else queue_of x q)
unfolding enqueue
queue_of-enqueue x id bytes q =
    let queue = queue_of id q in
    rw (get-insert x id (queue ++ bytes ∷ []) q.tracks) (elim (Bool-cases (x == id)) [
      | inl p ↦
          let same : x ≡ id = (==_iff x id).0 p in
          let turned : (id == x) ≡ true = (==_iff id x).1 (sym same) in
          rw p (rw turned (ap (λ i. queue_of i q ++ bytes ∷ []) (sym same)))
      | inr p ↦
          let turned : (id == x) ≡ false = ground (arith, p, ==_iff x id, ==_iff id x) in
          rw p (rw turned refl)
    ])

filled-length :
    (id : ℕ) (queue : Packets) (q : AudioQueues)
    → IsBalanced q
    → get id q.tracks ≡ some queue
    → 0 < length (queue_of id q)
filled-length id [] q b e = absurd (ground (arith, b.filled id, e))
filled-length id (packet ∷ queue) q b e = rw e (omega arith)

-- Whose packet makes room, if any.
make_room-longest :
    (q : AudioQueues) (lost x : ℕ)
    → IsBalanced q
    → (make_room q).1 ≡ some lost
    → (max_queued_audio ≤ q.len)
      × (0 < length (queue_of lost q))
      × (length (queue_of x q) ≤ length (queue_of lost q))
unfolding make_room evict_from_longest
make_room-longest q lost x b e = elim (Bool-cases (leb max_queued_audio q.len)) [
  | inl p ↦ elim (Option-cases (longest q.tracks)) [
    | inl f ↦ absurd (ground (arith, e, p, f))
    | inr f ↦
        let same : f.0.0 ≡ lost = ground (arith, e, p, f.1) in
        let found = (get-longest 0 f.0.0 f.0.1 q.tracks b.sorted f.1).1 in
        let most = longest-bound x f.0.0 f.0.1 q.tracks f.1 in
        rw (sym same) (ground (arith, p), filled-length f.0.0 f.0.1 q b found, rw found most)
  ]
  | inr p ↦ absurd (ground (arith, e, p))
]

-- However packets were pushed and popped before, a push to the track `id` that drops a packet of
-- the track `lost`: 3400 packets are queued then, the track `lost` has some, and no track `x` has
-- more; and in the queues afterwards just the oldest packet of `lost` is missing, while the new
-- one is the last of `id`.
pub push-longest :
    {q : AudioQueues} (id lost : ℕ) (bytes : List ℕ) (x : ℕ)
    → Reach q
    → (push id bytes q).1 ≡ some lost
    → (q.len ≡ max_queued_audio)
      × (0 < length (queue_of lost q))
      × (length (queue_of x q) ≤ length (queue_of lost q))
      × (queue_of x (push id bytes q).0 ≡ (
          let left = if x == lost then tail (queue_of x q) else queue_of x q in
          if x == id then left ++ bytes ∷ [] else left))
unfolding push
push-longest {q = q} id lost bytes x reach e =
    let (b, bound) = Reach-IsBalanced reach in
    let (full, some_left, most) = make_room-longest q lost x b e in
    (
      omega (arith, full, bound),
      some_left,
      most,
      (queue_of-enqueue x id bytes (make_room q).0
          ∙ ap (λ queue. if x == id then queue ++ bytes ∷ [] else queue)
              (queue_of-make_room x q b ∙ ap (λ o. less_oldest o x (queue_of x q)) e)),
    )
