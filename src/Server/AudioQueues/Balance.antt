-- ===== src/Server/AudioQueues/Balance.antt =====
-- The states of `AudioQueues` (crates/throcc-server/src/egress.rs) that its operations lead to.
use throcc.Prelude.{
  ℕ, ◌+◌, ◌-◌, ◌≡◌, refl, ◌∙◌, inl, inr, true, false, List, [], ◌∷◌, ◌++◌, none, some, ◌==◌, ==_iff,
  length, if◌then◌else◌, arith, Bool-cases, Option-cases, length-append,
}
use throcc.Prelude.Map.{
  get, insert, remove, IsSorted, get-insert, get-remove, insert-IsSorted, remove-IsSorted,
}
use throcc.Server.AudioQueues.{
  Packets, AudioQueues, no_audio, or_default, is_empty, tail, without, evict_from, enqueue, serve,
}
use throcc.Server.AudioQueues.Totals.{
  total, total-insert, total-remove, turns_of, turns_of-append_one, turns_of-without,
}

-- The count is that of the packets, and just the tracks with packets have a turn, one each.
pub record IsBalanced (q : AudioQueues) : Type 0 where
  pub counted : q.len ≡ total q.tracks
  pub waits :
      (id : ℕ) → turns_of id q.turns ≡ (if is_empty (or_default (get id q.tracks)) then 0 else 1)
  pub filled : (id : ℕ) → is_empty (or_default (get id q.tracks)) ≡ true → get id q.tracks ≡ none
  pub sorted : IsSorted 0 q.tracks

pub no_audio-IsBalanced : IsBalanced no_audio
no_audio-IsBalanced = record {
  counted = unfold total in refl;
  waits = λ id. unfold turns_of get in refl;
  filled = λ id h. unfold get in refl;
  sorted = tt;
}

length-tail : (queue : Packets) → is_empty queue ≡ false → length (tail queue) + 1 ≡ length queue
length-tail [] h = absurd (ground (arith, h))
length-tail (packet ∷ queue) h = omega arith

is_empty-length : (queue : Packets) → is_empty queue ≡ true → length queue ≡ 0
is_empty-length [] h = refl
is_empty-length (packet ∷ queue) h = absurd (ground (arith, h))

is_empty-append : (queue : Packets) (packet : List ℕ) → is_empty (queue ++ packet ∷ []) ≡ false
is_empty-append [] packet = refl
is_empty-append (x ∷ queue) packet = refl

pub enqueue-IsBalanced :
    (id : ℕ) (bytes : List ℕ) (q : AudioQueues) → IsBalanced q → IsBalanced (enqueue id bytes q)
unfolding enqueue
enqueue-IsBalanced id bytes q b =
    let queue = or_default (get id q.tracks) in
    record {
      counted = omega (
        arith,
        b.counted,
        total-insert 0 id (queue ++ bytes ∷ []) q.tracks b.sorted,
        length-append queue (bytes ∷ []),
      );
      waits = λ k. elim (Bool-cases (k == id)) [
        | inl p ↦ rw ((==_iff k id).0 p) (
            ground (
              arith,
              turns_of-append_one id id q.turns,
              b.waits id,
              get-insert id id (queue ++ bytes ∷ []) q.tracks,
              is_empty-append queue bytes,
            ))
        | inr p ↦ ground (
          arith,
          turns_of-append_one k id q.turns,
          b.waits k,
          get-insert k id (queue ++ bytes ∷ []) q.tracks,
        )
      ];
      filled = λ k h. ground (
        arith,
        get-insert k id (queue ++ bytes ∷ []) q.tracks,
        is_empty-append queue bytes,
        b.filled k,
      );
      sorted = insert-IsSorted 0 id (queue ++ bytes ∷ []) q.tracks (omega arith) b.sorted;
    }

-- The track has lost its only packet, and with it its turn.
emptied-IsBalanced :
    (id : ℕ) (packet : List ℕ) (queue : Packets) (turns : List ℕ) (q : AudioQueues)
    → IsBalanced q
    → get id q.tracks ≡ some (packet ∷ queue)
    → is_empty queue ≡ true
    → ((k : ℕ) → turns_of k turns ≡ (if k == id then 0 else turns_of k q.turns))
    → IsBalanced (record { tracks = remove id q.tracks; turns = turns; len = q.len - 1 })
emptied-IsBalanced id packet queue turns q b e p t = record {
  counted =
      ground (arith, b.counted, total-remove 0 id q.tracks b.sorted, e, is_empty-length queue p);
  waits = λ k. ground (arith, t k, b.waits k, get-remove k id q.tracks);
  filled = λ k h. ground (arith, get-remove k id q.tracks, b.filled k, h);
  sorted = remove-IsSorted 0 id q.tracks b.sorted;
}

-- The track has lost its front packet and keeps its turn, or has a new one.
shortened-IsBalanced :
    (id : ℕ) (packet : List ℕ) (queue : Packets) (turns : List ℕ) (q : AudioQueues)
    → IsBalanced q
    → get id q.tracks ≡ some (packet ∷ queue)
    → is_empty queue ≡ false
    → ((k : ℕ) → turns_of k turns ≡ turns_of k q.turns)
    → IsBalanced (record { tracks = insert id queue q.tracks; turns = turns; len = q.len - 1 })
shortened-IsBalanced id packet queue turns q b e p t = record {
  counted = ground (arith, b.counted, total-insert 0 id queue q.tracks b.sorted, e);
  waits = λ k. elim (Bool-cases (k == id)) [
    | inl s ↦
        rw ((==_iff k id).0 s)
          (ground (arith, t id, b.waits id, e, get-insert id id queue q.tracks))
    | inr s ↦ ground (arith, t k, b.waits k, get-insert k id queue q.tracks)
  ];
  filled = λ k h. ground (arith, get-insert k id queue q.tracks, b.filled k, h);
  sorted = insert-IsSorted 0 id queue q.tracks (omega arith) b.sorted;
}

pub evict_from-IsBalanced :
    (id : ℕ) (packet : List ℕ) (queue : Packets) (q : AudioQueues)
    → IsBalanced q
    → get id q.tracks ≡ some (packet ∷ queue)
    → IsBalanced (evict_from id (packet ∷ queue) q)
unfolding evict_from
evict_from-IsBalanced id packet queue q b e = elim (Bool-cases (is_empty queue)) [
  | inl p ↦
      rw (p, evict_from)
        (emptied-IsBalanced id packet queue (without id q.turns) q b e p
          (λ k. turns_of-without k id q.turns))
  | inr p ↦ rw (p, evict_from) (shortened-IsBalanced id packet queue q.turns q b e p (λ k. refl))
]

pub serve-IsBalanced :
    (id : ℕ) (turns : List ℕ) (queue : Packets) (q : AudioQueues)
    → IsBalanced q
    → q.turns ≡ id ∷ turns
    → or_default (get id q.tracks) ≡ queue
    → IsBalanced (serve id turns queue q).0
unfolding serve turns_of
serve-IsBalanced id turns [] q b e g = absurd (ground (arith, b.waits id, e, g))
serve-IsBalanced id turns (packet ∷ queue) q b e g =
    let found : get id q.tracks ≡ some (packet ∷ queue) =
      ground (arith, g, Option-cases (get id q.tracks)) in
    let one : turns_of id q.turns ≡ 1 = ground (arith, b.waits id, g) in
    elim (Bool-cases (is_empty queue)) [
      | inl p ↦
          rw (p, serve)
            (emptied-IsBalanced id packet queue turns q b found p (λ k. ground (arith, e, one)))
      | inr p ↦
          rw (p, serve)
            (shortened-IsBalanced id packet queue (turns ++ id ∷ []) q b found p
              (λ k. turns_of-append_one k id turns ∙ ground (arith, e, one)))
    ]
