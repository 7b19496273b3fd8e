-- ===== src/Server/Queues/Popped.antt =====
-- `pop` of crates/throcc-server/src/egress.rs keeps the count of bytes.
use throcc.Prelude.{
  ℕ, suc, ◌+◌, ◌-◌, ◌≤◌, ◌≡◌, refl, ap, inl, inr, Bool, true, false, ◌||◌, List, [], ◌∷◌, Option,
  none, some, length, arith, Bool-cases, Option-cases,
}
use throcc.Prelude.Map.{
  Map, Set, get, insert, get-insert, get_below, IsSorted-mono, insert-IsSorted,
}
use throcc.Server.AudioQueues
use throcc.Server.Queues.{Queues, VideoUnit, delivered, size, count_forwarded}
use throcc.Server.Queues.Sending.{
  start_unit, keep_rest, finish_if, is_empty, send_from, send, pop_waiting, pop_video, pop_after,
  pop, count_start,
}
use throcc.Server.Queues.Valid.{
  IsSound, IsValid, total, total-insert_new, total-remove, insert_started-IsSound,
}
use throcc.Server.Queues.Dropped.{finish-IsValid}

-- The oldest unit that waits starts.
start-IsSound :
    (id : ℕ) (unit new : VideoUnit) (started waiting : Map VideoUnit) (n bytes : ℕ)
    → size new.packets ≡ size unit.packets
    → IsSound started ((id, unit) ∷ waiting) n bytes
    → IsSound (insert id new started) waiting n bytes
unfolding IsSound total get
start-IsSound id unit new started waiting n bytes same h =
    let mine : get id started ≡ none = ground (arith, h.2 id) in
    let gone : (i : ℕ) → i ≡ id → get i waiting ≡ none =
      λ i q. get_below i (suc id) waiting h.1.1 (omega (arith, q)) in
    let old : (i : ℕ) → n ≤ i → i ≡ id → ⊥ = λ i l q. ground (arith, h.3 i l, q) in
    (
      insert-IsSorted 0 id new started (omega arith) h.0,
      IsSorted-mono 0 (suc id) waiting (omega arith) h.1.1,
      (λ i. ground (arith, h.2 i, get-insert i id new started, gone i)),
      (λ i l. (
        ground (arith, h.3 i l, get-insert i id new started, old i l),
        ground (arith, h.3 i l, old i l),
      )),
      omega (arith, h.4, total-insert_new id 0 new started h.0 mine, same),
    )

finish_if-IsValid : (b : Bool) (id : ℕ) (q : Queues) → IsValid q → IsValid (finish_if b id q)
finish_if-IsValid true id q h = finish-IsValid id delivered q h
finish_if-IsValid false id q h = h

keep_rest-IsValid :
    (id : ℕ) (unit : VideoUnit) (bytes : List ℕ) (packets : List (List ℕ)) (q : Queues)
    → get id q.started ≡ some unit
    → unit.packets ≡ bytes ∷ packets
    → IsValid q
    → IsValid (keep_rest id unit packets (record q { video_bytes = q.video_bytes - length bytes }))
unfolding keep_rest IsSound
keep_rest-IsValid id unit bytes packets q e p h =
    let t = total-remove id 0 unit q.started h.0 e in
    let all : size unit.packets ≡ length bytes + size packets = ap size p in
    let sound =
      insert_started-IsSound id unit q.started q.waiting q.next_id q.video_bytes h
        (record unit { packets = packets }) (q.video_bytes - length bytes) e
        (omega (arith, t.0, all, h.4)) in
    elim (Bool-cases (is_empty packets)) [
      | inr more ↦ rw more sound
      | inl more ↦ rw more (finish_if-IsValid unit.complete id _ sound)
    ]

send_from-IsValid :
    (id : ℕ) (unit : VideoUnit) (packets : List (List ℕ)) (q : Queues)
    → get id q.started ≡ some unit
    → unit.packets ≡ packets
    → IsValid q
    → IsValid (send_from id unit packets q).0
send_from-IsValid id unit [] q e p h = h
send_from-IsValid id unit (bytes ∷ packets) q e p h =
    keep_rest-IsValid id unit bytes packets q e p h

send-IsValid : (id : ℕ) (q : Queues) → IsValid q → IsValid (send id q).0
unfolding send
send-IsValid id q h = elim (Option-cases (get id q.started)) [
  | inl e ↦ rw (e, send) h
  | inr e ↦ rw (e.1, send) (send_from-IsValid id e.0 e.0.packets q e.1 refl h)
]

count_start-IsValid : (unit : VideoUnit) (q : Queues) → IsValid q → IsValid (count_start unit q)
unfolding count_forwarded
count_start-IsValid unit q h = elim (Bool-cases (unit.stray || unit.copy)) [
  | inl e ↦ rw e h
  | inr e ↦ rw e h
]

pop_waiting-IsValid :
    (waiting : Map VideoUnit) (q : Queues)
    → IsSound q.started waiting q.next_id q.video_bytes
    → IsValid q
    → IsValid (pop_waiting waiting q).0
unfolding start_unit
pop_waiting-IsValid [] q s h = h
pop_waiting-IsValid ((id, unit) ∷ waiting) q s h = send-IsValid id _ (
    count_start-IsValid unit _ (
      start-IsSound id unit (record unit { started = true }) q.started waiting q.next_id
        q.video_bytes refl s))

pop_video-IsValid : (sending : Set) (q : Queues) → IsValid q → IsValid (pop_video sending q).0
pop_video-IsValid [] q h = pop_waiting-IsValid q.waiting q h h
pop_video-IsValid ((id, x) ∷ sending) q h = send-IsValid id q h

pub pop-IsValid : (q : Queues) → IsValid q → IsValid (pop q).0
unfolding pop
pop-IsValid q h = after (AudioQueues.pop q.audio)
  where
    after : (r : AudioQueues.AudioQueues × Option (ℕ × List ℕ)) → IsValid (pop_after r q).0
    after (a, some (media_id, bytes)) = (unfold count_forwarded in h)
    after (a, none) = pop_video-IsValid q.sending _ h
