-- ===== src/Server/Queues/Kept.antt =====
-- `push` and `lose` of crates/throcc-server/src/egress.rs keep the count of bytes.
use throcc.Prelude.{
  ℕ, ◌+◌, ◌≡◌, refl, inl, inr, Bool, ◌||◌, List, [], ◌∷◌, ◌++◌, Option, none, some, leb, length,
  arith, Bool-cases, Option-cases,
}
use throcc.Prelude.Map.{Map, get, contains_key, insert, get-insert, insert-IsSorted}
use throcc.Proto.Frame
use throcc.Proto.Frame.{first, last}
use throcc.Server.AudioQueues
use throcc.Server.Queues.{
  Queues, VideoUnit, Packet, Lost, TrackKind, audio, video, Fate, queued, delivered, dropped,
  new_unit, size, or_empty, unit_at, count_drop, uncount_drop, max_unit_fragments, last_upto,
}
use throcc.Server.Queues.Units.{
  with_id, queue_unit, uncount, push_first, extend_unit, push_later, push_stray, push_by, found_in,
  push_video, push_kind, count_evicted, push, note_loss, lose_later, lose_video, lose_kind, lose,
}
use throcc.Server.Queues.Valid.{IsSound, IsValid, total-insert_new}
use throcc.Server.Queues.Dropped.{set_unit-IsSound, video_bytes-set_unit, drops-IsValid}

-- A unit with the next id is put in.
queue-IsSound :
    (unit : VideoUnit) (started waiting : Map VideoUnit) (n bytes : ℕ)
    → IsSound started waiting n bytes
    → IsSound started (insert n unit waiting) (n + 1) (bytes + size unit.packets)
unfolding IsSound
queue-IsSound unit started waiting n bytes h =
    let fresh = h.3 n (omega arith) in
    let own : (i : ℕ) → i ≡ n → get i started ≡ none = λ i q. ground (arith, fresh, q) in
    (
      h.0,
      insert-IsSorted 0 n unit waiting (omega arith) h.1,
      (λ i. ground (arith, h.2 i, get-insert i n unit waiting, own i)),
      (λ i l. (
        (h.3 i (omega (arith, l))).0,
        ground (arith, h.3 i (omega (arith, l)), get-insert i n unit waiting),
      )),
      omega (arith, h.4, total-insert_new n 0 unit waiting h.1 fresh.1),
    )

uncount-place :
    (media_id : ℕ) (o : Option Fate) (q : Queues)
    → ((uncount media_id o (with_id q)).started ≡ q.started)
      × ((uncount media_id o (with_id q)).waiting ≡ q.waiting)
      × ((uncount media_id o (with_id q)).next_id ≡ q.next_id + 1)
      × ((uncount media_id o (with_id q)).video_bytes ≡ q.video_bytes)
unfolding uncount_drop with_id
uncount-place media_id none q = (refl, refl, refl, refl)
uncount-place media_id (some (queued id)) q = (refl, refl, refl, refl)
uncount-place media_id (some delivered) q = (refl, refl, refl, refl)
uncount-place media_id (some dropped) q = (refl, refl, refl, refl)

push_first-IsValid :
    (media_id seq : ℕ) (complete : Bool) (bytes : List ℕ) (now : ℕ) (q : Queues)
    → IsValid q
    → IsValid (push_first media_id seq complete bytes now q)
unfolding push_first queue_unit new_unit
push_first-IsValid media_id seq complete bytes now q h =
    let p = uncount-place media_id (get seq (or_empty (get media_id q.history))) q in
    rw (p.0, p.1, p.2, p.3) (queue-IsSound _ q.started q.waiting q.next_id q.video_bytes h)

size-append :
    (ps : List (List ℕ)) (bytes : List ℕ) → size (ps ++ bytes ∷ []) ≡ size ps + length bytes
size-append [] bytes = omega arith
size-append (p ∷ ps) bytes = omega (arith, size-append ps bytes)

extend_unit-IsValid :
    (id : ℕ) (unit : VideoUnit) (is_last : Bool) (bytes : List ℕ) (now : ℕ) (q : Queues)
    → unit_at id q ≡ some unit
    → IsValid q
    → IsValid (extend_unit id unit is_last bytes now q)
unfolding extend_unit
extend_unit-IsValid id unit is_last bytes now q e h =
    let longer = record unit {
      packets = unit.packets ++ bytes ∷ [];
      received = unit.received + 1;
      last_fragment = now;
      complete = unit.complete || is_last;
    } in
    rw (video_bytes-set_unit id longer q)
      (set_unit-IsSound id unit longer (q.video_bytes + length bytes) q e h
        (omega (arith, size-append unit.packets bytes))).0

push_later-IsValid :
    (id : ℕ) (is_last : Bool) (bytes : List ℕ) (now : ℕ) (q : Queues)
    → IsValid q
    → IsValid (push_later id (unit_at id q) is_last bytes now q)
push_later-IsValid id is_last bytes now q h = elim (Option-cases (unit_at id q)) [
  | inl e ↦ rw e h
  | inr e ↦ rw e.1 (elim (Bool-cases (leb max_unit_fragments e.0.received)) [
    | inl full ↦ rw full (drops-IsValid id q h)
    | inr full ↦ rw full (extend_unit-IsValid id e.0 is_last bytes now q e.1 h)
  ])
]

push_by-IsValid :
    (o : Option (ℕ × Fate)) (media_id seq : ℕ) (is_last : Bool) (bytes : List ℕ) (now : ℕ)
    (q : Queues)
    → IsValid q
    → IsValid (push_by o media_id seq is_last bytes now q)
unfolding push_stray queue_unit with_id new_unit
push_by-IsValid none media_id seq is_last bytes now q h = h
push_by-IsValid (some (s, queued id)) media_id seq is_last bytes now q h =
    push_later-IsValid id is_last bytes now q h
push_by-IsValid (some (s, delivered)) media_id seq is_last bytes now q h =
    queue-IsSound _ q.started q.waiting q.next_id q.video_bytes h
push_by-IsValid (some (s, dropped)) media_id seq is_last bytes now q h = h

push_video-IsValid : (p : Packet) (now : ℕ) (q : Queues) → IsValid q → IsValid (push_video p now q)
unfolding push_video
push_video-IsValid p now q h =
    let active = record q { active_tracks = insert p.header.media_id tt q.active_tracks } in
    elim (Bool-cases (Frame.contains p.header.flags first)) [
      | inl e ↦ rw e (
          push_first-IsValid p.header.media_id p.header.seq (Frame.contains p.header.flags last)
            p.bytes now active h)
      | inr e ↦ rw e (
          push_by-IsValid (found_in p.header.media_id p.header.seq active) p.header.media_id
            p.header.seq (Frame.contains p.header.flags last) p.bytes now active h)
    ]

count_evicted-IsValid : (o : Option ℕ) (q : Queues) → IsValid q → IsValid (count_evicted o q)
unfolding count_drop
count_evicted-IsValid none q h = h
count_evicted-IsValid (some media_id) q h = h

pub push-IsValid : (p : Packet) (now : ℕ) (q : Queues) → IsValid q → IsValid (push p now q)
unfolding push
push-IsValid p now q h = by_kind p.kind
  where
    by_kind : (kind : TrackKind) → IsValid (push_kind kind p now q)
    by_kind audio = count_evicted-IsValid (AudioQueues.push p.header.media_id p.bytes q.audio).1 _ h
    by_kind video = push_video-IsValid p now q h

lose_later-IsValid :
    (o : Option (ℕ × Fate)) (media_id seq : ℕ) (q : Queues)
    → IsValid q
    → IsValid (lose_later o media_id seq q)
unfolding note_loss count_drop
lose_later-IsValid none media_id seq q h = h
lose_later-IsValid (some (s, queued id)) media_id seq q h = drops-IsValid id q h
lose_later-IsValid (some (s, delivered)) media_id seq q h = h
lose_later-IsValid (some (s, dropped)) media_id seq q h = h

lose_video-IsValid : (l : Lost) (q : Queues) → IsValid q → IsValid (lose_video l q)
unfolding note_loss count_drop
lose_video-IsValid l q h = elim (Bool-cases l.is_first) [
  | inr e ↦ rw e (
      lose_later-IsValid (last_upto l.seq (or_empty (get l.media_id q.history))) l.media_id l.seq _
        h)
  | inl e ↦ rw e (elim (Bool-cases (contains_key l.seq (or_empty (get l.media_id q.history)))) [
    | inl seen ↦ rw seen h
    | inr seen ↦ rw seen h
  ])
]

pub lose-IsValid : (l : Lost) (q : Queues) → IsValid q → IsValid (lose l q)
unfolding lose count_drop
lose-IsValid l q h = by_kind l.kind
  where
    by_kind : (kind : TrackKind) → IsValid (lose_kind kind l q)
    by_kind audio = h
    by_kind video = lose_video-IsValid l q h
