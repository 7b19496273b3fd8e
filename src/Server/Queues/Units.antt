-- ===== src/Server/Queues/Units.antt =====
-- `Queues` of crates/throcc-server/src/egress.rs: units that come, leave and lose fragments.
use throcc.Prelude.{
  ℕ, ◌+◌, ◌-◌, Bool, true, false, ◌||◌, List, [], ◌∷◌, ◌++◌, Option, none, some, leb, ◌==◌, length,
  if◌then◌else◌,
}
use throcc.Prelude.Map.{Map, get, contains_key, insert, remove, Set}
use throcc.Prelude.Table.{Table, Pair, pair_eq, find, put, erase}
use throcc.Proto.Frame
use throcc.Proto.Frame.{first, last}
use throcc.Server.AudioQueues
use throcc.Server.Queues.{
  Queues, VideoUnit, Packet, Lost, TrackKind, audio, video, Fate, queued, delivered, dropped,
  new_unit, size, or_empty, unit_at, set_unit, count_drop, uncount_drop, remember, last_upto,
  max_unit_fragments,
}

-- `new_id` and `active_tracks.insert`.
unfoldable pub with_id : Queues → Queues
with_id q = record q { next_id = q.next_id + 1 }

unfoldable pub queue_unit : VideoUnit → Queues → Queues
queue_unit unit q = record q {
  video_bytes = q.video_bytes + size unit.packets;
  strays = if unit.stray then q.strays ++ unit.id ∷ [] else q.strays;
  waiting = insert unit.id unit q.waiting;
}

-- Where a unit is, it is taken out.
abbrev pub taken_out : ℕ → Queues → Queues
taken_out id q =
    if contains_key id q.started
    then record q { started = remove id q.started }
    else record q { waiting = remove id q.waiting }

abbrev is_nothing : Option Set → Bool
is_nothing none = true
is_nothing (some []) = true
is_nothing (some (k ∷ s)) = false

abbrev without_copy : ℕ → Pair → Option Set → Table Pair Set → Table Pair Set
without_copy id key none copies = copies
without_copy id key (some ids) copies =
    if is_nothing (some (remove id ids)) then erase key copies else put key (remove id ids) copies

abbrev forget_copy : (id : ℕ) → VideoUnit → Table Pair Set → Table Pair Set
forget_copy id unit copies =
    if unit.stray
    then copies
    else without_copy id (unit.media_id, unit.first_seq)
        (find (unit.media_id, unit.first_seq) copies) copies

abbrev is_queued_as : ℕ → Option Fate → Bool
is_queued_as id (some (queued other)) = other == id
is_queued_as id _ = false

abbrev settle_in : (id : ℕ) → VideoUnit → Fate → Option (Map Fate) → Map (Map Fate) → Map (Map Fate)
settle_in id unit fate none history = history
settle_in id unit fate (some seen) history =
    if is_queued_as id (get unit.first_seq seen)
    then insert unit.media_id (insert unit.first_seq fate seen) history
    else history

unfoldable pub finish_unit : (id : ℕ) → VideoUnit → Fate → Queues → Queues
finish_unit id unit fate q =
    let out = taken_out id q in
    record out {
      video_bytes = out.video_bytes - size unit.packets;
      sending = remove id out.sending;
      copies = forget_copy id unit out.copies;
      history = settle_in id unit fate (get unit.media_id out.history) out.history;
    }

unfoldable pub finish : ℕ → Fate → Queues → Queues
finish id fate q = elim (unit_at id q) [ none ↦ q | some unit ↦ finish_unit id unit fate q ]

abbrev pub first_of : Option Set → Option ℕ
first_of (some ((id, x) ∷ ids)) = some id
first_of _ = none

-- A twin is counted in its place, once it is dropped.
abbrev pub count_twin : VideoUnit → (twin : ℕ) → Option VideoUnit → Queues → Queues
count_twin unit twin (some other) q = set_unit twin (record other { copy = false }) q
count_twin unit twin none q = if unit.stray || unit.copy then q else count_drop unit.media_id q

abbrev pub count_unless_twin : VideoUnit → Option ℕ → Queues → Queues
count_unless_twin unit (some twin) q = count_twin unit twin (unit_at twin q) q
count_unless_twin unit none q = if unit.stray || unit.copy then q else count_drop unit.media_id q

unfoldable pub drop_found : (id : ℕ) → VideoUnit → Queues → Queues
drop_found id unit q =
    let out = finish_unit id unit dropped q in
    count_unless_twin unit (first_of (find (unit.media_id, unit.first_seq) out.copies)) out

unfoldable pub drop_unit : ℕ → Queues → Queues
drop_unit id q = elim (unit_at id q) [ none ↦ q | some unit ↦ drop_found id unit q ]

abbrev pub is_seen : Option Fate → Bool
is_seen (some (queued id)) = true
is_seen (some delivered) = true
is_seen _ = false

abbrev pub uncount : ℕ → Option Fate → Queues → Queues
uncount media_id (some dropped) q = uncount_drop media_id q
uncount media_id _ q = q

abbrev pub add_copy : ℕ → Pair → Table Pair Set → Table Pair Set
add_copy id key copies = put key (insert id tt (or_empty (find key copies))) copies

-- The first fragment of a unit.
unfoldable pub push_first :
    (media_id seq : ℕ) → (complete : Bool) → List ℕ → (now : ℕ) → Queues → Queues
push_first media_id seq complete bytes now q =
    let seen = or_empty (get media_id q.history) in
    let counted = uncount media_id (get seq seen) (with_id q) in
    queue_unit
      (record (new_unit q.next_id media_id seq bytes now) {
        complete = complete;
        copy = is_seen (get seq seen);
      })
      (record counted {
        history = insert media_id (remember seq (queued q.next_id) seen) counted.history;
        copies = add_copy q.next_id (media_id, seq) counted.copies;
      })

unfoldable pub extend_unit :
    (id : ℕ) → VideoUnit → (is_last : Bool) → List ℕ → (now : ℕ) → Queues → Queues
extend_unit id unit is_last bytes now q =
    let longer =
      set_unit id
        (record unit {
          packets = unit.packets ++ bytes ∷ [];
          received = unit.received + 1;
          last_fragment = now;
          complete = unit.complete || is_last;
        })
        q in
    record longer {
      sending = if unit.started then insert id tt q.sending else q.sending;
      video_bytes = longer.video_bytes + length bytes;
    }

-- A later fragment of a unit that is queued.
abbrev pub push_later :
    (id : ℕ) → Option VideoUnit → (is_last : Bool) → List ℕ → (now : ℕ) → Queues → Queues
push_later id none is_last bytes now q = q
push_later id (some unit) is_last bytes now q =
    if leb max_unit_fragments unit.received
    then drop_unit id q
    else extend_unit id unit is_last bytes now q

unfoldable pub push_stray : (media_id seq : ℕ) → List ℕ → (now : ℕ) → Queues → Queues
push_stray media_id seq bytes now q =
    queue_unit
      (record (new_unit q.next_id media_id seq bytes now) { complete = true; stray = true })
      (with_id q)

abbrev pub push_by :
    Option (ℕ × Fate) → (media_id seq : ℕ) → (is_last : Bool) → List ℕ → (now : ℕ) → Queues → Queues
push_by none media_id seq is_last bytes now q = q
push_by (some (s, queued id)) media_id seq is_last bytes now q =
    push_later id (unit_at id q) is_last bytes now q
push_by (some (s, delivered)) media_id seq is_last bytes now q = push_stray media_id seq bytes now q
push_by (some (s, dropped)) media_id seq is_last bytes now q = q

abbrev pub found_in : ℕ → ℕ → Queues → Option (ℕ × Fate)
found_in media_id seq q = last_upto seq (or_empty (get media_id q.history))

unfoldable pub push_video : Packet → (now : ℕ) → Queues → Queues
push_video p now q =
    let h = p.header in
    let active = record q { active_tracks = insert h.media_id tt q.active_tracks } in
    if Frame.contains h.flags first
    then push_first h.media_id h.seq (Frame.contains h.flags last) p.bytes now active
    else push_by (found_in h.media_id h.seq active) h.media_id h.seq (Frame.contains h.flags last)
        p.bytes now active

abbrev pub count_evicted : Option ℕ → Queues → Queues
count_evicted none q = q
count_evicted (some media_id) q = count_drop media_id q

abbrev pub push_audio : AudioQueues.AudioQueues × Option ℕ → Queues → Queues
push_audio r q = count_evicted r.1 (record q { audio = r.0 })

abbrev pub push_kind : TrackKind → Packet → (now : ℕ) → Queues → Queues
push_kind audio p now q = push_audio (AudioQueues.push p.header.media_id p.bytes q.audio) q
push_kind video p now q = push_video p now q

unfoldable pub push : Packet → (now : ℕ) → Queues → Queues
push p now q = push_kind p.kind p now q

unfoldable pub note_loss : (media_id seq : ℕ) → Queues → Queues
note_loss media_id seq q = count_drop media_id (record q {
  history = insert media_id (remember seq dropped (or_empty (get media_id q.history))) q.history;
})

abbrev pub lose_later : Option (ℕ × Fate) → (media_id seq : ℕ) → Queues → Queues
lose_later (some (s, queued id)) media_id seq q = drop_unit id q
lose_later (some (s, delivered)) media_id seq q = note_loss media_id s q
lose_later (some (s, dropped)) media_id seq q = q
lose_later none media_id seq q = note_loss media_id seq q

-- The source makes an empty history for the track here, where there is none.
abbrev pub lose_video : Lost → Queues → Queues
lose_video l q =
    let seen = or_empty (get l.media_id q.history) in
    let active = record q {
      active_tracks = insert l.media_id tt q.active_tracks;
      history = insert l.media_id seen q.history;
    } in
    if l.is_first
    then if contains_key l.seq seen then active else note_loss l.media_id l.seq active
    else lose_later (last_upto l.seq seen) l.media_id l.seq active

abbrev pub lose_kind : TrackKind → Lost → Queues → Queues
lose_kind audio l q = count_drop l.media_id q
lose_kind video l q = lose_video l q

unfoldable pub lose : Lost → Queues → Queues
lose l q = lose_kind l.kind l q
