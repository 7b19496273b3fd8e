-- ===== src/Server/Queues/Sending.antt =====
-- `Queues` of crates/throcc-server/src/egress.rs: what is sent next, and what is forgotten.
use throcc.Prelude.{
  ℕ, ◌-◌, Bool, true, false, not, ◌||◌, List, [], ◌∷◌, Option, none, some, leb, ◌==◌, length,
  if◌then◌else◌,
}
use throcc.Prelude.Map.{Map, get, insert, remove, Set, contains}
use throcc.Server.AudioQueues
use throcc.Server.Queues.{Queues, VideoUnit, Counters, Fate, delivered, count_forwarded}
use throcc.Server.Queues.Units.{finish}

-- The strays in front that are no newer are skipped.
unfoldable pub strays_after : ℕ → List ℕ → List ℕ
strays_after id [] = []
strays_after id (stray ∷ strays) =
    let rest = strays_after id strays in if leb stray id then rest else stray ∷ strays

abbrev pub count_start : VideoUnit → Queues → Queues
count_start unit q = if unit.stray || unit.copy then q else count_forwarded unit.media_id q

-- The oldest unit that waits starts to be sent.
unfoldable pub start_unit : (id : ℕ) → VideoUnit → Map VideoUnit → Queues → Queues
start_unit id unit waiting q = count_start unit (record q {
  waiting = waiting;
  strays = strays_after id q.strays;
  started = insert id (record unit { started = true }) q.started;
})

abbrev pub is_empty : List (List ℕ) → Bool
is_empty [] = true
is_empty (p ∷ ps) = false

abbrev pub finish_if : Bool → (id : ℕ) → Queues → Queues
finish_if true id q = finish id delivered q
finish_if false id q = q

-- What remains of a started unit once a packet of it is sent.
unfoldable pub keep_rest : (id : ℕ) → VideoUnit → List (List ℕ) → Queues → Queues
keep_rest id unit packets q =
    let rest = record q { started = insert id (record unit { packets = packets }) q.started } in
    if not (is_empty packets)
    then record rest { sending = insert id tt q.sending }
    else let idle = record rest { sending = remove id q.sending } in finish_if unit.complete id idle

abbrev pub send_from : (id : ℕ) → VideoUnit → List (List ℕ) → Queues → Queues × Option (List ℕ)
send_from id unit [] q = (q, none)
send_from id unit (bytes ∷ packets) q = (
  keep_rest id unit packets (record q { video_bytes = q.video_bytes - length bytes }),
  some bytes,
)

abbrev pub send_unit : (id : ℕ) → Option VideoUnit → Queues → Queues × Option (List ℕ)
send_unit id none q = (q, none)
send_unit id (some unit) q = send_from id unit unit.packets q

unfoldable pub send : (id : ℕ) → Queues → Queues × Option (List ℕ)
send id q = send_unit id (get id q.started) q

abbrev pub pop_waiting : Map VideoUnit → Queues → Queues × Option (List ℕ)
pop_waiting [] q = (q, none)
pop_waiting ((id, unit) ∷ waiting) q = send id (start_unit id unit waiting q)

abbrev pub pop_video : Set → Queues → Queues × Option (List ℕ)
pop_video [] q = pop_waiting q.waiting q
pop_video ((id, x) ∷ sending) q = send id q

abbrev pub pop_after :
    AudioQueues.AudioQueues × Option (ℕ × List ℕ) → Queues → Queues × Option (List ℕ)
pop_after (audio, some (media_id, bytes)) q =
    (count_forwarded media_id (record q { audio = audio }), some bytes)
pop_after (audio, none) q = pop_video q.sending (record q { audio = audio })

unfoldable pub pop : Queues → Queues × Option (List ℕ)
pop q = pop_after (AudioQueues.pop q.audio) q

abbrev sends_on : ℕ → Map VideoUnit → Bool
sends_on media_id [] = false
sends_on media_id ((id, unit) ∷ m) = (unit.media_id == media_id) || sends_on media_id m

abbrev pub kept_history : Queues → Map (Map Fate) → Map (Map Fate)
kept_history q [] = []
kept_history q ((media_id, seen) ∷ history) =
    let rest = kept_history q history in
    if contains media_id q.active_tracks
      || sends_on media_id q.started
      || sends_on media_id q.waiting
    then (media_id, seen) ∷ rest
    else rest

unfoldable pub forget_quiet_tracks : Queues → Queues
forget_quiet_tracks q = record q { history = kept_history q q.history; active_tracks = [] }

unfoldable pub take_stats : Queues → Queues × Map Counters
take_stats q = (record q { stats = [] }, q.stats)
