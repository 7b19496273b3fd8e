-- ===== src/Server/Keyframes.antt =====
-- `KeyframeAggregator` of crates/throcc-server/src/sfu.rs: requests for keyframes of a track,
-- merged so that few of them reach its sender. Times are in nanoseconds.
mod Laws
mod Once
mod Tests
use throcc.Prelude.{ℕ, ◌-◌, ◌^◌, Bool, true, List, [], ◌∷◌, Option, none, some, leb, if◌then◌else◌}
use throcc.Prelude.Map
use throcc.Prelude.Map.{Map}
use throcc.Server.Hub.State.{Pending, Recovery, refresh, idr}

abbrev pub keyframe_interval : ℕ
keyframe_interval = 10 ^ 9

-- `Option<Recovery>::max` of a wanted and a new request.
pub max_wanted : Option Recovery → Recovery → Option Recovery
max_wanted none kind = some kind
max_wanted (some refresh) kind = some kind
max_wanted (some idr) kind = some idr

abbrev pub is_due : Option ℕ → ℕ → Bool
is_due none now = true
is_due (some t) now = leb keyframe_interval (now - t)

pub take_if_due : Pending → ℕ → Pending × Option Recovery
take_if_due pending now =
    if is_due pending.last_sent now
    then elim pending.wanted [
      | none ↦ (pending, none)
      | some kind ↦ (record { last_sent = some now; wanted = none }, some kind)
    ]
    else (pending, none)

-- `entry(media_id).or_default()`.
abbrev pub or_default : Option Pending → Pending
or_default none = record { last_sent = none; wanted = none }
or_default (some pending) = pending

pub request : ℕ → Recovery → ℕ → Map Pending → Map Pending × Option Recovery
unfolding take_if_due
request media_id kind now tracks =
    let found = or_default (Map.get media_id tracks) in
    let (pending, sent) =
      take_if_due (record found { wanted = max_wanted found.wanted kind }) now in
    (Map.insert media_id pending tracks, sent)

abbrev pub push_sent : ℕ → Option Recovery → List (ℕ × Recovery) → List (ℕ × Recovery)
push_sent media_id none rest = rest
push_sent media_id (some kind) rest = (media_id, kind) ∷ rest

pub due : ℕ → Map Pending → Map Pending × List (ℕ × Recovery)
unfolding take_if_due
due now [] = ([], [])
due now ((media_id, pending) ∷ tracks) =
    let (pending', sent) = take_if_due pending now in
    let (tracks', rest) = due now tracks in
    ((media_id, pending') ∷ tracks', push_sent media_id sent rest)

pub forget : ℕ → Map Pending → Map Pending
forget media_id tracks = Map.remove media_id tracks
