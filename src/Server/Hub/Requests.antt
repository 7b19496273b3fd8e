-- ===== src/Server/Hub/Requests.antt =====
-- What else a request or a lost connection does to rooms and sessions, in
-- crates/throcc-server/src/rooms.rs: `set_media`, `publish_key`, `kick_from_room`,
-- `delete_room`, `disconnect` and `evict`.
mod Keys
mod Kick
pub mod Steps
pub mod Removal
mod Tests
use throcc.Prelude.{
  ℕ, ◌+◌, Bool, true, false, not, ◌&&◌, ◌||◌, List, [], ◌∷◌, Option, none, some, Result, ok, err,
  leb, ltb, ◌==◌, if◌then◌else◌, length, ◌>>=◌, ok_or,
}
use throcc.Prelude.Map
use throcc.Prelude.Map.{Map, Set}
use throcc.Proto.Permissions
use throcc.Proto.Permissions.{Role}
use throcc.Server.Buckets.{take_for}
use throcc.Server.Hub.State.{
  max_room_shares, ErrorCode, forbidden, invalid, not_found, rate_limited, full, stale_epoch,
  too_large, ShareConfig, MediaState, Session, Event, presence_changed, routes_rebuilt,
  sender_key_published, kicked_from_room, room_deleted, Hub, Clock, Method, keys, emit,
  delete_room_row,
}
use throcc.Server.Hub.Place.{
  same_room, is_some, session, room_entry, update, presence, broadcast_peers, place, leave_room,
}

pub current_room : Hub → ℕ → Result ErrorCode ℕ
current_room h user = do s ← session h user; ok_or s.room invalid

pub role : Hub → ℕ → Result ErrorCode Role
role h user = do s ← session h user; ok s.role

-- `require`.
abbrev pub require : Bool → Result ErrorCode (Unit {0})
require allowed = if allowed then ok tt else err forbidden

pub emit_to : ℕ → Event → Hub → Hub
emit_to user event h = elim (Map.get user h.sessions) [
  | none ↦ h
  | some _ ↦ emit (user ∷ []) event h
]

pub announce_presence : ℕ → Hub → Hub
announce_presence user h = elim (Map.get user h.sessions) [
  | none ↦ h
  | some s ↦ elim (presence s) [ none ↦ h | some p ↦ emit (keys h.sessions) (presence_changed p) h ]
]

abbrev pub is_sharing : Option Session → Bool
is_sharing none = false
is_sharing (some s) = is_some s.media.share

pub count_shares : Map Session → List ℕ → ℕ
count_shares sessions [] = 0
count_shares sessions (m ∷ ms) =
    let rest = count_shares sessions ms in
    if is_sharing (Map.get m sessions) then rest + 1 else rest

pub shares_in : Hub → ℕ → ℕ
shares_in h room = elim (Map.get room h.rooms) [
  | none ↦ 0
  | some entry ↦ count_shares h.sessions (keys entry.members)
]

abbrev pub same_bool : Bool → Bool → Bool
same_bool true b = b
same_bool false b = not b

abbrev pub same_share : Option ShareConfig → Option ShareConfig → Bool
same_share none none = true
same_share (some a) (some b) =
    same_bool a.audio b.audio
    && a.kbps == b.kbps
    && a.codec == b.codec
    && a.width == b.width
    && a.height == b.height
    && a.fps == b.fps
same_share _ _ = false

abbrev pub with_media : MediaState → Session → Session
with_media media s = record s { media = media }

abbrev pub broadcast_if : Bool → ℕ → Hub → Hub
broadcast_if true room h = broadcast_peers room none h
broadcast_if false room h = h

abbrev pub rebuild_if : Bool → Hub → Hub
rebuild_if true h = emit [] routes_rebuilt h
rebuild_if false h = h

-- Audiences list only running shares.
abbrev pub reroutes : MediaState → MediaState → Bool
reroutes stored applied =
    not (same_bool applied.deafened stored.deafened)
    || not (same_bool (is_some applied.share) (is_some stored.share))

-- What `set_media` stores and announces, once it is known whether the share is refused.
pub apply_media : ℕ → ℕ → (stored applied : MediaState) → Hub → Hub
apply_media user room stored applied h =
    let h1 = record h { sessions = update user (with_media applied) h.sessions } in
    let h2 = broadcast_if (not (same_share applied.share stored.share)) room h1 in
    let h3 = rebuild_if (reroutes stored applied) h2 in announce_presence user h3

pub set_media : Clock → ℕ → MediaState → Method (Unit {0})
set_media clock user media h = elim (current_room h user) [
  | err e ↦ (h, err e)
  | ok room ↦ elim (session h user) [
    | err e ↦ (h, err e)
    | ok s ↦
        let starting = is_some media.share && not (is_some s.media.share) in
        let at_cap = starting && leb max_room_shares (shares_in h room) in
        let asks =
          is_some media.share && not (same_share media.share s.media.share) && not at_cap in
        let (share_changes, taken) = take_for h.share_changes user 1 clock.instant in
        let limited = asks && not taken in
        let h1 = record h { share_changes = if asks then share_changes else h.share_changes } in
        let applied = record media {
          share = if at_cap || limited then s.media.share else media.share;
        } in
        let h2 = apply_media user room s.media applied h1 in
        (h2, if at_cap then err full else if limited then err rate_limited else ok tt)
  ]
]

abbrev pub max_wrapped_bytes : ℕ
max_wrapped_bytes = 256

-- Every recipient is another member of the room, once, and every wrapped key fits.
pub check_wrapped : ℕ → Set → Set → List (ℕ × List ℕ) → Result ErrorCode (Unit {0})
check_wrapped user members seen [] = ok tt
check_wrapped user members seen ((to, blob) ∷ rest) =
    let checked = check_wrapped user members (Map.insert to tt seen) rest in
    if (to == user) || not (Map.contains to members) || Map.contains to seen
    then err invalid
    else if ltb max_wrapped_bytes (length blob)
    then err too_large
    else checked

pub send_keys : ℕ → ℕ → List (ℕ × List ℕ) → Hub → Hub
send_keys user epoch [] h = h
send_keys user epoch ((to, blob) ∷ rest) h =
    send_keys user epoch rest (emit_to to (sender_key_published user epoch blob) h)

pub publish_key : ℕ → ℕ → List (ℕ × List ℕ) → Method (Unit {0})
publish_key user epoch wrapped h = elim (current_room h user) [
  | err e ↦ (h, err e)
  | ok room ↦ elim (room_entry h room) [
    | err e ↦ (h, err e)
    | ok entry ↦
        let checked = check_wrapped user entry.members [] wrapped in
        if epoch == entry.epoch
        then elim checked [ err e ↦ (h, err e) | ok _ ↦ (send_keys user epoch wrapped h, ok tt) ]
        else (h, err stale_epoch)
  ]
]

-- The session of `target`, if it is in `room`.
pub session_in : Hub → ℕ → ℕ → Result ErrorCode Session
session_in h target room = elim (Map.get target h.sessions) [
  | none ↦ err not_found
  | some s ↦ if same_room s.room (some room) then ok s else err not_found
]

pub may_kick : Hub → (user target room : ℕ) → Result ErrorCode (Unit {0})
may_kick h user target room = do
  actor ← role h user
  s ← session_in h target room
  require (Permissions.can_kick_from_room actor s.role)

pub kick_from_room : Clock → (user target room : ℕ) → Method (Unit {0})
kick_from_room clock user target room h = elim (may_kick h user target room) [
  | err e ↦ (h, err e)
  | ok _ ↦
      let h1 = record h { last_joined = Map.remove target h.last_joined } in
      (emit_to target (kicked_from_room user room) (leave_room clock target h1), ok tt)
]

abbrev pub resists : Role → Option Session → Bool
resists actor none = false
resists actor (some s) = not (Permissions.can_kick_from_room actor s.role)

-- Whether some other member is not below `actor`.
pub outranked : Role → ℕ → Map Session → List ℕ → Bool
outranked actor user sessions [] = false
outranked actor user sessions (m ∷ ms) =
    ((not (m == user)) && resists actor (Map.get m sessions)) || outranked actor user sessions ms

-- The members that `delete_room` moves out, if the user may delete the room.
pub may_delete : Hub → ℕ → ℕ → Result ErrorCode (List ℕ)
may_delete h user room = do
  actor ← role h user
  allowed ← require (Permissions.can_manage_rooms actor)
  entry ← room_entry h room
  if (not (Permissions.eq actor Permissions.admin))
        && outranked actor user h.sessions (keys entry.members)
      then err forbidden
      else ok (keys entry.members)

-- `self.place(member, None)?` for each of them.
pub place_out : Clock → List ℕ → Method (Unit {0})
place_out clock [] h = (h, ok tt)
place_out clock (m ∷ ms) h =
    let (h', placed) = place clock m none h in
    let rest = place_out clock ms h' in elim placed [ err e ↦ (h', err e) | ok _ ↦ rest ]

pub forget_joined : ℕ → Map ℕ → Map ℕ
forget_joined room [] = []
forget_joined room ((user, joined) ∷ m) =
    let rest = forget_joined room m in if joined == room then rest else (user, joined) ∷ rest

pub drop_room : ℕ → Method (Unit {0})
drop_room room h =
    let (db, deleted) = delete_room_row room h.db in
    elim deleted [
      | err e ↦ (record h { db = db }, err e)
      | ok _ ↦ (
        emit (keys h.sessions) (room_deleted room) (record h {
          db = db;
          rooms = Map.remove room h.rooms;
          last_joined = forget_joined room h.last_joined;
        }),
        ok tt,
      )
    ]

pub delete_room : Clock → (user room : ℕ) → Method (Unit {0})
delete_room clock user room h = elim (may_delete h user room) [
  | err e ↦ (h, err e)
  | ok members ↦
      let (h1, emptied) = place_out clock members h in
      elim emptied [ err e ↦ (h1, err e) | ok _ ↦ drop_room room h1 ]
]

pub is_current : Hub → ℕ → ℕ → Bool
is_current h user conn_id = elim (Map.get user h.sessions) [
  | none ↦ false
  | some s ↦ s.conn_id == conn_id
]

-- The session is dropped once its user is out of their room.
pub drop_session : Clock → ℕ → Hub → Hub
drop_session clock user h =
    let left = leave_room clock user h in record left { sessions = Map.remove user left.sessions }

pub disconnect : Clock → (user conn_id : ℕ) → Hub → Hub
disconnect clock user conn_id h =
    let dropped = drop_session clock user h in if is_current h user conn_id then dropped else h
