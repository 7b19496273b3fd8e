-- ===== src/Server/Hub/Place.antt =====
-- Moving a user between rooms: `place`, `leave_room` and what they are made of.
pub mod Rooms
pub mod Steps
mod Outcome
pub mod Consistent
pub mod Epochs
pub mod Leave
mod Tests
use throcc.Prelude.{
  ℕ, ◌+◌, ◌^◌, Bool, true, false, not, List, [], ◌∷◌, ◌++◌, Option, none, some, Result, ok, err,
  ltb, leb, ◌==◌, if◌then◌else◌, length, ok_or, ◌>>=◌,
}
use throcc.Prelude.Map
use throcc.Prelude.Map.{Map}
use throcc.Server.Hub.State.{
  max_room_members, tracks_per_membership, ErrorCode, invalid, not_found, full, internal,
  ShareTracks, Tracks, EncryptionKey, Session, RoomEntry, Peer, Presence, peers_changed,
  presence_changed, presence_ended, routes_rebuilt, Hub, Clock, Method, set_epochs,
  allocate_media_ids, keys, emit, Pending,
}

abbrev pub same_room : Option ℕ → Option ℕ → Bool
same_room none none = true
same_room (some a) (some b) = a == b
same_room _ _ = false

abbrev pub to_list : Option ℕ → List ℕ
to_list none = []
to_list (some a) = a ∷ []

unfoldable pub room_entry : Hub → ℕ → Result ErrorCode RoomEntry
room_entry h room = ok_or (Map.get room h.rooms) not_found

unfoldable pub session : Hub → ℕ → Result ErrorCode Session
session h user = ok_or (Map.get user h.sessions) internal

-- `get_mut`, and the change to what it finds.
unfoldable pub update {ℓ} : {V : Type ℓ} → ℕ → (V → V) → Map V → Map V
update k f m = elim (Map.get k m) [ none ↦ m | some v ↦ Map.insert k (f v) m ]

-- The next epoch, unless the u32 is used up.
unfoldable pub next_epoch : RoomEntry → Result ErrorCode ℕ
next_epoch entry = if ltb (entry.epoch + 1) (2 ^ 32) then ok (entry.epoch + 1) else err internal

unfoldable pub next_epochs : Hub → List ℕ → Result ErrorCode (List (ℕ × ℕ))
next_epochs h [] = ok []
next_epochs h (room ∷ rooms) = do
  entry ← room_entry h room
  next ← next_epoch entry
  rest ← next_epochs h rooms
  ok ((room, next) ∷ rest)

unfoldable pub set_entry_epochs : List (ℕ × ℕ) → Map RoomEntry → Map RoomEntry
set_entry_epochs [] rooms = rooms
set_entry_epochs ((room, epoch) ∷ rest) rooms =
    set_entry_epochs rest (update room (λ entry. record entry { epoch = epoch }) rooms)

-- `bump_epochs`: each of `rooms` moves to its next epoch, all or none.
unfoldable pub bump_epochs : List ℕ → Method (Unit {0})
bump_epochs rooms h = elim (next_epochs h rooms) [
  | err e ↦ (h, err e)
  | ok epochs ↦
      let (db, stored) = set_epochs epochs h.db in
      elim stored [
        | err e ↦ (record h { db = db }, err e)
        | ok _ ↦ (record h { db = db; rooms = set_entry_epochs epochs h.rooms }, ok tt)
      ]
]

-- `allocate_tracks`.
unfoldable pub allocate_tracks : Method Tracks
allocate_tracks h =
    let (db, allocated) = allocate_media_ids tracks_per_membership h.db in
    elim allocated [
      | err e ↦ (record h { db = db }, err e)
      | ok first ↦ (
        record h { db = db },
        ok (record { mic = first; shares = record { video = first + 1; audio = first + 2 } ∷ [] }),
      )
    ]

unfoldable pub peer : Session → Option Peer
peer s = elim s.tracks [
  | none ↦ none
  | some tracks ↦ elim s.encryption_key [
    | none ↦ none
    | some key ↦ some (record {
      user = s.id;
      tracks = tracks;
      share = s.media.share;
      identity_key = s.pubkey;
      encryption_key = key;
    })
  ]
]

abbrev pub push_peer : Option Session → List Peer → List Peer
push_peer none rest = rest
push_peer (some s) rest = elim (peer s) [ none ↦ rest | some p ↦ p ∷ rest ]

unfoldable pub peers_of : Map Session → List ℕ → List Peer
unfolding peer
peers_of sessions [] = []
peers_of sessions (m ∷ ms) = push_peer (Map.get m sessions) (peers_of sessions ms)

unfoldable pub peers : Hub → ℕ → List Peer
unfolding peers_of
peers h room = elim (Map.get room h.rooms) [
  | none ↦ []
  | some entry ↦ peers_of h.sessions (keys entry.members)
]

abbrev pub is_other : Option ℕ → ℕ → Bool
is_other none m = true
is_other (some except) m = not (m == except)

unfoldable pub others : Option ℕ → List ℕ → List ℕ
others except [] = []
others except (m ∷ ms) = let rest = others except ms in if is_other except m then m ∷ rest else rest

-- `broadcast_peers`, over `emit_room`.
unfoldable pub broadcast_peers : ℕ → Option ℕ → Hub → Hub
broadcast_peers room except h = elim (Map.get room h.rooms) [
  | none ↦ h
  | some entry ↦
      emit (others except (keys entry.members)) (peers_changed room entry.epoch (peers h room)) h
]

pub is_some {ℓ} : {A : Type ℓ} → Option A → Bool
is_some none = false
is_some (some a) = true

unfoldable pub presence : Session → Option Presence
presence s = elim s.room [
  | none ↦ none
  | some room ↦ some (record {
    user = s.id;
    name = s.name;
    avatar = s.avatar;
    room = some room;
    mic = s.media.mic;
    deafened = s.media.deafened;
    sharing = is_some s.media.share;
    role = s.role;
  })
]

-- The event that `place` sends to everyone about `user`.
unfoldable pub announce : ℕ → Hub → Hub
announce user h = elim (Map.get user h.sessions) [
  | none ↦ emit (keys h.sessions) (presence_ended user) h
  | some s ↦ elim (presence s) [
    | none ↦ emit (keys h.sessions) (presence_ended user) h
    | some p ↦ emit (keys h.sessions) (presence_changed p) h
  ]
]

unfoldable pub forget_shares : List ShareTracks → Map Pending → Map Pending
forget_shares [] keyframes = keyframes
forget_shares (share ∷ shares) keyframes = forget_shares shares (Map.remove share.video keyframes)

abbrev pub forget_tracks : Option Tracks → Map Pending → Map Pending
forget_tracks none keyframes = keyframes
forget_tracks (some tracks) keyframes = forget_shares tracks.shares keyframes

abbrev pub moved : Option ℕ → Option Tracks → Session → Session
moved room tracks s = record s {
  room = room;
  tracks = tracks;
  media = record { mic = s.media.mic; deafened = s.media.deafened; share = none };
  watching = [];
}

-- `set_membership`.
unfoldable pub set_membership : ℕ → Option ℕ → Option Tracks → Hub → Hub
set_membership user room tracks h = elim (Map.get user h.sessions) [
  | none ↦ h
  | some s ↦ record h {
    sessions = Map.insert user (moved room tracks s) h.sessions;
    keyframes = forget_tracks s.tracks h.keyframes;
  }
]

abbrev pub remove_member : ℕ → RoomEntry → RoomEntry
remove_member user entry = record entry { members = Map.remove user entry.members }

abbrev pub insert_member : ℕ → RoomEntry → RoomEntry
insert_member user entry = record entry { members = Map.insert user tt entry.members }

abbrev pub update_some : Option ℕ → (RoomEntry → RoomEntry) → Map RoomEntry → Map RoomEntry
update_some none f rooms = rooms
update_some (some room) f rooms = update room f rooms

abbrev pub broadcast_some : Option ℕ → Option ℕ → Hub → Hub
broadcast_some none except h = h
broadcast_some (some room) except h = broadcast_peers room except h

-- The members and the session, once the epochs are stored.
unfoldable pub relocate : ℕ → Option ℕ → Option ℕ → Option Tracks → Hub → Hub
relocate user current target tracks h = set_membership user target tracks (record h {
  rooms =
      update_some target (insert_member user) (update_some current (remove_member user) h.rooms);
})

unfoldable pub notify : ℕ → Option ℕ → Option ℕ → Hub → Hub
notify user current target h =
    emit [] routes_rebuilt
      (announce user (broadcast_some target (some user) (broadcast_some current none h)))

pub record Placement : Type 0 where
  pub room : Option ℕ
  pub epoch : ℕ
  pub tracks : Option Tracks
  pub peers : List Peer

abbrev pub lobby : Placement
lobby = record { room = none; epoch = 0; tracks = none; peers = [] }

abbrev pub epoch_or_zero : Option RoomEntry → ℕ
epoch_or_zero none = 0
epoch_or_zero (some entry) = entry.epoch

unfoldable pub placement : Hub → ℕ → Placement
placement h user = elim (Map.get user h.sessions) [
  | none ↦ lobby
  | some s ↦ elim s.room [
    | none ↦ lobby
    | some room ↦ record {
      room = some room;
      epoch = epoch_or_zero (Map.get room h.rooms);
      tracks = s.tracks;
      peers = peers h room;
    }
  ]
]

abbrev pub is_expired : Option EncryptionKey → ℕ → Bool
is_expired none now = true
is_expired (some key) now = leb key.not_after now

-- What the room and the user's key must meet.
unfoldable pub may_enter : Clock → Session → Option ℕ → Hub → Result ErrorCode (Unit {0})
may_enter clock s none h = ok tt
may_enter clock s (some room) h = do
  entry ← room_entry h room
  if leb max_room_members (length entry.members)
      then err full
      else if is_expired s.encryption_key clock.unix
      then err invalid
      else ok tt

abbrev pub allocate_for : Option ℕ → Method (Option Tracks)
allocate_for none h = (h, ok none)
allocate_for (some room) h =
    let (h', r) = allocate_tracks h in
    elim r [ err e ↦ (h', err e) | ok tracks ↦ (h', ok (some tracks)) ]

-- The part of `place` that changes the hub.
unfoldable pub move : ℕ → Option ℕ → Option ℕ → Method Placement
move user current target h =
    let (h1, allocated) = allocate_for target h in
    elim allocated [
      | err e ↦ (h1, err e)
      | ok tracks ↦
          let (h2, bumped) = bump_epochs (to_list current ++ to_list target) h1 in
          elim bumped [
            | err e ↦ (h2, err e)
            | ok _ ↦
                let h3 = notify user current target (relocate user current target tracks h2) in
                (h3, ok (placement h3 user))
          ]
    ]

-- `place`: moves `user` to `target`, the lobby if that is `none`.
unfoldable pub place : Clock → ℕ → Option ℕ → Method Placement
place clock user target h = elim (session h user) [
  | err e ↦ (h, err e)
  | ok s ↦
      let moving = move user s.room target h in
      if same_room s.room target
      then (h, ok (placement h user))
      else elim (may_enter clock s target h) [ err e ↦ (h, err e) | ok _ ↦ moving ]
]

-- What `leave_room` does when `place` could not.
pub force_out : ℕ → Option ℕ → Hub → Hub
force_out user none h = h
force_out user (some room) h =
    let out =
      set_membership user none none
        (record h { rooms = update room (remove_member user) h.rooms }) in
    let told = broadcast_peers room none out in
    emit [] routes_rebuilt (emit (keys told.sessions) (presence_ended user) told)

abbrev pub room_of : Option Session → Option ℕ
room_of none = none
room_of (some s) = s.room

-- `leave_room`: out of the room even when its epoch can't be bumped.
pub leave_room : Clock → ℕ → Hub → Hub
leave_room clock user h = elim (Map.get user h.sessions) [
  | none ↦ h
  | some _ ↦
      let (h', placed) = place clock user none h in
      elim placed [ ok _ ↦ h' | err _ ↦ force_out user (room_of (Map.get user h'.sessions)) h' ]
]
