-- ===== src/Server/Hub/State.antt =====
-- The hub's state, the database behind it, and what it sends.
-- An id, a key, a hash or a text that the hub only stores and compares is a number.
use throcc.Prelude.{
  ℕ, ◌+◌, ◌-◌, ◌^◌, Bool, false, List, [], ◌∷◌, ◌++◌, Option, none, some, Result, ok, err, ltb,
  if◌then◌else◌, map,
}
use throcc.Prelude.Map
use throcc.Prelude.Map.{Map, Set}
use throcc.Proto.Permissions.{Role}
use throcc.Server.Buckets.{Buckets}
use throcc.Server.Guesses.{Guesses}

-- limits.rs of throcc-proto.
abbrev pub max_room_members : ℕ
max_room_members = 30

abbrev pub max_room_shares : ℕ
max_room_shares = 5

abbrev pub max_online : ℕ
max_online = 250

abbrev pub max_signed_in : ℕ
max_signed_in = max_online + 10

abbrev pub tracks_per_membership : ℕ
tracks_per_membership = 3

pub data ErrorCode : Type 0 where
  forbidden invalid not_found rate_limited full wrong_password stale_epoch too_large internal :
      ErrorCode

pub record ShareTracks : Type 0 where
  pub video : ℕ
  pub audio : ℕ

pub record Tracks : Type 0 where
  pub mic : ℕ
  pub shares : List ShareTracks

pub record ShareConfig : Type 0 where
  pub audio : Bool
  pub kbps : ℕ
  pub codec : ℕ
  pub width : ℕ
  pub height : ℕ
  pub fps : ℕ

pub record MediaState : Type 0 where
  pub mic : Bool
  pub deafened : Bool
  pub share : Option ShareConfig

pub record EncryptionKey : Type 0 where
  pub key : ℕ
  pub not_after : ℕ
  pub sig : ℕ

-- `Session`, with the fields of its `UserRow` that the hub reads, and without the connection's
-- handle, the time of the last profile change, the count of free key publications and the
-- counter of announced audiences.
pub record Session : Type 0 where
  pub conn_id : ℕ
  pub id : ℕ
  pub pubkey : ℕ
  pub name : ℕ
  pub avatar : Option ℕ
  pub role : Role
  pub encryption_key : Option EncryptionKey
  pub room : Option ℕ
  pub tracks : Option Tracks
  pub media : MediaState
  pub watching : List ℕ

pub record RoomEntry : Type 0 where
  pub epoch : ℕ
  pub password_hash : Option ℕ
  pub members : Set

-- What others see of a member; `peer`.
pub record Peer : Type 0 where
  pub user : ℕ
  pub tracks : Tracks
  pub share : Option ShareConfig
  pub identity_key : ℕ
  pub encryption_key : EncryptionKey

-- What everyone sees of a user in a room; `presence`.
pub record Presence : Type 0 where
  pub user : ℕ
  pub name : ℕ
  pub avatar : Option ℕ
  pub room : Option ℕ
  pub mic : Bool
  pub deafened : Bool
  pub sharing : Bool
  pub role : Role

-- Of `Event`, what the modelled operations send; `routes_rebuilt` stands for `rebuild_routes`.
pub data Event : Type 0 where
  peers_changed : ℕ → ℕ → List Peer → Event
  presence_changed : Presence → Event
  presence_ended : ℕ → Event
  routes_rebuilt : Event
  sender_key_published : (source epoch : ℕ) → List ℕ → Event
  kicked_from_room : (actor room : ℕ) → Event
  room_deleted : ℕ → Event

-- `Recovery` and `Pending` of sfu.rs: keyframe requests that wait out their interval.
pub data Recovery : Type 0 where
  refresh idr : Recovery

pub record Pending : Type 0 where
  pub last_sent : Option ℕ
  pub wanted : Option Recovery

-- A row of the table of users, with the columns that the hub reads.
pub record UserRow : Type 0 where
  pub pubkey : ℕ
  pub name : ℕ
  pub avatar : Option ℕ
  pub role : Role
  pub encryption_key : Option EncryptionKey

-- The tables of the SQLite database that placing a user writes. `faults` are the outcomes of
-- the transactions to come, `true` where one fails; past its end they succeed.
pub record Database : Type 0 where
  pub epochs : Map ℕ
  pub next_media_id : ℕ
  pub users : Map UserRow
  pub last_seen : Map ℕ
  pub faults : List Bool

pub record Hub : Type 0 where
  pub db : Database
  pub sessions : Map Session
  pub rooms : Map RoomEntry
  pub next_conn : ℕ
  pub keyframes : Map Pending
  pub password_tries : Buckets
  pub guesses : Guesses
  pub room_changes : Buckets
  pub rejoins : Buckets
  pub share_changes : Buckets
  pub last_joined : Map ℕ
  -- Each event with the users it goes to, oldest first.
  pub sent : List (List ℕ × Event)

-- `unix_now()` in seconds and `Instant::now()` in nanoseconds.
pub record Clock : Type 0 where
  pub unix : ℕ
  pub instant : ℕ

-- A method that may change the hub and may be refused.
abbrev pub Method : Type 0 → Type 0
Method A = Hub → Hub × Result ErrorCode A

fails : List Bool → Bool
fails [] = false
fails (f ∷ fs) = f

later : List Bool → List Bool
later [] = []
later (f ∷ fs) = fs

unfoldable pub write_epoch : Map ℕ → ℕ → ℕ → Map ℕ
write_epoch epochs room epoch = elim (Map.get room epochs) [
  | none ↦ epochs
  | some _ ↦ Map.insert room epoch epochs
]

unfoldable pub write_epochs : List (ℕ × ℕ) → Map ℕ → Map ℕ
write_epochs [] epochs = epochs
write_epochs ((room, epoch) ∷ rest) epochs = write_epochs rest (write_epoch epochs room epoch)

-- `Database::set_epochs`: one transaction, so all or none.
unfoldable pub set_epochs : List (ℕ × ℕ) → Database → Database × Result ErrorCode (Unit {0})
unfolding fails later
set_epochs changes db =
    if fails db.faults
    then (record db { faults = later db.faults }, err internal)
    else (record db { epochs = write_epochs changes db.epochs; faults = later db.faults }, ok tt)

-- `Database::allocate_media_ids`, whose `None` the hub turns into the same refusal.
unfoldable pub allocate_media_ids : ℕ → Database → Database × Result ErrorCode ℕ
unfolding fails later
allocate_media_ids count db =
    let first = db.next_media_id in
    if fails db.faults
    then (record db { faults = later db.faults }, err internal)
    else if ltb (2 ^ 32 - 1) (first + count - 1)
    then (record db { faults = later db.faults }, err internal)
    else (record db { next_media_id = first + count; faults = later db.faults }, ok first)

-- `Database::delete_room`.
unfoldable pub delete_room_row : ℕ → Database → Database × Result ErrorCode (Unit {0})
unfolding fails later
delete_room_row room db =
    if fails db.faults
    then (record db { faults = later db.faults }, err internal)
    else (record db { epochs = Map.remove room db.epochs; faults = later db.faults }, ok tt)

-- `Database::user` and `Database::mark_seen`.
unfoldable pub find_user : ℕ → Database → Database × Result ErrorCode (Option UserRow)
unfolding fails later
find_user user db =
    let db' = record db { faults = later db.faults } in
    if fails db.faults then (db', err internal) else (db', ok (Map.get user db.users))

unfoldable pub mark_seen : (user now : ℕ) → Database → Database × Result ErrorCode (Unit {0})
unfolding fails later
mark_seen user now db =
    let db' = record db { faults = later db.faults } in
    if fails db.faults
    then (db', err internal)
    else (record db' { last_seen = Map.insert user now db.last_seen }, ok tt)

-- The users of a map or a set, in order.
unfoldable pub keys {ℓ} : {V : Type ℓ} → Map V → List ℕ
keys = map (λ p. p.0)

-- Queues an event for each of the users.
abbrev pub emit : List ℕ → Event → Hub → Hub
emit users event h = record h { sent = h.sent ++ (users, event) ∷ [] }
