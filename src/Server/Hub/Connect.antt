-- ===== src/Server/Hub/Connect.antt =====
-- `Hub::new` and `Hub::connect` of crates/throcc-server/src/rooms.rs: the hub as it starts, and
-- a connection that has authenticated. Of the welcome only the placement is kept.
mod Reach
mod Tests
use throcc.Prelude.{
  ℕ, ◌+◌, ◌*◌, ◌^◌, Bool, false, not, ◌&&◌, ◌||◌, [], ◌∷◌, Option, none, some, ok, err, leb, ◌==◌,
  if◌then◌else◌, length,
}
use throcc.Prelude.Map
use throcc.Prelude.Map.{Map}
use throcc.Proto.Permissions
use throcc.Server.Buckets
use throcc.Server.Guesses.{no_guesses}
use throcc.Server.Hub.State.{
  max_online, max_signed_in, UserRow, Session, RoomEntry, Database, Hub, Clock, find_user,
  mark_seen,
}
use throcc.Server.Hub.Place.{Placement, lobby}
use throcc.Server.Hub.Join.{may_rejoin, rejoin}
use throcc.Server.Hub.Requests.{drop_session}

-- `UserRow` as `Database::user` reads it, if its key is the one that authenticated.
abbrev pub with_pubkey : ℕ → Option UserRow → Option UserRow
with_pubkey pubkey none = none
with_pubkey pubkey (some row) = if row.pubkey == pubkey then some row else none

pub fresh_session : (conn_id user : ℕ) → UserRow → Session
fresh_session conn_id user row = record {
  conn_id = conn_id;
  id = user;
  pubkey = row.pubkey;
  name = row.name;
  avatar = row.avatar;
  role = row.role;
  encryption_key = row.encryption_key;
  room = none;
  tracks = none;
  media = record { mic = false; deafened = false; share = none };
  watching = [];
}

-- Whether the server has no place left for the owner of `row`.
pub is_full_for : UserRow → Hub → Bool
is_full_for row h =
    leb max_signed_in (length h.sessions)
    || (not (Permissions.eq row.role Permissions.admin)) && leb max_online (length h.sessions)

pub data Connected : Type 0 where
  failed unknown_key server_full : Connected
  welcomed : (conn_id : ℕ) → Placement → Connected

pub rejoin_wanted : Clock → ℕ → Option ℕ → Hub → Hub × Placement
rejoin_wanted clock user none h = (h, lobby)
rejoin_wanted clock user (some room) h =
    let (h', put_back) = rejoin clock user room h in
    if may_rejoin h user room
    then elim put_back [ none ↦ (h', lobby) | some placement ↦ (h', placement) ]
    else (h, lobby)

pub welcome : Clock → ℕ → UserRow → Option ℕ → Hub → Hub × Connected
welcome clock user row want_room h =
    let evicted = drop_session clock user h in
    let conn_id = evicted.next_conn + 1 in
    let h1 = record evicted {
      next_conn = conn_id;
      sessions = Map.insert user (fresh_session conn_id user row) evicted.sessions;
    } in
    let (h2, placement) = rejoin_wanted clock user want_room h1 in (h2, welcomed conn_id placement)

pub connect : Clock → (user pubkey : ℕ) → Option ℕ → Hub → Hub × Connected
connect clock user pubkey want_room h =
    let (db1, found) = find_user user h.db in
    elim found [
      | err e ↦ (record h { db = db1 }, failed)
      | ok stored ↦ elim (with_pubkey pubkey stored) [
        | none ↦ (record h { db = db1 }, unknown_key)
        | some row ↦
            let (db2, seen) = mark_seen user clock.unix db1 in
            let h2 = record h { db = db2 } in
            let admitted = welcome clock user row want_room h2 in
            elim seen [
              | err e ↦ (h2, failed)
              | ok _ ↦
                  if is_full_for row h2 && not (Map.contains_key user h2.sessions)
                  then (h2, server_full)
                  else admitted
            ]
      ]
    ]

-- `Hub::new`, for the rooms that the database has, with their password hashes.
pub load_rooms : Map ℕ → Map ℕ → Map RoomEntry
load_rooms hashes [] = []
load_rooms hashes ((room, epoch) ∷ rows) =
    (room, record { epoch = epoch; password_hash = Map.get room hashes; members = [] })
    ∷ load_rooms hashes rows

abbrev pub second : ℕ
second = 10 ^ 9

pub new_hub : Map ℕ → Database → Hub
new_hub hashes db = record {
  db = db;
  sessions = [];
  rooms = load_rooms hashes db.epochs;
  next_conn = 0;
  keyframes = [];
  password_tries = Buckets.new (record { unit = 5 * second; capacity = 5; refilled = 1 });
  guesses = no_guesses;
  room_changes = Buckets.new (record { unit = 2 * second; capacity = 5; refilled = 1 });
  rejoins = Buckets.new (record { unit = 10 * second; capacity = 10; refilled = 1 });
  share_changes = Buckets.new (record { unit = second; capacity = 5; refilled = 1 });
  last_joined = [];
  sent = [];
}
