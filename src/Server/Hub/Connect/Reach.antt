-- ===== src/Server/Hub/Connect/Reach.antt =====
-- The hub from its start on, whatever happens to it in whatever order.
use throcc.Prelude.{
  ℕ, ◌+◌, ◌≡◌, refl, sym, Bool, false, not, ◌&&◌, Option, none, some, List, [], ◌∷◌, arith,
  Option-cases, Bool-cases, Result-cases, inl, inr,
}
use throcc.Prelude.Map.{Map, get, insert, contains_key, contains}
use throcc.Server.Hub.State.{MediaState, UserRow, Database, Hub, Clock, find_user, mark_seen}
use throcc.Server.Hub.Place.Rooms.{member_in, in_room, size_in, epoch_in}
use throcc.Server.Hub.Place.Steps.{IsConsistent, is_tracked}
use throcc.Server.Hub.Join.{may_rejoin, rejoin, join, finish_join}
use throcc.Server.Hub.Join.Laws.{join-IsConsistent, finish_join-IsConsistent, rejoin-IsConsistent}
use throcc.Server.Hub.Requests.{
  drop_session, set_media, publish_key, kick_from_room, delete_room, disconnect,
}
use throcc.Server.Hub.Requests.Steps.{
  set_media-IsConsistent, publish_key-IsConsistent, kick_from_room-IsConsistent,
}
use throcc.Server.Hub.Requests.Removal.{
  insert-Consistent, drop_session-IsConsistent, drop_session-IsOut, disconnect-IsConsistent,
  delete_room-IsConsistent,
}
use throcc.Server.Hub.Connect.{
  with_pubkey, fresh_session, is_full_for, rejoin_wanted, welcome, connect, load_rooms, new_hub,
}

load_rooms-empty :
    (hashes rows : Map ℕ) (room v : ℕ)
    → (member_in (load_rooms hashes rows) room v ≡ false)
      × (size_in (load_rooms hashes rows) room ≡ 0)
      × (epoch_in (load_rooms hashes rows) room ≡ get room rows)
unfolding load_rooms member_in size_in epoch_in get contains
load_rooms-empty hashes [] room v = (refl, refl, refl)
load_rooms-empty hashes ((r, epoch) ∷ rows) room v =
    ground (arith, load_rooms-empty hashes rows room v)

new_hub-IsConsistent : (hashes : Map ℕ) (db : Database) → IsConsistent (new_hub hashes db)
unfolding new_hub in_room is_tracked get
new_hub-IsConsistent hashes db = record {
  agree = λ room v. (load_rooms-empty hashes db.epochs room v).0;
  tracked = λ v. refl;
  within = λ room. omega (arith, load_rooms-empty hashes db.epochs room 0);
  stored = λ room. sym (load_rooms-empty hashes db.epochs room 0).2;
}

rejoin_wanted-IsConsistent :
    (clock : Clock) (user : ℕ) (want_room : Option ℕ) (h : Hub)
    → IsConsistent h
    → IsConsistent (rejoin_wanted clock user want_room h).0
unfolding rejoin_wanted
rejoin_wanted-IsConsistent clock user none h c = c
rejoin_wanted-IsConsistent clock user (some room) h c =
    let after = rejoin-IsConsistent clock user room h c in
    elim (Bool-cases (may_rejoin h user room)) [
      | inr e ↦ rw (e, rejoin_wanted) c
      | inl e ↦ elim (Option-cases (rejoin clock user room h).1) [
        | inl q ↦ rw (e, q, rejoin_wanted) after
        | inr (p, q) ↦ rw (e, q, rejoin_wanted) after
      ]
    ]

welcome-IsConsistent :
    (clock : Clock) (user : ℕ) (row : UserRow) (want_room : Option ℕ) (h : Hub)
    → IsConsistent h
    → IsConsistent (welcome clock user row want_room h).0
unfolding welcome fresh_session
welcome-IsConsistent clock user row want_room h c =
    let evicted = drop_session clock user h in
    let conn_id = evicted.next_conn + 1 in
    let session = fresh_session conn_id user row in
    let h1 = record evicted {
      next_conn = conn_id;
      sessions = insert user session evicted.sessions;
    } in
    rejoin_wanted-IsConsistent clock user want_room h1 (
      insert-Consistent evicted.rooms evicted.sessions evicted.db.epochs user session
        (drop_session-IsConsistent clock user h c) (drop_session-IsOut clock user h) refl refl)

find_user-epochs : (user : ℕ) (db : Database) → (find_user user db).0.epochs ≡ db.epochs
unfolding find_user
find_user-epochs user db = ground arith

mark_seen-epochs : (user now : ℕ) (db : Database) → (mark_seen user now db).0.epochs ≡ db.epochs
unfolding mark_seen
mark_seen-epochs user now db = ground arith

with_epochs :
    (h : Hub) (db : Database)
    → db.epochs ≡ h.db.epochs
    → IsConsistent h
    → IsConsistent (record h { db = db })
with_epochs h db e c = rw e c

connect-IsConsistent :
    (clock : Clock) (user pubkey : ℕ) (want_room : Option ℕ) (h : Hub)
    → IsConsistent h
    → IsConsistent (connect clock user pubkey want_room h).0
unfolding connect
connect-IsConsistent clock user pubkey want_room h c =
    let read = find_user user h.db in
    let h1 = record h { db = read.0 } in
    let c1 = with_epochs h read.0 (find_user-epochs user h.db) c in
    elim (Result-cases read.1) [
      | inr (e, q) ↦ rw (q, connect) c1
      | inl (stored, q) ↦ elim (Option-cases (with_pubkey pubkey stored)) [
        | inl o ↦ rw (q, o, connect) c1
        | inr (row, o) ↦
            let noted = mark_seen user clock.unix read.0 in
            let h2 = record h { db = noted.0 } in
            let c2 = with_epochs h1 noted.0 (mark_seen-epochs user clock.unix read.0) c1 in
            elim (Result-cases noted.1) [
              | inr (e, r) ↦ rw (q, o, r, connect) c2
              | inl (t, r) ↦
                  elim (Bool-cases (is_full_for row h2 && not (contains_key user h2.sessions))) [
                    | inl b ↦ rw (q, o, r, b, connect) c2
                    | inr b ↦
                        rw (q, o, r, b, connect)
                          (welcome-IsConsistent clock user row want_room h2 c2)
                  ]
            ]
      ]
    ]

-- What may happen to the hub next. A join that waits for its password is finished by a later
-- step, with whatever has happened to the hub in between.
pub data Step (h : Hub) : Hub → Type 0 where
  connects :
      (clock : Clock) (user pubkey : ℕ) (want_room : Option ℕ)
      → Step h (connect clock user pubkey want_room h).0
  disconnects : (clock : Clock) (user conn_id : ℕ) → Step h (disconnect clock user conn_id h)
  joins :
      (clock : Clock) (user : ℕ) (target password : Option ℕ)
      → Step h (join clock user target password h).0
  finishes_join :
      (clock : Clock) (user room hash : ℕ) (matched : Bool)
      → Step h (finish_join clock user room hash matched h).0
  sets_media :
      (clock : Clock) (user : ℕ) (media : MediaState) → Step h (set_media clock user media h).0
  publishes_key :
      (user epoch : ℕ) (wrapped : List (ℕ × List ℕ)) → Step h (publish_key user epoch wrapped h).0
  kicks :
      (clock : Clock) (user target room : ℕ) → Step h (kick_from_room clock user target room h).0
  deletes_room : (clock : Clock) (user room : ℕ) → Step h (delete_room clock user room h).0

-- The hubs that a database may lead to.
pub data Reach (hashes : Map ℕ) (db : Database) : Hub → Type 0 where
  starts : Reach hashes db (new_hub hashes db)
  later : {h h' : Hub} → Reach hashes db h → Step h h' → Reach hashes db h'

Step-IsConsistent : {h h' : Hub} → Step h h' → IsConsistent h → IsConsistent h'
Step-IsConsistent {h = h} (connects clock user pubkey want_room) c =
    connect-IsConsistent clock user pubkey want_room h c
Step-IsConsistent {h = h} (disconnects clock user conn_id) c =
    disconnect-IsConsistent clock user conn_id h c
Step-IsConsistent {h = h} (joins clock user target password) c =
    join-IsConsistent clock user target password h c
Step-IsConsistent {h = h} (finishes_join clock user room hash matched) c =
    finish_join-IsConsistent clock user room hash matched h c
Step-IsConsistent {h = h} (sets_media clock user media) c =
    set_media-IsConsistent clock user media h c
Step-IsConsistent {h = h} (publishes_key user epoch wrapped) c =
    publish_key-IsConsistent user epoch wrapped h c
Step-IsConsistent {h = h} (kicks clock user target room) c =
    kick_from_room-IsConsistent clock user target room h c
Step-IsConsistent {h = h} (deletes_room clock user room) c =
    delete_room-IsConsistent clock user room h c

-- However connections, joins, kicks and the rest follow one another, and whichever database
-- transactions fail: a user is a member of a room exactly if their session is in it, whoever is
-- in a room has its tracks, no room has more than 30 members, and the database has the epoch of
-- every room.
pub Reach-IsConsistent :
    {hashes : Map ℕ} {db : Database} {h : Hub} → Reach hashes db h → IsConsistent h
Reach-IsConsistent {hashes = hashes} {db = db} starts = new_hub-IsConsistent hashes db
Reach-IsConsistent (later before step) = Step-IsConsistent step (Reach-IsConsistent before)
