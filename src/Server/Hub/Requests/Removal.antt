-- ===== src/Server/Hub/Requests/Removal.antt =====
-- Dropping a session and deleting a room keep members, sessions and stored epochs in agreement.
use throcc.Prelude.{
  ℕ, ◌≡◌, refl, ap, ◌∙◌, Bool, true, false, List, [], ◌∷◌, none, ok, err, ◌==◌, if◌then◌else◌,
  arith, Option-cases, Bool-cases, Result-cases, inl, inr, ==-refl, ==_iff,
}
use throcc.Prelude.Map.{Map, Set, get, insert, remove, contains, get-insert, get-remove}
use throcc.Server.Hub.State.{
  ErrorCode, RoomEntry, Session, Hub, Clock, Database, delete_room_row, keys,
}
use throcc.Server.Hub.Place.{place, leave_room, room_entry}
use throcc.Server.Hub.Place.Rooms.{member_in, in_room, size_in, epoch_in}
use throcc.Server.Hub.Place.Steps.{Consistent, IsConsistent, is_tracked}
use throcc.Server.Hub.Place.Consistent.{place-IsConsistent}
use throcc.Server.Hub.Place.Epochs.{place-out}
use throcc.Server.Hub.Place.Leave.{leave_room-IsConsistent, in_room-leave_room}
use throcc.Server.Hub.Requests.{
  place_out, drop_room, delete_room, may_delete, drop_session, disconnect, is_current,
}

-- The user is in no room.
abbrev pub IsOut : Map Session → ℕ → Type 0
IsOut sessions user = (room : ℕ) → in_room sessions user room ≡ false

remove-Consistent :
    (rooms : Map RoomEntry) (sessions : Map Session) (epochs : Map ℕ) (user : ℕ)
    → Consistent rooms sessions epochs
    → IsOut sessions user
    → Consistent rooms (remove user sessions) epochs
unfolding in_room is_tracked
remove-Consistent rooms sessions epochs user c out = record {
  agree = λ room v. ground (arith, c.agree room v, out room, get-remove v user sessions);
  tracked = λ v. ground (arith, c.tracked v, get-remove v user sessions);
  within = c.within;
  stored = c.stored;
}

pub insert-Consistent :
    (rooms : Map RoomEntry) (sessions : Map Session) (epochs : Map ℕ) (user : ℕ) (s : Session)
    → Consistent rooms sessions epochs
    → IsOut sessions user
    → s.room ≡ none
    → s.tracks ≡ none
    → Consistent rooms (insert user s sessions) epochs
unfolding in_room is_tracked
insert-Consistent rooms sessions epochs user s c out e f = record {
  agree = λ room v. ground (arith, c.agree room v, out room, get-insert v user s sessions);
  tracked = λ v. ground (arith, c.tracked v, get-insert v user s sessions);
  within = c.within;
  stored = c.stored;
}

pub drop_session-IsConsistent :
    (clock : Clock) (user : ℕ) (h : Hub) → IsConsistent h → IsConsistent (drop_session clock user h)
unfolding drop_session
drop_session-IsConsistent clock user h c =
    let left = leave_room clock user h in
    remove-Consistent left.rooms left.sessions left.db.epochs user
      (leave_room-IsConsistent clock user h c) (λ room. in_room-leave_room clock user room h)

-- A dropped session is gone, and so in no room.
pub drop_session-IsOut :
    (clock : Clock) (user : ℕ) (h : Hub) → IsOut (drop_session clock user h).sessions user
unfolding drop_session in_room
drop_session-IsOut clock user h room =
    ground (arith, get-remove user user (leave_room clock user h).sessions, ==-refl user)

pub disconnect-IsConsistent :
    (clock : Clock) (user conn_id : ℕ) (h : Hub)
    → IsConsistent h
    → IsConsistent (disconnect clock user conn_id h)
unfolding disconnect
disconnect-IsConsistent clock user conn_id h c = elim (Bool-cases (is_current h user conn_id)) [
  | inl e ↦ rw (e, disconnect) (drop_session-IsConsistent clock user h c)
  | inr e ↦ rw (e, disconnect) c
]

abbrev any_is : ℕ → List ℕ → Bool
any_is v [] = false
any_is v (m ∷ ms) = if v == m then true else any_is v ms

place_out-IsConsistent :
    (clock : Clock) (ms : List ℕ) (h : Hub) → IsConsistent h → IsConsistent (place_out clock ms h).0
unfolding place_out
place_out-IsConsistent clock [] h c = c
place_out-IsConsistent clock (m ∷ ms) h c =
    let placed = place-IsConsistent clock m none h c in
    elim (Result-cases (place clock m none h).1) [
      | inr (e, q) ↦ rw (q, place_out) placed
      | inl (p, q) ↦
          rw (q, place_out) (place_out-IsConsistent clock ms (place clock m none h).0 placed)
    ]

place_out-in_room :
    (clock : Clock) (ms : List ℕ) (h : Hub) (v room : ℕ)
    → (place_out clock ms h).1 ≡ ok tt
    → in_room (place_out clock ms h).0.sessions v room
      ≡ (if any_is v ms then false else in_room h.sessions v room)
unfolding place_out
place_out-in_room clock [] h v room e = refl
place_out-in_room clock (m ∷ ms) h v room e = elim (Result-cases (place clock m none h).1) [
  | inr (x, q) ↦ absurd (ground arith)
  | inl (p, q) ↦
      let h1 = (place clock m none h).0 in
      rw (q, place_out)
        (place_out-in_room clock ms h1 v room (ground arith)
          ∙ rw (place-out clock m v room h p q)
              (ground (arith, Bool-cases (v == m), Bool-cases (any_is v ms))))
]

any_is-keys : (v : ℕ) (members : Set) → any_is v (keys members) ≡ contains v members
unfolding keys contains get
any_is-keys v [] = refl
any_is-keys v ((m, u) ∷ members) = ground (arith, any_is-keys v members)

failed_row :
    (room : ℕ) (db : Database) (e : ErrorCode)
    → (delete_room_row room db).1 ≡ err e
    → (delete_room_row room db).0.epochs ≡ db.epochs
unfolding delete_room_row
failed_row room db e q = ground arith

deleted_row :
    (room : ℕ) (db : Database) (t : Unit {0})
    → (delete_room_row room db).1 ≡ ok t
    → (delete_room_row room db).0.epochs ≡ remove room db.epochs
unfolding delete_room_row
deleted_row room db t q = ground arith

remove_room-Consistent :
    (rooms : Map RoomEntry) (sessions : Map Session) (epochs : Map ℕ) (room : ℕ)
    → Consistent rooms sessions epochs
    → ((v : ℕ) → in_room sessions v room ≡ false)
    → Consistent (remove room rooms) sessions (remove room epochs)
unfolding member_in size_in epoch_in
remove_room-Consistent rooms sessions epochs room c out = record {
  agree = λ r v. elim (Bool-cases (room == r)) [
    | inl e ↦
        ground
          (arith, out v, ap (in_room sessions v) ((==_iff room r).0 e), get-remove r room rooms)
    | inr e ↦ ground (arith, c.agree r v, get-remove r room rooms)
  ];
  tracked = c.tracked;
  within = λ r. ground (arith, c.within r, get-remove r room rooms);
  stored = λ r. ground (arith, c.stored r, get-remove r room rooms, get-remove r room epochs);
}

-- A room that nobody is in goes with its row.
drop_room-IsConsistent :
    (room : ℕ) (h : Hub)
    → IsConsistent h
    → ((v : ℕ) → in_room h.sessions v room ≡ false)
    → IsConsistent (drop_room room h).0
unfolding drop_room
drop_room-IsConsistent room h c out = elim (Result-cases (delete_room_row room h.db).1) [
  | inr (e, q) ↦ rw (q, drop_room, failed_row room h.db e q) c
  | inl (t, q) ↦
      rw (q, drop_room, deleted_row room h.db t q)
        (remove_room-Consistent h.rooms h.sessions h.db.epochs room c out)
]

may_delete-members :
    (h : Hub) (user room : ℕ) (ms : List ℕ)
    → IsConsistent h
    → may_delete h user room ≡ ok ms
    → (v : ℕ) → in_room h.sessions v room ≡ any_is v ms
unfolding may_delete room_entry member_in
may_delete-members h user room ms c e v = elim (Option-cases (get room h.rooms)) [
  | inl q ↦ absurd (ground arith)
  | inr (entry, q) ↦ ground (arith, c.agree room v, any_is-keys v entry.members)
]

pub delete_room-IsConsistent :
    (clock : Clock) (user room : ℕ) (h : Hub)
    → IsConsistent h
    → IsConsistent (delete_room clock user room h).0
unfolding delete_room
delete_room-IsConsistent clock user room h c = elim (Result-cases (may_delete h user room)) [
  | inr (e, q) ↦ rw (q, delete_room) c
  | inl (ms, q) ↦
      let emptied = place_out-IsConsistent clock ms h c in
      elim (Result-cases (place_out clock ms h).1) [
        | inr (e, r) ↦ rw (q, r, delete_room) emptied
        | inl (t, r) ↦
            rw (q, r, delete_room)
              (drop_room-IsConsistent room (place_out clock ms h).0 emptied (λ v.
                place_out-in_room clock ms h v room r
                ∙ ground (arith, may_delete-members h user room ms c q v)))
      ]
]
