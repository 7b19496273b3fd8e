-- ===== src/Server/Hub/Join.antt =====
-- Entering rooms on a user's request: `join`, `finish_join`, `enter` and `rejoin` of
-- crates/throcc-server/src/rooms.rs. Between `join` and `finish_join` a password is compared
-- with a hash outside the hub; what that gave comes in as `matched`.
pub mod Laws
mod Arrival
mod Tests
use throcc.Prelude.{
  ℕ, Bool, true, false, not, ◌&&◌, ◌||◌, Option, none, some, Result, ok, err, leb, ◌==◌,
  if◌then◌else◌, length, ◌>>=◌,
}
use throcc.Prelude.Map
use throcc.Prelude.Map.{Map}
use throcc.Proto.Permissions.{can_manage_rooms}
use throcc.Server.Buckets.{Buckets, take_for, holds_for}
use throcc.Server.Guesses
use throcc.Server.Hub.State.{
  max_room_members, ErrorCode, rate_limited, wrong_password, full, Session, RoomEntry, Hub, Clock,
  Method,
}
use throcc.Server.Hub.Place.{Placement, same_room, session, room_entry, place}

-- `Handled`, and the `PasswordWork::Join` that it hands out.
pub data Handled : Type 0 where
  done : Placement → Handled
  pending : (room password hash : ℕ) → Handled

pub enters_another_room : Hub → ℕ → Option ℕ → Result ErrorCode Bool
enters_another_room h user none = ok false
enters_another_room h user (some room) = do
  s ← session h user
  ok (not (same_room s.room (some room)))

-- The check that comes before any password work.
pub has_place : Hub → ℕ → Option ℕ → Result ErrorCode (Unit {0})
has_place h user none = ok tt
has_place h user (some room) = do
  s ← session h user
  if same_room s.room (some room) then ok tt else elim (room_entry h room) [
    | err e ↦ err e
    | ok entry ↦ if leb max_room_members (length entry.members) then err full else ok tt
  ]

-- The hash of the password that `user` needs to enter `room`, if they need one.
pub password_to_enter : Hub → ℕ → ℕ → Result ErrorCode (Option ℕ)
password_to_enter h user room = elim (room_entry h room) [
  | err e ↦ err e
  | ok entry ↦ elim entry.password_hash [
    | none ↦ ok none
    | some hash ↦ elim (session h user) [
      | err e ↦ err e
      | ok s ↦
          if same_room s.room (some room) || can_manage_rooms s.role
          then ok none
          else ok (some hash)
    ]
  ]
]

pub joined : ℕ → Option ℕ → Map ℕ → Map ℕ
joined user none last = Map.remove user last
joined user (some room) last = Map.insert user room last

-- What is written back of the room changes: nothing, where they were not asked.
abbrev pub charge : Bool → Buckets → Hub → Hub
charge moving b h = record h { room_changes = if moving then b else h.room_changes }

pub enter : Clock → ℕ → Option ℕ → Method Placement
enter clock user target h = elim (enters_another_room h user target) [
  | err e ↦ (h, err e)
  | ok moving ↦
      let (room_changes, taken) = take_for h.room_changes user 1 clock.instant in
      let h1 = charge moving room_changes h in
      let (h2, placed) = place clock user target h1 in
      if moving && not taken then (h1, err rate_limited) else elim placed [
        | err e ↦ (h2, err e)
        | ok placement ↦
            (record h2 { last_joined = joined user target h2.last_joined }, ok placement)
      ]
]

-- `join` once a password is needed: the guess is counted before the work is handed out.
pub try_password : Clock → ℕ → ℕ → ℕ → Option ℕ → Method Handled
try_password clock user room hash none h = (h, err wrong_password)
try_password clock user room hash (some password) h =
    let (guesses, allowed) = Guesses.check user room clock.instant h.guesses in
    let h1 = record h { guesses = guesses } in
    let (tries, taken) = take_for h.password_tries user 1 clock.instant in
    elim allowed [
      | err wait ↦ (h1, err rate_limited)
      | ok _ ↦
          let h2 = record h1 { password_tries = tries } in
          if taken then (h2, ok (pending room password hash)) else (h2, err rate_limited)
    ]

pub enter_done : Clock → ℕ → Option ℕ → Method Handled
enter_done clock user target h =
    let (h', r) = enter clock user target h in
    elim r [ err e ↦ (h', err e) | ok p ↦ (h', ok (done p)) ]

-- The part of `join` after the room's size was checked.
pub ask_password : Clock → ℕ → Option ℕ → Option ℕ → Method Handled
ask_password clock user none password h = enter_done clock user none h
ask_password clock user (some room) password h = elim (password_to_enter h user room) [
  | err e ↦ (h, err e)
  | ok needed ↦ elim needed [
    | none ↦ enter_done clock user (some room) h
    | some hash ↦ try_password clock user room hash password h
  ]
]

pub join : Clock → ℕ → Option ℕ → Option ℕ → Method Handled
join clock user target password h = elim (enters_another_room h user target) [
  | err e ↦ (h, err e)
  | ok moving ↦
      let (room_changes, held) = holds_for h.room_changes user 1 clock.instant in
      let h1 = charge moving room_changes h in
      let asked = ask_password clock user target password h1 in
      if moving && not held
      then (h1, err rate_limited)
      else elim (has_place h1 user target) [ err e ↦ (h1, err e) | ok _ ↦ asked ]
]

-- Whether the room still asks for the password that was checked, if for any.
abbrev pub still_asked : Option ℕ → ℕ → Bool
still_asked none hash = true
still_asked (some current) hash = current == hash

pub finish_join : Clock → ℕ → ℕ → ℕ → Bool → Method Placement
finish_join clock user room hash false h =
    let (guesses, _) = Guesses.failed user room clock.instant h.guesses in
    (record h { guesses = guesses }, err wrong_password)
finish_join clock user room hash true h =
    let h1 = record h { guesses = Guesses.succeeded user room h.guesses } in
    let entered = enter clock user (some room) h1 in
    elim (password_to_enter h1 user room) [
      | err e ↦ (h1, err e)
      | ok current ↦ if still_asked current hash then entered else (h1, err wrong_password)
    ]

-- `rejoin_allowance`, taken from with `&mut`.
abbrev pub allowance : Bool → Hub → Buckets
allowance true h = h.rejoins
allowance false h = h.room_changes

abbrev pub set_allowance : Bool → Buckets → Hub → Hub
set_allowance returning b h = record h {
  rejoins = if returning then b else h.rejoins;
  room_changes = if returning then h.room_changes else b;
}

pub rejoin : Clock → ℕ → ℕ → Hub → Hub × Option Placement
rejoin clock user room h =
    let returning = same_room (Map.get user h.last_joined) (some room) in
    let (holding, held) = holds_for (allowance returning h) user 1 clock.instant in
    let h1 = set_allowance returning holding h in
    let (h2, placed) = place clock user (some room) h1 in
    let (taking, _) = take_for (allowance returning h2) user 1 clock.instant in
    if held
    then elim placed [
      | err e ↦ (h2, none)
      | ok placement ↦ (set_allowance returning taking h2, some placement)
    ]
    else (h1, none)

abbrev pub is_unlocked : Option RoomEntry → Bool
is_unlocked none = false
is_unlocked (some entry) = elim entry.password_hash [ none ↦ true | some _ ↦ false ]

abbrev pub manages : Option Session → Bool
manages none = false
manages (some s) = can_manage_rooms s.role

pub may_rejoin : Hub → ℕ → ℕ → Bool
may_rejoin h user room =
    is_unlocked (Map.get room h.rooms)
    || manages (Map.get user h.sessions)
    || same_room (Map.get user h.last_joined) (some room)
