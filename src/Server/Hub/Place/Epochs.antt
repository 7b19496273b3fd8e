-- ===== src/Server/Hub/Place/Epochs.antt =====
-- What `place` does to the epochs and to who is where: all of it, or nothing.
use throcc.Prelude.{
  ℕ, ◌+◌, ◌≡◌, refl, ap, ◌∙◌, Bool, true, false, ◌||◌, List, ◌++◌, Option, none, some, ok, err,
  ◌==◌, if◌then◌else◌, arith, Option-cases, Bool-cases, ==-refl, Result-cases, inl, inr,
}
use throcc.Prelude.Map.{Map, get, insert}
use throcc.Server.Hub.State.{ErrorCode, RoomEntry, Session, Hub, Clock}
use throcc.Server.Hub.Place.{
  update_some, remove_member, insert_member, same_room, allocate_for, next_epochs, next_epoch,
  room_entry, relocate, notify, to_list, may_enter, place, Placement, session, moved,
}
use throcc.Server.Hub.Place.Rooms.{
  epoch_in, in_room, listed, map_option, epoch_in-members, set_entry_epochs-views,
}
use throcc.Server.Hub.Place.Outcome.{Success, move-outcome}
use throcc.Server.Hub.Place.Steps.{allocate_for-keeps, notify-keeps}
use throcc.Server.Hub.Place.Consistent.{in_room-of, relocate-fields, in_room-moved}

-- Whether a room is the one that is left or the one that is entered.
abbrev pub changes_room : Option ℕ → Option ℕ → ℕ → Bool
changes_room current target room = same_room current (some room) || same_room target (some room)

-- The epoch after the one that a room has.
abbrev pub next_of : Option ℕ → Option ℕ
next_of = map_option (λ e. e + 1)

next_epochs-listed :
    (h : Hub) (current target : Option ℕ) (changes : List (ℕ × ℕ)) (room : ℕ)
    → next_epochs h (to_list current ++ to_list target) ≡ ok changes
    → listed changes room (epoch_in h.rooms room) ≡ (
        if changes_room current target room
        then next_of (epoch_in h.rooms room)
        else epoch_in h.rooms room)
unfolding next_epochs next_epoch room_entry epoch_in
next_epochs-listed h none none changes room e = ground arith
next_epochs-listed h (some a) none changes room e = elim (Option-cases (get a h.rooms)) [
  | inl q ↦ ground arith
  | inr (x, q) ↦ ground arith
]
next_epochs-listed h none (some b) changes room e = elim (Option-cases (get b h.rooms)) [
  | inl q ↦ ground arith
  | inr (x, q) ↦ ground arith
]
next_epochs-listed h (some a) (some b) changes room e = elim (Option-cases (get a h.rooms)) [
  | inl q ↦ ground arith
  | inr (x, q) ↦ elim (Option-cases (get b h.rooms)) [
    | inl p ↦ ground arith
    | inr (y, p) ↦ ground arith
  ]
]

epoch_in-update_some :
    (o : Option ℕ) (f : RoomEntry → RoomEntry) (rooms : Map RoomEntry) (room : ℕ)
    → ((e : RoomEntry) → (f e).epoch ≡ e.epoch)
    → epoch_in (update_some o f rooms) room ≡ epoch_in rooms room
epoch_in-update_some none f rooms room same = refl
epoch_in-update_some (some k) f rooms room same = epoch_in-members rooms k room f same

-- What both sessions and epochs are after a move of `user`.
pub record Moves (user : ℕ) (current target : Option ℕ) (h h' : Hub) : Type 0 where
  pub epochs :
      (room : ℕ)
      → epoch_in h'.rooms room ≡ (
          if changes_room current target room
          then next_of (epoch_in h.rooms room)
          else epoch_in h.rooms room)
  pub sessions :
      (v room : ℕ)
      → in_room h'.sessions v room
        ≡ (if v == user then same_room target (some room) else in_room h.sessions v room)

Success-Moves :
    (user : ℕ) (current target : Option ℕ) (h : Hub) (s : Session)
    → get user h.sessions ≡ some s
    → (w : Success user current target h)
    → Moves user current target h
        (notify user current target (relocate user current target w.tracks w.stored))
Success-Moves user current target h s here w = record {
  epochs = λ room.
      ap (λ x. epoch_in x room) (told.0 ∙ fields.0)
      ∙ epoch_in-update_some target (insert_member user)
          (update_some current (remove_member user) w.stored.rooms) room (λ e. refl)
      ∙ epoch_in-update_some current (remove_member user) w.stored.rooms room (λ e. refl)
      ∙ ap (λ x. epoch_in x room) w.rooms
      ∙ (set_entry_epochs-views w.changes h.rooms room 0).3
      ∙ numbers room;
  sessions = λ v room.
      ap (λ x. in_room x v room) (told.1 ∙ fields.1)
      ∙ in_room-moved w.stored.sessions user target w.tracks s v room
      ∙ rw w.sessions;
}
  where
    after : Hub
    after = relocate user current target w.tracks w.stored

    told :
        ((notify user current target after).rooms ≡ after.rooms)
        × ((notify user current target after).sessions ≡ after.sessions)
        × ((notify user current target after).db ≡ after.db)
    told = notify-keeps user current target after

    fields :
        (after.rooms
          ≡ update_some target
              (insert_member user)
              (update_some current (remove_member user) w.stored.rooms))
        × (after.sessions ≡ insert user (moved target w.tracks s) w.stored.sessions)
        × (after.db ≡ w.stored.db)
    fields =
        relocate-fields user current target w.tracks w.stored s (ap (get user) w.sessions ∙ here)

    numbers :
        (room : ℕ)
        → listed w.changes room (epoch_in h.rooms room) ≡ (
            if changes_room current target room
            then next_of (epoch_in h.rooms room)
            else epoch_in h.rooms room)
    numbers room =
        rw (allocate_for-keeps target h).0 at
          (next_epochs-listed (allocate_for target h).0 current target w.changes room w.next)

-- A move that succeeds takes both rooms that it touches to their next epoch and no other room,
-- and takes the user, and nobody else, from where they were to the target.
pub place-Moves :
    (clock : Clock) (user : ℕ) (target : Option ℕ) (h : Hub) (s : Session) (p : Placement)
    → get user h.sessions ≡ some s
    → same_room s.room target ≡ false
    → (place clock user target h).1 ≡ ok p
    → Moves user s.room target h (place clock user target h).0
unfolding place session
place-Moves clock user target h s p here apart e =
    elim (Result-cases (may_enter clock s target h)) [
      | inr (x, m) ↦ absurd (ground arith)
      | inl (x, m) ↦ elim (move-outcome user s.room target h) [
        | inr f ↦ absurd (ground (arith, f.refused))
        | inl w ↦
            rw (here, apart, m, place, session, w.result)
              (Success-Moves user s.room target h s here w)
      ]
    ]

-- A move that is refused leaves every member, every session and every stored epoch as it was,
-- whether the room, the user's key, the media ids or the database refused it.
pub place_refused :
    (clock : Clock) (user : ℕ) (target : Option ℕ) (h : Hub) (e : ErrorCode)
    → (place clock user target h).1 ≡ err e
    → ((place clock user target h).0.rooms ≡ h.rooms)
      × ((place clock user target h).0.sessions ≡ h.sessions)
      × ((place clock user target h).0.db.epochs ≡ h.db.epochs)
unfolding place session
place_refused clock user target h e q = elim (Option-cases (get user h.sessions)) [
  | inl n ↦ ground arith
  | inr (s, here) ↦ elim (Result-cases (may_enter clock s target h)) [
    | inr (x, m) ↦ ground arith
    | inl (x, m) ↦ elim (move-outcome user s.room target h) [
      | inr f ↦ ground (arith, f.rooms, f.sessions, f.epochs)
      | inl w ↦ ground (arith, w.result)
    ]
  ]
]

-- A user who was placed in a room is in it.
pub place-in_room :
    (clock : Clock) (user room : ℕ) (h : Hub) (p : Placement)
    → (place clock user (some room) h).1 ≡ ok p
    → in_room (place clock user (some room) h).0.sessions user room ≡ true
unfolding place session
place-in_room clock user room h p e = elim (Option-cases (get user h.sessions)) [
  | inl q ↦ absurd (ground arith)
  | inr (s, q) ↦ elim (Bool-cases (same_room s.room (some room))) [
    | inl w ↦ rw (q, w, place, session) (in_room-of h.sessions user room s q ∙ w)
    | inr w ↦
        (place-Moves clock user (some room) h s p q w e).sessions user room
        ∙ rw (==-refl user, ==-refl room)
  ]
]

-- A user who was sent to the lobby is in no room, and nobody else has moved.
pub place-out :
    (clock : Clock) (user v room : ℕ) (h : Hub) (p : Placement)
    → (place clock user none h).1 ≡ ok p
    → in_room (place clock user none h).0.sessions v room
      ≡ (if v == user then false else in_room h.sessions v room)
unfolding place session
place-out clock user v room h p e = elim (Option-cases (get user h.sessions)) [
  | inl q ↦ absurd (ground arith)
  | inr (s, q) ↦ elim (Bool-cases (same_room s.room none)) [
    | inl w ↦ rw (q, w, place, session) (unfold in_room in ground arith)
    | inr w ↦ (place-Moves clock user none h s p q w e).sessions v room
  ]
]
