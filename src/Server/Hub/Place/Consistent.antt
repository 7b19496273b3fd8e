-- ===== src/Server/Hub/Place/Consistent.antt =====
-- Placing a user and taking one out keep members, sessions and stored epochs in agreement.
use throcc.Prelude.{
  ℕ, ◌≤◌, ◌<◌, ◌≡◌, refl, ap, sym, ◌∙◌, true, Option, none, some, ok, ◌==◌, if◌then◌else◌, arith,
  Option-cases, Bool-cases, Result-cases, inl, inr,
}
use throcc.Prelude.Map.{Map, get, insert, get-insert}
use throcc.Server.Hub.State.{RoomEntry, Session, Hub, Tracks, Clock, max_room_members}
use throcc.Server.Hub.Place.{
  update, allocate_tracks, set_entry_epochs, remove_member, insert_member, update_some, same_room,
  moved, allocate_for, set_membership, relocate, notify, may_enter, move, place, session,
  room_entry,
}
use throcc.Server.Hub.Place.Rooms.{
  member_in, size_in, epoch_in, has_room, in_room, member_in-remove, member_in-insert,
  size_in-remove, size_in-insert, has_room-update, epoch_in-members, set_entry_epochs-views,
}
use throcc.Server.Hub.Place.Outcome.{Success, move-outcome}
use throcc.Server.Hub.Place.Steps.{
  IsConsistent-same, is_tracked, Consistent, IsConsistent, notify-keeps, set_epochs-Consistent,
}

-- The target is the lobby, or a room with a place left.
abbrev pub HasPlace : Map RoomEntry → Option ℕ → Type 0
HasPlace rooms none = Unit
HasPlace rooms (some t) = (has_room rooms t ≡ true) × (size_in rooms t < max_room_members)

-- Tracks go with a room.
abbrev pub Paired : Option ℕ → Option Tracks → Type 0
Paired none none = Unit
Paired (some t) (some tracks) = Unit
Paired _ _ = ⊥

pub in_room-moved :
    (sessions : Map Session) (user : ℕ) (target : Option ℕ) (tracks : Option Tracks) (s : Session)
    (v room : ℕ)
    → in_room (insert user (moved target tracks s) sessions) v room
      ≡ (if v == user then same_room target (some room) else in_room sessions v room)
unfolding in_room
in_room-moved sessions user target tracks s v room =
    ground (arith, get-insert v user (moved target tracks s) sessions)

is_tracked-moved :
    (sessions : Map Session) (user : ℕ) (target : Option ℕ) (tracks : Option Tracks) (s : Session)
    (v : ℕ)
    → Paired target tracks
    → is_tracked sessions v ≡ true
    → is_tracked (insert user (moved target tracks s) sessions) v ≡ true
unfolding is_tracked
is_tracked-moved sessions user none none s v p h =
    ground (arith, get-insert v user (moved none none s) sessions)
is_tracked-moved sessions user none (some x) s v p h = absurd p
is_tracked-moved sessions user (some t) none s v p h = absurd p
is_tracked-moved sessions user (some t) (some x) s v p h =
    ground (arith, get-insert v user (moved (some t) (some x) s) sessions)

pub in_room-of :
    (sessions : Map Session) (user room : ℕ) (s : Session)
    → get user sessions ≡ some s
    → in_room sessions user room ≡ same_room s.room (some room)
unfolding in_room
in_room-of sessions user room s e = rw (e, in_room)

module _ (rooms : Map RoomEntry) (sessions : Map Session) (epochs : Map ℕ)
    (c : Consistent rooms sessions epochs) (user : ℕ) (s : Session)
    (here : get user sessions ≡ some s) where
  abbrev after_rooms : Option ℕ → Option ℕ → Map RoomEntry
  after_rooms current target =
      update_some target (insert_member user) (update_some current (remove_member user) rooms)

  -- Whom the members have once `user` has moved.
  members_after :
      (current target : Option ℕ) (room v : ℕ)
      → s.room ≡ current
      → HasPlace rooms target
      → member_in (after_rooms current target) room v
        ≡ (if v == user then same_room target (some room) else member_in rooms room v)
  members_after none none room v e p =
      ground (arith, c.agree room v, in_room-of sessions user room s here)
  members_after (some a) none room v e p = ground (
    arith,
    c.agree room v,
    in_room-of sessions user room s here,
    member_in-remove rooms a user room v,
  )
  members_after none (some b) room v e p = ground (
    arith,
    c.agree room v,
    in_room-of sessions user room s here,
    member_in-insert rooms b user room v p.0,
  )
  members_after (some a) (some b) room v e p = ground (
    arith,
    c.agree room v,
    in_room-of sessions user room s here,
    member_in-remove rooms a user room v,
    has_room-update rooms a b (remove_member user),
    member_in-insert (update a (remove_member user) rooms) b user room v,
  )

  sizes_after :
      (current target : Option ℕ) (room : ℕ)
      → HasPlace rooms target
      → size_in (after_rooms current target) room ≤ max_room_members
  sizes_after none none room p = c.within room
  sizes_after (some a) none room p = omega (arith, c.within room, size_in-remove rooms a user room)
  sizes_after none (some b) room p = ground (arith, c.within room, size_in-insert rooms b user room)
  sizes_after (some a) (some b) room p = ground (
    arith,
    c.within room,
    size_in-remove rooms a user room,
    size_in-insert (update a (remove_member user) rooms) b user room,
  )

  epochs_after :
      (current target : Option ℕ) (room : ℕ)
      → epoch_in (after_rooms current target) room ≡ epoch_in rooms room
  epochs_after none none room = refl
  epochs_after (some a) none room = epoch_in-members rooms a room (remove_member user) (λ e. refl)
  epochs_after none (some b) room = epoch_in-members rooms b room (insert_member user) (λ e. refl)
  epochs_after (some a) (some b) room =
      epoch_in-members (update a (remove_member user) rooms) b room (insert_member user) (λ e. refl)
      ∙ epoch_in-members rooms a room (remove_member user) (λ e. refl)

  moved-Consistent :
      (current target : Option ℕ) (tracks : Option Tracks)
      → s.room ≡ current
      → HasPlace rooms target
      → Paired target tracks
      → Consistent
          (after_rooms current target)
          (insert user (moved target tracks s) sessions)
          epochs
  moved-Consistent current target tracks e p q = record {
    agree = λ room v.
        members_after current target room v e p
        ∙ ground (arith, c.agree room v, in_room-moved sessions user target tracks s v room);
    tracked = λ v. is_tracked-moved sessions user target tracks s v q (c.tracked v);
    within = λ room. sizes_after current target room p;
    stored = λ room. c.stored room ∙ sym (epochs_after current target room);
  }

pub relocate-fields :
    (user : ℕ) (current target : Option ℕ) (tracks : Option Tracks) (h : Hub) (s : Session)
    → get user h.sessions ≡ some s
    → ((relocate user current target tracks h).rooms
        ≡ update_some target
            (insert_member user)
            (update_some current (remove_member user) h.rooms))
      × ((relocate user current target tracks h).sessions
          ≡ insert user (moved target tracks s) h.sessions)
      × ((relocate user current target tracks h).db ≡ h.db)
unfolding relocate set_membership
relocate-fields user current target tracks h s here = ground arith

pub relocate-IsConsistent :
    (user : ℕ) (current target : Option ℕ) (tracks : Option Tracks) (h : Hub) (s : Session)
    → IsConsistent h
    → get user h.sessions ≡ some s
    → s.room ≡ current
    → HasPlace h.rooms target
    → Paired target tracks
    → IsConsistent (relocate user current target tracks h)
relocate-IsConsistent user current target tracks h s c here e p q =
    let (r, m, d) = relocate-fields user current target tracks h s here in
    rw (r, m, d)
      (moved-Consistent h.rooms h.sessions h.db.epochs c user s here current target tracks e p q)

may_enter-HasPlace :
    (clock : Clock) (s : Session) (target : Option ℕ) (h : Hub)
    → may_enter clock s target h ≡ ok tt
    → HasPlace h.rooms target
unfolding may_enter room_entry has_room size_in
may_enter-HasPlace clock s none h e = tt
may_enter-HasPlace clock s (some t) h e = elim (Option-cases (get t h.rooms)) [
  | inl q ↦ ground arith
  | inr (entry, q) ↦ ground arith
]

HasPlace-same :
    (rooms rooms' : Map RoomEntry) (target : Option ℕ)
    → ((r : ℕ) → (has_room rooms' r ≡ has_room rooms r) × (size_in rooms' r ≡ size_in rooms r))
    → HasPlace rooms target
    → HasPlace rooms' target
HasPlace-same rooms rooms' none same p = tt
HasPlace-same rooms rooms' (some t) same p = ground (arith, same t)

Paired-allocate_for :
    (target : Option ℕ) (h : Hub) (tracks : Option Tracks)
    → (allocate_for target h).1 ≡ ok tracks
    → Paired target tracks
unfolding allocate_tracks
Paired-allocate_for none h none e = tt
Paired-allocate_for none h (some x) e = cc
Paired-allocate_for (some t) h none e = ground arith
Paired-allocate_for (some t) h (some x) e = tt

move-IsConsistent :
    (user : ℕ) (target : Option ℕ) (h : Hub) (s : Session)
    → IsConsistent h
    → get user h.sessions ≡ some s
    → HasPlace h.rooms target
    → IsConsistent (move user s.room target h).0
move-IsConsistent user target h s c here p = elim (move-outcome user s.room target h) [
  | inr f ↦ IsConsistent-same h (move user s.room target h).0 f.rooms f.sessions f.epochs c
  | inl w ↦ rw w.result (told w)
]
  where
    stored-IsConsistent : (w : Success user s.room target h) → IsConsistent w.stored
    stored-IsConsistent w = rw (w.rooms, w.epochs, w.sessions) (set_epochs-Consistent w.changes h c)

    stored-HasPlace : (w : Success user s.room target h) → HasPlace w.stored.rooms target
    stored-HasPlace w = rw w.rooms (
        HasPlace-same h.rooms (set_entry_epochs w.changes h.rooms) target
          (λ r. let (m, x, z, e) = set_entry_epochs-views w.changes h.rooms r 0 in (x, z)) p)

    told :
        (w : Success user s.room target h)
        → IsConsistent (notify user s.room target (relocate user s.room target w.tracks w.stored))
    told w =
        let after = relocate user s.room target w.tracks w.stored in
        let (r, m, d) = notify-keeps user s.room target after in
        IsConsistent-same after (notify user s.room target after) r m (ap (λ x. x.epochs) d) (
          relocate-IsConsistent user s.room target w.tracks w.stored s (stored-IsConsistent w)
            (ap (get user) w.sessions ∙ here) refl (stored-HasPlace w)
            (Paired-allocate_for target h w.tracks w.allocated))

-- Wherever a user is sent and whatever fails on the way: if members, sessions and stored epochs
-- agree, every session in a room has its tracks and no room is overfull, then so it is
-- afterwards.
pub place-IsConsistent :
    (clock : Clock) (user : ℕ) (target : Option ℕ) (h : Hub)
    → IsConsistent h
    → IsConsistent (place clock user target h).0
unfolding place session
place-IsConsistent clock user target h c = elim (Option-cases (get user h.sessions)) [
  | inl q ↦ rw (q, place, session) c
  | inr (s, q) ↦ elim (Bool-cases (same_room s.room target)) [
    | inl e ↦ rw (q, e, place, session) c
    | inr e ↦ elim (Result-cases (may_enter clock s target h)) [
      | inr (x, m) ↦ rw (q, e, m, place, session) c
      | inl (x, m) ↦
          rw (q, e, m, place, session)
            (move-IsConsistent user target h s c q (may_enter-HasPlace clock s target h m))
    ]
  ]
]
