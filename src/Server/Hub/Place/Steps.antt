-- ===== src/Server/Hub/Place/Steps.antt =====
-- The invariant of rooms, sessions and stored epochs, and the steps that `place` is made of.
use throcc.Prelude.{
  ℕ, ◌≤◌, ◌≡◌, ap, sym, ◌∙◌, Bool, true, false, List, Option, none, some, ok, err, arith,
  Result-cases, inl, inr, ◌⊎◌,
}
use throcc.Prelude.Map.{Map, get}
use throcc.Server.Hub.State.{
  ErrorCode, RoomEntry, Session, Hub, Database, max_room_members, write_epochs, set_epochs,
  allocate_media_ids,
}
use throcc.Server.Hub.Place.{
  set_entry_epochs, bump_epochs, next_epochs, allocate_tracks, allocate_for, broadcast_peers,
  notify, announce,
}
use throcc.Server.Hub.Place.Rooms.{
  member_in, size_in, epoch_in, in_room, set_entry_epochs-views, get-write_epochs, listed,
}

-- Whether the session of `user` is in a room and has tracks there, or neither.
unfoldable pub is_tracked : Map Session → ℕ → Bool
is_tracked sessions user = elim (get user sessions) [
  | none ↦ true
  | some s ↦ elim s.room [
    | none ↦ elim s.tracks [ none ↦ true | some t ↦ false ]
    | some r ↦ elim s.tracks [ none ↦ false | some t ↦ true ]
  ]
]

pub record Consistent (rooms : Map RoomEntry) (sessions : Map Session) (epochs : Map ℕ)
    : Type 0 where
  -- A user is a member of a room exactly if their session is in it.
  pub agree : (room user : ℕ) → member_in rooms room user ≡ in_room sessions user room
  pub tracked : (user : ℕ) → is_tracked sessions user ≡ true
  -- No room holds more members than it may.
  pub within : (room : ℕ) → size_in rooms room ≤ max_room_members
  -- The database has the epoch of every room.
  pub stored : (room : ℕ) → get room epochs ≡ epoch_in rooms room

abbrev pub IsConsistent : Hub → Type 0
IsConsistent h = Consistent h.rooms h.sessions h.db.epochs

-- The invariant reads nothing else of a hub.
pub IsConsistent-same :
    (h h' : Hub)
    → h'.rooms ≡ h.rooms
    → h'.sessions ≡ h.sessions
    → h'.db.epochs ≡ h.db.epochs
    → IsConsistent h
    → IsConsistent h'
IsConsistent-same h h' r s e c = rw (r, s, e) c

-- The epochs that a list of changes writes.
pub set_epochs-Consistent :
    (changes : List (ℕ × ℕ)) (h : Hub)
    → IsConsistent h
    → Consistent (set_entry_epochs changes h.rooms) h.sessions (write_epochs changes h.db.epochs)
set_epochs-Consistent changes h c = record {
  agree = λ room user. (set_entry_epochs-views changes h.rooms room user).0 ∙ c.agree room user;
  tracked = c.tracked;
  within = λ room. rw (set_entry_epochs-views changes h.rooms room 0).2 (c.within room);
  stored = λ room.
      get-write_epochs changes h.db.epochs room
      ∙ ap (listed changes room) (c.stored room)
      ∙ sym (set_entry_epochs-views changes h.rooms room 0).3;
}

set_epochs-cases :
    (changes : List (ℕ × ℕ)) (db : Database)
    → (((set_epochs changes db).1 ≡ ok tt)
        × ((set_epochs changes db).0.epochs ≡ write_epochs changes db.epochs))
      ⊎ (((set_epochs changes db).1 ≡ err ErrorCode.internal)
          × ((set_epochs changes db).0.epochs ≡ db.epochs))
unfolding set_epochs
set_epochs-cases changes db = ground arith

-- What `bump_epochs` leaves alone, and what it leaves alone if it fails.
pub bump_epochs-cases :
    (rooms : List ℕ) (h : Hub)
    → ((changes : List (ℕ × ℕ)) × (next_epochs h rooms ≡ ok changes)
        × ((bump_epochs rooms h).1 ≡ ok tt)
        × ((bump_epochs rooms h).0.rooms ≡ set_entry_epochs changes h.rooms)
        × ((bump_epochs rooms h).0.db.epochs ≡ write_epochs changes h.db.epochs)
        × ((bump_epochs rooms h).0.sessions ≡ h.sessions))
      ⊎ ((e : ErrorCode) × ((bump_epochs rooms h).1 ≡ err e)
          × ((bump_epochs rooms h).0.rooms ≡ h.rooms)
          × ((bump_epochs rooms h).0.db.epochs ≡ h.db.epochs)
          × ((bump_epochs rooms h).0.sessions ≡ h.sessions))
unfolding bump_epochs
bump_epochs-cases rooms h = elim (Result-cases (next_epochs h rooms)) [
  | inr (e, q) ↦ inr (e, ground arith, ground arith, ground arith, ground arith)
  | inl (changes, q) ↦ elim (set_epochs-cases changes h.db) [
    | inl (a, b) ↦ inl (changes, q, ground arith, ground arith, ground arith, ground arith)
    | inr (a, b) ↦ inr (ErrorCode.internal, ground arith, ground arith, ground arith, ground arith)
  ]
]

-- Allocating tracks leaves all but the counter alone.
pub allocate_for-keeps :
    (target : Option ℕ) (h : Hub)
    → ((allocate_for target h).0.rooms ≡ h.rooms)
      × ((allocate_for target h).0.sessions ≡ h.sessions)
      × ((allocate_for target h).0.db.epochs ≡ h.db.epochs)
unfolding allocate_tracks allocate_media_ids
allocate_for-keeps none h = ground arith
allocate_for-keeps (some room) h = ground arith

pub broadcast_peers-keeps :
    (room : ℕ) (except : Option ℕ) (h : Hub)
    → ((broadcast_peers room except h).rooms ≡ h.rooms)
      × ((broadcast_peers room except h).sessions ≡ h.sessions)
      × ((broadcast_peers room except h).db ≡ h.db)
unfolding broadcast_peers
broadcast_peers-keeps room except h = ground arith

announce-keeps :
    (user : ℕ) (h : Hub)
    → ((announce user h).rooms ≡ h.rooms)
      × ((announce user h).sessions ≡ h.sessions)
      × ((announce user h).db ≡ h.db)
unfolding announce
announce-keeps user h = ground arith

-- Telling everyone changes nothing but what is sent.
pub notify-keeps :
    (user : ℕ) (current target : Option ℕ) (h : Hub)
    → ((notify user current target h).rooms ≡ h.rooms)
      × ((notify user current target h).sessions ≡ h.sessions)
      × ((notify user current target h).db ≡ h.db)
unfolding notify
notify-keeps user none none h = ground (arith, announce-keeps user h)
notify-keeps user (some a) none h =
    ground (arith, broadcast_peers-keeps a none h, announce-keeps user (broadcast_peers a none h))
notify-keeps user none (some b) h = ground (
  arith,
  broadcast_peers-keeps b (some user) h,
  announce-keeps user (broadcast_peers b (some user) h),
)
notify-keeps user (some a) (some b) h = ground (
  arith,
  broadcast_peers-keeps a none h,
  broadcast_peers-keeps b (some user) (broadcast_peers a none h),
  announce-keeps user (broadcast_peers b (some user) (broadcast_peers a none h)),
)
