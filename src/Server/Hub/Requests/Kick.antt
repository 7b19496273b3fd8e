-- ===== src/Server/Hub/Requests/Kick.antt =====
-- Who may be moved out of a room by someone else.
use throcc.Prelude.{
  ℕ, ◌≡◌, ap, ◌∙◌, true, false, ◌||◌, [], ◌∷◌, some, ok, ◌==◌, arith, Bool-cases, Result-cases, inl,
  inr,
}
use throcc.Prelude.Map.{Map, get, remove}
use throcc.Proto.Permissions.{Role, can_kick_from_room, eq, admin}
use throcc.Server.Hub.State.{Event, kicked_from_room, Session, RoomEntry, Hub, Clock, keys}
use throcc.Server.Hub.Place.{session, room_entry, leave_room}
use throcc.Server.Hub.Place.Rooms.{in_room}
use throcc.Server.Hub.Place.Leave.{in_room-leave_room}
use throcc.Server.Hub.Requests.{
  role, emit_to, session_in, may_kick, kick_from_room, outranked, may_delete, delete_room,
}

emit_to-sessions :
    (user : ℕ) (event : Event) (h : Hub) → (emit_to user event h).sessions ≡ h.sessions
unfolding emit_to
emit_to-sessions user event h = ground arith

-- A kick that is answered with success was aimed at someone in that room, by someone whose role
-- lets them, and leaves the target in no room.
pub kick_from_room-in_room :
    (clock : Clock) (user target room r : ℕ) (h : Hub) (actor s : Session)
    → get user h.sessions ≡ some actor
    → get target h.sessions ≡ some s
    → (kick_from_room clock user target room h).1 ≡ ok tt
    → (s.room ≡ some room)
      × (can_kick_from_room actor.role s.role ≡ true)
      × (in_room (kick_from_room clock user target room h).0.sessions target r ≡ false)
unfolding kick_from_room may_kick role session session_in
kick_from_room-in_room clock user target room r h actor s a t e = (
  ground arith,
  ground arith,
  elim (Result-cases (may_kick h user target room)) [
    | inr (x, q) ↦ absurd (ground arith)
    | inl (x, q) ↦
        let left =
          leave_room clock target (record h { last_joined = remove target h.last_joined }) in
        rw (q, kick_from_room)
          (ap (λ m. in_room m target r) (emit_to-sessions target (kicked_from_room user room) left)
            ∙ in_room-leave_room clock target r
                (record h { last_joined = remove target h.last_joined }))
  ],
)

outranked-member :
    (actor : Role) (user m : ℕ) (sessions : Map Session) (ms : Map (Unit {0})) (s : Session)
    (u : Unit {0})
    → get m ms ≡ some u
    → (m == user) ≡ false
    → get m sessions ≡ some s
    → outranked actor user sessions (keys ms) ≡ false
    → can_kick_from_room actor s.role ≡ true
unfolding outranked get keys
outranked-member actor user m sessions [] s u a b c e = absurd (ground arith)
outranked-member actor user m sessions ((k, v) ∷ ms) s u a b c e =
    ground (arith, outranked-member actor user m sessions ms s u)

-- A room is deleted only by an admin, or by someone who could kick every other member who is
-- signed in.
pub delete_room-member :
    (clock : Clock) (user room m : ℕ) (h : Hub) (actor s : Session) (entry : RoomEntry)
    → get user h.sessions ≡ some actor
    → get room h.rooms ≡ some entry
    → get m entry.members ≡ some tt
    → (m == user) ≡ false
    → get m h.sessions ≡ some s
    → (delete_room clock user room h).1 ≡ ok tt
    → (eq actor.role admin || can_kick_from_room actor.role s.role) ≡ true
unfolding delete_room may_delete role session room_entry
delete_room-member clock user room m h actor s entry a b c d f e =
    elim (Bool-cases (outranked actor.role user h.sessions (keys entry.members))) [
      | inl o ↦ ground arith
      | inr o ↦
          ground (arith, outranked-member actor.role user m h.sessions entry.members s tt c d f o)
    ]
