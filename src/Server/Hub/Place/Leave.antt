-- ===== src/Server/Hub/Place/Leave.antt =====
-- `leave_room` always ends with the user in no room.
use throcc.Prelude.{
  ==-refl, ℕ, ◌≡◌, refl, ap, ◌∙◌, true, false, Option, none, some, ok, err, arith, Option-cases,
  Bool-cases, Result-cases, inl, inr,
}
use throcc.Prelude.Map.{get}
use throcc.Server.Hub.State.{ErrorCode, Session, Hub, Clock}
use throcc.Server.Hub.Place.{
  Placement, same_room, session, place, leave_room, force_out, relocate, set_membership, update,
  remove_member,
}
use throcc.Server.Hub.Place.Epochs.{place-Moves, place_refused}
use throcc.Server.Hub.Place.Rooms.{in_room}
use throcc.Server.Hub.Place.Steps.{IsConsistent, IsConsistent-same, broadcast_peers-keeps}
use throcc.Server.Hub.Place.Consistent.{
  in_room-of, in_room-moved, relocate-fields, place-IsConsistent, relocate-IsConsistent,
}

force_out-keeps :
    (user room : ℕ) (h : Hub)
    → ((force_out user (some room) h).rooms ≡ (relocate user (some room) none none h).rooms)
      × ((force_out user (some room) h).sessions ≡ (relocate user (some room) none none h).sessions)
      × ((force_out user (some room) h).db ≡ (relocate user (some room) none none h).db)
unfolding force_out relocate
force_out-keeps user room h = ground (
  arith,
  broadcast_peers-keeps room none (
      set_membership user none none
        (record h { rooms = update room (remove_member user) h.rooms })),
)

force_out-IsConsistent :
    (user : ℕ) (o : Option ℕ) (h : Hub) (s : Session)
    → IsConsistent h
    → get user h.sessions ≡ some s
    → s.room ≡ o
    → IsConsistent (force_out user o h)
force_out-IsConsistent user none h s c here q = unfold force_out in c
force_out-IsConsistent user (some room) h s c here q =
    let (r, m, d) = force_out-keeps user room h in
    IsConsistent-same (relocate user (some room) none none h) (force_out user (some room) h) r m
      (ap (λ x. x.epochs) d) (relocate-IsConsistent user (some room) none none h s c here q tt tt)

-- The session that a refused `place` leaves.
still_here :
    (clock : Clock) (user : ℕ) (h : Hub) (s : Session) (e : ErrorCode)
    → get user h.sessions ≡ some s
    → (place clock user none h).1 ≡ err e
    → get user (place clock user none h).0.sessions ≡ some s
still_here clock user h s e here r = ap (get user) (place_refused clock user none h e r).1 ∙ here

-- Leaving keeps members, sessions and stored epochs in agreement, even when the database fails.
pub leave_room-IsConsistent :
    (clock : Clock) (user : ℕ) (h : Hub) → IsConsistent h → IsConsistent (leave_room clock user h)
unfolding leave_room
leave_room-IsConsistent clock user h c = elim (Option-cases (get user h.sessions)) [
  | inl q ↦ rw (q, leave_room) c
  | inr (s, q) ↦ elim (Result-cases (place clock user none h).1) [
    | inl (p, r) ↦ rw (q, r, leave_room) (place-IsConsistent clock user none h c)
    | inr (e, r) ↦
        rw (q, r, leave_room, still_here clock user h s e q r)
          (force_out-IsConsistent user s.room (place clock user none h).0 s
            (place-IsConsistent clock user none h c) (still_here clock user h s e q r) refl)
  ]
]

in_room-force_out :
    (user room : ℕ) (o : Option ℕ) (h : Hub) (s : Session)
    → get user h.sessions ≡ some s
    → s.room ≡ o
    → in_room (force_out user o h).sessions user room ≡ false
in_room-force_out user room none h s here q =
    unfold force_out in (in_room-of h.sessions user room s here ∙ rw q)
in_room-force_out user room (some r) h s here q =
    ap (λ x. in_room x user room)
      ((force_out-keeps user r h).1 ∙ (relocate-fields user (some r) none none h s here).1)
    ∙ in_room-moved h.sessions user none none s user room
    ∙ rw (==-refl user)

in_room-place :
    (clock : Clock) (user room : ℕ) (h : Hub) (s : Session) (p : Placement)
    → get user h.sessions ≡ some s
    → (place clock user none h).1 ≡ ok p
    → in_room (place clock user none h).0.sessions user room ≡ false
in_room-place clock user room h s p here r = elim (Bool-cases (same_room s.room none)) [
  | inl e ↦
      unfold place session in
      rw (here, e, place, session) (in_room-of h.sessions user room s here ∙ stays s.room e)
  | inr e ↦ (place-Moves clock user none h s p here e r).sessions user room ∙ rw (==-refl user)
]
  where
    stays : (o : Option ℕ) → same_room o none ≡ true → same_room o (some room) ≡ false
    stays none e = refl
    stays (some a) e = cc

-- After `leave_room` the user is in no room, even when the database fails.
pub in_room-leave_room :
    (clock : Clock) (user room : ℕ) (h : Hub)
    → in_room (leave_room clock user h).sessions user room ≡ false
unfolding leave_room
in_room-leave_room clock user room h = elim (Option-cases (get user h.sessions)) [
  | inl q ↦ rw (q, leave_room) (unfold in_room in rw (q, in_room))
  | inr (s, q) ↦ elim (Result-cases (place clock user none h).1) [
    | inl (p, r) ↦ rw (q, r, leave_room) (in_room-place clock user room h s p q r)
    | inr (e, r) ↦
        rw (q, r, leave_room, still_here clock user h s e q r)
          (in_room-force_out user room s.room (place clock user none h).0 s
            (still_here clock user h s e q r) refl)
  ]
]
