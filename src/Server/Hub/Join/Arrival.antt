-- ===== src/Server/Hub/Join/Arrival.antt =====
-- Whoever is let into a room is in it.
use throcc.Prelude.{
  ℕ, ◌≡◌, Bool, true, false, not, ◌&&◌, some, ok, arith, Bool-cases, Result-cases, inl, inr,
}
use throcc.Prelude.Map.{get}
use throcc.Server.Buckets.{take_for, holds_for}
use throcc.Server.Guesses.{succeeded}
use throcc.Server.Hub.State.{Hub, Clock}
use throcc.Server.Hub.Place.{Placement, same_room, place}
use throcc.Server.Hub.Place.Rooms.{in_room}
use throcc.Server.Hub.Place.Epochs.{place-in_room}
use throcc.Server.Hub.Join.{
  enters_another_room, password_to_enter, enter, finish_join, still_asked, rejoin, allowance,
  set_allowance, charge,
}

enter-in_room :
    (clock : Clock) (user room : ℕ) (h : Hub) (p : Placement)
    → (enter clock user (some room) h).1 ≡ ok p
    → in_room (enter clock user (some room) h).0.sessions user room ≡ true
unfolding enter
enter-in_room clock user room h p e = elim (Result-cases (enters_another_room h user (some room))) [
  | inr (x, q) ↦ absurd (ground arith)
  | inl (moving, q) ↦
      let asked = take_for h.room_changes user 1 clock.instant in
      let h1 = charge moving asked.0 h in
      elim (Bool-cases (moving && not asked.1)) [
        | inl w ↦ absurd (ground arith)
        | inr w ↦ elim (Result-cases (place clock user (some room) h1).1) [
          | inr (x, r) ↦ absurd (ground arith)
          | inl (x, r) ↦ rw (q, w, r, enter) (place-in_room clock user room h1 x r)
        ]
      ]
]

-- Whoever `finish_join` gives a placement is then in the room that they asked for.
finish_join-in_room :
    (clock : Clock) (user room hash : ℕ) (matched : Bool) (h : Hub) (p : Placement)
    → (finish_join clock user room hash matched h).1 ≡ ok p
    → in_room (finish_join clock user room hash matched h).0.sessions user room ≡ true
unfolding finish_join
finish_join-in_room clock user room hash false h p e = absurd (ground arith)
finish_join-in_room clock user room hash true h p e =
    let h1 = record h { guesses = succeeded user room h.guesses } in
    elim (Result-cases (password_to_enter h1 user room)) [
      | inr (x, q) ↦ absurd (ground arith)
      | inl (current, q) ↦ elim (Bool-cases (still_asked current hash)) [
        | inl w ↦ rw (q, w, finish_join) (enter-in_room clock user room h1 p (ground arith))
        | inr w ↦ absurd (ground arith)
      ]
    ]

-- Whoever `rejoin` puts back is then in that room.
rejoin-in_room :
    (clock : Clock) (user room : ℕ) (h : Hub) (p : Placement)
    → (rejoin clock user room h).1 ≡ some p
    → in_room (rejoin clock user room h).0.sessions user room ≡ true
unfolding rejoin
rejoin-in_room clock user room h p e =
    let returning = same_room (get user h.last_joined) (some room) in
    let asked = holds_for (allowance returning h) user 1 clock.instant in
    let h1 = set_allowance returning asked.0 h in
    elim (Bool-cases asked.1) [
      | inr w ↦ absurd (ground arith)
      | inl w ↦ elim (Result-cases (place clock user (some room) h1).1) [
        | inr (x, r) ↦ absurd (ground arith)
        | inl (x, r) ↦ rw (w, r, rejoin) (place-in_room clock user room h1 x r)
      ]
    ]
