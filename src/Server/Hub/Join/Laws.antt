-- ===== src/Server/Hub/Join/Laws.antt =====
-- Joins and what follows on them (crates/throcc-server/src/rooms.rs) keep the hub consistent.
use throcc.Prelude.{
  ℕ, ◌≡◌, refl, Bool, true, false, not, ◌&&◌, Option, none, some, arith, Option-cases, Bool-cases,
  Result-cases, inl, inr,
}
use throcc.Prelude.Map.{get}
use throcc.Server.Buckets.{take_for, holds_for}
use throcc.Server.Guesses.{succeeded}
use throcc.Server.Hub.State.{Hub, Clock}
use throcc.Server.Hub.Place.{same_room, place}
use throcc.Server.Hub.Place.Steps.{IsConsistent, IsConsistent-same}
use throcc.Server.Hub.Place.Consistent.{place-IsConsistent}
use throcc.Server.Hub.Join.{
  enters_another_room, has_place, password_to_enter, enter, try_password, enter_done, ask_password,
  join, still_asked, finish_join, rejoin, allowance, set_allowance, charge,
}

-- The members, the sessions and the stored epochs are the same.
pub record SameRooms (h h' : Hub) : Type 0 where
  pub rooms : h'.rooms ≡ h.rooms
  pub sessions : h'.sessions ≡ h.sessions
  pub epochs : h'.db.epochs ≡ h.db.epochs

keeps : (h h' : Hub) → SameRooms h h' → IsConsistent h → IsConsistent h'
keeps h h' s c = IsConsistent-same h h' s.rooms s.sessions s.epochs c

pub enter-IsConsistent :
    (clock : Clock) (user : ℕ) (target : Option ℕ) (h : Hub)
    → IsConsistent h
    → IsConsistent (enter clock user target h).0
unfolding enter
enter-IsConsistent clock user target h c = elim (Result-cases (enters_another_room h user target)) [
  | inr (e, q) ↦ rw (q, enter) c
  | inl (moving, q) ↦
      let asked = take_for h.room_changes user 1 clock.instant in
      let h1 = charge moving asked.0 h in
      let c2 = place-IsConsistent clock user target h1 c in
      elim (Bool-cases (moving && not asked.1)) [
        | inl p ↦ rw (q, p, enter) c
        | inr p ↦ elim (Result-cases (place clock user target h1).1) [
          | inr (e, r) ↦ rw (q, p, r, enter) c2
          | inl (x, r) ↦ rw (q, p, r, enter) c2
        ]
      ]
]

try_password-SameRooms :
    (clock : Clock) (user room hash : ℕ) (password : Option ℕ) (h : Hub)
    → SameRooms h (try_password clock user room hash password h).0
unfolding try_password
try_password-SameRooms clock user room hash none h = record {
  rooms = refl;
  sessions = refl;
  epochs = refl;
}
try_password-SameRooms clock user room hash (some password) h = record {
  rooms = ground arith;
  sessions = ground arith;
  epochs = ground arith;
}

enter_done-IsConsistent :
    (clock : Clock) (user : ℕ) (target : Option ℕ) (h : Hub)
    → IsConsistent h
    → IsConsistent (enter_done clock user target h).0
unfolding enter_done
enter_done-IsConsistent clock user target h c = elim (Result-cases (enter clock user target h).1) [
  | inr (e, q) ↦ rw (q, enter_done) (enter-IsConsistent clock user target h c)
  | inl (p, q) ↦ rw (q, enter_done) (enter-IsConsistent clock user target h c)
]

ask_password-IsConsistent :
    (clock : Clock) (user : ℕ) (target password : Option ℕ) (h : Hub)
    → IsConsistent h
    → IsConsistent (ask_password clock user target password h).0
unfolding ask_password
ask_password-IsConsistent clock user none password h c = enter_done-IsConsistent clock user none h c
ask_password-IsConsistent clock user (some room) password h c =
    elim (Result-cases (password_to_enter h user room)) [
      | inr (e, q) ↦ rw (q, ask_password) c
      | inl (needed, q) ↦ elim (Option-cases needed) [
        | inl n ↦ rw (q, n, ask_password) (enter_done-IsConsistent clock user (some room) h c)
        | inr (hash, n) ↦
            rw (q, n, ask_password)
              (keeps h _ (try_password-SameRooms clock user room hash password h) c)
      ]
    ]

-- Whatever is asked for and whatever fails, a join keeps members, sessions and stored epochs in
-- agreement.
pub join-IsConsistent :
    (clock : Clock) (user : ℕ) (target password : Option ℕ) (h : Hub)
    → IsConsistent h
    → IsConsistent (join clock user target password h).0
unfolding join
join-IsConsistent clock user target password h c =
    elim (Result-cases (enters_another_room h user target)) [
      | inr (e, q) ↦ rw (q, join) c
      | inl (moving, q) ↦
          let asked = holds_for h.room_changes user 1 clock.instant in
          let h1 = charge moving asked.0 h in
          elim (Bool-cases (moving && not asked.1)) [
            | inl p ↦ rw (q, p, join) c
            | inr p ↦ elim (Result-cases (has_place h1 user target)) [
              | inr (e, r) ↦ rw (q, p, r, join) c
              | inl (x, r) ↦
                  rw (q, p, r, join) (ask_password-IsConsistent clock user target password h1 c)
            ]
          ]
    ]

-- So does its second half, whether the password matched or not.
pub finish_join-IsConsistent :
    (clock : Clock) (user room hash : ℕ) (matched : Bool) (h : Hub)
    → IsConsistent h
    → IsConsistent (finish_join clock user room hash matched h).0
unfolding finish_join
finish_join-IsConsistent clock user room hash false h c = c
finish_join-IsConsistent clock user room hash true h c =
    let h1 = record h { guesses = succeeded user room h.guesses } in
    elim (Result-cases (password_to_enter h1 user room)) [
      | inr (e, q) ↦ rw (q, finish_join) c
      | inl (current, q) ↦ elim (Bool-cases (still_asked current hash)) [
        | inl p ↦ rw (q, p, finish_join) (enter-IsConsistent clock user (some room) h1 c)
        | inr p ↦ rw (q, p, finish_join) c
      ]
    ]

-- So does the return of a user who reconnects.
pub rejoin-IsConsistent :
    (clock : Clock) (user room : ℕ) (h : Hub)
    → IsConsistent h
    → IsConsistent (rejoin clock user room h).0
unfolding rejoin
rejoin-IsConsistent clock user room h c =
    let returning = same_room (get user h.last_joined) (some room) in
    let asked = holds_for (allowance returning h) user 1 clock.instant in
    let h1 = set_allowance returning asked.0 h in
    let c2 = place-IsConsistent clock user (some room) h1 c in
    elim (Bool-cases asked.1) [
      | inr p ↦ rw (p, rejoin) c
      | inl p ↦ elim (Result-cases (place clock user (some room) h1).1) [
        | inr (e, r) ↦ rw (p, r, rejoin) c2
        | inl (x, r) ↦ rw (p, r, rejoin) c2
      ]
    ]
