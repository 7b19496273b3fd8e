-- ===== src/Server/Guesses/Laws.antt =====
-- Who has to wait before the next guess, and who never has to.
use throcc.Prelude.{
  ℕ, ◌+◌, ◌-◌, ◌<◌, ◌≡◌, refl, false, ◌&&◌, List, [], ◌∷◌, none, some, ok, err, ◌==◌, if◌then◌else◌,
  arith, ==-refl,
}
use throcc.Server.Guesses.{
  Failures, Users, Guesses, failures_of, set_failures, retain_recent, check, failed, forget_old,
  wait_after, next_try, count_of, user,
}

failures_of-set :
    (u r v q : ℕ) (f : Failures) (users : Users)
    → failures_of v q (set_failures u r f users)
      ≡ (if (v == u) && q == r then some f else failures_of v q users)
unfolding failures_of set_failures
failures_of-set u r v q f [] = refl
failures_of-set u r v q f (((w, p), g) ∷ users) = ground (arith, failures_of-set u r v q f users)

failures_of-retain :
    (v q now : ℕ) (users : Users)
    → failures_of v q users ≡ none
    → failures_of v q (retain_recent now users) ≡ none
unfolding failures_of retain_recent
failures_of-retain v q now [] e = refl
failures_of-retain v q now ((k, f) ∷ users) e = ground (arith, failures_of-retain v q now users)

-- Once a user has guessed wrong at a room, each further try there is refused until the wait for
-- the guesses counted so far is over, and told how long that is.
check-failed :
    (u r t now : ℕ) (g : Guesses)
    → now < t + wait_after (failed u r t g).1.0
    → (check u r now (failed u r t g).0).1 ≡ err (user (t + wait_after (failed u r t g).1.0 - now))
unfolding check failed next_try
check-failed u r t now g h = ground (
  arith,
  failures_of-set u r u r
      (record { count = count_of (failures_of u r (forget_old t g).users) + 1; last = t })
      (forget_old t g).users,
  ==-refl u,
  ==-refl r,
)

-- A wrong guess: who made it, at which room, when.
abbrev pub Guess : Type 0
Guess = (ℕ × ℕ) × ℕ

abbrev pub all_failed : List Guess → Guesses → Guesses
all_failed [] g = g
all_failed (((u, r), t) ∷ guesses) g = all_failed guesses (failed u r t g).0

-- None of the guesses is this user's at this room.
abbrev pub AllOthers : ℕ → ℕ → List Guess → Type 0
AllOthers v q [] = Unit {0}
AllOthers v q (((u, r), t) ∷ guesses) = (((v == u) && q == r) ≡ false) × AllOthers v q guesses

failures_of-failed :
    (u r t v q : ℕ) (g : Guesses)
    → ((v == u) && q == r) ≡ false
    → failures_of v q g.users ≡ none
    → failures_of v q (failed u r t g).0.users ≡ none
unfolding failed forget_old
failures_of-failed u r t v q g h e = ground (
  arith,
  failures_of-set u r v q
      (record { count = count_of (failures_of u r (forget_old t g).users) + 1; last = t })
      (forget_old t g).users,
  failures_of-retain v q t g.users e,
)

failures_of-all_failed :
    (v q : ℕ) (guesses : List Guess) (g : Guesses)
    → AllOthers v q guesses
    → failures_of v q g.users ≡ none
    → failures_of v q (all_failed guesses g).users ≡ none
failures_of-all_failed v q [] g h e = e
failures_of-all_failed v q (((u, r), t) ∷ guesses) g h e =
    failures_of-all_failed v q guesses (failed u r t g).0 h.1 (failures_of-failed u r t v q g h.0 e)

-- However often others guess wrong at a room, and this user at other rooms, a user with no
-- wrong guess there may try.
pub check-all_failed :
    (v q now : ℕ) (guesses : List Guess) (g : Guesses)
    → AllOthers v q guesses
    → failures_of v q g.users ≡ none
    → (check v q now (all_failed guesses g)).1 ≡ ok tt
unfolding check
check-all_failed v q now guesses g h e = rw (failures_of-all_failed v q guesses g h e, check)
