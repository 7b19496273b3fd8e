-- ===== src/Server/Guesses/Tests.antt =====
-- Guesses at one room: user 1 guesses wrong six times, user 2 never.
use throcc.Prelude.{◌*◌, ◌≡◌, refl, List, [], ◌∷◌, ok}
use throcc.Server.Guesses.{no_guesses, check, failures_of, wait_after, second}
use throcc.Server.Guesses.Laws.{Guess, all_failed, check-all_failed}

abbrev guesses : List Guess
guesses = ((1, 7), 100) ∷ ((1, 7), 200) ∷ ((1, 7), 300) ∷ ((1, 7), 400) ∷ ((1, 7), 500) ∷ []

waits_double : wait_after 7 ≡ 40 * second
unfolding wait_after
waits_double = refl

check-all_failed_example : (check 2 7 600 (all_failed guesses no_guesses)).1 ≡ ok tt
check-all_failed_example =
    check-all_failed 2 7 600 guesses no_guesses (refl, (refl, (refl, (refl, (refl, tt)))))
      (unfold no_guesses failures_of in refl)
