-- ===== src/Server/Keyframes/Tests.antt =====
-- The run of the test in sfu.rs.
use throcc.Prelude.{ℕ, ◌+◌, ◌≤◌, ◌≡◌, refl, List, [], ◌∷◌, none, some, arith}
use throcc.Prelude.Map.{Map, get, insert}
use throcc.Server.Hub.State.{Pending, refresh, idr}
use throcc.Server.Keyframes.{keyframe_interval, take_if_due, max_wanted, request, due}
use throcc.Server.Keyframes.Laws.{Call, asks, looks, run, strongest, waiting}
use throcc.Server.Keyframes.Once.{run-once, run-asked}

abbrev sent_at : ℕ → Map Pending
sent_at t = (request 3 refresh t []).0

abbrev calls : List Call
calls = asks 3 refresh 10 ∷ asks 3 idr 20 ∷ asks 4 refresh 25 ∷ asks 3 refresh 30 ∷ looks 999 ∷ []

idr_wins : (due (keyframe_interval + 5) (run 3 calls (sent_at 5)).0).1 ≡ (3, idr) ∷ []
unfolding due run request take_if_due max_wanted get insert
idr_wins = refl

-- Within a second a refresh of track 3 is forwarded, and whatever follows waits.
run-once_example : (run 3 (asks 3 refresh 5 ∷ calls) []).1 ≤ 1
run-once_example =
    run-once 3 5 (asks 3 refresh 5 ∷ calls) []
      (
        (omega arith, omega arith),
        (
          (omega arith, omega arith),
          (
            (omega arith, omega arith),
            (
              (omega arith, omega arith),
              ((omega arith, omega arith), ((omega arith, omega arith), tt)),
            ),
          ),
        ),
      )
      tt

run-asked_example :
    ((run 3 (asks 3 refresh 5 ∷ calls) []).1 ≡ 1)
    × (get 3 (run 3 (asks 3 refresh 5 ∷ calls) []).0 ≡ some (waiting 5 (strongest 3 calls none)))
unfolding get
run-asked_example =
    run-asked 3 5 refresh calls [] refl
      (omega arith, (omega arith, (omega arith, (omega arith, (omega arith, tt))))) tt
