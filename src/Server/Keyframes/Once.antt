-- ===== src/Server/Keyframes/Once.antt =====
-- How often `KeyframeAggregator` of crates/throcc-server/src/sfu.rs forwards requests of a track.
use throcc.Prelude.{
  ℕ, suc, ◌+◌, ◌≤◌, ◌<◌, ◌≡◌, refl, ◌∙◌, ◌⊎◌, true, List, [], ◌∷◌, Option, none, some, arith,
  Option-cases, Bool-cases, inl, inr, ==_iff,
}
use throcc.Prelude.Map.{Map, get, get-insert, IsSorted}
use throcc.Server.Hub.State.{Pending, Recovery, refresh, idr}
use throcc.Server.Keyframes.{
  keyframe_interval, is_due, max_wanted, take_if_due, or_default, request, due,
}
use throcc.Server.Keyframes.Laws.{
  Call, asks, looks, time, AllBefore, count_to, sent_by, run, strongest, waiting, count_to-due,
  due-IsSorted, request-IsSorted, run-waiting,
}

-- The calls come in the interval that begins at `t`, in any order.
abbrev pub AllWithin : ℕ → List Call → Type 0
AllWithin t [] = Unit {0}
AllWithin t (call ∷ calls) =
    ((t ≤ time call) × (time call < t + keyframe_interval)) × AllWithin t calls

AllWithin-AllBefore :
    (t u : ℕ) (calls : List Call)
    → t ≤ u
    → AllWithin t calls
    → AllBefore (u + keyframe_interval) calls
AllWithin-AllBefore t u [] h w = tt
AllWithin-AllBefore t u (call ∷ calls) h w =
    (omega (arith, h, w.0.1), AllWithin-AllBefore t u calls h w.1)

take_if_due-cases :
    (p : Pending) (now : ℕ)
    → ((take_if_due p now).1 ≡ none)
      ⊎ ((kind : Recovery) × ((take_if_due p now).1 ≡ some kind)
          × ((take_if_due p now).0 ≡ waiting now none))
unfolding take_if_due
take_if_due-cases p now = ground (arith, Bool-cases (is_due p.last_sent now), Option-cases p.wanted)

request-cases :
    (media_id asked now : ℕ) (kind : Recovery) (tracks : Map Pending)
    → (sent_by media_id asked (request asked kind now tracks).1 ≡ 0)
      ⊎ ((sent_by media_id asked (request asked kind now tracks).1 ≡ 1)
          × (get media_id (request asked kind now tracks).0 ≡ some (waiting now none)))
unfolding request
request-cases media_id asked now kind tracks =
    let found = or_default (get asked tracks) in
    let p = record found { wanted = max_wanted found.wanted kind } in
    ground (
      arith,
      take_if_due-cases p now,
      get-insert media_id asked (take_if_due p now).0 tracks,
      ==_iff asked media_id,
    )

due-cases :
    (media_id lo now : ℕ) (tracks : Map Pending)
    → IsSorted lo tracks
    → (count_to media_id (due now tracks).1 ≡ 0)
      ⊎ ((count_to media_id (due now tracks).1 ≡ 1)
          × (get media_id (due now tracks).0 ≡ some (waiting now none)))
unfolding due get count_to
due-cases media_id lo now [] s = inl refl
due-cases media_id lo now ((k, p) ∷ tracks) s = ground (
  arith,
  take_if_due-cases p now,
  due-cases media_id (suc k) now tracks s.1,
  count_to-due media_id (suc k) now tracks,
  s.1,
)

-- Whatever was asked for and forwarded before: of the requests for a track that come within one
-- interval, and of those that the timer finds due in it, one at most is forwarded, however many
-- calls there are, in any order, and whatever is asked for on other tracks.
pub run-once :
    (media_id t : ℕ) (calls : List Call) (tracks : Map Pending)
    → AllWithin t calls
    → IsSorted 0 tracks
    → (run media_id calls tracks).1 ≤ 1
unfolding run
run-once media_id t [] tracks w s = omega arith
run-once media_id t (asks asked kind now ∷ calls) tracks w s =
    let s1 = request-IsSorted asked now kind tracks s in
    let tracks1 = (request asked kind now tracks).0 in
    elim (request-cases media_id asked now kind tracks) [
      | inl silent ↦ omega (arith, silent, run-once media_id t calls tracks1 w.1 s1)
      | inr sent ↦
          let before = AllWithin-AllBefore t now calls w.0.0 w.1 in
          omega (arith, sent.0, (run-waiting media_id now calls none tracks1 before s1 sent.1).0)
    ]
run-once media_id t (looks now ∷ calls) tracks w s =
    let s1 = due-IsSorted 0 now tracks s in
    let tracks1 = (due now tracks).0 in
    elim (due-cases media_id 0 now tracks s) [
      | inl silent ↦ omega (arith, silent, run-once media_id t calls tracks1 w.1 s1)
      | inr sent ↦
          let before = AllWithin-AllBefore t now calls w.0.0 w.1 in
          omega (arith, sent.0, (run-waiting media_id now calls none tracks1 before s1 sent.1).0)
    ]

max_wanted-some :
    (wanted : Option Recovery) (kind : Recovery)
    → (best : Recovery) × (max_wanted wanted kind ≡ some best)
unfolding max_wanted
max_wanted-some none kind = (kind, refl)
max_wanted-some (some refresh) kind = (kind, refl)
max_wanted-some (some idr) kind = (idr, refl)

request-due :
    (media_id t : ℕ) (kind : Recovery) (tracks : Map Pending)
    → is_due (or_default (get media_id tracks)).last_sent t ≡ true
    → (sent_by media_id media_id (request media_id kind t tracks).1 ≡ 1)
      × (get media_id (request media_id kind t tracks).0 ≡ some (waiting t none))
unfolding request take_if_due
request-due media_id t kind tracks d =
    let found = or_default (get media_id tracks) in
    let best = max_wanted-some found.wanted kind in
    (
      rw d (rw best.1 (ground (arith, ==_iff media_id media_id))),
      get-insert media_id media_id _ tracks
          ∙ rw d (rw best.1 (ground (arith, ==_iff media_id media_id))),
    )

-- A request for a track of which none was forwarded in the interval before is forwarded at once;
-- it is the only one for that track until the interval after it is over, whatever is asked for
-- then and however often the timer looks; and what waits in the end is the strongest of what was
-- asked for on that track since.
pub run-asked :
    (media_id t : ℕ) (kind : Recovery) (calls : List Call) (tracks : Map Pending)
    → is_due (or_default (get media_id tracks)).last_sent t ≡ true
    → AllBefore (t + keyframe_interval) calls
    → IsSorted 0 tracks
    → ((run media_id (asks media_id kind t ∷ calls) tracks).1 ≡ 1)
      × (get media_id (run media_id (asks media_id kind t ∷ calls) tracks).0
          ≡ some (waiting t (strongest media_id calls none)))
unfolding run
run-asked media_id t kind calls tracks d h s =
    let (sent, kept) = request-due media_id t kind tracks d in
    let (none_sent, rest) =
      run-waiting media_id t calls none (request media_id kind t tracks).0 h
        (request-IsSorted media_id t kind tracks s) kept in
    (omega (arith, sent, none_sent), rest)
