-- ===== src/Server/Keyframes/Laws.antt =====
-- Runs of requests and looks of the timer at `KeyframeAggregator` (crates/throcc-server/src/sfu.rs).
use throcc.Prelude.{
  ltb, ℕ, suc, ◌+◌, ◌<◌, ◌≡◌, refl, ap, ◌∙◌, Bool, List, [], ◌∷◌, Option, none, some, ◌==◌,
  if◌then◌else◌, arith, Option-cases, Bool-cases, inl, inr, ==_iff,
}
use throcc.Prelude.Map.{Map, get, get-insert, IsSorted, insert-IsSorted}
use throcc.Server.Hub.State.{Pending, Recovery, refresh, idr}
use throcc.Server.Keyframes.{keyframe_interval, max_wanted, take_if_due, or_default, request, due}

-- What happens to the aggregator: a request, or the timer's look at what is due.
pub data Call : Type 0 where
  asks : (media_id : ℕ) (kind : Recovery) (now : ℕ) → Call
  looks : (now : ℕ) → Call

abbrev pub time : Call → ℕ
time (asks media_id kind now) = now
time (looks now) = now

abbrev pub AllBefore : ℕ → List Call → Type 0
AllBefore t [] = Unit {0}
AllBefore t (call ∷ calls) = (time call < t) × AllBefore t calls

abbrev is_to : ℕ → ℕ × Recovery → Bool
is_to media_id sent = sent.0 == media_id

unfoldable pub count_to : ℕ → List (ℕ × Recovery) → ℕ
count_to media_id [] = 0
count_to media_id (sent ∷ rest) =
    let n = count_to media_id rest in if is_to media_id sent then n + 1 else n

abbrev pub sent_by : ℕ → ℕ → Option Recovery → ℕ
sent_by media_id asked none = 0
sent_by media_id asked (some kind) = if asked == media_id then 1 else 0

-- The aggregator after the calls, and how many requests were forwarded for `media_id`.
unfoldable pub run : ℕ → List Call → Map Pending → Map Pending × ℕ
run media_id [] tracks = (tracks, 0)
run media_id (asks asked kind now ∷ calls) tracks =
    let (tracks1, sent) = request asked kind now tracks in
    let (tracks2, n) = run media_id calls tracks1 in (tracks2, sent_by media_id asked sent + n)
run media_id (looks now ∷ calls) tracks =
    let (tracks1, sent) = due now tracks in
    let (tracks2, n) = run media_id calls tracks1 in (tracks2, count_to media_id sent + n)

-- A whole picture makes up for a partial refresh, and either for nothing.
abbrev strength : Option Recovery → ℕ
strength none = 0
strength (some refresh) = 1
strength (some idr) = 2

abbrev pub stronger : Option Recovery → Recovery → Option Recovery
stronger wanted kind = if ltb (strength wanted) (strength (some kind)) then some kind else wanted

max_wanted-stronger :
    (wanted : Option Recovery) (kind : Recovery) → max_wanted wanted kind ≡ stronger wanted kind
unfolding max_wanted
max_wanted-stronger none refresh = refl
max_wanted-stronger none idr = refl
max_wanted-stronger (some refresh) refresh = refl
max_wanted-stronger (some refresh) idr = refl
max_wanted-stronger (some idr) refresh = refl
max_wanted-stronger (some idr) idr = refl

-- The strongest of what was wanted and what is asked for.
pub strongest : ℕ → List Call → Option Recovery → Option Recovery
strongest media_id [] wanted = wanted
strongest media_id (asks asked kind now ∷ calls) wanted =
    strongest media_id calls (if asked == media_id then stronger wanted kind else wanted)
strongest media_id (looks now ∷ calls) wanted = strongest media_id calls wanted

abbrev pub waiting : ℕ → Option Recovery → Pending
waiting t wanted = record { last_sent = some t; wanted = wanted }

request-waiting :
    (media_id asked t now : ℕ) (kind : Recovery) (wanted : Option Recovery) (tracks : Map Pending)
    → now < t + keyframe_interval
    → get media_id tracks ≡ some (waiting t wanted)
    → (get media_id (request asked kind now tracks).0
        ≡ some (waiting t (if asked == media_id then max_wanted wanted kind else wanted)))
      × (sent_by media_id asked (request asked kind now tracks).1 ≡ 0)
unfolding request take_if_due
request-waiting media_id asked t now kind wanted tracks h e =
    elim (Bool-cases (asked == media_id)) [
      | inl q ↦
          let found = ap (λ x. get x tracks) ((==_iff asked media_id).0 q) ∙ e in
          let (pending, sent) = take_if_due (waiting t (max_wanted wanted kind)) now in
          ground (arith, found, get-insert media_id asked pending tracks)
      | inr q ↦
          let found = or_default (get asked tracks) in
          let (pending, sent) =
            take_if_due (record found { wanted = max_wanted found.wanted kind }) now in
          (
            get-insert media_id asked pending tracks ∙ ground (arith, e),
            ground (arith, Option-cases (request asked kind now tracks).1),
          )
    ]

pub count_to-due :
    (media_id lo now : ℕ) (tracks : Map Pending)
    → media_id < lo
    → IsSorted lo tracks
    → count_to media_id (due now tracks).1 ≡ 0
unfolding count_to due take_if_due
count_to-due media_id lo now [] h s = refl
count_to-due media_id lo now ((k, p) ∷ tracks) h s =
    ground (arith, count_to-due media_id (suc k) now tracks, s.0, s.1)

pub due-IsSorted :
    (lo now : ℕ) (tracks : Map Pending) → IsSorted lo tracks → IsSorted lo (due now tracks).0
unfolding due
due-IsSorted lo now [] s = tt
due-IsSorted lo now ((k, p) ∷ tracks) s = (s.0, due-IsSorted (suc k) now tracks s.1)

due-waiting :
    (media_id lo t now : ℕ) (wanted : Option Recovery) (tracks : Map Pending)
    → now < t + keyframe_interval
    → IsSorted lo tracks
    → get media_id tracks ≡ some (waiting t wanted)
    → (get media_id (due now tracks).0 ≡ some (waiting t wanted))
      × (count_to media_id (due now tracks).1 ≡ 0)
unfolding due take_if_due get count_to
due-waiting media_id lo t now wanted [] h s e = absurd (ground arith)
due-waiting media_id lo t now wanted ((k, p) ∷ tracks) h s e = ground (
  arith,
  due-waiting media_id (suc k) t now wanted tracks h s.1,
  count_to-due media_id (suc k) now tracks,
  s.1,
)

pub request-IsSorted :
    (asked now : ℕ) (kind : Recovery) (tracks : Map Pending)
    → IsSorted 0 tracks
    → IsSorted 0 (request asked kind now tracks).0
unfolding request
request-IsSorted asked now kind tracks s = insert-IsSorted 0 asked _ tracks (omega arith) s

-- Once a track's request was forwarded at `t`, nothing more is forwarded for it before the
-- interval is over, whatever is asked for on all tracks and however often the timer looks; and
-- what then waits to be forwarded is the strongest of what was asked for on that track.
pub run-waiting :
    (media_id t : ℕ) (calls : List Call) (wanted : Option Recovery) (tracks : Map Pending)
    → AllBefore (t + keyframe_interval) calls
    → IsSorted 0 tracks
    → get media_id tracks ≡ some (waiting t wanted)
    → ((run media_id calls tracks).1 ≡ 0)
      × (get media_id (run media_id calls tracks).0
          ≡ some (waiting t (strongest media_id calls wanted)))
unfolding run strongest
run-waiting media_id t [] wanted tracks h s e = (refl, e)
run-waiting media_id t (asks asked kind now ∷ calls) wanted tracks h s e =
    let (kept, silent) = request-waiting media_id asked t now kind wanted tracks h.0 e in
    let wanted1 = if asked == media_id then stronger wanted kind else wanted in
    let (none_sent, rest) =
      run-waiting media_id t calls wanted1 (request asked kind now tracks).0 h.1
        (request-IsSorted asked now kind tracks s)
        (kept
          ∙ ap (λ w. some (waiting t (if asked == media_id then w else wanted)))
              (max_wanted-stronger wanted kind)) in
    (omega (arith, silent, none_sent), rest)
run-waiting media_id t (looks now ∷ calls) wanted tracks h s e =
    let (kept, silent) = due-waiting media_id 0 t now wanted tracks h.0 s e in
    let (none_sent, rest) =
      run-waiting media_id t calls wanted (due now tracks).0 h.1 (due-IsSorted 0 now tracks s)
        kept in
    (omega (arith, silent, none_sent), rest)
