-- ===== src/Server/Queues/Budget.antt =====
-- `Queues` of crates/throcc-server/src/egress.rs: the budget, what is sent next, and what is forgotten.
use throcc.Prelude.{
  ℕ, zero, suc, ◌+◌, ◌-◌, Bool, true, false, ◌&&◌, List, [], ◌∷◌, Option, none, some, ltb, length,
  if◌then◌else◌,
}
use throcc.Prelude.Map.{Map, contains_key}
use throcc.Server.Queues.{
  Queues, VideoUnit, delivered, or_else, video_budget, max_queued_video_bytes, unit_idle,
  idle_check,
}
use throcc.Server.Queues.Units.{finish, drop_unit}

abbrev pub is_before : ℕ → Option ℕ → Bool
is_before now none = false
is_before now (some t) = ltb now t

abbrev is_empty : List (List ℕ) → Bool
is_empty [] = true
is_empty (p ∷ ps) = false

-- Started units with nothing to send whose next fragment is overdue.
unfoldable pub idle_units : ℕ → Map VideoUnit → List ℕ
idle_units now [] = []
idle_units now ((id, unit) ∷ started) =
    let rest = idle_units now started in
    if is_empty unit.packets && ltb unit_idle (now - unit.last_fragment)
    then unit.id ∷ rest
    else rest

unfoldable pub finish_all : List ℕ → Queues → Queues
finish_all [] q = q
finish_all (id ∷ ids) q = finish_all ids (finish id delivered q)

unfoldable pub give_up_idle_units : ℕ → Queues → Queues
give_up_idle_units now q =
    if is_before now q.next_idle_check
    then q
    else finish_all (idle_units now q.started)
        (record q { next_idle_check = some (now + idle_check) })

-- The strays from the first one on that waits.
unfoldable pub waiting_strays : Map VideoUnit → List ℕ → List ℕ
waiting_strays waiting [] = []
waiting_strays waiting (id ∷ strays) =
    let rest = waiting_strays waiting strays in
    if contains_key id waiting then id ∷ strays else rest

abbrev pub first_key : Map VideoUnit → Option ℕ
first_key [] = none
first_key ((id, unit) ∷ m) = some id

abbrev pub front : List ℕ → Option ℕ
front [] = none
front (id ∷ ids) = some id

unfoldable pub unstarted_victim : Queues → Queues × Option ℕ
unstarted_victim q =
    let strays = waiting_strays q.waiting q.strays in
    (record q { strays = strays }, or_else (front strays) (first_key q.waiting))

abbrev pub late_in : ℕ → Map VideoUnit → Bool
late_in now [] = false
late_in now ((id, unit) ∷ waiting) = ltb video_budget (now - unit.arrived)

unfoldable pub over_budget : ℕ → Queues → Bool
over_budget now q = late_in now q.waiting

-- The condition and the victim of a round of either loop of `enforce_budget`.
unfoldable pub late_victim : ℕ → Queues → Queues × Option ℕ
late_victim now q = if over_budget now q then unstarted_victim q else (q, none)

unfoldable pub heavy_victim : Queues → Queues × Option ℕ
heavy_victim q =
    let victim = unstarted_victim q in
    if ltb max_queued_video_bytes q.video_bytes
    then (victim.0, or_else victim.1 (first_key q.started))
    else (q, none)

-- A loop of `enforce_budget`, for at most so many rounds.
unfoldable pub drop_while : (fuel : ℕ) → (Queues → Queues × Option ℕ) → Queues → Queues
drop_while zero victim q = q
drop_while (suc fuel) victim q = elim (victim q).1 [
  | none ↦ (victim q).0
  | some id ↦ drop_while fuel victim (drop_unit id (victim q).0)
]

abbrev pub units : Queues → ℕ
units q = length q.started + length q.waiting

-- Each round drops a unit, so that the number of units is fuel enough.
abbrev pub drop_all : (Queues → Queues × Option ℕ) → Queues → Queues
drop_all victim q = drop_while (units q) victim q

unfoldable pub enforce_budget : ℕ → Queues → Queues
enforce_budget now q = drop_all heavy_victim (drop_all (late_victim now) (give_up_idle_units now q))
