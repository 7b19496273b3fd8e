-- ===== src/Server/Queues/Tests.antt =====
-- Runs of the model of `Queues` of crates/throcc-server/src/egress.rs, and the theorems at concrete
-- inputs.
use throcc.Prelude.{ℕ, ◌+◌, ◌*◌, ◌^◌, ◌≡◌, refl, ◌⊎◌, List, [], ◌∷◌, none, length}
use throcc.Prelude.Map.{get, contains_key, insert, remove}
use throcc.Prelude.Table.{find, put, erase}
use throcc.Proto.Frame
use throcc.Server.Queues.{
  Queues, Packet, video, new, new_unit, unit_at, set_unit, count_drop, remember, last_upto,
}
use throcc.Server.Queues.Units.{
  with_id, queue_unit, push_first, extend_unit, push_video, push, finish_unit, finish, drop_found,
  drop_unit,
}
use throcc.Server.Queues.Budget.{
  idle_units, give_up_idle_units, finish_all, waiting_strays, unstarted_victim, over_budget,
  late_victim, heavy_victim, drop_while, enforce_budget,
}
use throcc.Server.Queues.Valid.{total}
use throcc.Server.Queues.Reached.{Reach, starts, pushes, Reach-video_bytes}

abbrev fragment : (seq bits : ℕ) → List ℕ → Packet
fragment seq bits bytes = record {
  kind = video;
  header = record { media_id = 7; epoch = 1; seq = seq; flags = record { bits = bits } };
  bytes = bytes;
}

-- A unit of two fragments and one that has its first fragment only.
abbrev two_units : Queues
two_units =
    push (fragment 3 2 (7 ∷ [])) 6
      (push (fragment 2 4 (8 ∷ 9 ∷ [])) 5 (push (fragment 1 2 (1 ∷ 2 ∷ [])) 0 new))

two_units-Reach : Reach two_units
two_units-Reach =
    pushes (fragment 3 2 (7 ∷ [])) 6 _
      (pushes (fragment 2 4 (8 ∷ 9 ∷ [])) 5 _ (pushes (fragment 1 2 (1 ∷ 2 ∷ [])) 0 new starts))

counts : (two_units.video_bytes ≡ 5) × (length two_units.waiting ≡ 2)
unfolding new push push_video push_first queue_unit with_id new_unit extend_unit set_unit unit_at
    remember last_upto Frame.contains get insert contains_key find put
counts = (refl, refl)

-- The second unit is dropped only once it too has waited too long.
drops_late :
    (length (enforce_budget (150 * 10 ^ 6 + 3) two_units).waiting ≡ 1)
    × (length (enforce_budget (10 ^ 9) two_units).waiting ≡ 0)
    × ((enforce_budget (10 ^ 9) two_units).video_bytes ≡ 0)
unfolding new push push_video push_first queue_unit with_id new_unit extend_unit set_unit unit_at
    remember last_upto Frame.contains get insert contains_key find put erase remove idle_units
    give_up_idle_units finish_all waiting_strays unstarted_victim over_budget late_victim
    heavy_victim drop_while enforce_budget finish_unit finish drop_found drop_unit count_drop
drops_late = (refl, refl, refl)

Reach-video_bytes_example :
    (two_units.video_bytes ≡ total two_units.started + total two_units.waiting)
    × ((id : ℕ) → (get id two_units.started ≡ none) ⊎ (get id two_units.waiting ≡ none))
Reach-video_bytes_example = Reach-video_bytes two_units two_units-Reach
