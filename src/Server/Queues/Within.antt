-- ===== src/Server/Queues/Within.antt =====
-- The loops of `enforce_budget` of crates/throcc-server/src/egress.rs end.
use throcc.Prelude.{
  ℕ, zero, suc, ◌≤◌, ◌≡◌, refl, ap, subst, inl, inr, false, List, [], ◌∷◌, Option, none, arith,
  Bool-cases,
}
use throcc.Server.Queues.{Queues, delivered, max_queued_video_bytes}
use throcc.Server.Queues.Units.{finish, drop_unit}
use throcc.Server.Queues.Budget.{
  idle_units, finish_all, give_up_idle_units, is_before, over_budget, late_victim, heavy_victim,
  drop_while, drop_all, enforce_budget,
}
use throcc.Server.Queues.Valid.{IsValid}
use throcc.Server.Queues.Budget.{units}
use throcc.Server.Queues.Dropped.{drop_unit-IsValid, finish-IsValid}
use throcc.Server.Queues.Victims.{
  IsRound, late_victim-IsRound, late_victim_stops, late_victim_rests, heavy_victim-IsRound,
  heavy_victim_stops, heavy_victim_rests,
}

finish_all-IsValid : (ids : List ℕ) (q : Queues) → IsValid q → IsValid (finish_all ids q)
unfolding finish_all
finish_all-IsValid [] q h = h
finish_all-IsValid (id ∷ ids) q h =
    finish_all-IsValid ids (finish id delivered q) (finish-IsValid id delivered q h)

pub give_up_idle_units-IsValid :
    (now : ℕ) (q : Queues) → IsValid q → IsValid (give_up_idle_units now q)
unfolding give_up_idle_units
give_up_idle_units-IsValid now q h = elim (Bool-cases (is_before now q.next_idle_check)) [
  | inl e ↦ rw e h
  | inr e ↦ rw e (finish_all-IsValid (idle_units now q.started) _ h)
]

module _ (victim : Queues → Queues × Option ℕ)
    (round : (q : Queues) → IsValid q → IsRound q (victim q))
    (rests : (q : Queues) → IsValid q → units q ≡ 0 → victim q ≡ (q, none)) where
  -- With as much fuel as there are units the loop ends where it finds no victim.
  drop_while_ends :
      (fuel : ℕ) (q : Queues)
      → units q ≤ fuel
      → IsValid q
      → IsValid (drop_while fuel victim q)
        × ((last : Queues) × IsValid last
            × ((victim last).1 ≡ none)
            × ((victim last).0 ≡ drop_while fuel victim q))
  unfolding drop_while IsRound
  drop_while_ends zero q l h =
      let e = rests q h (omega (arith, l)) in (h, (q, h, ap (λ r. r.1) e, ap (λ r. r.0) e))
  drop_while_ends (suc fuel) q l h =
      let r = round q h in
      elim r.2 [
        | inl e ↦ rw (e, drop_while) (r.0, (q, h, e, refl))
        | inr e ↦
            let d = drop_unit-IsValid e.0 e.1 (victim q).0 e.3 r.0 in
            rw (e.2, drop_while)
              (drop_while_ends fuel (drop_unit e.0 (victim q).0) (omega (arith, l, d.1, r.1)) d.0)
      ]

module _ (now : ℕ) (q : Queues) (h : IsValid q) where
  pub late_ends :
      IsValid (drop_all (late_victim now) q)
      × (over_budget now (drop_all (late_victim now) q) ≡ false)
  late_ends =
      let (v, last) =
        drop_while_ends (late_victim now) (λ q h. late_victim-IsRound q h now)
          (λ q h. late_victim_rests q h now) (units q) q (omega arith) h in
      (
        v,
        subst (λ r. over_budget now r ≡ false) last.3 (late_victim_stops last.0 last.1 now last.2),
      )

  pub heavy_ends :
      IsValid (drop_all heavy_victim q)
      × ((drop_all heavy_victim q).video_bytes ≤ max_queued_video_bytes)
  heavy_ends =
      let (v, last) =
        drop_while_ends heavy_victim heavy_victim-IsRound heavy_victim_rests (units q) q
          (omega arith) h in
      (
        v,
        subst (λ r. r.video_bytes ≤ max_queued_video_bytes) last.3
            (heavy_victim_stops last.0 last.1 last.2),
      )

pub enforce_budget-IsValid : (now : ℕ) (q : Queues) → IsValid q → IsValid (enforce_budget now q)
unfolding enforce_budget
enforce_budget-IsValid now q h =
    (heavy_ends now (drop_all (late_victim now) (give_up_idle_units now q))
      (late_ends now (give_up_idle_units now q) (give_up_idle_units-IsValid now q h)).0).0
