-- ===== src/Client/Reorder/Order.antt =====
-- The order in which units come out of `Reorder` (media/reorder.rs).
use throcc.Prelude.{
  ℕ, ◌≤◌, ◌≡◌, refl, inl, inr, List, [], ◌∷◌, ◌++◌, Option, none, some, arith, Bool-cases,
}
use throcc.Prelude.Map.{Map, insert}
use throcc.Client.Units.{AccessUnit}
use throcc.Client.Reorder.{Output, Reorder, empty, drain, poll, push, make_room, is_late}
use throcc.Client.Reorder.Calls.{IsUnit, DisjointAll, Calls, Apart, outputs, units, Ascending}
use throcc.Client.Reorder.Chain.{
  Ascending-lower, Chained, Clear, Climbs-Ascending, Drained, drain-Drained, insert-Chained,
  insert-DisjointWaiting, make_room-Chained, make_room-DisjointWaiting, units-append,
}

abbrev ClearAll : Calls → ℕ → Map AccessUnit → Type 0
ClearAll [] next w = Unit {0}
ClearAll ((now, none) ∷ calls) next w = ClearAll calls next w
ClearAll ((now, some v) ∷ calls) next w = Clear v next w × ClearAll calls next w

ClearAll-Drained :
    (calls : Calls) (from : ℕ) (w : Map AccessUnit) (result : Reorder × List Output)
    (d : Drained from w result)
    → ClearAll calls from w
    → ClearAll calls d.next result.0.waiting
ClearAll-Drained [] from w result d h = tt
ClearAll-Drained ((now, none) ∷ calls) from w result d h = ClearAll-Drained calls from w result d h
ClearAll-Drained ((now, some v) ∷ calls) from w result d h =
    (d.clear v h.0, ClearAll-Drained calls from w result d h.1)

-- A push of `u` keeps the later units clear.
ClearAll-insert :
    (calls : Calls) (u : AccessUnit) (next : ℕ) (w : Map AccessUnit)
    → DisjointAll u calls
    → ClearAll calls next w
    → ClearAll calls next (insert u.first_seq u (make_room w))
ClearAll-insert [] u next w d h = tt
ClearAll-insert ((now, none) ∷ calls) u next w d h = ClearAll-insert calls u next w d h
ClearAll-insert ((now, some v) ∷ calls) u next w d h = (
  (insert-DisjointWaiting v u (make_room w) d.0 (make_room-DisjointWaiting v w h.0.0), h.0.1),
  ClearAll-insert calls u next w d.1 h.1,
)

-- Before the first unit, every later unit is clear.
ClearAll-first :
    (calls : Calls) (u : AccessUnit)
    → IsUnit u
    → DisjointAll u calls
    → ClearAll calls u.first_seq []
ClearAll-first [] u i d = tt
ClearAll-first ((now, none) ∷ calls) u i d = ClearAll-first calls u i d
ClearAll-first ((now, some v) ∷ calls) u i d = ((tt, ground arith), ClearAll-first calls u i d.1)

abbrev Ready : ℕ → Calls → Option ℕ → Map AccessUnit → Type 0
Ready lo calls none w = (w ≡ []) × (lo ≡ 0)
Ready lo calls (some next) w = (lo ≤ next) × Chained next w × ClearAll calls next w

Ready-Drained :
    (calls : Calls) (from : ℕ) (w : Map AccessUnit) (result : Reorder × List Output)
    (d : Drained from w result)
    → ClearAll calls from w
    → Ready d.next calls result.0.next result.0.waiting
Ready-Drained calls from w result d h =
    rw d.next_eq (omega arith, d.chained, ClearAll-Drained calls from w result d h)

-- A run that is in order from every state that is ready is in order after a drain.
Ascending-Drained :
    (calls : Calls) (lo from now : ℕ) (gap : Option ℕ) (w : Map AccessUnit)
    → ((lo' : ℕ) (r : Reorder)
        → Ready lo' calls r.next r.waiting
        → Ascending lo' (units (outputs calls r)))
    → lo ≤ from
    → Chained from w
    → ClearAll calls from w
    → Ascending lo
        (units ((drain now (some from) gap w).1 ++ outputs calls (drain now (some from) gap w).0))
Ascending-Drained calls lo from now gap w later h c clear =
    let (r, out) = drain now (some from) gap w in
    let d = drain-Drained now from gap w c in
    rw (units-append out (outputs calls r)) (
      Ascending-lower lo from (units out ++ units (outputs calls r)) h (
        Climbs-Ascending from d.next (units out) (units (outputs calls r)) d.climbs
          (later d.next r (Ready-Drained calls from w (r, out) d clear))))

outputs-Ready :
    (calls : Calls) (lo : ℕ) (next gap : Option ℕ) (w : Map AccessUnit)
    → Apart calls
    → Ready lo calls next w
    → Ascending lo (units (outputs calls (record { next = next; waiting = w; gap_since = gap })))
unfolding outputs poll push units drain
outputs-Ready [] lo next gap w a h = tt
outputs-Ready ((now, none) ∷ calls) lo none gap [] a h = outputs-Ready calls lo none gap [] a h
outputs-Ready ((now, none) ∷ calls) lo (some n) gap w a h =
    Ascending-Drained calls lo n now gap w
      (λ lo' r. outputs-Ready calls lo' r.next r.gap_since r.waiting a) h.0 h.1 h.2
outputs-Ready ((now, call) ∷ calls) lo none gap (e ∷ w) a h = absurd (ground (arith, h.0))
outputs-Ready ((now, some u) ∷ calls) lo none gap [] a h =
    Ascending-Drained calls lo u.first_seq now gap (insert u.first_seq u (make_room []))
      (λ lo' r. outputs-Ready calls lo' r.next r.gap_since r.waiting a.2) (omega (arith, h.1))
      (insert-Chained u.first_seq u (make_room []) (omega arith) a.0
        (make_room-DisjointWaiting u [] tt) (make_room-Chained u.first_seq [] tt))
      (ClearAll-insert calls u u.first_seq [] a.1 (ClearAll-first calls u a.0 a.1))
outputs-Ready ((now, some u) ∷ calls) lo (some n) gap w a h =
    elim (Bool-cases (is_late (some n) u)) [
      | inl p ↦ rw (p, push) (outputs-Ready calls lo (some n) gap w a.2 (h.0, h.1, h.2.1))
      | inr p ↦
          rw (p, push)
            (Ascending-Drained calls lo n now gap (insert u.first_seq u (make_room w))
              (λ lo' r. outputs-Ready calls lo' r.next r.gap_since r.waiting a.2) h.0
              (insert-Chained n u (make_room w) (h.2.0.1 (ground arith)) a.0
                (make_room-DisjointWaiting u w h.2.0.0) (make_room-Chained n w h.1))
              (ClearAll-insert calls u n w a.1 h.2.1))
    ]

-- Among units that share no numbers, none of them with the last number of a u32, pushed in any
-- order and at any times with polls in between, those that come out come in the order of their
-- numbers, each starting after the end of the one before.
pub Ascending-outputs : (calls : Calls) → Apart calls → Ascending 0 (units (outputs calls empty))
Ascending-outputs calls a = outputs-Ready calls 0 none none [] a (refl, refl)
