-- ===== src/Client/Reorder/Chain.antt =====
-- What waits in `Reorder` (media/reorder.rs), and what one `poll` lets out.
use throcc.Prelude.{
  ℕ, ◌+◌, ◌≤◌, ◌≡◌, refl, ap, inl, inr, List, [], ◌∷◌, ◌++◌, Option, none, some, ltb, arith,
  Bool-cases,
}
use throcc.Prelude.Map.{Map, insert}
use throcc.Client.Units.{AccessUnit}
use throcc.Client.Reorder.{
  Output, unit, abandoned, late, Reorder, unwrap_or, checked_succ, drain, make_room, reorder_window,
}
use throcc.Client.Reorder.Calls.{IsUnit, Disjoint, units, Ascending}

-- And the last one ends before `hi`.
abbrev pub Climbs : ℕ → ℕ → List AccessUnit → Type 0
Climbs lo hi [] = lo ≤ hi
Climbs lo hi (u ∷ us) =
    (lo ≤ u.first_seq) × (u.first_seq ≤ u.last_seq) × Climbs (u.last_seq + 1) hi us

pub units-append : (xs ys : List Output) → units (xs ++ ys) ≡ units xs ++ units ys
unfolding units
units-append [] ys = refl
units-append (unit u ∷ xs) ys = ap (λ us. u ∷ us) (units-append xs ys)
units-append (abandoned from ∷ xs) ys = units-append xs ys
units-append (late ∷ xs) ys = units-append xs ys

pub Ascending-lower :
    (lo hi : ℕ) (us : List AccessUnit) → lo ≤ hi → Ascending hi us → Ascending lo us
Ascending-lower lo hi [] h a = tt
Ascending-lower lo hi (u ∷ us) h a = (omega arith, a.1)

pub Climbs-Ascending :
    (lo hi : ℕ) (us vs : List AccessUnit)
    → Climbs lo hi us
    → Ascending hi vs
    → Ascending lo (us ++ vs)
Climbs-Ascending lo hi [] vs c a = Ascending-lower lo hi vs c a
Climbs-Ascending lo hi (u ∷ us) vs c a = (c.0, Climbs-Ascending (u.last_seq + 1) hi us vs c.2 a)

-- What waits follows in order from `lo` on, under its first numbers.
abbrev pub Chained : ℕ → Map AccessUnit → Type 0
Chained lo [] = Unit {0}
Chained lo ((k, u) ∷ w) = (k ≡ u.first_seq) × (lo ≤ k) × IsUnit u × Chained (u.last_seq + 1) w

pub Chained-lower : (lo hi : ℕ) (w : Map AccessUnit) → lo ≤ hi → Chained hi w → Chained lo w
Chained-lower lo hi [] h c = tt
Chained-lower lo hi ((k, u) ∷ w) h c = (c.0, omega arith, c.2, c.3)

abbrev pub DisjointWaiting : AccessUnit → Map AccessUnit → Type 0
DisjointWaiting v [] = Unit {0}
DisjointWaiting v ((k, u) ∷ w) = Disjoint u v × DisjointWaiting v w

pub insert-Chained :
    (lo : ℕ) (u : AccessUnit) (w : Map AccessUnit)
    → lo ≤ u.first_seq
    → IsUnit u
    → DisjointWaiting u w
    → Chained lo w
    → Chained lo (insert u.first_seq u w)
unfolding insert
insert-Chained lo u [] h i d c = (refl, h, i, tt)
insert-Chained lo u ((k, v) ∷ w) h i d c = ground (arith, insert-Chained (v.last_seq + 1) u w)

pub insert-DisjointWaiting :
    (v u : AccessUnit) (w : Map AccessUnit)
    → Disjoint u v
    → DisjointWaiting v w
    → DisjointWaiting v (insert u.first_seq u w)
unfolding insert
insert-DisjointWaiting v u [] h d = (h, tt)
insert-DisjointWaiting v u ((k, t) ∷ w) h d = ground (arith, insert-DisjointWaiting v u w)

pub make_room-Chained : (lo : ℕ) (w : Map AccessUnit) → Chained lo w → Chained lo (make_room w)
unfolding make_room
make_room-Chained lo [] c = tt
make_room-Chained lo ((k, u) ∷ w) c = ground (arith, Chained-lower lo (u.last_seq + 1) w)

pub make_room-DisjointWaiting :
    (v : AccessUnit) (w : Map AccessUnit) → DisjointWaiting v w → DisjointWaiting v (make_room w)
unfolding make_room
make_room-DisjointWaiting v [] d = tt
make_room-DisjointWaiting v ((k, u) ∷ w) d = ground arith

-- A unit that shares no number with what waits or with what came out, if it is not late.
abbrev pub Clear : AccessUnit → ℕ → Map AccessUnit → Type 0
Clear v next w = DisjointWaiting v w × (next ≤ v.last_seq → next ≤ v.first_seq)

-- What came out starts at `from` or later, and what still waits follows it.
pub record Drained (from : ℕ) (w : Map AccessUnit) (result : Reorder × List Output) : Type 0 where
  pub next : ℕ
  pub next_eq : result.0.next ≡ some next
  pub climbs : Climbs from next (units result.1)
  pub chained : Chained next result.0.waiting
  pub clear : (v : AccessUnit) → Clear v from w → Clear v next result.0.waiting

pub checked_succ_unit :
    (u : AccessUnit) → IsUnit u → checked_succ u.last_seq ≡ some (u.last_seq + 1)
checked_succ_unit u i = ground arith

pub drain-Drained :
    (now next : ℕ) (gap : Option ℕ) (w : Map AccessUnit)
    → Chained next w
    → Drained next w (drain now (some next) gap w)
unfolding drain units
drain-Drained now next gap [] c = record {
  next = next;
  next_eq = refl;
  climbs = omega arith;
  chained = tt;
  clear = λ v h. h;
}
drain-Drained now next gap ((k, u) ∷ w) c =
    let rest = drain-Drained now (u.last_seq + 1) none w c.3 in
    elim (Bool-cases (ltb next k)) [
      | inl p ↦ elim (Bool-cases (ltb now (unwrap_or gap now + reorder_window))) [
        | inl q ↦
            rw (p, q, drain)
              record {
                next = next;
                next_eq = refl;
                climbs = unfold units in omega arith;
                chained = c;
                clear = λ v h. h;
              }
        | inr q ↦
            rw (p, q, drain, checked_succ_unit u c.2)
              record {
                next = rest.next;
                next_eq = rest.next_eq;
                climbs = ground arith;
                chained = rest.chained;
                clear = λ v h. rest.clear v (h.0.1, ground arith);
              }
      ]
      | inr p ↦
          rw (p, drain, checked_succ_unit u c.2)
            record {
              next = rest.next;
              next_eq = rest.next_eq;
              climbs = ground arith;
              chained = rest.chained;
              clear = λ v h. rest.clear v (h.0.1, ground arith);
            }
    ]
