-- ===== src/Client/Reorder/Deadline.antt =====
-- How long units wait in `Reorder` (media/reorder.rs).
use throcc.Prelude.{
  ℕ, ◌+◌, ◌≤◌, ◌<◌, ◌≡◌, refl, sym, inl, inr, List, [], ◌∷◌, Option, none, some, length, arith,
  Bool-cases,
}
use throcc.Prelude.Map.{Map, insert}
use throcc.Client.Units.{AccessUnit}
use throcc.Client.Reorder.{
  Reorder, empty, unwrap_or, checked_succ, drain, poll, push, make_room, is_late, reorder_window,
  deadline,
}
use throcc.Client.Reorder.Calls.{Calls, step, units}

-- The state after the calls.
unfoldable pub after : Calls → Reorder → Reorder
after [] r = r
after ((now, call) ∷ calls) r = after calls (step now call r).0

-- The times do not fall, from `t` on, and the last is `last`.
abbrev pub Timed : ℕ → ℕ → Calls → Type 0
Timed t last [] = t ≡ last
Timed t last ((now, call) ∷ calls) = (t ≤ now) × Timed now last calls

-- A gap is open exactly if something waits, since `t` at the latest.
abbrev Timely : ℕ → Option ℕ → Map AccessUnit → Type 0
Timely t gap [] = gap ≡ none
Timely t none (e ∷ w) = none ≡ some t
Timely t (some since) (e ∷ w) = since ≤ t

abbrev Early : ℕ → Option ℕ → Map AccessUnit → Type 0
Early t none w = Unit {0}
Early t (some since) w = (since ≤ t) × (0 < length w)

drain-Timely :
    (now : ℕ) (next gap : Option ℕ) (w : Map AccessUnit)
    → Early now gap w
    → Timely now (drain now next gap w).0.gap_since (drain now next gap w).0.waiting
unfolding drain
drain-Timely now next none [] h = refl
drain-Timely now next (some since) [] h = absurd (omega (arith, h.1))
drain-Timely now next none ((k, u) ∷ w) h =
    ground (arith, drain-Timely now (checked_succ u.last_seq) none w)
drain-Timely now next (some since) ((k, u) ∷ w) h =
    ground (arith, drain-Timely now (checked_succ u.last_seq) none w)

Early-Timely :
    (t now : ℕ) (gap : Option ℕ) (w : Map AccessUnit) → t ≤ now → Timely t gap w → Early now gap w
Early-Timely t now none w h e = tt
Early-Timely t now (some since) [] h e = absurd (ground (arith, e))
Early-Timely t now (some since) (entry ∷ w) h e = (omega arith, omega arith)

length-insert_pos : (u : AccessUnit) (w : Map AccessUnit) → 0 < length (insert u.first_seq u w)
unfolding insert
length-insert_pos u [] = omega arith
length-insert_pos u (e ∷ w) = ground arith

Early-insert :
    (t now : ℕ) (gap : Option ℕ) (u : AccessUnit) (w w' : Map AccessUnit)
    → t ≤ now
    → Timely t gap w
    → Early now gap (insert u.first_seq u w')
Early-insert t now none u w w' h e = tt
Early-insert t now (some since) u [] w' h e = absurd (ground (arith, e))
Early-insert t now (some since) u (entry ∷ w) w' h e = (omega arith, length-insert_pos u w')

Timely-later :
    (t now : ℕ) (gap : Option ℕ) (w : Map AccessUnit) → t ≤ now → Timely t gap w → Timely now gap w
Timely-later t now gap [] h e = e
Timely-later t now none (entry ∷ w) h e = absurd (ground (arith, e))
Timely-later t now (some since) (entry ∷ w) h e = omega arith

step-Timely :
    (t now : ℕ) (call : Option AccessUnit) (r : Reorder)
    → t ≤ now
    → Timely t r.gap_since r.waiting
    → Timely now (step now call r).0.gap_since (step now call r).0.waiting
unfolding poll push
step-Timely t now none r h e =
    drain-Timely now r.next r.gap_since r.waiting (Early-Timely t now r.gap_since r.waiting h e)
step-Timely t now (some u) r h e = elim (Bool-cases (is_late r.next u)) [
  | inl p ↦ rw (p, push) (Timely-later t now r.gap_since r.waiting h e)
  | inr p ↦
      rw (p, push)
        (drain-Timely now (some (unwrap_or r.next u.first_seq)) r.gap_since
          (insert u.first_seq u (make_room r.waiting))
          (Early-insert t now r.gap_since u r.waiting (make_room r.waiting) h e))
]

after-Timely :
    (calls : Calls) (t last : ℕ) (r : Reorder)
    → Timed t last calls
    → Timely t r.gap_since r.waiting
    → Timely last (after calls r).gap_since (after calls r).waiting
unfolding after
after-Timely [] t last r h e = Timely-later t last r.gap_since r.waiting (omega (arith, h)) e
after-Timely ((now, call) ∷ calls) t last r h e =
    after-Timely calls now last (step now call r).0 h.1 (step-Timely t now call r h.0 e)

-- A poll at the deadline releases the first that waits.
poll_due :
    (t : ℕ) (next gap : Option ℕ) (w : Map AccessUnit) (k : ℕ) (u : AccessUnit)
    → Timely t gap ((k, u) ∷ w)
    → (d : ℕ) × (elim gap [ none ↦ none | some since ↦ some (since + reorder_window) ] ≡ some d)
      × (d ≤ t + reorder_window)
      × ((now : ℕ)
          → d ≤ now
          → (us : List AccessUnit) × (units (drain now next gap ((k, u) ∷ w)).1 ≡ u ∷ us))
unfolding drain units
poll_due t next none w k u e = absurd (ground (arith, e))
poll_due t next (some since) w k u e = (
  since + reorder_window,
  refl,
  omega arith,
  λ now h. (units (drain now (checked_succ u.last_seq) none w).1, ground arith),
)

-- After any pushes and polls in the order of their times, the last at `t`: if a unit `u` is the
-- first of those that wait, then there is a deadline, at most 50 milliseconds after `t`, and a poll
-- at the deadline, or by any time `more` later, releases `u` before any other unit.
pub deadline-after :
    (calls : Calls) (t k : ℕ) (u : AccessUnit) (w : Map AccessUnit) (more : ℕ)
    → Timed 0 t calls
    → (after calls empty).waiting ≡ (k, u) ∷ w
    → (d : ℕ) × (deadline (after calls empty) ≡ some d)
      × (d ≤ t + 50000000)
      × (us : List AccessUnit) × (units (poll (d + more) (after calls empty)).1 ≡ u ∷ us)
unfolding deadline poll
deadline-after calls t k u w more h q =
    let r = after calls empty in
    let due =
      poll_due t r.next r.gap_since w k u (rw (sym q) (after-Timely calls 0 t empty h refl)) in
    let out = due.3 (due.0 + more) (omega arith) in rw q (due.0, due.1, due.2, out.0, out.1)
