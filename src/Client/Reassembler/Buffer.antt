-- ===== src/Client/Reassembler/Buffer.antt =====
-- `complete` of `Reassembler::push` (media/fragment.rs) and what the reassembler keeps beside the
-- fragments.
use throcc.Prelude.{
  ℕ, ◌+◌, ◌-◌, ◌≤◌, ◌≡◌, refl, inl, inr, true, Option, none, some, ltb, leb, arith, Bool-cases,
  Option-cases,
}
use throcc.Client.Reassembler.{
  Reassembler, map_or, first_in, last_in, drop_unfinishable, take_unit, finish, within, complete,
}
use throcc.Client.Reassembler.Spans.{span_of_held, IsRun}
use throcc.Client.Reassembler.Kept.{held, IsIndexed, drop_run-IsIndexed}
use throcc.Client.Reassembler.Ranges.{first_in-some, first_in-none, last_in-some}

drop_unfinishable-IsIndexed :
    (lo seq hi : ℕ) (r : Reassembler)
    → IsRun (held r.fragments) 0 seq lo hi
    → first_in seq hi r.lasts ≡ none
    → IsIndexed r
    → IsIndexed (drop_unfinishable lo hi r)
unfolding drop_unfinishable
drop_unfinishable-IsIndexed lo seq hi r run e w =
    let after_last = map_or (last_in lo hi r.lasts) lo (λ l. l + 1) in
    let within : (lo ≤ after_last) × (after_last ≤ seq) =
      elim (Option-cases (last_in lo hi r.lasts)) [
        | inl p ↦ rw p (omega arith, run.lower)
        | inr p ↦
            let found = last_in-some lo hi p.0 r.lasts p.1 in
            rw p.1 (
              omega (arith, found.0),
              ground (arith, found.1, found.2, first_in-none seq hi 0 p.0 r.lasts w.lasts_sorted),
            )
      ] in
    elim (Bool-cases (leb (r.max_fragments - 1) (hi - after_last))) [
      | inl p ↦
          rw (p, drop_unfinishable)
            (drop_run-IsIndexed after_last (hi - (r.max_fragments - 1)) r
              (ground (arith, within, run.upper))
              (λ k i j. run.inside k (omega (arith, within)) (omega arith)) w)
      | inr p ↦ rw (p, drop_unfinishable) w
    ]

finish-IsIndexed :
    (lo seq hi last : ℕ) (first : Option ℕ) (r : Reassembler)
    → IsRun (held r.fragments) 0 seq lo hi
    → last_in lo seq r.firsts ≡ first
    → seq ≤ last
    → last ≤ hi
    → IsIndexed r
    → IsIndexed (finish lo first last r).0
unfolding finish take_unit
finish-IsIndexed lo seq hi last none r run e i j w =
    let dropped =
      drop_run-IsIndexed lo last r (omega (arith, run.lower))
        (λ k m n. run.inside k m (omega arith)) w in
    elim (Bool-cases (leb (r.max_fragments - 1) (last - lo))) [
      | inl p ↦ rw (p, finish) dropped
      | inr p ↦ rw (p, finish) w
    ]
finish-IsIndexed lo seq hi last (some first) r run e i j w =
    let found = last_in-some lo seq first r.firsts e in
    let dropped =
      drop_run-IsIndexed first last r (omega (arith, found.1))
        (λ k m n. run.inside k (omega (arith, found.0)) (omega arith)) w in
    elim (Bool-cases (ltb (last - first) r.max_fragments)) [
      | inl p ↦ rw (p, finish) dropped
      | inr p ↦ rw (p, finish) dropped
    ]

within-IsIndexed :
    (seq lo hi : ℕ) (r : Reassembler)
    → IsRun (held r.fragments) 0 seq lo hi
    → IsIndexed r
    → IsIndexed (within seq lo hi r).0
unfolding within
within-IsIndexed seq lo hi r run w = elim (Option-cases (first_in seq hi r.lasts)) [
  | inl p ↦ rw (p, within) (drop_unfinishable-IsIndexed lo seq hi r run p w)
  | inr p ↦
      let found = first_in-some seq hi p.0 r.lasts p.1 in
      rw (p.1, within)
        (finish-IsIndexed lo seq hi p.0 (last_in lo seq r.firsts) r run refl found.0 found.1 w)
]

pub complete-IsIndexed :
    (seq : ℕ) (r : Reassembler)
    → IsIndexed r
    → held r.fragments seq ≡ true
    → IsIndexed (complete seq r).0
unfolding complete
complete-IsIndexed seq r w h =
    let span = span_of_held (held r.fragments) 0 seq r.spans w.runs (omega arith) h in
    rw (span.2, complete) (within-IsIndexed seq span.0 span.1 r span.3 w)
