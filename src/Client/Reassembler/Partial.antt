-- ===== src/Client/Reassembler/Partial.antt =====
-- `Reassembler::push` (media/fragment.rs) while a fragment of the unit is missing.
use throcc.Prelude.{
  ℕ, ◌^◌, subst, List, [], length, suc, ◌+◌, ◌-◌, ◌≤◌, ◌<◌, ◌≡◌, refl, sym, ap, ◌∙◌, true, false,
  none, some, ltb, arith, Bool-cases, Option-cases, inl, inr,
}
use throcc.Prelude.Map.{Map, get, insert}
use throcc.Proto.Frame.{Flags}
use throcc.Proto.Frame as Frame
use throcc.Client.Reassembler.{
  Received, Reassembler, first_in, last_in, drop_unfinishable, finish, within, complete, new,
  make_room, push, insert_fragment,
}
use throcc.Client.Reassembler.Spans.{span_of_held, IsRun}
use throcc.Client.Reassembler.Kept.{held, flagged, IsIndexed, insert_fragment-IsIndexed}
use throcc.Client.Reassembler.Reached.{held_inserted}
use throcc.Client.Reassembler.Ranges.{first_in-some, last_in-some}

-- Of the `n` fragments numbered from `s` on, and of no others, some are there, but not `gap`; the
-- first of the `n` alone may be marked FIRST, the last alone LAST.
pub record IsPartial (m : Map Received) (s n gap : ℕ) : Type 0 where
  pub only : (k : ℕ) → held m k ≡ true → (s ≤ k) × (k < s + n)
  pub from : s ≤ gap
  pub upto : gap < s + n
  pub missing : held m gap ≡ false
  pub first : (k : ℕ) → flagged Frame.first (get k m) ≡ true → k ≡ s
  pub last : (k : ℕ) → flagged Frame.last (get k m) ≡ true → suc k ≡ s + n

-- An unbroken run is at least one shorter than the unit.
run_short :
    (m : Map Received) (s n gap seq lo hi : ℕ)
    → IsPartial m s n gap
    → IsRun (held m) 0 seq lo hi
    → (s ≤ lo) × (hi < s + n) × (suc (hi - lo) < n)
run_short m s n gap seq lo hi p run =
    let least = p.only lo (run.inside lo (omega arith) (omega (arith, run.lower, run.upper))) in
    let most = p.only hi (run.inside hi (omega (arith, run.lower, run.upper)) (omega arith)) in
    elim (Bool-cases (ltb gap lo)) [
      | inl a ↦ ground (arith, a, least, most, p.from, p.upto, run.lower, run.upper)
      | inr a ↦ elim (Bool-cases (ltb hi gap)) [
        | inl b ↦ ground (arith, b, least, most, p.from, p.upto, run.lower, run.upper)
        | inr b ↦ absurd (ground (arith, a, b, run.inside gap, p.missing))
      ]
    ]

module _ (r : Reassembler) (w : IsIndexed r) (s n gap seq lo hi : ℕ)
    (p : IsPartial r.fragments s n gap) (fits : n ≤ r.max_fragments)
    (run : IsRun (held r.fragments) 0 seq lo hi) where
  drop_unfinishable-partial : drop_unfinishable lo hi r ≡ r
  unfolding drop_unfinishable
  drop_unfinishable-partial =
      let short = run_short r.fragments s n gap seq lo hi p run in
      elim (Option-cases (last_in lo hi r.lasts)) [
        | inl e ↦ rw e (ground (arith, short, fits))
        | inr e ↦
            let bound = last_in-some lo hi e.0 r.lasts e.1 in
            rw e.1 (ground (arith, short, fits, bound))
      ]

  finish-partial :
      (last : ℕ)
      → first_in seq hi r.lasts ≡ some last
      → finish lo (last_in lo seq r.firsts) last r ≡ (r, none)
  unfolding finish
  finish-partial last e =
      let short = run_short r.fragments s n gap seq lo hi p run in
      let (least, most, there) = first_in-some seq hi last r.lasts e in
      elim (Option-cases (last_in lo seq r.firsts)) [
        | inl f ↦ rw f (ground (arith, short, fits, most))
        | inr f ↦
            let bound = last_in-some lo seq f.0 r.firsts f.1 in
            let begin = p.first f.0 (sym (w.firsts f.0) ∙ bound.2) in
            let end = p.last last (sym (w.lasts last) ∙ there) in
            let in_run =
              run.inside gap (omega (arith, p.from, bound.0, begin))
                (omega (arith, p.upto, most, end)) in
            absurd (ground (arith, in_run, p.missing))
      ]

  within-partial : within seq lo hi r ≡ (r, none)
  unfolding within
  within-partial = elim (Option-cases (first_in seq hi r.lasts)) [
    | inl e ↦ rw (e, within) (ap (λ x. (x, none)) drop_unfinishable-partial)
    | inr e ↦ rw (e.1, within) (finish-partial e.0 e.1)
  ]

-- As long as a fragment of the unit is missing nothing is emitted and nothing is dropped.
pub complete-partial :
    (r : Reassembler) (s n gap seq : ℕ)
    → IsIndexed r
    → IsPartial r.fragments s n gap
    → n ≤ r.max_fragments
    → held r.fragments seq ≡ true
    → complete seq r ≡ (r, none)
unfolding complete
complete-partial r s n gap seq w p fits h =
    let span = span_of_held (held r.fragments) 0 seq r.spans w.runs (omega arith) h in
    rw (span.2, complete) (within-partial r w s n gap seq span.0 span.1 p fits span.3)

-- Room for one whole unit.
pub new_room :
    (len n : ℕ)
    → len ≤ n
    → len ≤ 4096
    → (len ≤ (new n).max_fragments) × (len ≤ (new n).max_buffered)
unfolding new
new_room len n few fits = (omega (arith, few, fits), omega (arith, few, fits))

pub new-fragments : (n : ℕ) → (new n).fragments ≡ []
unfolding new
new-fragments n = refl

pub make_room-short :
    (seq : ℕ) (r : Reassembler) → length r.fragments < r.max_buffered → make_room seq r ≡ r
unfolding make_room
make_room-short seq r h = ground (arith, h)

-- A push that leaves a fragment of the unit missing adds its own, and changes nothing else.
pub record Adds (seq : ℕ) (f : Received) (r r' : Reassembler) : Type 0 where
  pub fragments : r'.fragments ≡ insert seq f r.fragments
  pub same_limit : r'.max_fragments ≡ r.max_fragments
  pub same_room : r'.max_buffered ≡ r.max_buffered

pub push-partial :
    (r : Reassembler) (s n gap seq : ℕ) (flags : Flags) (plaintext : List ℕ)
    → IsIndexed r
    → seq < 2 ^ 32
    → make_room seq r ≡ r
    → IsPartial (insert seq (flags, plaintext) r.fragments) s n gap
    → n ≤ r.max_fragments
    → ((push seq flags plaintext r).1 ≡ none)
      × Adds seq (flags, plaintext) r (push seq flags plaintext r).0
unfolding push insert_fragment
push-partial r s n gap seq flags plaintext w h room p fits =
    let r1 = insert_fragment seq flags plaintext r in
    let there = held_inserted seq (flags, plaintext) r.fragments in
    let done =
      complete-partial r1 s n gap seq (insert_fragment-IsIndexed seq flags plaintext r h w) p fits
        there in
    subst
      (λ r2.
        ((complete seq (insert_fragment seq flags plaintext r2)).1 ≡ none)
        × Adds seq (flags, plaintext) r (complete seq (insert_fragment seq flags plaintext r2)).0)
      (sym room)
      (subst (λ done. (done.1 ≡ none) × Adds seq (flags, plaintext) r done.0) (sym done)
        (refl, record { fragments = refl; same_limit = refl; same_room = refl }))
