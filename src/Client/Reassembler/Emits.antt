-- ===== src/Client/Reassembler/Emits.antt =====
-- Which unit `Reassembler::push` (media/fragment.rs) finds in the buffer.
use throcc.Prelude.{
  ℕ, zero, suc, ◌-◌, ◌≤◌, ◌<◌, ◌≡◌, refl, ◌∙◌, sym, ap, ap₂, true, false, List, [], ◌∷◌, Option,
  none, some, arith, ltb, Bool-cases, Option-cases, inl, inr,
}
use throcc.Prelude.Map.{Map, get, remove, get-remove}
use throcc.Proto.Frame as Frame
use throcc.Client.Units.{AccessUnit}
use throcc.Client.Reassembler.{
  Received, Reassembler, map_or, within, complete, finish, take_unit, assemble, taken, rounds,
  first_in, last_in,
}
use throcc.Client.Reassembler.Spans.{span_of_held, IsRun}
use throcc.Client.Reassembler.Kept.{held, flagged, IsIndexed}
use throcc.Client.Reassembler.Ranges.{
  first_in_least, last_in_greatest, first_in-some, first_in_before, last_in-some, last_in_after,
}

-- The fragments of `n` numbers from `seq` on.
unfoldable pub between : ℕ → ℕ → Map Received → List Received
between seq zero m = []
between seq (suc n) m = let rest = between (suc seq) n m in map_or (get seq m) rest (λ f. f ∷ rest)

between-remove :
    (j seq n : ℕ) (m : Map Received) → j < seq → between seq n (remove j m) ≡ between seq n m
unfolding between
between-remove j seq zero m h = refl
between-remove j seq (suc n) m h =
    ground (arith, between-remove j (suc seq) n m, get-remove seq j m, Option-cases (get seq m))

taken-between : (seq n : ℕ) (m : Map Received) → taken seq n m ≡ between seq n m
unfolding taken between
taken-between seq zero m = refl
taken-between seq (suc n) m =
    rw (taken-between (suc seq) n (remove seq m), between-remove seq (suc seq) n m (omega arith))
      refl

-- The fragments from `first` to `last` are a whole unit with `seq` in it: all are there, and of
-- those up to `seq` only the first is marked FIRST, of those from `seq` on only the last LAST.
pub record IsWhole (m : Map Received) (seq first last : ℕ) : Type 0 where
  pub lower : first ≤ seq
  pub upper : seq ≤ last
  pub inside : (k : ℕ) → first ≤ k → k ≤ last → held m k ≡ true
  pub begins : flagged Frame.first (get first m) ≡ true
  pub ends : flagged Frame.last (get last m) ≡ true
  pub no_first : (k : ℕ) → first < k → k ≤ seq → flagged Frame.first (get k m) ≡ false
  pub no_last : (k : ℕ) → seq ≤ k → k < last → flagged Frame.last (get k m) ≡ false

module _ (r : Reassembler) (w : IsIndexed r) (seq first last : ℕ)
    (unit : IsWhole r.fragments seq first last) where
  run_lower : (lo hi : ℕ) → IsRun (held r.fragments) 0 seq lo hi → lo ≤ first
  run_lower zero hi run = omega arith
  run_lower (suc k) hi run = elim (Bool-cases (ltb first (suc k))) [
    | inl p ↦ absurd (ground (arith, run.begins k, unit.inside k, run.lower, unit.upper))
    | inr p ↦ ground arith
  ]

  run_upper : (lo hi : ℕ) → IsRun (held r.fragments) 0 seq lo hi → last ≤ hi
  run_upper lo hi run = elim (Bool-cases (ltb hi last)) [
    | inl p ↦ absurd (ground (arith, run.ends, unit.inside (suc hi), run.upper, unit.lower))
    | inr p ↦ ground arith
  ]

  finds_last : (hi : ℕ) → last ≤ hi → first_in seq hi r.lasts ≡ some last
  finds_last hi h =
      first_in_least seq hi 0 last r.lasts w.lasts_sorted unit.upper h (w.lasts last ∙ unit.ends)
        (λ k i j. w.lasts k ∙ unit.no_last k i j)

  finds_first : (lo : ℕ) → lo ≤ first → last_in lo seq r.firsts ≡ some first
  finds_first lo h =
      last_in_greatest lo seq 0 first r.firsts w.firsts_sorted h unit.lower
        (w.firsts first ∙ unit.begins) (λ k i j. w.firsts k ∙ unit.no_first k i j)

  pub complete-IsWhole :
      last - first < r.max_fragments
      → (complete seq r).1 ≡ assemble first last (between first (rounds first last) r.fragments)
  unfolding complete within finish take_unit
  complete-IsWhole h =
      let span =
        span_of_held (held r.fragments) 0 seq r.spans w.runs (omega arith)
          (unit.inside seq unit.lower unit.upper) in
      rw
        (
          span.2,
          complete,
          finds_last span.1 (run_upper span.0 span.1 span.3),
          finds_first span.0 (run_lower span.0 span.1 span.3),
          taken-between first (rounds first last) r.fragments,
        )
        (ground arith)

assemble_numbers :
    (first last : ℕ) (run : List Received) (u : AccessUnit)
    → assemble first last run ≡ some u
    → (u.first_seq ≡ first) × (u.last_seq ≡ last)
unfolding assemble
assemble_numbers first last ((flags, a ∷ b ∷ c ∷ d ∷ head) ∷ rest) u e = ground (arith, e)
assemble_numbers first last ((flags, a ∷ b ∷ c ∷ []) ∷ rest) u e = absurd (ground (arith, e))
assemble_numbers first last ((flags, a ∷ b ∷ []) ∷ rest) u e = absurd (ground (arith, e))
assemble_numbers first last ((flags, a ∷ []) ∷ rest) u e = absurd (ground (arith, e))
assemble_numbers first last ((flags, []) ∷ rest) u e = absurd (ground (arith, e))
assemble_numbers first last [] u e = absurd (ground (arith, e))

-- A unit that is emitted is the whole one with its numbers.
pub record Emitted (m : Map Received) (most seq : ℕ) (u : AccessUnit) : Type 0 where
  pub whole : IsWhole m seq u.first_seq u.last_seq
  pub short : u.last_seq - u.first_seq < most
  pub made :
      assemble u.first_seq u.last_seq (between u.first_seq (rounds u.first_seq u.last_seq) m)
      ≡ some u

finish-some :
    (lo last : ℕ) (found : Option ℕ) (r : Reassembler) (u : AccessUnit)
    → (finish lo found last r).1 ≡ some u
    → (first : ℕ) × (found ≡ some first)
      × (last - first < r.max_fragments)
      × (assemble first last (taken first (rounds first last) r.fragments) ≡ some u)
unfolding finish take_unit
finish-some lo last none r u e = absurd (ground (arith, e))
finish-some lo last (some first) r u e = (first, refl, ground (arith, e), ground (arith, e))

within-some :
    (seq lo hi : ℕ) (r : Reassembler) (u : AccessUnit)
    → (within seq lo hi r).1 ≡ some u
    → (last : ℕ) × (first_in seq hi r.lasts ≡ some last)
      × ((finish lo (last_in lo seq r.firsts) last r).1 ≡ some u)
unfolding within
within-some seq lo hi r u e = ground (arith, e, Option-cases (first_in seq hi r.lasts))

module _ (r : Reassembler) (w : IsIndexed r) (seq : ℕ) (u : AccessUnit) where
  run-Emitted :
      (lo hi : ℕ)
      → IsRun (held r.fragments) 0 seq lo hi
      → (within seq lo hi r).1 ≡ some u
      → Emitted r.fragments r.max_fragments seq u
  run-Emitted lo hi run e =
      let (last, f, g) = within-some seq lo hi r u e in
      let (first, i, j, k) = finish-some lo last (last_in lo seq r.firsts) r u g in
      let l = first_in-some seq hi last r.lasts f in
      let m = last_in-some lo seq first r.firsts i in
      let (n, o) = assemble_numbers first last (taken first (rounds first last) r.fragments) u k in
      record {
        whole = record {
          lower = omega (arith, m.1, n);
          upper = omega (arith, l.0, o);
          inside = λ x p q. run.inside x (omega (arith, m.0, n)) (omega (arith, l.1, o));
          begins = ap (λ a. flagged Frame.first (get a r.fragments)) n ∙ sym (w.firsts first) ∙ m.2;
          ends = ap (λ a. flagged Frame.last (get a r.fragments)) o ∙ sym (w.lasts last) ∙ l.2;
          no_first = λ x p q.
              sym (w.firsts x)
              ∙ last_in_after lo seq 0 first x r.firsts w.firsts_sorted (omega (arith, n)) q i;
          no_last = λ x p q.
              sym (w.lasts x)
              ∙ first_in_before seq hi 0 last x r.lasts w.lasts_sorted p (omega (arith, o)) f;
        };
        short = omega (arith, n, o, j);
        made =
            ap₂ (λ a b. assemble a b (between a (rounds a b) r.fragments)) n o
            ∙ (ap (assemble first last) (sym (taken-between first (rounds first last) r.fragments))
                ∙ k);
      }

  pub complete-Emitted :
      held r.fragments seq ≡ true
      → (complete seq r).1 ≡ some u
      → Emitted r.fragments r.max_fragments seq u
  unfolding complete
  complete-Emitted h e =
      let span = span_of_held (held r.fragments) 0 seq r.spans w.runs (omega arith) h in
      run-Emitted span.0 span.1 span.3 (sym (rw (span.2, complete) refl) ∙ e)
