-- ===== src/Server/Runs/Answers.antt =====
-- `RunWindow` of crates/throcc-server/src/limits.rs against logs from which nothing is dropped.
use throcc.Prelude.{
  ℕ, ◌≤◌, ◌≡◌, refl, sym, ap, false, List, [], ◌∷◌, ◌++◌, Option, none, some, Option-cases,
  Bool-cases, inl, inr,
}
use throcc.Prelude.Table.{
  find, put, find-put, beq_refl, Keyed, put-Keyed, and_then, find-retain, retain-Keyed,
}
use throcc.Server.Sources.{SourceKey, source_eq}
use throcc.Server.Runs.{
  RunWindow, expire, expire_all, count, unless_empty, or_empty, record_run, pop_back, forgive_run,
}
use throcc.Server.Runs.Window.{
  recent, Suffix, recent-Suffix, Suffix-later, Suffix-expire, Suffix-record, Suffix-pop_back,
  Suffix-nil, Log, changed,
}

-- The entry of each key has all of its runs that count.
pub record Tracks (now : ℕ) (window : RunWindow) (log : Log) : Type 0 where
  pub keyed : Keyed window
  pub agree : (key : SourceKey) → Suffix now (or_empty (find key window)) (log key)

pub Tracks-nil : (now : ℕ) → Tracks now [] (λ key. [])
Tracks-nil now = record { keyed = tt; agree = λ key. unfold find in Suffix-nil now }

pub Tracks-later :
    (now now' : ℕ) (w : RunWindow) (log : Log) → now ≤ now' → Tracks now w log → Tracks now' w log
Tracks-later now now' w log h t = record {
  keyed = t.keyed;
  agree = λ key. Suffix-later now now' (or_empty (find key w)) (log key) h (t.agree key);
}

or_empty-unless_empty : (times : List ℕ) → or_empty (unless_empty times) ≡ times
or_empty-unless_empty [] = refl
or_empty-unless_empty (t ∷ times) = refl

or_empty-expire :
    (now : ℕ) (found : Option (List ℕ))
    → or_empty (and_then found (λ times. unless_empty (expire now times)))
      ≡ expire now (or_empty found)
or_empty-expire now none = unfold expire in refl
or_empty-expire now (some times) = or_empty-unless_empty (expire now times)

pub Tracks-expire_all :
    (now : ℕ) (w : RunWindow) (log : Log) → Tracks now w log → Tracks now (expire_all now w) log
unfolding expire_all
Tracks-expire_all now w log t = record {
  keyed = retain-Keyed (λ times. unless_empty (expire now times)) w t.keyed;
  agree = λ key.
      rw
        (
          find-retain key (λ times. unless_empty (expire now times)) w t.keyed,
          or_empty-expire now (find key w),
        )
        (Suffix-expire now (or_empty (find key w)) (log key) (t.agree key));
}

-- A window in which only the entry of `key` has changed, to `kept`.
Tracks-put :
    (now : ℕ) (key : SourceKey) (kept : List ℕ) (w : RunWindow) (log log' : Log)
    → Tracks now w log
    → Suffix now kept (log' key)
    → ((k : SourceKey) → source_eq.beq k key ≡ false → log' k ≡ log k)
    → Tracks now (put key kept w) log'
Tracks-put now key kept w log log' t s h = record {
  keyed = put-Keyed key kept w t.keyed;
  agree = λ k. rw (find-put k key kept w) (elim (Bool-cases (source_eq.beq k key)) [
    | inl q ↦ rw (q, (source_eq.beq_iff k key).0 q) s
    | inr q ↦ rw (q, h k q) (t.agree k)
  ]);
}

pub Tracks-record_run :
    (now : ℕ) (key : SourceKey) (w : RunWindow) (log : Log)
    → Tracks now w log
    → Tracks now (record_run key now w) (changed key (λ times. times ++ now ∷ []) log)
unfolding record_run
Tracks-record_run now key w log t =
    Tracks-put now key (or_empty (find key w) ++ now ∷ []) w log
      (changed key (λ times. times ++ now ∷ []) log) t
      (rw (beq_refl key) (Suffix-record now (or_empty (find key w)) (log key) (t.agree key)))
      (λ k q. rw q refl)

pub Tracks-forgive_run :
    (now : ℕ) (key : SourceKey) (w : RunWindow) (log : Log)
    → Tracks now w log
    → Tracks now (forgive_run key w) (changed key pop_back log)
unfolding forgive_run pop_back
Tracks-forgive_run now key w log t = elim (Option-cases (find key w)) [
  | inl q ↦
      rw (q, forgive_run)
        record {
          keyed = t.keyed;
          agree = λ k. elim (Bool-cases (source_eq.beq k key)) [
            | inl p ↦
                rw (p, (source_eq.beq_iff k key).0 p, q)
                  (Suffix-pop_back now [] (log key) (rw (sym (ap or_empty q)) (t.agree key)))
            | inr p ↦ rw p (t.agree k)
          ];
        }
  | inr q ↦
      rw (q.1, forgive_run)
        (Tracks-put now key (pop_back q.0) w log (changed key pop_back log) t
          (rw (beq_refl key)
            (Suffix-pop_back now q.0 (log key) (rw (sym (ap or_empty q.1)) (t.agree key))))
          (λ k p. rw p refl))
]

-- What `count` answers is the number of runs in the log that are in the window.
pub Tracks-count :
    (now : ℕ) (key : SourceKey) (w : RunWindow) (log : Log)
    → Tracks now w log
    → Tracks now (count key now w).0 log × ((count key now w).1 ≡ recent now (log key))
unfolding count
Tracks-count now key w log t = elim (Option-cases (find key w)) [
  | inl q ↦
      rw (q, count)
        (
          t,
          unfold expire in recent-Suffix now [] (log key) (rw (sym (ap or_empty q)) (t.agree key)),
        )
  | inr q ↦
      rw (q.1, count)
        (
          Tracks-put now key (expire now q.0) w log log t
              (Suffix-expire now q.0 (log key) (rw (sym (ap or_empty q.1)) (t.agree key)))
              (λ k p. refl),
          recent-Suffix now q.0 (log key) (rw (sym (ap or_empty q.1)) (t.agree key)),
        )
]
