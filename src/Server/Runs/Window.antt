-- ===== src/Server/Runs/Window.antt =====
-- `RunWindow` of crates/throcc-server/src/limits.rs, one key of it, against a log from which nothing
-- is dropped.
use throcc.Prelude.{
  ℕ, ◌+◌, ◌-◌, ◌≤◌, ◌<◌, ◌≡◌, refl, sym, ap, ◌∙◌, List, [], ◌∷◌, ◌++◌, ltb, if◌then◌else◌, arith,
  length, Bool-cases, inl, inr, append-nil, append_assoc,
}
use throcc.Prelude.Table.{find}
use throcc.Server.Sources.{SourceKey, source_eq}
use throcc.Server.Runs.{source_window, RunWindow, expire, or_empty, pop_back}

-- How many of the times lie in the window that ends `now`.
pub recent : ℕ → List ℕ → ℕ
recent now [] = 0
recent now (t ∷ times) =
    let n = recent now times in if ltb source_window (now - t) then n else n + 1

abbrev pub AllOld : ℕ → List ℕ → Type 0
AllOld now [] = Unit {0}
AllOld now (t ∷ times) = (source_window < now - t) × AllOld now times

-- The times rise, from `lo` to `now`.
abbrev pub Rising : ℕ → ℕ → List ℕ → Type 0
Rising lo now [] = Unit {0}
Rising lo now (t ∷ times) = (lo ≤ t) × (t ≤ now) × Rising t now times

-- `kept` is `all` without times that are out of the window.
pub record Suffix (now : ℕ) (kept all : List ℕ) : Type 0 where
  pub dropped : List ℕ
  pub split : all ≡ dropped ++ kept
  pub old : AllOld now dropped
  pub rising : Rising 0 now kept

recent-AllOld :
    (now : ℕ) (times rest : List ℕ)
    → AllOld now times
    → recent now (times ++ rest) ≡ recent now rest
unfolding recent
recent-AllOld now [] rest h = refl
recent-AllOld now (t ∷ times) rest h = ground (arith, recent-AllOld now times rest)

recent-Rising :
    (lo now : ℕ) (times : List ℕ)
    → now - lo ≤ source_window
    → Rising lo now times
    → recent now times ≡ length times
unfolding recent
recent-Rising lo now [] h r = refl
recent-Rising lo now (t ∷ times) h r = ground (arith, recent-Rising t now times, r.2)

length-expire :
    (lo now : ℕ) (times : List ℕ)
    → Rising lo now times
    → length (expire now times) ≡ recent now times
unfolding expire recent
length-expire lo now [] r = refl
length-expire lo now (t ∷ times) r =
    ground (arith, length-expire t now times, recent-Rising t now times, r.2)

-- What `count` answers is the count in the log.
pub recent-Suffix :
    (now : ℕ) (kept all : List ℕ) → Suffix now kept all → length (expire now kept) ≡ recent now all
recent-Suffix now kept all s =
    length-expire 0 now kept s.rising
    ∙ sym (recent-AllOld now s.dropped kept s.old)
    ∙ sym (ap (recent now) s.split)

Rising-later :
    (lo now now' : ℕ) (times : List ℕ) → now ≤ now' → Rising lo now times → Rising lo now' times
Rising-later lo now now' [] h r = tt
Rising-later lo now now' (t ∷ times) h r = (r.0, omega arith, Rising-later t now now' times h r.2)

Rising-lower :
    (lo lo' now : ℕ) (times : List ℕ) → lo' ≤ lo → Rising lo now times → Rising lo' now times
Rising-lower lo lo' now [] h r = tt
Rising-lower lo lo' now (t ∷ times) h r = (omega arith, r.1, r.2)

AllOld-later : (now now' : ℕ) (times : List ℕ) → now ≤ now' → AllOld now times → AllOld now' times
AllOld-later now now' [] h a = tt
AllOld-later now now' (t ∷ times) h a = (omega arith, AllOld-later now now' times h a.1)

AllOld-append : (now : ℕ) (xs ys : List ℕ) → AllOld now xs → AllOld now ys → AllOld now (xs ++ ys)
AllOld-append now [] ys a b = b
AllOld-append now (x ∷ xs) ys a b = (a.0, AllOld-append now xs ys a.1 b)

pub Suffix-later :
    (now now' : ℕ) (kept all : List ℕ) → now ≤ now' → Suffix now kept all → Suffix now' kept all
Suffix-later now now' kept all h s = record {
  dropped = s.dropped;
  split = s.split;
  old = AllOld-later now now' s.dropped h s.old;
  rising = Rising-later 0 now now' kept h s.rising;
}

-- What `expire` pops.
expired : ℕ → List ℕ → List ℕ
expired now [] = []
expired now (t ∷ times) =
    let rest = expired now times in if ltb source_window (now - t) then t ∷ rest else []

expired-append : (now : ℕ) (times : List ℕ) → times ≡ expired now times ++ expire now times
unfolding expired expire
expired-append now [] = refl
expired-append now (t ∷ times) = ground (arith, expired-append now times)

AllOld-expired : (now : ℕ) (times : List ℕ) → AllOld now (expired now times)
unfolding expired
AllOld-expired now [] = tt
AllOld-expired now (t ∷ times) = elim (Bool-cases (ltb source_window (now - t))) [
  | inl e ↦ rw e (ground arith, AllOld-expired now times)
  | inr e ↦ rw e tt
]

Rising-expire :
    (lo now : ℕ) (times : List ℕ) → Rising lo now times → Rising lo now (expire now times)
unfolding expire
Rising-expire lo now [] r = tt
Rising-expire lo now (t ∷ times) r = elim (Bool-cases (ltb source_window (now - t))) [
  | inl e ↦ rw e (Rising-lower t lo now (expire now times) r.0 (Rising-expire t now times r.2))
  | inr e ↦ rw e r
]

pub Suffix-expire :
    (now : ℕ) (kept all : List ℕ) → Suffix now kept all → Suffix now (expire now kept) all
Suffix-expire now kept all s = record {
  dropped = s.dropped ++ expired now kept;
  split =
      s.split
      ∙ ap (λ x. s.dropped ++ x) (expired-append now kept)
      ∙ sym (append_assoc s.dropped (expired now kept) (expire now kept));
  old = AllOld-append now s.dropped (expired now kept) s.old (AllOld-expired now kept);
  rising = Rising-expire 0 now kept s.rising;
}

Rising-record :
    (lo now : ℕ) (times : List ℕ)
    → lo ≤ now
    → Rising lo now times
    → Rising lo now (times ++ now ∷ [])
Rising-record lo now [] h r = (h, omega arith, tt)
Rising-record lo now (t ∷ times) h r = (r.0, r.1, Rising-record t now times r.1 r.2)

pub Suffix-record :
    (now : ℕ) (kept all : List ℕ)
    → Suffix now kept all
    → Suffix now (kept ++ now ∷ []) (all ++ now ∷ [])
Suffix-record now kept all s = record {
  dropped = s.dropped;
  split = ap (λ x. x ++ now ∷ []) s.split ∙ append_assoc s.dropped kept (now ∷ []);
  old = s.old;
  rising = Rising-record 0 now kept (omega arith) s.rising;
}

pop_back-append :
    (xs : List ℕ) (y : ℕ) (ys : List ℕ) → pop_back (xs ++ y ∷ ys) ≡ xs ++ pop_back (y ∷ ys)
unfolding pop_back
pop_back-append [] y ys = refl
pop_back-append (x ∷ []) y ys = refl
pop_back-append (x ∷ u ∷ xs) y ys = ap (λ l. x ∷ l) (pop_back-append (u ∷ xs) y ys)

AllOld-pop_back : (now : ℕ) (times : List ℕ) → AllOld now times → AllOld now (pop_back times)
unfolding pop_back
AllOld-pop_back now [] a = tt
AllOld-pop_back now (t ∷ []) a = tt
AllOld-pop_back now (t ∷ u ∷ times) a = (a.0, AllOld-pop_back now (u ∷ times) a.1)

Rising-pop_back :
    (lo now : ℕ) (times : List ℕ) → Rising lo now times → Rising lo now (pop_back times)
unfolding pop_back
Rising-pop_back lo now [] r = tt
Rising-pop_back lo now (t ∷ []) r = tt
Rising-pop_back lo now (t ∷ u ∷ times) r = (r.0, r.1, Rising-pop_back t now (u ∷ times) r.2)

pub Suffix-pop_back :
    (now : ℕ) (kept all : List ℕ) → Suffix now kept all → Suffix now (pop_back kept) (pop_back all)
unfolding pop_back
Suffix-pop_back now [] all s = record {
  dropped = pop_back s.dropped;
  split = ap pop_back (s.split ∙ append-nil s.dropped) ∙ sym (append-nil (pop_back s.dropped));
  old = AllOld-pop_back now s.dropped s.old;
  rising = tt;
}
Suffix-pop_back now (t ∷ kept) all s = record {
  dropped = s.dropped;
  split = ap pop_back s.split ∙ pop_back-append s.dropped t kept;
  old = s.old;
  rising = Rising-pop_back 0 now (t ∷ kept) s.rising;
}

pub Suffix-nil : (now : ℕ) → Suffix now [] []
Suffix-nil now = record { dropped = []; split = refl; old = tt; rising = tt }

-- A log of the runs of each key, oldest first.
abbrev pub Log : Type 0
Log = SourceKey → List ℕ

-- The entry of each key has all of its runs that count.
abbrev pub Agree : ℕ → RunWindow → Log → Type 0
Agree now window log = (key : SourceKey) → Suffix now (or_empty (find key window)) (log key)

abbrev pub changed : SourceKey → (List ℕ → List ℕ) → Log → Log
changed key f log k = if source_eq.beq k key then f (log k) else log k
