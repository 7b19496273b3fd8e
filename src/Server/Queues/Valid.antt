-- ===== src/Server/Queues/Valid.antt =====
-- The bytes of the queued video: `video_bytes` of crates/throcc-server/src/egress.rs.
use throcc.Prelude.{
  ℕ, suc, ◌+◌, ◌-◌, ◌≤◌, ◌≡◌, refl, sym, ap, ◌∙◌, ◌⊎◌, inl, inr, true, false, [], ◌∷◌, Option, none,
  some, ◌==◌, length, arith, Bool-cases, Option-cases,
}
use throcc.Prelude.Map.{
  Map, get, contains_key, insert, remove, get-insert, get-remove, get_below, IsSorted,
  insert-IsSorted, remove-IsSorted,
}
use throcc.Server.Queues.{Queues, VideoUnit, size, or_else, unit_at}

unfoldable pub total : Map VideoUnit → ℕ
total [] = 0
total ((id, unit) ∷ m) = size unit.packets + total m

pub total-insert_new :
    (k lo : ℕ) (u : VideoUnit) (m : Map VideoUnit)
    → IsSorted lo m
    → get k m ≡ none
    → total (insert k u m) ≡ size u.packets + total m
unfolding total insert get
total-insert_new k lo u [] s e = refl
total-insert_new k lo u ((j, v) ∷ m) s e = ground (arith, e, total-insert_new k (suc j) u m s.1)

pub total-insert_same :
    (k lo : ℕ) (u v : VideoUnit) (m : Map VideoUnit)
    → IsSorted lo m
    → get k m ≡ some v
    → total (insert k u m) + size v.packets ≡ size u.packets + total m
unfolding total insert get
total-insert_same k lo u v [] s e = absurd (ground (arith, e))
total-insert_same k lo u v ((j, w) ∷ m) s e =
    ground (arith, e, total-insert_same k (suc j) u v m s.1, get_below k (suc j) m s.1)

pub length-insert_same :
    (k lo : ℕ) (u v : VideoUnit) (m : Map VideoUnit)
    → IsSorted lo m
    → get k m ≡ some v
    → length (insert k u m) ≡ length m
unfolding insert get
length-insert_same k lo u v [] s e = absurd (ground (arith, e))
length-insert_same k lo u v ((j, w) ∷ m) s e =
    ground (arith, e, length-insert_same k (suc j) u v m s.1, get_below k (suc j) m s.1)

remove_absent : (k : ℕ) (m : Map VideoUnit) → get k m ≡ none → remove k m ≡ m
unfolding remove get
remove_absent k [] e = refl
remove_absent k ((j, w) ∷ m) e = ground (arith, e, remove_absent k m)

pub total-remove :
    (k lo : ℕ) (v : VideoUnit) (m : Map VideoUnit)
    → IsSorted lo m
    → get k m ≡ some v
    → (total (remove k m) + size v.packets ≡ total m) × (length (remove k m) + 1 ≡ length m)
unfolding total remove get
total-remove k lo v [] s e = absurd (ground (arith, e))
total-remove k lo v ((j, w) ∷ m) s e = elim (Bool-cases (k == j)) [
  | inl q ↦ rw q (
      rw (remove_absent k m (get_below k (suc j) m s.1 (ground (arith, q))))
        (ground (arith, e, q), omega arith))
  | inr q ↦
      let rest = total-remove k (suc j) v m s.1 (ground (arith, e, q)) in
      rw q (omega (arith, rest.0), omega (arith, rest.1))
]

-- Units are in the order of their ids, are in one map at most and have ids given out before; and
-- the bytes are those of the packets they hold.
unfoldable pub IsSound : (started waiting : Map VideoUnit) → (next_id bytes : ℕ) → Type 0
IsSound started waiting next_id bytes =
    IsSorted 0 started
    × IsSorted 0 waiting
    × ((id : ℕ) → (get id started ≡ none) ⊎ (get id waiting ≡ none))
    × ((id : ℕ) → next_id ≤ id → (get id started ≡ none) × (get id waiting ≡ none))
    × (bytes ≡ total started + total waiting)

abbrev pub IsValid : Queues → Type 0
IsValid q = IsSound q.started q.waiting q.next_id q.video_bytes

pub not_none : {A : Type 0} (o : Option A) (a : A) → o ≡ some a → o ≡ none → ⊥
not_none o a e f = ground (arith, sym e ∙ f)

-- Where a unit is found.
pub unit_at_cases :
    (id : ℕ) (unit : VideoUnit) (q : Queues)
    → unit_at id q ≡ some unit
    → (get id q.started ≡ some unit) ⊎ ((get id q.started ≡ none) × (get id q.waiting ≡ some unit))
unfolding unit_at
unit_at_cases id unit q e = elim (Option-cases (get id q.started)) [
  | inl s ↦ inr (s, sym (ap (λ o. or_else o (get id q.waiting)) s) ∙ e)
  | inr s ↦ inl (s.1 ∙ sym (ap (λ o. or_else o (get id q.waiting)) s.1) ∙ e)
]

pub contains_started :
    (id : ℕ) (m : Map VideoUnit) (unit : VideoUnit)
    → get id m ≡ some unit
    → contains_key id m ≡ true
unfolding contains_key
contains_started id m unit e = rw (e, contains_key) refl

pub not_started : (id : ℕ) (m : Map VideoUnit) → get id m ≡ none → contains_key id m ≡ false
unfolding contains_key
not_started id m e = rw (e, contains_key) refl

-- A unit that leaves the started or the waiting ones takes its bytes with it.
module _ (id : ℕ) (unit : VideoUnit) (started waiting : Map VideoUnit) (next_id bytes : ℕ)
    (h : IsSound started waiting next_id bytes) where
  pub remove_started-IsSound :
      get id started ≡ some unit
      → IsSound (remove id started) waiting next_id (bytes - size unit.packets)
  unfolding IsSound
  remove_started-IsSound e =
      let t = total-remove id 0 unit started h.0 e in
      (
        remove-IsSorted 0 id started h.0,
        h.1,
        (λ i. ground (arith, h.2 i, get-remove i id started)),
        (λ i l. (get-remove i id started ∙ ground (arith, h.3 i l), (h.3 i l).1)),
        omega (arith, h.4, t.0),
      )

  pub remove_waiting-IsSound :
      get id waiting ≡ some unit
      → IsSound started (remove id waiting) next_id (bytes - size unit.packets)
  unfolding IsSound
  remove_waiting-IsSound e =
      let t = total-remove id 0 unit waiting h.1 e in
      (
        h.0,
        remove-IsSorted 0 id waiting h.1,
        (λ i. ground (arith, h.2 i, get-remove i id waiting)),
        (λ i l. ((h.3 i l).0, get-remove i id waiting ∙ ground (arith, h.3 i l))),
        omega (arith, h.4, t.0),
      )

  -- So does one whose packets change.
  pub insert_started-IsSound :
      (new : VideoUnit) (more : ℕ)
      → get id started ≡ some unit
      → more + size unit.packets ≡ size new.packets + bytes
      → IsSound (insert id new started) waiting next_id more
  unfolding IsSound
  insert_started-IsSound new more e m =
      let t = total-insert_same id 0 new unit started h.0 e in
      let known : (i : ℕ) → i ≡ id → get i waiting ≡ none = λ i q. ground (arith, h.2 i, e, q) in
      let old : (i : ℕ) → next_id ≤ i → i ≡ id → ⊥ = λ i l q. ground (arith, h.3 i l, e, q) in
      (
        insert-IsSorted 0 id new started (omega arith) h.0,
        h.1,
        (λ i. ground (arith, h.2 i, get-insert i id new started, known i)),
        (λ i l. (ground (arith, h.3 i l, get-insert i id new started, old i l), (h.3 i l).1)),
        omega (arith, h.4, t, m),
      )

  pub insert_waiting-IsSound :
      (new : VideoUnit) (more : ℕ)
      → get id waiting ≡ some unit
      → more + size unit.packets ≡ size new.packets + bytes
      → IsSound started (insert id new waiting) next_id more
  unfolding IsSound
  insert_waiting-IsSound new more e m =
      let t = total-insert_same id 0 new unit waiting h.1 e in
      let known : (i : ℕ) → i ≡ id → get i started ≡ none = λ i q. ground (arith, h.2 i, e, q) in
      let old : (i : ℕ) → next_id ≤ i → i ≡ id → ⊥ = λ i l q. ground (arith, h.3 i l, e, q) in
      (
        h.0,
        insert-IsSorted 0 id new waiting (omega arith) h.1,
        (λ i. ground (arith, h.2 i, get-insert i id new waiting, known i)),
        (λ i l. ((h.3 i l).0, ground (arith, h.3 i l, get-insert i id new waiting, old i l))),
        omega (arith, h.4, t, m),
      )
