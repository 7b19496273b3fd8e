-- ===== src/Client/Keys/Steps/Cache.antt =====
-- The cache of receive keys: `recv_keys` of crates/throcc-client-core/src/keys.rs.
use throcc.Prelude.{
  ℕ, ◌≡◌, refl, sym, ap, ◌∙◌, inl, inr, Bool, ◌&&◌, [], ◌∷◌, Option, none, some, ◌==◌,
  if◌then◌else◌, arith, Bool-cases, Option-cases,
}
use throcc.Prelude.Table.{Table, Keyed, find, put, find-put, retain, find-retain, and_then}
use throcc.Client.Keys.{
  Crypto, Pair, pair_eq, same_pair_iff, Received, start_grace, retire_received, is_kept,
  keep_backed,
}
use throcc.Client.Keys.Secrets.{uncached}

-- The key of a track from the secret, where there is one.
abbrev pub derived_from : Crypto → (media_id : ℕ) → Option Received → Option ℕ
derived_from c media_id none = none
derived_from c media_id (some r) = some (c.derive r.secret media_id)

-- Each cached key is the one that its owner's secret gives.
unfoldable pub AllBacked : Crypto → Table Pair Received → Table Pair (ℕ × ℕ) → Type 0
AllBacked c received [] = Unit {0}
AllBacked c received ((key, entry) ∷ t) =
    (derived_from c key.0 (find (entry.0, key.1) received) ≡ some entry.1) × AllBacked c received t

module _ (c : Crypto) where
  pub find-AllBacked :
      (received : Table Pair Received) (t : Table Pair (ℕ × ℕ)) (m e owner key : ℕ)
      → AllBacked c received t
      → find (m, e) t ≡ some (owner, key)
      → derived_from c m (find (owner, e) received) ≡ some key
  unfolding AllBacked find
  find-AllBacked received [] m e owner key h q = absurd (ground (arith, q))
  find-AllBacked received ((k, entry) ∷ t) m e owner key h q =
      ground (arith, h.0, q, same_pair_iff (m, e) k, find-AllBacked received t m e owner key h.1)

  derived_from-start_grace :
      (m now : ℕ) (picks : Pair → Bool) (key : Pair) (r : Received)
      → derived_from c m (some (start_grace picks now key r)) ≡ derived_from c m (some r)
  derived_from-start_grace m now picks key r = elim (Option-cases r.retire_at) [
    | inl e ↦ rw e (elim (Bool-cases (picks key)) [ inl q ↦ rw q refl | inr q ↦ rw q refl ])
    | inr e ↦ rw e.1 refl
  ]

  -- The secrets stay when their grace period starts.
  pub derived_from-retire_received :
      (m now : ℕ) (picks : Pair → Bool) (p : Pair) (t : Table Pair Received)
      → derived_from c m (find p (retire_received picks now t)) ≡ derived_from c m (find p t)
  unfolding find retire_received
  derived_from-retire_received m now picks p [] = refl
  derived_from-retire_received m now picks p ((k, r) ∷ t) = elim (Bool-cases (pair_eq.beq p k)) [
    | inl e ↦ rw e (derived_from-start_grace m now picks k r)
    | inr e ↦ rw e (derived_from-retire_received m now picks p t)
  ]

  pub AllBacked-mono :
      (r r' : Table Pair Received) (t : Table Pair (ℕ × ℕ))
      → ((m : ℕ) (p : Pair) → derived_from c m (find p r') ≡ derived_from c m (find p r))
      → AllBacked c r t
      → AllBacked c r' t
  unfolding AllBacked
  AllBacked-mono r r' [] same h = tt
  AllBacked-mono r r' ((k, entry) ∷ t) same h =
      (same k.0 (entry.0, k.1) ∙ h.0, AllBacked-mono r r' t same h.1)

  pub put-AllBacked :
      (r : Table Pair Received) (t : Table Pair (ℕ × ℕ)) (m e owner key : ℕ)
      → derived_from c m (find (owner, e) r) ≡ some key
      → AllBacked c r t
      → AllBacked c r (put (m, e) (owner, key) t)
  unfolding AllBacked put
  put-AllBacked r [] m e owner key q h = (q, tt)
  put-AllBacked r ((k, entry) ∷ t) m e owner key q h = elim (Bool-cases (pair_eq.beq (m, e) k)) [
    | inl b ↦ rw b (q, h.1)
    | inr b ↦ rw b (h.0, put-AllBacked r t m e owner key q h.1)
  ]

  pub uncached-AllBacked :
      (r : Table Pair Received) (t : Table Pair (ℕ × ℕ)) (source epoch : ℕ) (v : Received)
      → AllBacked c r t
      → AllBacked c (put (source, epoch) v r) (uncached source epoch t)
  unfolding AllBacked uncached
  uncached-AllBacked r [] source epoch v h = tt
  uncached-AllBacked r ((k, entry) ∷ t) source epoch v h =
      elim (Bool-cases ((entry.0 == source) && (k.1 == epoch))) [
        | inl b ↦ rw b (uncached-AllBacked r t source epoch v h.1)
        | inr b ↦ rw b (
          ap (derived_from c k.0) (find-put (entry.0, k.1) (source, epoch) v r ∙ rw b refl) ∙ h.0,
          uncached-AllBacked r t source epoch v h.1,
        )
      ]

  pub keep_backed-AllBacked :
      (r r' : Table Pair Received) (t : Table Pair (ℕ × ℕ))
      → ((p : Pair) (v : Received) → find p r' ≡ some v → find p r ≡ some v)
      → AllBacked c r t
      → AllBacked c r' (keep_backed r' t)
  unfolding AllBacked keep_backed
  keep_backed-AllBacked r r' [] sub h = tt
  keep_backed-AllBacked r r' ((k, entry) ∷ t) sub h = elim (Option-cases (find (entry.0, k.1) r')) [
    | inl e ↦ rw (e, keep_backed) (keep_backed-AllBacked r r' t sub h.1)
    | inr e ↦
        rw (e.1, keep_backed)
          (
            ap (derived_from c k.0) (e.1 ∙ sym (sub (entry.0, k.1) e.0 e.1)) ∙ h.0,
            keep_backed-AllBacked r r' t sub h.1,
          )
  ]

pub retained :
    (now : ℕ) (r : Table Pair Received) (keyed : Keyed r) (p : Pair) (v : Received)
    → find p (retain (λ r. if is_kept now r.retire_at then some r else none) r) ≡ some v
    → find p r ≡ some v
retained now r keyed p v e =
    same (find p r)
      (sym (find-retain p (λ r. if is_kept now r.retire_at then some r else none) r keyed) ∙ e)
  where
    same :
        (o : Option Received)
        → and_then o (λ r. if is_kept now r.retire_at then some r else none) ≡ some v
        → o ≡ some v
    same none q = q
    same (some r) q = ground (arith, q)

find-retire_received :
    (picks : Pair → Bool) (now : ℕ) (p : Pair) (t : Table Pair Received)
    → find p t ≡ none
    → find p (retire_received picks now t) ≡ none
unfolding find retire_received
find-retire_received picks now p [] e = e
find-retire_received picks now p ((k, r) ∷ t) e =
    ground (arith, e, find-retire_received picks now p t)

pub retire_received-Keyed :
    (picks : Pair → Bool) (now : ℕ) (t : Table Pair Received)
    → Keyed t
    → Keyed (retire_received picks now t)
unfolding retire_received
retire_received-Keyed picks now [] h = tt
retire_received-Keyed picks now ((k, r) ∷ t) h =
    (find-retire_received picks now k t h.0, retire_received-Keyed picks now t h.1)
