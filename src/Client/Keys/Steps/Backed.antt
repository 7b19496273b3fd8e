-- ===== src/Client/Keys/Steps/Backed.antt =====
-- `recv_key` of crates/throcc-client-core/src/keys.rs answers with its cache as it would without.
use throcc.Prelude.{
  ℕ, ◌≡◌, refl, sym, subst, inl, inr, Bool, not, ◌&&◌, List, Option, none, some, ltb, ◌==◌, ==_iff,
  length, if◌then◌else◌, Bool-cases, Option-cases,
}
use throcc.Prelude.Map.{get, contains_key}
use throcc.Prelude.Table.{Keyed, find, put-Keyed, retain-Keyed}
use throcc.Server.Hub.State.{max_signed_in, Tracks}
use throcc.Client.Keys.{
  Crypto, KeyManager, Pair, pair_eq, below_floor, new, replace_encryption, retire_received, tick,
  cached_for, derived, owned_key, recv_key, wrapped_bytes,
}
use throcc.Client.Keys.Secrets.{start_epoch, move_epoch, store_secret, sender_key_at, sender_key}
use throcc.Client.Keys.Secrets.Rest.{
  hold_early_keep, sender_key_at_cases, wrap_for_new_peers-but_peers,
}
use throcc.Client.Keys.Rooms.{same_room, set_presence, admit, take_place, leave_for}
use throcc.Client.Keys.Rooms.Keep.{
  Parts, peers_changed_keep, reapply_peers_keep, apply_placement_keep,
}
use throcc.Client.Keys.Steps.{
  Step, presence, renewed, reapplied, changed, placed, sent, asked, ticked, raised, Reach,
  Reach_keep,
}
use throcc.Client.Keys.Steps.Cache.{
  derived_from, AllBacked, find-AllBacked, derived_from-retire_received, AllBacked-mono,
  put-AllBacked, uncached-AllBacked, keep_backed-AllBacked, retained, retire_received-Keyed,
}

IsBacked : Crypto → KeyManager → Type 0
IsBacked c k = Keyed k.received × AllBacked c k.received k.recv_keys

module _ (c : Crypto) where
  retired-IsBacked :
      (picks : Pair → Bool) (now : ℕ) (k : KeyManager)
      → IsBacked c k
      → Keyed (retire_received picks now k.received)
        × AllBacked c (retire_received picks now k.received) k.recv_keys
  unfolding IsBacked
  retired-IsBacked picks now k h = (
    retire_received-Keyed picks now k.received h.0,
    AllBacked-mono c k.received (retire_received picks now k.received) k.recv_keys
        (λ m p. derived_from-retire_received c m now picks p k.received) h.1,
  )

  start_epoch-IsBacked :
      (epoch now secret : ℕ) (k : KeyManager)
      → IsBacked c k
      → IsBacked c (start_epoch c epoch now secret k)
  unfolding start_epoch move_epoch IsBacked
  start_epoch-IsBacked epoch now secret k h = elim (Bool-cases (epoch == k.epoch)) [
    | inl e ↦ rw e h
    | inr e ↦ rw e (retired-IsBacked (λ key. ltb key.1 epoch) now k h)
  ]

  store_secret-IsBacked :
      (source epoch secret : ℕ) (t : Option ℕ) (now : ℕ) (k : KeyManager)
      → IsBacked c k
      → IsBacked c (store_secret source epoch secret t now k)
  unfolding store_secret IsBacked
  store_secret-IsBacked source epoch secret t now k h =
      let r = retired-IsBacked (λ key. (key.0 == source) && ltb key.1 epoch) now k h in
      (put-Keyed (source, epoch) _ _ r.0, uncached-AllBacked c _ k.recv_keys source epoch _ r.1)

  sender_key_at-IsBacked :
      (k : KeyManager) (source epoch : ℕ) (wrapped : List ℕ) (arrived now : ℕ)
      → IsBacked c k
      → IsBacked c (sender_key_at c source epoch wrapped arrived now k).0
  unfolding IsBacked
  sender_key_at-IsBacked k source epoch wrapped arrived now h =
      sender_key_at_cases (IsBacked c) c k source epoch wrapped arrived now h
        (hold_early_keep (IsBacked c) k source epoch wrapped arrived (λ early. h))
        (λ secret t. store_secret-IsBacked source epoch secret t now k h)

  parts : Parts c (IsBacked c)
  unfolding IsBacked admit
  parts = record {
    checks = λ k seen refused h. h;
    admits = λ now peers t h. retired-IsBacked _ now t.keys h;
    starts = start_epoch-IsBacked;
    wraps = λ room k h. subst (IsBacked c) (sym (wrap_for_new_peers-but_peers c room k)) h;
    sends = sender_key_at-IsBacked;
    empties = λ k h. h;
    counts = λ k n h. h;
    stashes = λ k s h. h;
  }

  place-IsBacked :
      (room : Option ℕ) (tracks : Option Tracks) (k : KeyManager)
      → IsBacked c k
      → IsBacked c (take_place room tracks (leave_for room k))
  unfolding IsBacked take_place leave_for AllBacked
  place-IsBacked room tracks k h = elim (Bool-cases (same_room room k.room)) [
    | inl e ↦ rw e h
    | inr e ↦ rw e (tt, tt)
  ]

  asked-IsBacked : (k : KeyManager) (m e : ℕ) → IsBacked c k → IsBacked c (recv_key c m e k).0
  unfolding IsBacked recv_key owned_key derived
  asked-IsBacked k m e h = elim (Bool-cases (below_floor e k)) [
    | inl b ↦ rw (b, recv_key) h
    | inr b ↦ elim (Option-cases (get m k.owners)) [
      | inl o ↦ rw (b, recv_key) (rw (o, recv_key) h)
      | inr o ↦ elim (Option-cases (cached_for (find (m, e) k.recv_keys) o.0)) [
        | inl f ↦ elim (Option-cases (find (o.0, e) k.received)) [
          | inl r ↦ rw (b, recv_key) (rw (o.1, recv_key) (rw (f, owned_key) (rw (r, derived) h)))
          | inr r ↦
              rw (b, recv_key)
                (rw (o.1, recv_key)
                  (rw (f, owned_key)
                    (rw (r.1, derived)
                      (
                        h.0,
                        put-AllBacked c k.received k.recv_keys m e o.0 (c.derive r.0.secret m)
                            (rw r.1 refl) h.1,
                      ))))
        ]
        | inr f ↦ rw (b, recv_key) (rw (o.1, recv_key) (rw (f.1, owned_key) h))
      ]
    ]
  ]

  step-IsBacked : (k l : KeyManager) → IsBacked c k → Step c k l → IsBacked c l
  unfolding IsBacked set_presence sender_key replace_encryption tick
  step-IsBacked _ _ h (presence k user none) = h
  step-IsBacked _ _ h (presence k user (some room)) =
      elim (Bool-cases
        (not (ltb (length k.present) max_signed_in) && not (contains_key user k.present))) [
          | inl e ↦ rw e h
          | inr e ↦ rw e h
        ]
  step-IsBacked _ _ h (renewed k encryption now) = h
  step-IsBacked _ _ h (reapplied k now unix_now secret) =
      reapply_peers_keep c (IsBacked c) (peers_changed_keep c (IsBacked c) parts) (λ k s g. g) now
        unix_now secret k h
  step-IsBacked _ _ h (changed k room epoch peers now unix_now secret) =
      peers_changed_keep c (IsBacked c) parts room epoch peers now unix_now secret k h
  step-IsBacked _ _ h (placed k room epoch tracks peers now unix_now secrets) =
      apply_placement_keep c (IsBacked c) (peers_changed_keep c (IsBacked c) parts) (λ k s g. g)
        place-IsBacked room epoch tracks peers now unix_now secrets k h
  step-IsBacked _ _ h (sent k source epoch wrapped now) =
      elim (Bool-cases (length wrapped == wrapped_bytes)) [
        | inl e ↦ rw e (sender_key_at-IsBacked k source epoch wrapped now now h)
        | inr e ↦ rw e h
      ]
  step-IsBacked _ _ h (asked k m e) = asked-IsBacked k m e h
  step-IsBacked _ _ h (ticked k now) = (
    retain-Keyed _ k.received h.0,
    keep_backed-AllBacked c k.received _ k.recv_keys (retained now k.received h.0) h.1,
  )
  step-IsBacked _ _ h (raised k user room epoch) = h

  Reach-IsBacked : (k : KeyManager) → Reach c k → IsBacked c k
  unfolding IsBacked new AllBacked
  Reach-IsBacked =
      Reach_keep c (IsBacked c) step-IsBacked (λ me encryption server floors now. (tt, tt))

-- The key of a track from what was received alone.
pub uncached_key : Crypto → (media_id epoch : ℕ) → KeyManager → Option ℕ
uncached_key c media_id epoch k =
    if below_floor epoch k then none else elim (get media_id k.owners) [
      | none ↦ none
      | some owner ↦ derived_from c media_id (find (owner, epoch) k.received)
    ]

derived-derived_from :
    (c : Crypto) (k : KeyManager) (m e owner : ℕ)
    → (derived c m e owner k).1 ≡ derived_from c m (find (owner, e) k.received)
unfolding derived
derived-derived_from c k m e owner = elim (Option-cases (find (owner, e) k.received)) [
  | inl r ↦ rw (r, derived) refl
  | inr r ↦ rw (r.1, derived) refl
]

owned_key-derived_from :
    (c : Crypto) (k : KeyManager) (m e owner : ℕ)
    → AllBacked c k.received k.recv_keys
    → (owned_key c m e owner k).1 ≡ derived_from c m (find (owner, e) k.received)
unfolding owned_key
owned_key-derived_from c k m e owner h = elim (Option-cases (find (m, e) k.recv_keys)) [
  | inl f ↦ rw (f, owned_key) (derived-derived_from c k m e owner)
  | inr f ↦ elim (Bool-cases (f.0.0 == owner)) [
    | inl q ↦
        rw (f.1, owned_key)
          (rw (q, owned_key)
            (sym (
              subst (λ o. derived_from c m (find (o, e) k.received) ≡ some f.0.1)
                ((==_iff f.0.0 owner).0 q)
                (find-AllBacked c k.received k.recv_keys m e f.0.0 f.0.1 h f.1))))
    | inr q ↦ rw (f.1, owned_key) (rw (q, owned_key) (derived-derived_from c k m e owner))
  ]
]

-- In every state that a manager comes to, `recv_key` gives the key that comes from the secret its
-- present owner sent for the epoch, and none without one, whatever was cached before.
pub recv_key-uncached_key :
    (c : Crypto) (k : KeyManager)
    → Reach c k
    → (media_id epoch : ℕ) → (recv_key c media_id epoch k).1 ≡ uncached_key c media_id epoch k
unfolding uncached_key recv_key owned_key derived IsBacked
recv_key-uncached_key c k reached m e = elim (Bool-cases (below_floor e k)) [
  | inl b ↦ rw (b, recv_key, uncached_key) refl
  | inr b ↦ elim (Option-cases (get m k.owners)) [
    | inl o ↦ rw (b, recv_key, uncached_key) (rw (o, recv_key) refl)
    | inr o ↦
        rw (b, recv_key, uncached_key)
          (rw (o.1, recv_key) (owned_key-derived_from c k m e o.0 (Reach-IsBacked c k reached).1))
  ]
]
