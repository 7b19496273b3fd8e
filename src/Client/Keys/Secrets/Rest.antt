-- ===== src/Client/Keys/Secrets/Rest.antt =====
-- What the operations on secrets leave alone: crates/throcc-client-core/src/keys.rs.
use throcc.Prelude.{
  ℕ, ◌≡◌, refl, inl, inr, ◌&&◌, ◌||◌, List, [], ◌∷◌, Option, none, some, ◌==◌, Bool-cases,
  Option-cases, Result-cases, ltb, leb, length,
}
use throcc.Prelude.Map.{contains_key, get, remove, insert}
use throcc.Client.Keys.{
  Crypto, KeyManager, Pair, pair_eq, below_floor, max_early, wrapped_bytes, cached_for, derived,
  owned_key, recv_key,
}
use throcc.Client.Keys.Secrets.{
  wrap_for_new_peers, wrap_held, sender_key, wrap_all, leave_out, disowned, wrap_secret, or_kept,
  accept_key, store_secret, retirement, opened, sender_key_at, hold_early, expected_in,
  is_held_early,
}
use throcc.Prelude.Table.{Table, find, put}

-- A state but for the secrets of the peers.
abbrev pub but_received : KeyManager → KeyManager
but_received k = record k { received = []; recv_keys = []; early = []; generation = 0 }

-- What is true of the state, of it with a key held early and of it with a secret stored is true
-- once a key has come.
module _ {ℓ} (P : KeyManager → Type ℓ) (c : Crypto) (k : KeyManager) (source epoch : ℕ)
    (wrapped : List ℕ) (arrived now : ℕ) (same : P k)
    (held : P (hold_early source epoch wrapped arrived k))
    (stored : (secret : ℕ) (t : Option ℕ) → P (store_secret source epoch secret t now k)) where
  or_kept_cases : (room : ℕ) → P (or_kept k (accept_key c room source epoch wrapped now k)).0
  unfolding accept_key
  or_kept_cases room = elim (Result-cases (retirement epoch now k)) [
    | inl t ↦ rw t.1 (elim (Option-cases (get source k.peers)) [
      | inl e ↦ rw e same
      | inr peer ↦ rw peer.1 (elim (Option-cases (opened c room source epoch wrapped peer.0 k)) [
        | inl e ↦ rw e same
        | inr secret ↦ rw secret.1 (stored secret.0 t.0)
      ])
    ])
    | inr e ↦ rw e.1 same
  ]

  pub sender_key_at_cases : P (sender_key_at c source epoch wrapped arrived now k).0
  unfolding sender_key_at
  sender_key_at_cases = elim (Bool-cases (below_floor epoch k)) [
    | inl b ↦ rw b same
    | inr b ↦
        rw b
          (elim (Option-cases
            (expected_in k.room (contains_key source k.peers && leb epoch k.epoch))) [
              | inl e ↦ rw e held
              | inr room ↦ rw room.1 (or_kept_cases room.0)
            ])
  ]

pub hold_early_keep {ℓ} :
    (P : KeyManager → Type ℓ) (k : KeyManager) (source epoch : ℕ) (wrapped : List ℕ) (arrived : ℕ)
    → ((early : Table Pair (ℕ × List ℕ)) → P (record k { early = early }))
    → P (hold_early source epoch wrapped arrived k)
unfolding hold_early
hold_early_keep P k source epoch wrapped arrived h =
    elim (Bool-cases
      (ltb (length k.early) max_early || is_held_early (find (source, epoch) k.early))) [
        | inl q ↦ rw q (h (put (source, epoch) (arrived, wrapped) k.early))
        | inr q ↦ rw q (h k.early)
      ]

pub sender_key_at-but_received :
    (c : Crypto) (k : KeyManager) (source epoch : ℕ) (wrapped : List ℕ) (arrived now : ℕ)
    → but_received (sender_key_at c source epoch wrapped arrived now k).0 ≡ but_received k
unfolding store_secret
sender_key_at-but_received c k source epoch wrapped arrived now =
    sender_key_at_cases (λ l. but_received l ≡ but_received k) c k source epoch wrapped arrived now
      refl
      (hold_early_keep (λ l. but_received l ≡ but_received k) k source epoch wrapped arrived
        (λ early. refl))
      (λ secret t. refl)

pub sender_key-but_received :
    (c : Crypto) (k : KeyManager) (source epoch : ℕ) (wrapped : List ℕ) (now : ℕ)
    → but_received (sender_key c source epoch wrapped now k).0 ≡ but_received k
unfolding sender_key
sender_key-but_received c k source epoch wrapped now =
    elim (Bool-cases (length wrapped == wrapped_bytes)) [
      | inl e ↦ rw e (sender_key_at-but_received c k source epoch wrapped now now)
      | inr e ↦ rw e refl
    ]

derived-but_received :
    (c : Crypto) (k : KeyManager) (media_id epoch owner : ℕ)
    → but_received (derived c media_id epoch owner k).0 ≡ but_received k
unfolding derived
derived-but_received c k media_id epoch owner =
    elim (Option-cases (find (owner, epoch) k.received)) [
      | inl e ↦ rw (e, derived) refl
      | inr e ↦ rw (e.1, derived) refl
    ]

owned_key-but_received :
    (c : Crypto) (k : KeyManager) (media_id epoch owner : ℕ)
    → but_received (owned_key c media_id epoch owner k).0 ≡ but_received k
unfolding owned_key
owned_key-but_received c k media_id epoch owner =
    elim (Option-cases (cached_for (find (media_id, epoch) k.recv_keys) owner)) [
      | inl e ↦ rw (e, owned_key) (derived-but_received c k media_id epoch owner)
      | inr e ↦ rw (e.1, owned_key) refl
    ]

pub recv_key-but_received :
    (c : Crypto) (k : KeyManager) (media_id epoch : ℕ)
    → but_received (recv_key c media_id epoch k).0 ≡ but_received k
unfolding recv_key
recv_key-but_received c k media_id epoch = elim (Bool-cases (below_floor epoch k)) [
  | inl b ↦ rw b refl
  | inr b ↦ rw b (elim (Option-cases (get media_id k.owners)) [
    | inl e ↦ rw (e, recv_key) refl
    | inr e ↦ rw (e.1, recv_key) (owned_key-but_received c k media_id epoch e.0)
  ])
]

-- A state but for the trusted peers and those our secret was wrapped to.
abbrev pub but_peers : KeyManager → KeyManager
but_peers k = record k { unwrappable = []; peers = []; owners = []; wrapped_to = [] }

leave_out-but_peers :
    (refused : List Pair) (k : KeyManager) → but_peers (leave_out refused k) ≡ but_peers k
unfolding leave_out
leave_out-but_peers [] k = refl
leave_out-but_peers ((v, key) ∷ refused) k = leave_out-but_peers refused (record k {
  unwrappable = insert v key k.unwrappable;
  peers = remove v k.peers;
  owners = disowned v k.owners;
})

pub wrap_for_new_peers-but_peers :
    (c : Crypto) (room : ℕ) (k : KeyManager)
    → but_peers (wrap_for_new_peers c room k).keys ≡ but_peers k
unfolding wrap_for_new_peers wrap_secret
wrap_for_new_peers-but_peers c room k = wrap_held-but_peers k.my_secret
  where
    wrap_held-but_peers : (o : Option ℕ) → but_peers (wrap_held c room k o).keys ≡ but_peers k
    wrap_held-but_peers none = refl
    wrap_held-but_peers (some secret) =
        leave_out-but_peers (wrap_all c k room secret k.peers).refused k
