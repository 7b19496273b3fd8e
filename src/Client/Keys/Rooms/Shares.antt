-- ===== src/Client/Keys/Rooms/Shares.antt =====
-- Whom our secret goes to when a room state comes: `peers_changed` of
-- crates/throcc-client-core/src/keys.rs.
use throcc.Prelude.{
  ℕ, ◌-◌, ◌≡◌, refl, sym, ap, ◌∙◌, ◌⊎◌, inl, inr, true, not, ◌||◌, List, [], ◌∷◌, Option, none,
  some, ltb, ◌==◌, if◌then◌else◌, arith, Bool-cases, Option-cases,
}
use throcc.Prelude.Map.{get, IsSorted}
use throcc.Prelude.Table.{Table}
use throcc.Server.Hub.State.{Peer}
use throcc.Client.Keys.{Crypto, KeyManager, KeyNotice, Pair, old_key_grace}
use throcc.Client.Keys.Sets.{
  contains_pair, has_key, peer_set, contains_pair-peer_set, contains_pair_empty, same_pairs,
  same_pairs-eq,
}
use throcc.Client.Keys.Trust.{Trusting}
use throcc.Client.Keys.Trust.Keep.{trusted_peers_keep}
use throcc.Client.Keys.Trust.Order.{trusted_peers-IsSorted}
use throcc.Client.Keys.Rooms.{
  Change, has_secret, trusted_or_none, take_early, invalid, admit, rekey, finish, apply_peers,
  peers_changed, same_room, stash, replaces,
}
use throcc.Client.Keys.Secrets.{
  sender_key_at, start_epoch, wrap_for_new_peers, move_epoch, wrap_for_new_peers_held, Wrapping,
}
use throcc.Client.Keys.Secrets.Rest.{but_received, sender_key_at-but_received}
use throcc.Client.Keys.Secrets.Wrapped.{
  wrapped_to-wrap_secret, wrap_secret_settled, my_secret-wrap_secret,
}

pub take_early-but_received :
    (c : Crypto) (now : ℕ) (early : Table Pair (ℕ × List ℕ)) (k : KeyManager)
    → but_received (take_early c now early k) ≡ but_received k
unfolding take_early
take_early-but_received c now [] k = refl
take_early-but_received c now ((key, (arrived, wrapped)) ∷ early) k =
    take_early-but_received c now early (
      if ltb (now - arrived) old_key_grace
      then (sender_key_at c key.0 key.1 wrapped arrived now k).0
      else k)
    ∙ elim (Bool-cases (ltb (now - arrived) old_key_grace)) [
      | inl e ↦ rw e (sender_key_at-but_received c k key.0 key.1 wrapped arrived now)
      | inr e ↦ rw e refl
    ]

trusted_or_none-IsSorted :
    (c : Crypto) (room unix_now : ℕ) (peers : List Peer) (k : KeyManager) (n : Option KeyNotice)
    → IsSorted 0 (trusted_or_none c room unix_now peers k n).trusted
trusted_or_none-IsSorted c room unix_now peers k none =
    trusted_peers-IsSorted c room unix_now peers k
trusted_or_none-IsSorted c room unix_now peers k (some n) = tt

-- Those that the secret was wrapped to are those trusted.
abbrev pub IsShared : KeyManager → Type 0
IsShared k = (p : Pair) → contains_pair p k.wrapped_to ≡ has_key p.1 (get p.0 k.peers)

-- A new secret is taken, or the one there is was wrapped to those trusted.
rekey_cases :
    (c : Crypto) (epoch now secret : ℕ) (k : KeyManager)
    → (rekey c epoch now secret k ≡ start_epoch c epoch now secret k)
      ⊎ ((rekey c epoch now secret k ≡ k)
          × ((s : ℕ) × (k.my_secret ≡ some s))
          × (peer_set k.peers ≡ k.wrapped_to))
unfolding rekey
rekey_cases c epoch now secret k = elim (Option-cases k.my_secret) [
  | inl e ↦ inl (rw e (ground arith))
  | inr e ↦
      elim (Bool-cases (
        not (epoch == k.epoch)
        || not (has_secret k.my_secret)
        || not (same_pairs (peer_set k.peers) k.wrapped_to))) [
          | inl q ↦ inl (rw q refl)
          | inr q ↦
              inr (rw q refl, e, same_pairs-eq (peer_set k.peers) k.wrapped_to (ground (arith, q)))
        ]
]

peers-start_epoch :
    (c : Crypto) (epoch now secret : ℕ) (k : KeyManager)
    → (start_epoch c epoch now secret k).peers ≡ k.peers
unfolding start_epoch move_epoch
peers-start_epoch c epoch now secret k = elim (Bool-cases (epoch == k.epoch)) [
  | inl e ↦ rw e refl
  | inr e ↦ rw e refl
]

wrap_for_new_peers-IsShared :
    (c : Crypto) (room s : ℕ) (k : KeyManager)
    → k.my_secret ≡ some s
    → IsSorted 0 k.peers
    → ((p : Pair) → contains_pair p k.wrapped_to ≡ true → has_key p.1 (get p.0 k.peers) ≡ true)
    → IsShared (wrap_for_new_peers c room k).keys
wrap_for_new_peers-IsShared c room s k e sorted h =
    rw (wrap_for_new_peers_held c room s k e)
      (λ p. wrapped_to-wrap_secret c k room s sorted p (h p))

rekey-IsShared :
    (c : Crypto) (room epoch now secret : ℕ) (k : KeyManager)
    → IsSorted 0 k.peers
    → IsShared (wrap_for_new_peers c room (rekey c epoch now secret k)).keys
unfolding start_epoch
rekey-IsShared c room epoch now secret k sorted = elim (rekey_cases c epoch now secret k) [
  | inl e ↦ rw e (
      wrap_for_new_peers-IsShared c room secret (start_epoch c epoch now secret k) refl
        (rw (peers-start_epoch c epoch now secret k) sorted)
        (λ p q. absurd (ground (arith, q, contains_pair_empty p))))
  | inr e ↦ rw e.0 (
      wrap_for_new_peers-IsShared c room e.1.0 k e.1.1 sorted
        (λ p q. sym (contains_pair-peer_set p 0 k.peers sorted) ∙ rw e.2 q))
]

finish-IsShared :
    (c : Crypto) (now : ℕ) (notices : List KeyNotice) (w : Wrapping)
    → IsShared w.keys
    → IsShared (finish c now notices w).keys
finish-IsShared c now notices w h p =
    ap (λ k. contains_pair p k.wrapped_to) same
    ∙ h p
    ∙ sym (ap (λ k. has_key p.1 (get p.0 k.peers)) same)
  where
    same :
        but_received (take_early c now w.keys.early (record w.keys { early = [] }))
        ≡ but_received w.keys
    same = take_early-but_received c now w.keys.early (record w.keys { early = [] })

apply_peers-IsShared :
    (c : Crypto) (room epoch : ℕ) (peers : List Peer) (now unix_now secret : ℕ) (k : KeyManager)
    → IsShared (apply_peers c room epoch peers now unix_now secret k).keys
unfolding apply_peers
apply_peers-IsShared c room epoch peers now unix_now secret k =
    finish-IsShared c now t.notices
      (wrap_for_new_peers c room (rekey c epoch now secret (admit now peers t)))
      (rekey-IsShared c room epoch now secret (admit now peers t)
        (unfold admit in trusted_or_none-IsSorted c room unix_now peers k (invalid peers k)))
  where
    t : Trusting
    t = trusted_or_none c room unix_now peers k (invalid peers k)

-- Ours was given to the trusted and to nobody else, once there is one.
abbrev pub IsGuarded : KeyManager → Type 0
IsGuarded k = (s : ℕ) → k.my_secret ≡ some s → IsShared k

pub peers_changed-IsGuarded :
    (c : Crypto) (room epoch : ℕ) (peers : List Peer) (now unix_now secret : ℕ) (k : KeyManager)
    → IsGuarded k
    → IsGuarded (peers_changed c room epoch peers now unix_now secret k).keys
unfolding peers_changed stash
peers_changed-IsGuarded c room epoch peers now unix_now secret k h =
    elim (Bool-cases (same_room (some room) k.room)) [
      | inl r ↦ elim (Bool-cases (ltb epoch k.epoch)) [
        | inl e ↦ rw (r, e) h
        | inr e ↦ rw (r, e) (λ s q. apply_peers-IsShared c room epoch peers now unix_now secret k)
      ]
      | inr r ↦
          rw r
            (elim (Bool-cases (replaces k.stashed room epoch)) [ inl q ↦ rw q h | inr q ↦ rw q h ])
    ]

-- A new secret, or nothing is sent and those who were given ours are the same.
abbrev IsRekeyed : (secret : ℕ) → KeyManager → Change → Type 0
IsRekeyed secret k r =
    (r.keys.my_secret ≡ some secret)
    ⊎ ((r.keys.my_secret ≡ k.my_secret) × (r.request ≡ none) × (r.keys.wrapped_to ≡ k.wrapped_to))

finish-IsRekeyed :
    (c : Crypto) (now secret : ℕ) (notices : List KeyNotice) (k : KeyManager) (w : Wrapping)
    → IsRekeyed secret k (record { keys = w.keys; request = w.request; notices = notices })
    → IsRekeyed secret k (finish c now notices w)
finish-IsRekeyed c now secret notices k w h = elim h [
  | inl e ↦ inl (ap (λ k. k.my_secret) same ∙ e)
  | inr e ↦ inr (ap (λ k. k.my_secret) same ∙ e.0, e.1, ap (λ k. k.wrapped_to) same ∙ e.2)
]
  where
    same :
        but_received (take_early c now w.keys.early (record w.keys { early = [] }))
        ≡ but_received w.keys
    same = take_early-but_received c now w.keys.early (record w.keys { early = [] })

rekey-IsRekeyed :
    (c : Crypto) (room epoch now secret : ℕ) (notices : List KeyNotice) (k l : KeyManager)
    → l.my_secret ≡ k.my_secret
    → l.wrapped_to ≡ k.wrapped_to
    → IsRekeyed secret k (record {
      keys = (wrap_for_new_peers c room (rekey c epoch now secret l)).keys;
      request = (wrap_for_new_peers c room (rekey c epoch now secret l)).request;
      notices = notices;
    })
unfolding start_epoch
rekey-IsRekeyed c room epoch now secret notices k l m w = elim (rekey_cases c epoch now secret l) [
  | inl e ↦ inl (
      rw e (
        rw (wrap_for_new_peers_held c room secret (start_epoch c epoch now secret l) refl)
          (my_secret-wrap_secret c room secret (start_epoch c epoch now secret l))))
  | inr e ↦
      let done = wrap_secret_settled c room e.1.0 l e.2 in
      inr (
        rw e.0 (rw (wrap_for_new_peers_held c room e.1.0 l e.1.1) (done.1 ∙ m, done.0, done.2 ∙ w)))
]

SameSecret : KeyManager → KeyManager → Type 0
SameSecret k l = (l.my_secret ≡ k.my_secret) × (l.wrapped_to ≡ k.wrapped_to)

apply_peers-IsRekeyed :
    (c : Crypto) (room epoch : ℕ) (peers : List Peer) (now unix_now secret : ℕ) (k : KeyManager)
    → IsRekeyed secret k (apply_peers c room epoch peers now unix_now secret k)
unfolding apply_peers admit SameSecret
apply_peers-IsRekeyed c room epoch peers now unix_now secret k =
    finish-IsRekeyed c now secret t.notices k
      (wrap_for_new_peers c room (rekey c epoch now secret (admit now peers t)))
      (rekey-IsRekeyed c room epoch now secret t.notices k (admit now peers t) same.0 same.1)
  where
    t : Trusting
    t = trusted_or_none c room unix_now peers k (invalid peers k)

    checked : (n : Option KeyNotice) → SameSecret k (trusted_or_none c room unix_now peers k n).keys
    checked none =
        trusted_peers_keep (SameSecret k) (λ l seen refused h. h) c room unix_now peers k
          (refl, refl)
    checked (some n) = (refl, refl)

    same : SameSecret k t.keys
    same = checked (invalid peers k)

-- A room state leaves our secret as it was, sends nothing and keeps those it was wrapped to the
-- same, or the secret is the new one that it was given.
pub peers_changed_rekeys :
    (c : Crypto) (room epoch : ℕ) (peers : List Peer) (now unix_now secret : ℕ) (k : KeyManager)
    → ((peers_changed c room epoch peers now unix_now secret k).keys.my_secret ≡ some secret)
      ⊎ (((peers_changed c room epoch peers now unix_now secret k).keys.my_secret ≡ k.my_secret)
          × ((peers_changed c room epoch peers now unix_now secret k).request ≡ none)
          × ((peers_changed c room epoch peers now unix_now secret k).keys.wrapped_to
              ≡ k.wrapped_to))
unfolding peers_changed stash
peers_changed_rekeys c room epoch peers now unix_now secret k =
    elim (Bool-cases (same_room (some room) k.room)) [
      | inl r ↦ elim (Bool-cases (ltb epoch k.epoch)) [
        | inl e ↦ rw (r, e) (inr (refl, refl, refl))
        | inr e ↦ rw (r, e) (apply_peers-IsRekeyed c room epoch peers now unix_now secret k)
      ]
      | inr r ↦ rw r (elim (Bool-cases (replaces k.stashed room epoch)) [
        | inl q ↦ rw q (inr (refl, refl, refl))
        | inr q ↦ rw q (inr (refl, refl, refl))
      ])
    ]
