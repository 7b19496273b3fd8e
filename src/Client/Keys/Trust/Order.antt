-- ===== src/Client/Keys/Trust/Order.antt =====
-- The order of the trusted peers: `trusted_peers` of crates/throcc-client-core/src/keys.rs.
use throcc.Prelude.{
  ℕ, inl, inr, Bool, true, false, List, [], ◌∷◌, leb, if◌then◌else◌, arith, Bool-cases,
}
use throcc.Prelude.Map.{get, IsSorted, insert-IsSorted}
use throcc.Server.Hub.State.{Peer}
use throcc.Client.Keys.{Crypto, KeyManager}
use throcc.Client.Keys.Trust.{
  Trusting, trust_all, trust, trusted_peers, signed_by_identity, is_shown, key_peer, is_value,
  judge,
}

judge-IsSorted :
    (p : Peer) (x : KeyManager × Bool) (t : Trusting)
    → IsSorted 0 t.trusted
    → IsSorted 0 (judge p x t).trusted
judge-IsSorted p (k, false) t s = s
judge-IsSorted p (k, true) t s =
    elim (Bool-cases (is_value p.encryption_key.key (get p.user k.unwrappable))) [
      | inl e ↦ rw e s
      | inr e ↦ rw e (insert-IsSorted 0 p.user (key_peer p) t.trusted (omega arith) s)
    ]

trust-IsSorted :
    (c : Crypto) (unix_now : ℕ) (p : Peer) (t : Trusting)
    → IsSorted 0 t.trusted
    → IsSorted 0 (trust c unix_now p t).trusted
unfolding trust
trust-IsSorted c unix_now p t s = elim (Bool-cases (leb p.encryption_key.not_after unix_now)) [
  | inl e ↦ rw e s
  | inr e ↦ rw e (judge-IsSorted p (signed_by_identity c p t.keys) t s)
]

trust_all-IsSorted :
    (c : Crypto) (room unix_now : ℕ) (peers : List Peer) (t : Trusting)
    → IsSorted 0 t.trusted
    → IsSorted 0 (trust_all c room unix_now peers t).trusted
unfolding trust_all
trust_all-IsSorted c room unix_now [] t s = s
trust_all-IsSorted c room unix_now (p ∷ peers) t s =
    trust_all-IsSorted c room unix_now peers
      (if is_shown room p t.keys then trust c unix_now p t else t)
      (elim (Bool-cases (is_shown room p t.keys)) [
        | inl e ↦ rw e (trust-IsSorted c unix_now p t s)
        | inr e ↦ rw e s
      ])

pub trusted_peers-IsSorted :
    (c : Crypto) (room unix_now : ℕ) (peers : List Peer) (k : KeyManager)
    → IsSorted 0 (trusted_peers c room unix_now peers k).trusted
unfolding trusted_peers
trusted_peers-IsSorted c room unix_now peers k = trust_all-IsSorted c room unix_now peers _ tt
