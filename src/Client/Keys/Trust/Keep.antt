-- ===== src/Client/Keys/Trust/Keep.antt =====
-- What the check of a room's peers leaves alone: all but `checked_signatures` and `unwrappable` of the
-- `KeyManager` of crates/throcc-client-core/src/keys.rs.
use throcc.Prelude.{
  ℕ, inl, inr, Bool, true, false, List, [], ◌∷◌, leb, if◌then◌else◌, Bool-cases, Option-cases,
}
use throcc.Prelude.Map.{Map, get}
use throcc.Server.Hub.State.{Peer}
use throcc.Client.Keys.{Crypto, KeyManager, SeenKey}
use throcc.Client.Keys.Trust.{
  Trusting, trust_all, trust, trusted_peers, signed_by_identity, seen_before, is_shown, keep_listed,
  is_value, judge,
}

module _ {ℓ} (P : KeyManager → Type ℓ)
    (checks : (k : KeyManager) (seen : Map SeenKey) (refused : Map ℕ)
      → P k
      → P (record k { checked_signatures = seen; unwrappable = refused }))
    (c : Crypto) (room unix_now : ℕ) where
  judge_keep : (p : Peer) (x : KeyManager × Bool) (t : Trusting) → P x.0 → P (judge p x t).keys
  judge_keep p (k, false) t h = h
  judge_keep p (k, true) t h =
      elim (Bool-cases (is_value p.encryption_key.key (get p.user k.unwrappable))) [
        | inl e ↦ rw e h
        | inr e ↦ rw e h
      ]

  signed_by_identity_keep : (p : Peer) (k : KeyManager) → P k → P (signed_by_identity c p k).0
  unfolding signed_by_identity
  signed_by_identity_keep p k h =
      elim (Option-cases (seen_before (get p.user k.checked_signatures) p)) [
        | inl e ↦ rw (e, signed_by_identity) (checks k _ k.unwrappable h)
        | inr e ↦ rw (e.1, signed_by_identity) h
      ]

  trust_keep : (p : Peer) (t : Trusting) → P t.keys → P (trust c unix_now p t).keys
  unfolding trust
  trust_keep p t h = elim (Bool-cases (leb p.encryption_key.not_after unix_now)) [
    | inl e ↦ rw e h
    | inr e ↦
        rw e (judge_keep p (signed_by_identity c p t.keys) t (signed_by_identity_keep p t.keys h))
  ]

  trust_all_keep :
      (peers : List Peer) (t : Trusting) → P t.keys → P (trust_all c room unix_now peers t).keys
  unfolding trust_all
  trust_all_keep [] t h = h
  trust_all_keep (p ∷ peers) t h =
      trust_all_keep peers (if is_shown room p t.keys then trust c unix_now p t else t)
        (elim (Bool-cases (is_shown room p t.keys)) [
          | inl e ↦ rw e (trust_keep p t h)
          | inr e ↦ rw e h
        ])

  pub trusted_peers_keep :
      (peers : List Peer) (k : KeyManager) → P k → P (trusted_peers c room unix_now peers k).keys
  unfolding trusted_peers
  trusted_peers_keep peers k h =
      trust_all_keep peers _
        (checks k (keep_listed peers k.checked_signatures) (keep_listed peers k.unwrappable) h)
