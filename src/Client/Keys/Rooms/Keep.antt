-- ===== src/Client/Keys/Rooms/Keep.antt =====
-- A predicate that the parts of `peers_changed` and `apply_placement` keep is kept by both:
-- crates/throcc-client-core/src/keys.rs.
use throcc.Prelude.{
  ℕ, ◌-◌, inl, inr, not, ◌&&◌, ◌||◌, List, [], ◌∷◌, Option, none, some, ltb, ◌==◌, if◌then◌else◌,
  Bool-cases, Option-cases,
}
use throcc.Prelude.Map.{Map}
use throcc.Prelude.Table.{Table}
use throcc.Server.Hub.State.{Tracks, Peer}
use throcc.Client.Keys.{Crypto, KeyManager, KeyNotice, SeenKey, Stash, Pair, old_key_grace}
use throcc.Client.Keys.Sets.{peer_set, same_pairs}
use throcc.Client.Keys.Trust.{Trusting}
use throcc.Client.Keys.Trust.Keep.{trusted_peers_keep}
use throcc.Client.Keys.Secrets.{sender_key_at, start_epoch, wrap_for_new_peers, Wrapping}
use throcc.Client.Keys.Rooms.{
  same_room, is_placed, trusted_or_none, take_early, invalid, admit, has_secret, rekey, finish,
  apply_peers, peers_changed, stash, replaces, reapply_peers, leave_for, take_place, with_stashed,
  settle, settle_in, apply_placement,
}

-- What a room state does to a state, part by part.
pub record Parts {ℓ} (c : Crypto) (P : KeyManager → Type ℓ) : Type ℓ where
  pub checks :
      (k : KeyManager) (seen : Map SeenKey) (refused : Map ℕ)
      → P k
      → P (record k { checked_signatures = seen; unwrappable = refused })
  pub admits : (now : ℕ) (peers : List Peer) (t : Trusting) → P t.keys → P (admit now peers t)
  pub starts : (epoch now secret : ℕ) (k : KeyManager) → P k → P (start_epoch c epoch now secret k)
  pub wraps : (room : ℕ) (k : KeyManager) → P k → P (wrap_for_new_peers c room k).keys
  pub sends :
      (k : KeyManager) (source epoch : ℕ) (wrapped : List ℕ) (arrived now : ℕ)
      → P k
      → P (sender_key_at c source epoch wrapped arrived now k).0
  pub empties : (k : KeyManager) → P k → P (record k { early = [] })
  pub counts : (k : KeyManager) (n : ℕ) → P k → P (record k { generation = n })
  pub stashes : (k : KeyManager) (s : Option Stash) → P k → P (record k { stashed = s })

module _ {ℓ} (c : Crypto) (P : KeyManager → Type ℓ) (parts : Parts c P) where
  take_early_keep :
      (now : ℕ) (early : Table Pair (ℕ × List ℕ)) (k : KeyManager)
      → P k
      → P (take_early c now early k)
  unfolding take_early
  take_early_keep now [] k h = h
  take_early_keep now ((key, (arrived, wrapped)) ∷ early) k h =
      take_early_keep now early
        (if ltb (now - arrived) old_key_grace
          then (sender_key_at c key.0 key.1 wrapped arrived now k).0
          else k)
        (elim (Bool-cases (ltb (now - arrived) old_key_grace)) [
          | inl e ↦ rw e (parts.sends k key.0 key.1 wrapped arrived now h)
          | inr e ↦ rw e h
        ])

  finish_keep :
      (now : ℕ) (notices : List KeyNotice) (w : Wrapping)
      → P w.keys
      → P (finish c now notices w).keys
  finish_keep now notices w h =
      parts.counts _ _ (take_early_keep now w.keys.early _ (parts.empties w.keys h))

  trusted_or_none_keep :
      (room unix_now : ℕ) (peers : List Peer) (k : KeyManager) (n : Option KeyNotice)
      → P k
      → P (trusted_or_none c room unix_now peers k n).keys
  trusted_or_none_keep room unix_now peers k none h =
      trusted_peers_keep P parts.checks c room unix_now peers k h
  trusted_or_none_keep room unix_now peers k (some n) h = h

  rekey_keep : (epoch now secret : ℕ) (k : KeyManager) → P k → P (rekey c epoch now secret k)
  unfolding rekey
  rekey_keep epoch now secret k h =
      elim (Bool-cases (
        not (epoch == k.epoch)
        || not (has_secret k.my_secret)
        || not (same_pairs (peer_set k.peers) k.wrapped_to))) [
          | inl e ↦ rw e (parts.starts epoch now secret k h)
          | inr e ↦ rw e h
        ]

  apply_peers_keep :
      (room epoch : ℕ) (peers : List Peer) (now unix_now secret : ℕ) (k : KeyManager)
      → P k
      → P (apply_peers c room epoch peers now unix_now secret k).keys
  unfolding apply_peers
  apply_peers_keep room epoch peers now unix_now secret k h =
      finish_keep now t.notices
        (wrap_for_new_peers c room (rekey c epoch now secret (admit now peers t)))
        (parts.wraps room _ (
          rekey_keep epoch now secret _ (
            parts.admits now peers t
              (trusted_or_none_keep room unix_now peers k (invalid peers k) h))))
    where
      t : Trusting
      t = trusted_or_none c room unix_now peers k (invalid peers k)

  pub peers_changed_keep :
      (room epoch : ℕ) (peers : List Peer) (now unix_now secret : ℕ) (k : KeyManager)
      → P k
      → P (peers_changed c room epoch peers now unix_now secret k).keys
  unfolding peers_changed stash
  peers_changed_keep room epoch peers now unix_now secret k h =
      elim (Bool-cases (same_room (some room) k.room)) [
        | inl r ↦ elim (Bool-cases (ltb epoch k.epoch)) [
          | inl e ↦ rw (r, e) h
          | inr e ↦ rw (r, e) (apply_peers_keep room epoch peers now unix_now secret k h)
        ]
        | inr r ↦ rw r (elim (Bool-cases (replaces k.stashed room epoch)) [
          | inl q ↦ rw q (parts.stashes k _ h)
          | inr q ↦ rw q h
        ])
      ]

-- The same for placements, from what room states, stashes and the move itself keep.
module _ {ℓ} (c : Crypto) (P : KeyManager → Type ℓ)
    (changes : (room epoch : ℕ) (peers : List Peer) (now unix_now secret : ℕ) (k : KeyManager)
      → P k
      → P (peers_changed c room epoch peers now unix_now secret k).keys)
    (stashes : (k : KeyManager) (s : Option Stash) → P k → P (record k { stashed = s })) where
  pub reapply_peers_keep :
      (now unix_now secret : ℕ) (k : KeyManager)
      → P k
      → P (reapply_peers c now unix_now secret k).keys
  unfolding reapply_peers
  reapply_peers_keep now unix_now secret k h = elim (Option-cases k.room) [
    | inl e ↦ rw (e, reapply_peers) h
    | inr e ↦ rw (e.1, reapply_peers) (changes e.0 k.epoch k.room_peers now unix_now secret k h)
  ]

  with_stashed_keep :
      (room epoch now unix_now secret : ℕ) (s : Option Stash) (k : KeyManager)
      → P k
      → P (with_stashed c room epoch now unix_now secret s k).keys
  unfolding with_stashed
  with_stashed_keep room epoch now unix_now secret none k h = h
  with_stashed_keep room epoch now unix_now secret (some s) k h =
      elim (Bool-cases ((s.room == room) && ltb epoch s.epoch)) [
        | inl e ↦ rw e (changes room s.epoch s.peers now unix_now secret k h)
        | inr e ↦ rw e h
      ]

  pub settle_in_keep :
      (room : Option ℕ) (epoch : ℕ) (peers : List Peer) (now unix_now : ℕ) (secrets : ℕ × ℕ)
      (k : KeyManager)
      → P k
      → P (settle_in c room epoch peers now unix_now secrets k).keys
  unfolding settle
  settle_in_keep none epoch peers now unix_now secrets k h = stashes k none h
  settle_in_keep (some room) epoch peers now unix_now secrets k h =
      with_stashed_keep room epoch now unix_now secrets.1 _ _
        (stashes _ none (changes room epoch peers now unix_now secrets.0 k h))

  pub apply_placement_keep :
      ((room : Option ℕ) (tracks : Option Tracks) (k : KeyManager)
        → P k
        → P (take_place room tracks (leave_for room k)))
      → (room : Option ℕ) (epoch : ℕ) (tracks : Option Tracks) (peers : List Peer)
        (now unix_now : ℕ) (secrets : ℕ × ℕ) (k : KeyManager)
      → P k
      → P (apply_placement c room epoch tracks peers now unix_now secrets k).keys
  unfolding apply_placement
  apply_placement_keep place room epoch tracks peers now unix_now secrets k h =
      elim (Bool-cases (is_placed room && same_room room k.room && ltb epoch k.epoch)) [
        | inl e ↦ rw e h
        | inr e ↦
            rw e (settle_in_keep room epoch peers now unix_now secrets _ (place room tracks k h))
      ]
