-- ===== src/Client/Keys/Steps/Replay.antt =====
-- Rooms that are entered again: `apply_placement`, `recv_key` and `sender_key` of
-- crates/throcc-client-core/src/keys.rs.
use throcc.Prelude.{
  ℕ, ◌≤◌, ◌<◌, ◌≡◌, refl, sym, subst, inl, inr, true, false, List, Option, none, some, err, ◌==◌,
  length, arith, Bool-cases,
}
use throcc.Prelude.Table.{find}
use throcc.Server.Hub.State.{Tracks, Peer}
use throcc.Client.Keys.{
  Crypto, KeyManager, pair_eq, at_most, below_floor, recv_key, stale, wrapped_bytes,
}
use throcc.Client.Keys.Secrets.{start_epoch, move_epoch, sender_key_at, sender_key}
use throcc.Client.Keys.Secrets.Rest.{sender_key_at-but_received, wrap_for_new_peers-but_peers}
use throcc.Client.Keys.Rooms.{same_room, admit, take_place, leave_for, apply_placement}
use throcc.Client.Keys.Rooms.Keep.{Parts, peers_changed_keep, settle_in_keep}
use throcc.Client.Keys.Steps.{Steps, Reach}
use throcc.Client.Keys.Steps.Floors.{Reach-IsFloored, Steps-IsPast, IsFloored, IsPast}

module _ (c : Crypto) (e : ℕ) where
  -- The floor stays while room states come.
  floor_parts : Parts c (λ k. at_most k.floor e ≡ true)
  unfolding admit start_epoch move_epoch
  floor_parts = record {
    checks = λ k seen refused h. h;
    admits = λ now peers t h. h;
    starts = λ epoch now secret k h. elim (Bool-cases (epoch == k.epoch)) [
      | inl q ↦ rw q h
      | inr q ↦ rw q h
    ];
    wraps = λ room k h.
        subst (λ l. at_most l.floor e ≡ true) (sym (wrap_for_new_peers-but_peers c room k)) h;
    sends = λ k source epoch wrapped arrived now h.
        subst (λ l. at_most l.floor e ≡ true)
          (sym (sender_key_at-but_received c k source epoch wrapped arrived now)) h;
    empties = λ k h. h;
    counts = λ k n h. h;
    stashes = λ k s h. h;
  }

  floor-apply_placement :
      (k : KeyManager) (room epoch : ℕ) (tracks : Option Tracks) (peers : List Peer)
      (now unix_now : ℕ) (secrets : ℕ × ℕ)
      → same_room (some room) k.room ≡ false
      → at_most (find (k.me, room) k.floors) e ≡ true
      → at_most
          (apply_placement c (some room) epoch tracks peers now unix_now secrets k).keys.floor
          e
        ≡ true
  unfolding apply_placement leave_for take_place
  floor-apply_placement k room epoch tracks peers now unix_now secrets r h = rw r (
      settle_in_keep c (λ k. at_most k.floor e ≡ true)
        (peers_changed_keep c (λ k. at_most k.floor e ≡ true) floor_parts) (λ k s g. g) (some room)
        epoch peers now unix_now secrets _ h)

refused :
    (c : Crypto) (k : KeyManager) (media_id source epoch now : ℕ) (wrapped : List ℕ)
    → length wrapped ≡ wrapped_bytes
    → below_floor epoch k ≡ true
    → ((recv_key c media_id epoch k).1 ≡ none)
      × (sender_key c source epoch wrapped now k ≡ (k, err stale))
unfolding recv_key sender_key sender_key_at
refused c k media_id source epoch now wrapped l b = (rw b refl, rw (l, b) refl)

below_floor_older :
    (k : KeyManager) (e epoch : ℕ)
    → at_most k.floor e ≡ true
    → epoch ≤ e
    → below_floor epoch k ≡ true
unfolding below_floor
below_floor_older k e epoch h o = rw (older k.floor h) (ground arith)
  where
    older : (f : Option ℕ) → at_most f e ≡ true → at_most f epoch ≡ true
    older none q = q
    older (some f) q = ground (arith, q, o)

-- Having once been in an epoch of a room, other than epoch 0, whatever happens since, and being
-- placed in that room again from elsewhere: there is no receive key of that epoch or an older one, and
-- no sender key of one is taken.
pub old_epochs_refused :
    (c : Crypto) (k l : KeyManager) (room : ℕ)
    → Reach c k
    → k.room ≡ some room
    → 0 < k.epoch
    → Steps c k l
    → same_room (some room) l.room ≡ false
    → (new_epoch : ℕ) (tracks : Option Tracks) (peers : List Peer) (now unix_now : ℕ)
      (secrets : ℕ × ℕ)
    → (media_id source epoch later : ℕ) (wrapped : List ℕ) → epoch ≤ k.epoch
    → length wrapped ≡ wrapped_bytes
    → ((recv_key c media_id epoch
          (apply_placement c (some room) new_epoch tracks peers now unix_now secrets l).keys).1
        ≡ none)
      × (sender_key c source epoch wrapped later
            (apply_placement c (some room) new_epoch tracks peers now unix_now secrets l).keys
          ≡ (
            (apply_placement c (some room) new_epoch tracks peers now unix_now secrets l).keys,
            err stale,
          ))
unfolding IsFloored IsPast
old_epochs_refused c k l room reached r positive steps away new_epoch tracks peers now unix_now
      secrets media_id source epoch later wrapped o w =
    let floored : at_most (find (k.me, room) k.floors) k.epoch ≡ true =
      ground (arith, Reach-IsFloored c k reached room r, positive) in
    let past = Steps-IsPast c k.me room k.epoch k l (refl, floored) steps in
    refused c (apply_placement c (some room) new_epoch tracks peers now unix_now secrets l).keys
      media_id source epoch later wrapped w
      (below_floor_older _ k.epoch epoch
        (floor-apply_placement c k.epoch l room new_epoch tracks peers now unix_now secrets away
          (subst (λ me. at_most (find (me, room) l.floors) k.epoch ≡ true) (sym past.0) past.1))
        o)
