-- ===== src/Client/Keys/Tests.antt =====
-- Runs of the model of crates/throcc-client-core/src/keys.rs, and the theorems at concrete inputs.
-- The toy cryptography writes the receiver's key and the secret into the wrapped bytes.
use throcc.Prelude.{
  ℕ, ◌+◌, ◌*◌, ◌≡◌, refl, sym, ap, ◌∙◌, ◌⊎◌, inl, List, [], ◌∷◌, ◌++◌, Option, none, some, err,
  ◌==◌, ==_iff, length, if◌then◌else◌, arith,
}
use throcc.Prelude.Map.{get, contains_key, insert}
use throcc.Prelude.Table.{find, put}
use throcc.Server.Hub.State.{Peer}
use throcc.Client.Keys.{
  Crypto, KeyManager, new, track_ids, below_floor, raise, retire_received, wrapped_bytes, recv_key,
  send_key, stale,
}
use throcc.Client.Keys.Sets.{contains_pair, insert_pair, same_pairs, peer_set, has_key}
use throcc.Client.Keys.Trust.{
  clashing, signed_by_identity, keep_listed, key_peer, trust, trust_all, trusted_peers,
}
use throcc.Client.Keys.Secrets.{
  PublishSenderKey, keys_of, start_epoch, move_epoch, wrap_all, leave_out, extend_wrapped,
  wrap_for_new_peers, wrap_secret, sender_key,
}
use throcc.Client.Keys.Steps.{presence, placed, sent, done, then_step, Reach, reach}
use throcc.Client.Keys.Secrets.Delivered.{Wraps}
use throcc.Client.Keys.Secrets.Published.{recv_key-wrap_for_new_peers}
use throcc.Client.Keys.Rooms.Shares.{peers_changed_rekeys}
use throcc.Client.Keys.Steps.Guarded.{wrapped_to-has_key}
use throcc.Client.Keys.Steps.Backed.{recv_key-uncached_key, uncached_key}
use throcc.Client.Keys.Steps.Replay.{old_epochs_refused}
use throcc.Client.Keys.Rooms.{
  set_presence, stash, invalid, departed, owners_of, admit, rekey, take_early, apply_peers,
  peers_changed, leave_for, take_place, with_stashed, settle, apply_placement,
}

abbrev ten : List ℕ
ten = 0 ∷ 0 ∷ 0 ∷ 0 ∷ 0 ∷ 0 ∷ 0 ∷ 0 ∷ 0 ∷ 0 ∷ []

abbrev filler : List ℕ
filler = 0 ∷ 0 ∷ 0 ∷ 0 ∷ 0 ∷ 0 ∷ 0 ∷ 0 ∷ ten ++ ten ++ ten ++ ten ++ ten ++ ten ++ ten

abbrev toy_wrap : (encryption recipient secret : ℕ) → Option (List ℕ)
toy_wrap encryption recipient secret = some (recipient ∷ secret ∷ filler)

abbrev toy_unwrap : (encryption : ℕ) → List ℕ → Option ℕ
toy_unwrap encryption (recipient ∷ secret ∷ rest) =
    if recipient == encryption then some secret else none
toy_unwrap encryption _ = none

abbrev toy : Crypto
toy = record {
  verify = λ identity_key server user not_after key sig. sig == identity_key + key;
  wrap = λ encryption recipient info secret. toy_wrap encryption recipient secret;
  unwrap = λ encryption peer info blob. toy_unwrap encryption blob;
  derive = λ secret media_id. secret * 1000 + media_id;
}

abbrev peer_with : (user mic key : ℕ) → Peer
peer_with user mic key = record {
  user = user;
  tracks = record { mic = mic; shares = [] };
  share = none;
  identity_key = 7;
  encryption_key = record { key = key; not_after = 100; sig = 7 + key };
}

-- User 2 in room 5 at epoch 1, once user 1 is shown there.
abbrev shown : KeyManager
shown = (set_presence 1 (some 5) (new 2 20 9 [] 0)).0

abbrev in_room : KeyManager
in_room =
    (apply_placement toy (some 5) 1 (some (record { mic = 22; shares = [] }))
      (peer_with 1 11 10 ∷ []) 0 50 (77, 78) shown).keys

placed_once :
    (in_room.room ≡ some 5)
    × (in_room.epoch ≡ 1)
    × (in_room.my_secret ≡ some 77)
    × (in_room.wrapped_to ≡ (1, 10) ∷ [])
unfolding new set_presence apply_placement leave_for take_place settle with_stashed peers_changed
    apply_peers invalid clashing trusted_peers trust_all trust signed_by_identity keep_listed
    key_peer admit departed retire_received owners_of peer_set insert_pair same_pairs rekey
    start_epoch move_epoch raise keys_of track_ids wrap_for_new_peers wrap_secret wrap_all leave_out
    extend_wrapped contains_pair take_early stash get insert contains_key find put below_floor
placed_once = (refl, refl, refl, refl)

in_room-Reach : Reach toy in_room
in_room-Reach = reach 2 20 9 [] 0 in_room (
    then_step _ shown _ (then_step _ _ shown (done _) (presence (new 2 20 9 [] 0) 1 (some 5))) (
      placed shown (some 5) 1 (some (record { mic = 22; shares = [] })) (peer_with 1 11 10 ∷ []) 0
        50 (77, 78)))

wrapped_to-has_key_example :
    contains_pair (1, 10) in_room.wrapped_to ≡ has_key 10 (get 1 in_room.peers)
wrapped_to-has_key_example = wrapped_to-has_key toy in_room in_room-Reach 77 placed_once.2 (1, 10)

peers_changed_rekeys_example :
    ((peers_changed toy 5 2 [] 3 50 99 in_room).keys.my_secret ≡ some 99)
    ⊎ (((peers_changed toy 5 2 [] 3 50 99 in_room).keys.my_secret ≡ in_room.my_secret)
        × ((peers_changed toy 5 2 [] 3 50 99 in_room).request ≡ none)
        × ((peers_changed toy 5 2 [] 3 50 99 in_room).keys.wrapped_to ≡ in_room.wrapped_to))
peers_changed_rekeys_example = peers_changed_rekeys toy 5 2 [] 3 50 99 in_room

abbrev received_in : KeyManager
received_in = (sender_key toy 1 1 (20 ∷ 66 ∷ filler) 4 in_room).0

recv_key-uncached_key_example :
    (recv_key toy 11 1 received_in).1 ≡ uncached_key toy 11 1 received_in
recv_key-uncached_key_example =
    recv_key-uncached_key toy received_in (received-Reach in_room-Reach) 11 1
  where
    received-Reach : Reach toy in_room → Reach toy received_in
    received-Reach (reach me encryption server floors now k s) =
        reach me encryption server floors now _
          (then_step _ k _ s (sent k 1 1 (20 ∷ 66 ∷ filler) 4))

abbrev outside : KeyManager
outside = (apply_placement toy none 0 none [] 8 50 (0, 0) in_room).keys

old_epochs_refused_example :
    ((recv_key toy 11 1
        (apply_placement toy (some 5) 2 none (peer_with 1 11 10 ∷ []) 9 50 (79, 80) outside).keys).1
      ≡ none)
    × (sender_key toy 1 1
          (20 ∷ 66 ∷ filler)
          10
          (apply_placement toy (some 5) 2 none (peer_with 1 11 10 ∷ []) 9 50 (79, 80) outside).keys
        ≡ (
          (apply_placement toy (some 5) 2 none (peer_with 1 11 10 ∷ []) 9 50 (79, 80) outside).keys,
          err stale,
        ))
unfolding apply_placement take_place leave_for
old_epochs_refused_example =
    old_epochs_refused toy in_room outside 5 in_room-Reach placed_once.0
      (rw placed_once.1 (omega arith))
      (then_step _ in_room _ (done in_room) (placed in_room none 0 none [] 8 50 (0, 0))) refl 2 none
      (peer_with 1 11 10 ∷ []) 9 50 (79, 80) 11 1 1 10 (20 ∷ 66 ∷ filler)
      (rw placed_once.1 (omega arith)) refl

toy-Wraps : Wraps toy (λ key. key)
toy-Wraps = record {
  wraps = λ source target info secret. (target ∷ secret ∷ filler, refl);
  opens = λ source target info secret blob w. back target secret blob w;
  sized = λ source target info secret blob w. sym (ap sized_or w);
}
  where
    unwrapped : (target secret : ℕ) → Option (List ℕ) → Option ℕ
    unwrapped target secret none = some secret
    unwrapped target secret (some blob) = toy_unwrap target blob

    back :
        (target secret : ℕ) (blob : List ℕ)
        → toy_wrap 0 target secret ≡ some blob
        → toy_unwrap target blob ≡ some secret
    back target secret blob w =
        sym (ap (unwrapped target secret) w) ∙ ground (arith, ==_iff target target)

    sized_or : Option (List ℕ) → ℕ
    sized_or none = wrapped_bytes
    sized_or (some blob) = length blob

-- User 1 in room 5 at epoch 1, with user 2.
abbrev alice : KeyManager
alice =
    (apply_placement toy (some 5) 1 (some (record { mic = 11; shares = [] }))
      (peer_with 2 22 20 ∷ []) 0 50 (55, 56) (set_presence 2 (some 5) (new 1 10 9 [] 0)).0).keys

recv_key-wrap_for_new_peers_example :
    (request : PublishSenderKey) × (blob : List ℕ) × ((wrap_for_new_peers toy 5
        (start_epoch toy 1 0 66 alice)).request
      ≡ some request)
    × (request.epoch ≡ 1)
    × (get 2 request.wrapped ≡ some blob)
    × (send_key 11 (wrap_for_new_peers toy 5 (start_epoch toy 1 0 66 alice)).keys ≡ some (1, 66011))
    × ((recv_key toy 11 request.epoch (sender_key toy 1 request.epoch blob 4 in_room).0).1
        ≡ some 66011)
unfolding new set_presence apply_placement leave_for take_place settle with_stashed peers_changed
    apply_peers invalid clashing trusted_peers trust_all trust signed_by_identity keep_listed
    key_peer admit departed retire_received owners_of peer_set insert_pair same_pairs rekey
    start_epoch move_epoch raise keys_of track_ids wrap_for_new_peers wrap_secret wrap_all leave_out
    extend_wrapped contains_pair take_early stash get insert contains_key find put below_floor
recv_key-wrap_for_new_peers_example =
    recv_key-wrap_for_new_peers toy (λ key. key) toy-Wraps alice in_room 5 1 0 4 66 11
      (key_peer (peer_with 2 22 20)) (key_peer (peer_with 1 11 10)) refl (omega arith, tt) refl refl
      refl refl (rw placed_once.1 (omega arith)) (inl (sym placed_once.1)) refl refl refl refl
