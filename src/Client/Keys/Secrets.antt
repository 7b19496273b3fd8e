-- ===== src/Client/Keys/Secrets.antt =====
-- Our secret and theirs: `start_epoch`, `wrap_for_new_peers` and `sender_key` of
-- crates/throcc-client-core/src/keys.rs.
pub mod Wrapped
pub mod Rest
pub mod Delivered
pub mod Published
use throcc.Prelude.{
  ℕ, ◌+◌, ◌≡◌, Bool, true, false, ◌&&◌, ◌||◌, List, [], ◌∷◌, Option, none, some, Result, ok, err,
  ltb, leb, ◌==◌, length, if◌then◌else◌, ok_or, ◌>>=◌, ap,
}
use throcc.Prelude.Map.{Map, get, contains_key, insert, remove}
use throcc.Prelude.Table.{Table, find, put}
use throcc.Client.Keys.{
  ids_of, Crypto, WrapContext, KeyManager, KeyPeer, KeyError, stale, wrong_length, bad_unwrap, Pair,
  pair_eq, raise, retire_received, below_floor, old_key_grace, max_early, wrapped_bytes,
}
use throcc.Client.Keys.Sets.{contains_pair, insert_pair}

-- Who gets our secret, each with the wrapped one, and for which epoch.
pub record PublishSenderKey : Type 0 where
  pub epoch : ℕ
  pub wrapped : List (ℕ × List ℕ)

abbrev pub context : KeyManager → (room epoch source target : ℕ) → WrapContext
context k room epoch source target = record {
  server = k.server;
  room = room;
  epoch = epoch;
  source = source;
  target = target;
}

-- The key of each of our tracks.
unfoldable pub keys_of : Crypto → ℕ → List ℕ → Map ℕ
keys_of c secret [] = []
keys_of c secret (id ∷ ids) = insert id (c.derive secret id) (keys_of c secret ids)

abbrev raise_in : ℕ → Option ℕ → ℕ → Table Pair ℕ → Table Pair ℕ
raise_in me none epoch floors = floors
raise_in me (some room) epoch floors = raise me room epoch floors

-- The part of `start_epoch` that moves to another epoch.
unfoldable pub move_epoch : (epoch now : ℕ) → KeyManager → KeyManager
move_epoch epoch now k = if epoch == k.epoch then k else record k {
  received = retire_received (λ key. ltb key.1 epoch) now k.received;
  epoch = epoch;
  epoch_since = now;
  floors = raise_in k.me k.room epoch k.floors;
}

unfoldable pub start_epoch : Crypto → (epoch now secret : ℕ) → KeyManager → KeyManager
start_epoch c epoch now secret k = record (move_epoch epoch now k) {
  send_keys = keys_of c secret (ids_of k.my_tracks);
  my_secret = some secret;
  wrapped_to = [];
}

-- What is wrapped, and who is refused with which key.
pub record Wraps : Type 0 where
  pub wrapped : List (ℕ × List ℕ)
  pub refused : List Pair

abbrev with_wrap : ℕ → ℕ → Option (List ℕ) → Wraps → Wraps
with_wrap user key none w = record w { refused = (user, key) ∷ w.refused }
with_wrap user key (some blob) w = record w { wrapped = (user, blob) ∷ w.wrapped }

unfoldable pub wrap_all : Crypto → KeyManager → (room secret : ℕ) → Map KeyPeer → Wraps
wrap_all c k room secret [] = record { wrapped = []; refused = [] }
wrap_all c k room secret ((user, peer) ∷ peers) =
    let rest = wrap_all c k room secret peers in
    if contains_pair (user, peer.encryption_key) k.wrapped_to
    then rest
    else with_wrap user peer.encryption_key
        (c.wrap k.encryption peer.encryption_key (context k room k.epoch k.me user) secret) rest

unfoldable pub disowned : ℕ → Map ℕ → Map ℕ
disowned user [] = []
disowned user ((id, owner) ∷ owners) =
    let rest = disowned user owners in if owner == user then rest else (id, owner) ∷ rest

-- Those whose key was refused are left out.
unfoldable pub leave_out : List Pair → KeyManager → KeyManager
leave_out [] k = k
leave_out ((user, key) ∷ refused) k = leave_out refused (record k {
  unwrappable = insert user key k.unwrappable;
  peers = remove user k.peers;
  owners = disowned user k.owners;
})

abbrev add_wrapped : ℕ → Option KeyPeer → List Pair → List Pair
add_wrapped user none set = set
add_wrapped user (some peer) set = insert_pair (user, peer.encryption_key) set

unfoldable pub extend_wrapped : Map KeyPeer → List (ℕ × List ℕ) → List Pair → List Pair
extend_wrapped peers [] set = set
extend_wrapped peers ((user, blob) ∷ wrapped) set =
    extend_wrapped peers wrapped (add_wrapped user (get user peers) set)

abbrev unless_empty : ℕ → List (ℕ × List ℕ) → Option PublishSenderKey
unless_empty epoch [] = none
unless_empty epoch (w ∷ wrapped) = some (record { epoch = epoch; wrapped = w ∷ wrapped })

abbrev pub users : List Pair → List ℕ
users [] = []
users ((user, key) ∷ refused) = user ∷ users refused

-- The new state, the request to send and those who are left out.
pub record Wrapping : Type 0 where
  pub keys : KeyManager
  pub request : Option PublishSenderKey
  pub left_out : List ℕ

unfoldable pub wrap_secret : Crypto → (room secret : ℕ) → KeyManager → Wrapping
wrap_secret c room secret k =
    let w = wrap_all c k room secret k.peers in
    let left = leave_out w.refused k in
    record {
      keys = record left { wrapped_to = extend_wrapped left.peers w.wrapped k.wrapped_to };
      request = unless_empty k.epoch w.wrapped;
      left_out = users w.refused;
    }

abbrev wrap_held : Crypto → (room : ℕ) → KeyManager → Option ℕ → Wrapping
wrap_held c room k none = record { keys = k; request = none; left_out = [] }
wrap_held c room k (some secret) = wrap_secret c room secret k

unfoldable pub wrap_for_new_peers : Crypto → (room : ℕ) → KeyManager → Wrapping
wrap_for_new_peers c room k = wrap_held c room k k.my_secret

pub wrap_for_new_peers_held :
    (c : Crypto) (room secret : ℕ) (k : KeyManager)
    → k.my_secret ≡ some secret
    → wrap_for_new_peers c room k ≡ wrap_secret c room secret k
unfolding wrap_for_new_peers
wrap_for_new_peers_held c room secret k e = ap (wrap_held c room k) e

-- The room, once the sender is known there and the epoch is no newer than ours.
abbrev pub expected_in : Option ℕ → Bool → Option ℕ
expected_in none known = none
expected_in (some room) known = if known then some room else none

abbrev is_held_early : Option (ℕ × List ℕ) → Bool
is_held_early none = false
is_held_early (some e) = true

unfoldable pub hold_early : (source epoch : ℕ) → List ℕ → (arrived : ℕ) → KeyManager → KeyManager
hold_early source epoch wrapped arrived k =
    if ltb (length k.early) max_early || is_held_early (find (source, epoch) k.early)
    then record k { early = put (source, epoch) (arrived, wrapped) k.early }
    else k

-- When a secret that comes now is to be dropped, unless the grace of its epoch is over.
unfoldable pub retirement : (epoch now : ℕ) → KeyManager → Result KeyError (Option ℕ)
retirement epoch now k =
    if ltb epoch k.epoch
    then if leb (k.epoch_since + old_key_grace) now
      then err stale
      else ok (some (k.epoch_since + old_key_grace))
    else ok none

abbrev or_retired :
    Crypto → Option ℕ → Option (ℕ × ℕ) → (peer : ℕ) → WrapContext → List ℕ → Option ℕ
or_retired c (some secret) retired peer info wrapped = some secret
or_retired c none none peer info wrapped = none
or_retired c none (some (encryption, until)) peer info wrapped =
    c.unwrap encryption peer info wrapped

unfoldable pub opened : Crypto → (room source epoch : ℕ) → List ℕ → KeyPeer → KeyManager → Option ℕ
opened c room source epoch wrapped peer k =
    or_retired c
      (c.unwrap k.encryption peer.encryption_key (context k room epoch source k.me) wrapped)
      k.retired_encryption peer.encryption_key (context k room epoch source k.me) wrapped

-- Cached keys of an earlier secret of the same sender and epoch go.
unfoldable pub uncached : (source epoch : ℕ) → Table Pair (ℕ × ℕ) → Table Pair (ℕ × ℕ)
uncached source epoch [] = []
uncached source epoch ((key, entry) ∷ rest) =
    let kept = uncached source epoch rest in
    if (entry.0 == source) && (key.1 == epoch) then kept else (key, entry) ∷ kept

unfoldable pub store_secret :
    (source epoch secret : ℕ) → Option ℕ → (now : ℕ) → KeyManager → KeyManager
store_secret source epoch secret retire_at now k =
    let retired = retire_received (λ key. (key.0 == source) && ltb key.1 epoch) now k.received in
    record k {
      received = put (source, epoch) (record { secret = secret; retire_at = retire_at }) retired;
      recv_keys = uncached source epoch k.recv_keys;
      generation = k.generation + 1;
    }

unfoldable pub accept_key :
    Crypto → (room source epoch : ℕ) → List ℕ → (now : ℕ) → KeyManager → Result KeyError KeyManager
accept_key c room source epoch wrapped now k = retirement epoch now k >>= λ retire_at.
    ok_or (get source k.peers) stale >>= λ peer.
    ok_or (opened c room source epoch wrapped peer k) bad_unwrap >>= λ secret.
    ok (store_secret source epoch secret retire_at now k)

abbrev pub or_kept :
    KeyManager → Result KeyError KeyManager → KeyManager × Result KeyError (Unit {0})
or_kept k (err e) = (k, err e)
or_kept k (ok k') = (k', ok tt)

unfoldable pub sender_key_at :
    Crypto
    → (source epoch : ℕ) → List ℕ
    → (arrived now : ℕ) → KeyManager
    → KeyManager × Result KeyError (Unit {0})
sender_key_at c source epoch wrapped arrived now k =
    if below_floor epoch k
    then (k, err stale)
    else elim (expected_in k.room (contains_key source k.peers && leb epoch k.epoch)) [
      | none ↦ (hold_early source epoch wrapped arrived k, ok tt)
      | some room ↦ or_kept k (accept_key c room source epoch wrapped now k)
    ]

unfoldable pub sender_key :
    Crypto
    → (source epoch : ℕ) → List ℕ
    → (now : ℕ) → KeyManager
    → KeyManager × Result KeyError (Unit {0})
sender_key c source epoch wrapped now k =
    if length wrapped == wrapped_bytes
    then sender_key_at c source epoch wrapped now now k
    else (k, err wrong_length)
