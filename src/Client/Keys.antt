-- ===== src/Client/Keys.antt =====
-- `KeyManager` of crates/throcc-client-core/src/keys.rs: the sender secrets of one room by epoch, ours
-- and those of the peers. This file has its state and the small operations. Keys, secrets and
-- signatures are numbers, random secrets are arguments, and a HashMap is in the order of its keys or
-- in the order in which they were put in. What the crates hpke, hkdf and ed25519-dalek compute is a parameter, `Crypto`.
pub mod Sets
pub mod Trust
pub mod Secrets
pub mod Rooms
pub mod Steps
mod Tests
use throcc.Prelude.{
  ℕ, ◌+◌, ◌-◌, ◌*◌, ◌^◌, min, Bool, true, false, not, ◌||◌, List, [], ◌∷◌, Option, none, some, ltb,
  leb, ◌==◌, if◌then◌else◌,
}
use throcc.Prelude.Map.{Map, get}
use throcc.Prelude.Table.{Table, find, put, retain}
pub use throcc.Prelude.Table.{Pair, same_pair, same_pair_iff, pair_eq}
use throcc.Server.Hub.State.{max_room_members, ShareTracks, Tracks, Peer, EncryptionKey}

abbrev pub old_key_grace : ℕ
old_key_grace = 2 * 10 ^ 9

abbrev pub retired_encryption_kept : ℕ
retired_encryption_kept = old_key_grace * 5

abbrev pub max_early : ℕ
max_early = 2 * max_room_members

abbrev pub wrapped_bytes : ℕ
wrapped_bytes = 32 + 32 + 16

pub data KeyNotice : Type 0 where
  bad_encryption_key : ℕ → KeyNotice
  clashing_tracks too_many_peers old_epoch : KeyNotice

pub data KeyError : Type 0 where
  stale wrong_length bad_unwrap : KeyError

-- What a wrapped secret is bound to.
pub record WrapContext : Type 0 where
  pub server : ℕ
  pub room : ℕ
  pub epoch : ℕ
  pub source : ℕ
  pub target : ℕ

-- Whether a signature by an identity key vouches for an encryption key, on one server, of one
-- user, until a time; wrapping by a key pair to a public key, and its inverse; and the key of a
-- track from a sender's secret.
pub record Crypto : Type 0 where
  pub verify : (identity_key server user not_after key sig : ℕ) → Bool
  pub wrap : (encryption recipient : ℕ) → WrapContext → (secret : ℕ) → Option (List ℕ)
  pub unwrap : (encryption peer : ℕ) → WrapContext → List ℕ → Option ℕ
  pub derive : (secret media_id : ℕ) → ℕ

pub record KeyPeer : Type 0 where
  pub identity_key : ℕ
  pub encryption_key : ℕ
  pub tracks : Tracks

pub record Received : Type 0 where
  pub secret : ℕ
  pub retire_at : Option ℕ

pub record SeenKey : Type 0 where
  pub identity_key : ℕ
  pub encryption_key : EncryptionKey
  pub holds : Bool

pub record Stash : Type 0 where
  pub room : ℕ
  pub epoch : ℕ
  pub peers : List Peer

-- `floors` is `at` of the `EpochFloors` that the managers share.
pub record KeyManager : Type 0 where
  pub me : ℕ
  pub encryption : ℕ
  pub retired_encryption : Option (ℕ × ℕ)
  pub server : ℕ
  pub present : Map ℕ
  pub room_peers : List Peer
  pub room : Option ℕ
  pub epoch : ℕ
  pub epoch_since : ℕ
  pub floors : Table Pair ℕ
  pub floor : Option ℕ
  pub my_tracks : Option Tracks
  pub peers : Map KeyPeer
  pub owners : Map ℕ
  pub my_secret : Option ℕ
  pub wrapped_to : List Pair
  pub unwrappable : Map ℕ
  pub checked_signatures : Map SeenKey
  pub send_keys : Map ℕ
  pub received : Table Pair Received
  pub recv_keys : Table Pair (ℕ × ℕ)
  pub early : Table Pair (ℕ × List ℕ)
  pub stashed : Option Stash
  pub generation : ℕ

pub new : (me encryption server : ℕ) → Table Pair ℕ → (now : ℕ) → KeyManager
new me encryption server floors now = record {
  me = me;
  encryption = encryption;
  retired_encryption = none;
  server = server;
  present = [];
  room_peers = [];
  room = none;
  epoch = 0;
  epoch_since = now;
  floors = floors;
  floor = none;
  my_tracks = none;
  peers = [];
  owners = [];
  my_secret = none;
  wrapped_to = [];
  unwrappable = [];
  checked_signatures = [];
  send_keys = [];
  received = [];
  recv_keys = [];
  early = [];
  stashed = none;
  generation = 0;
}

abbrev share_ids : List ShareTracks → List ℕ
share_ids [] = []
share_ids (s ∷ shares) = s.video ∷ s.audio ∷ share_ids shares

pub track_ids : Tracks → List ℕ
track_ids t = t.mic ∷ share_ids t.shares

abbrev pub ids_of : Option Tracks → List ℕ
ids_of none = []
ids_of (some tracks) = track_ids tracks

abbrev pub is_in : ℕ → List ℕ → Bool
is_in x [] = false
is_in x (y ∷ ys) = (x == y) || is_in x ys

abbrev pub same_bool : Bool → Bool → Bool
same_bool true b = b
same_bool false b = not b

abbrev at_most : Option ℕ → ℕ → Bool
at_most none epoch = false
at_most (some floor) epoch = leb epoch floor

abbrev saturating_succ : ℕ → ℕ
saturating_succ n = min (n + 1) (2 ^ 32 - 1)

-- The epoch's keys and media can only be a replay.
pub below_floor : ℕ → KeyManager → Bool
below_floor epoch k = at_most k.floor epoch || ltb (saturating_succ epoch) k.epoch

-- `EpochFloors::raise`, of floors.rs.
pub raise : ℕ → ℕ → ℕ → Table Pair ℕ → Table Pair ℕ
raise user room epoch floors = elim (find (user, room) floors) [
  | none ↦ put (user, room) epoch floors
  | some floor ↦ if ltb floor epoch then put (user, room) epoch floors else floors
]

abbrev start_grace : (Pair → Bool) → ℕ → Pair → Received → Received
start_grace picks now key r = elim r.retire_at [
  | none ↦ if picks key then record r { retire_at = some (now + old_key_grace) } else r
  | some t ↦ r
]

-- The grace period starts for the received secrets that are picked.
pub retire_received : (Pair → Bool) → ℕ → Table Pair Received → Table Pair Received
retire_received picks now [] = []
retire_received picks now ((key, r) ∷ rest) =
    (key, start_grace picks now key r) ∷ retire_received picks now rest

-- `replace_encryption`.
pub replace_encryption : ℕ → ℕ → KeyManager → KeyManager
replace_encryption encryption now k = record k {
  encryption = encryption;
  retired_encryption = some (k.encryption, now + retired_encryption_kept);
}

pub send_key : ℕ → KeyManager → Option (ℕ × ℕ)
send_key media_id k = elim (get media_id k.send_keys) [
  | none ↦ none
  | some key ↦ some (k.epoch, key)
]

-- The owner's secret of the epoch, without the cache.
abbrev pub cached_for : Option (ℕ × ℕ) → ℕ → Option ℕ
cached_for none owner = none
cached_for (some (for, key)) owner = if for == owner then some key else none

-- A key that was not cached is derived and kept.
pub derived : Crypto → (media_id epoch owner : ℕ) → KeyManager → KeyManager × Option ℕ
derived c media_id epoch owner k = elim (find (owner, epoch) k.received) [
  | none ↦ (k, none)
  | some r ↦ (
    record k { recv_keys = put (media_id, epoch) (owner, c.derive r.secret media_id) k.recv_keys },
    some (c.derive r.secret media_id),
  )
]

pub owned_key : Crypto → (media_id epoch owner : ℕ) → KeyManager → KeyManager × Option ℕ
owned_key c media_id epoch owner k = elim (cached_for (find (media_id, epoch) k.recv_keys) owner) [
  | none ↦ derived c media_id epoch owner k
  | some key ↦ (k, some key)
]

pub recv_key : Crypto → (media_id epoch : ℕ) → KeyManager → KeyManager × Option ℕ
recv_key c media_id epoch k =
    if below_floor epoch k then (k, none) else elim (get media_id k.owners) [
      | none ↦ (k, none)
      | some owner ↦ owned_key c media_id epoch owner k
    ]

abbrev is_kept : ℕ → Option ℕ → Bool
is_kept now none = true
is_kept now (some t) = ltb now t

abbrev tick_encryption : ℕ → Option (ℕ × ℕ) → Option (ℕ × ℕ)
tick_encryption now none = none
tick_encryption now (some (pair, until)) = if leb until now then none else some (pair, until)

abbrev is_held : Option Received → Bool
is_held none = false
is_held (some r) = true

-- The entries whose owner's secret of the epoch is still there.
pub keep_backed : Table Pair Received → Table Pair (ℕ × ℕ) → Table Pair (ℕ × ℕ)
keep_backed received [] = []
keep_backed received ((key, entry) ∷ rest) =
    let kept = keep_backed received rest in
    if is_held (find (entry.0, key.1) received) then (key, entry) ∷ kept else kept

pub tick : ℕ → KeyManager → KeyManager
tick now k =
    let received = retain (λ r. if is_kept now r.retire_at then some r else none) k.received in
    record k {
      retired_encryption = tick_encryption now k.retired_encryption;
      received = received;
      recv_keys = keep_backed received k.recv_keys;
      early = retain (λ e. if ltb (now - e.0) old_key_grace then some e else none) k.early;
    }
