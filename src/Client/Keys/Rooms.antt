-- ===== src/Client/Keys/Rooms.antt =====
-- Presences, room states and placements: `set_presence`, `reapply_peers`, `trusted_room_peers`,
-- `peers_changed` and `apply_placement` of crates/throcc-client-core/src/keys.rs.
pub mod Shares
pub mod Keep
use throcc.Prelude.{
  ℕ, ◌+◌, ◌-◌, Bool, true, false, not, ◌&&◌, ◌||◌, List, [], ◌∷◌, ◌++◌, Option, none, some, ltb,
  ◌==◌, length, if◌then◌else◌, map,
}
use throcc.Prelude.Map.{Map, get, contains_key, insert, remove}
use throcc.Prelude.Table.{Table, find}
use throcc.Server.Hub.State.{max_room_members, max_signed_in, Tracks, Peer}
use throcc.Client.Keys.{
  is_in, same_bool, Crypto, KeyManager, KeyPeer, KeyNotice, bad_encryption_key, clashing_tracks,
  too_many_peers, old_epoch, Stash, Pair, pair_eq, track_ids, retire_received, below_floor,
  old_key_grace,
}
use throcc.Client.Keys.Sets.{peer_set, same_pairs}
use throcc.Client.Keys.Trust.{Trusting, same_peers, clashing, trusted_peers}
use throcc.Client.Keys.Secrets.{
  PublishSenderKey, Wrapping, start_epoch, wrap_for_new_peers, sender_key_at,
}

abbrev pub same_room : Option ℕ → Option ℕ → Bool
same_room none none = true
same_room (some a) (some b) = a == b
same_room _ _ = false

abbrev pub is_placed : Option ℕ → Bool
is_placed none = false
is_placed (some room) = true

abbrev shows_other : (user : ℕ) → (before room : Option ℕ) → KeyManager → Bool
shows_other user before room k =
    not (user == k.me)
    && is_placed k.room
    && not (same_bool (same_room before k.room) (same_room room k.room))

-- Whether the room state should be applied again comes with the new state.
unfoldable pub set_presence : (user : ℕ) → Option ℕ → KeyManager → KeyManager × Bool
set_presence user none k =
    (record k { present = remove user k.present }, shows_other user (get user k.present) none k)
set_presence user (some room) k =
    if not (ltb (length k.present) max_signed_in) && not (contains_key user k.present)
    then (k, false)
    else (
      record k { present = insert user room k.present },
      shows_other user (get user k.present) (some room) k,
    )

abbrev listed_in : Map KeyPeer → List Peer → List Peer
listed_in trusted [] = []
listed_in trusted (p ∷ peers) =
    let rest = listed_in trusted peers in if contains_key p.user trusted then p ∷ rest else rest

pub trusted_room_peers : KeyManager → List Peer
trusted_room_peers k = listed_in k.peers k.room_peers

-- The new state, the request to send and what to tell the user.
pub record Change : Type 0 where
  pub keys : KeyManager
  pub request : Option PublishSenderKey
  pub notices : List KeyNotice

abbrev replaces : Option Stash → (room epoch : ℕ) → Bool
replaces none room epoch = true
replaces (some s) room epoch = not (s.room == room) || ltb s.epoch epoch

unfoldable pub stash : (room epoch : ℕ) → List Peer → KeyManager → KeyManager
stash room epoch peers k =
    if replaces k.stashed room epoch
    then record k { stashed = some (record { room = room; epoch = epoch; peers = peers }) }
    else k

-- What is wrong with a room state.
unfoldable pub invalid : List Peer → KeyManager → Option KeyNotice
invalid peers k =
    if ltb max_room_members (length peers)
    then some too_many_peers
    else if clashing peers k
    then some clashing_tracks
    else none

-- An invalid room state trusts nobody, and a repeated one is not told again.
abbrev pub trusted_or_none :
    Crypto → (room unix_now : ℕ) → List Peer → KeyManager → Option KeyNotice → Trusting
trusted_or_none c room unix_now peers k none = trusted_peers c room unix_now peers k
trusted_or_none c room unix_now peers k (some notice) = record {
  keys = k;
  trusted = [];
  notices = if same_peers k.room_peers peers then [] else notice ∷ [];
}

abbrev has_identity : ℕ → Option KeyPeer → Bool
has_identity identity_key none = false
has_identity identity_key (some peer) = peer.identity_key == identity_key

unfoldable pub departed : Map KeyPeer → Map KeyPeer → List ℕ
departed trusted [] = []
departed trusted ((user, old) ∷ peers) =
    let rest = departed trusted peers in
    if has_identity old.identity_key (get user trusted) then rest else user ∷ rest

abbrev owned_by : ℕ → List ℕ → Map ℕ → Map ℕ
owned_by user [] owners = owners
owned_by user (id ∷ ids) owners = owned_by user ids (insert id user owners)

unfoldable pub owners_of : Map KeyPeer → Map ℕ → Map ℕ
owners_of [] owners = owners
owners_of ((user, peer) ∷ peers) owners =
    owners_of peers (owned_by user (track_ids peer.tracks) owners)

-- The peers of the room state are those trusted; the secrets of the departed are retired.
unfoldable pub admit : (now : ℕ) → List Peer → Trusting → KeyManager
admit now peers t =
    let gone = departed t.trusted t.keys.peers in
    record t.keys {
      room_peers = peers;
      received = retire_received (λ key. is_in key.0 gone) now t.keys.received;
      peers = t.trusted;
      owners = owners_of t.trusted [];
    }

abbrev pub has_secret : Option ℕ → Bool
has_secret none = false
has_secret (some secret) = true

unfoldable pub rekey : Crypto → (epoch now secret : ℕ) → KeyManager → KeyManager
rekey c epoch now secret k =
    if not (epoch == k.epoch)
      || not (has_secret k.my_secret)
      || not (same_pairs (peer_set k.peers) k.wrapped_to)
    then start_epoch c epoch now secret k
    else k

-- The keys that came early are taken again, unless they are too old; the source takes them in any
-- order, here it is that in which they came.
unfoldable pub take_early : Crypto → (now : ℕ) → Table Pair (ℕ × List ℕ) → KeyManager → KeyManager
take_early c now [] k = k
take_early c now ((key, (arrived, wrapped)) ∷ early) k = take_early c now early (
    if ltb (now - arrived) old_key_grace
    then (sender_key_at c key.0 key.1 wrapped arrived now k).0
    else k)

abbrev bad_keys : List ℕ → List KeyNotice
bad_keys users = map bad_encryption_key users

abbrev pub finish : Crypto → (now : ℕ) → List KeyNotice → Wrapping → Change
finish c now notices w =
    let taken = take_early c now w.keys.early (record w.keys { early = [] }) in
    record {
      keys = record taken { generation = taken.generation + 1 };
      request = w.request;
      notices = notices ++ bad_keys w.left_out;
    }

unfoldable pub apply_peers :
    Crypto → (room epoch : ℕ) → List Peer → (now unix_now secret : ℕ) → KeyManager → Change
apply_peers c room epoch peers now unix_now secret k =
    let t = trusted_or_none c room unix_now peers k (invalid peers k) in
    finish c now t.notices
      (wrap_for_new_peers c room (rekey c epoch now secret (admit now peers t)))

abbrev unchanged : KeyManager → Change
unchanged k = record { keys = k; request = none; notices = [] }

-- `secret` is the random secret of a new epoch, and `unix_now` the time of the system's clock.
unfoldable pub peers_changed :
    Crypto → (room epoch : ℕ) → List Peer → (now unix_now secret : ℕ) → KeyManager → Change
peers_changed c room epoch peers now unix_now secret k =
    if not (same_room (some room) k.room)
    then unchanged (stash room epoch peers k)
    else if ltb epoch k.epoch
    then unchanged k
    else apply_peers c room epoch peers now unix_now secret k

pub reapply_peers : Crypto → (now unix_now secret : ℕ) → KeyManager → Change
reapply_peers c now unix_now secret k = elim k.room [
  | none ↦ unchanged k
  | some room ↦ peers_changed c room k.epoch k.room_peers now unix_now secret k
]

abbrev pub floor_in : Option ℕ → KeyManager → Option ℕ
floor_in none k = none
floor_in (some room) k = find (k.me, room) k.floors

-- The part of `apply_placement` that leaves the room before.
unfoldable pub leave_for : Option ℕ → KeyManager → KeyManager
leave_for room k = if same_room room k.room then k else record k {
  received = [];
  recv_keys = [];
  peers = [];
  owners = [];
  room_peers = [];
  unwrappable = [];
  epoch = 0;
  floor = floor_in room k;
}

unfoldable pub take_place : Option ℕ → Option Tracks → KeyManager → KeyManager
take_place room tracks k = record k {
  room = room;
  my_tracks = tracks;
  my_secret = none;
  send_keys = [];
  wrapped_to = [];
}

abbrev opt_list : {A : Type 0} → Option A → List A
opt_list none = []
opt_list (some a) = a ∷ []

-- The new state, the requests to send and what to tell the user.
pub record Placement : Type 0 where
  pub keys : KeyManager
  pub requests : List PublishSenderKey
  pub notices : List KeyNotice

abbrev then_change : Change → Change → Placement
then_change first later = record {
  keys = later.keys;
  requests = opt_list first.request ++ opt_list later.request;
  notices = first.notices ++ later.notices;
}

-- The stashed room state is applied too where it is of this room and newer.
unfoldable pub with_stashed :
    Crypto → (room epoch now unix_now secret : ℕ) → Option Stash → KeyManager → Change
with_stashed c room epoch now unix_now secret none k = unchanged k
with_stashed c room epoch now unix_now secret (some s) k =
    if (s.room == room) && ltb epoch s.epoch
    then peers_changed c room s.epoch s.peers now unix_now secret k
    else unchanged k

unfoldable pub settle :
    Crypto
    → (room epoch : ℕ) → List Peer
    → (now unix_now : ℕ) → (secrets : ℕ × ℕ) → KeyManager
    → Placement
settle c room epoch peers now unix_now secrets k =
    let first = peers_changed c room epoch peers now unix_now secrets.0 k in
    then_change first (
      with_stashed c room epoch now unix_now secrets.1 first.keys.stashed
        (record first.keys { stashed = none }))

abbrev pub old_notices : Option ℕ → ℕ → KeyManager → List KeyNotice
old_notices room epoch k = if is_placed room && below_floor epoch k then old_epoch ∷ [] else []

abbrev pub tell : List KeyNotice → Placement → Placement
tell notices p = record p { notices = notices ++ p.notices }

abbrev pub settle_in :
    Crypto
    → Option ℕ
    → (epoch : ℕ) → List Peer
    → (now unix_now : ℕ) → (secrets : ℕ × ℕ) → KeyManager
    → Placement
settle_in c none epoch peers now unix_now secrets k = record {
  keys = record k { stashed = none };
  requests = [];
  notices = [];
}
settle_in c (some room) epoch peers now unix_now secrets k =
    settle c room epoch peers now unix_now secrets k

-- `secrets` are the random secrets of the epoch of the placement and of the one stashed.
unfoldable pub apply_placement :
    Crypto
    → (room : Option ℕ) → (epoch : ℕ) → Option Tracks
    → List Peer
    → (now unix_now : ℕ) → (secrets : ℕ × ℕ) → KeyManager
    → Placement
apply_placement c room epoch tracks peers now unix_now secrets k =
    if is_placed room && same_room room k.room && ltb epoch k.epoch
    then record { keys = k; requests = []; notices = [] }
    else let left = leave_for room k in
      tell (old_notices room epoch left)
        (settle_in c room epoch peers now unix_now secrets (take_place room tracks left))
