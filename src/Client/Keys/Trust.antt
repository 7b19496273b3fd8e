-- ===== src/Client/Keys/Trust.antt =====
-- Whom we trust in a room: `clashing_tracks`, `trusted_peers` and `signed_by_identity` of
-- crates/throcc-client-core/src/keys.rs, and the equality of two lists of `Peer`s that it derives.
pub mod Order
pub mod Keep
use throcc.Prelude.{
  ℕ, Bool, true, false, not, ◌&&◌, ◌||◌, List, [], ◌∷◌, ◌++◌, Option, none, some, leb, ◌==◌,
  if◌then◌else◌,
}
use throcc.Prelude.Map.{Map, get, insert}
use throcc.Server.Hub.State.{ShareTracks, ShareConfig, EncryptionKey, Peer}
use throcc.Client.Keys.{
  is_in, same_bool, ids_of, Crypto, KeyManager, KeyPeer, SeenKey, KeyNotice, bad_encryption_key,
  track_ids,
}

abbrev same_shares : List ShareTracks → List ShareTracks → Bool
same_shares [] [] = true
same_shares (s ∷ ss) (t ∷ ts) = (s.video == t.video) && (s.audio == t.audio) && same_shares ss ts
same_shares _ _ = false

abbrev same_config : Option ShareConfig → Option ShareConfig → Bool
same_config none none = true
same_config (some a) (some b) =
    same_bool a.audio b.audio
    && (a.kbps == b.kbps)
    && (a.codec == b.codec)
    && (a.width == b.width)
    && (a.height == b.height)
    && (a.fps == b.fps)
same_config _ _ = false

abbrev same_key : EncryptionKey → EncryptionKey → Bool
same_key a b = (a.key == b.key) && (a.not_after == b.not_after) && (a.sig == b.sig)

abbrev same_peer : Peer → Peer → Bool
same_peer p q =
    (p.user == q.user)
    && (p.tracks.mic == q.tracks.mic)
    && same_shares p.tracks.shares q.tracks.shares
    && same_config p.share q.share
    && (p.identity_key == q.identity_key)
    && same_key p.encryption_key q.encryption_key

unfoldable pub same_peers : List Peer → List Peer → Bool
same_peers [] [] = true
same_peers (p ∷ ps) (q ∷ qs) = same_peer p q && same_peers ps qs
same_peers _ _ = false

-- Whether a value comes twice.
abbrev repeats : List ℕ → Bool
repeats [] = false
repeats (x ∷ xs) = is_in x xs || repeats xs

abbrev users_but : ℕ → List Peer → List ℕ
users_but me [] = []
users_but me (p ∷ peers) =
    let rest = users_but me peers in if p.user == me then rest else p.user ∷ rest

abbrev ids_but : ℕ → List Peer → List ℕ
ids_but me [] = []
ids_but me (p ∷ peers) =
    let rest = ids_but me peers in if p.user == me then rest else track_ids p.tracks ++ rest

-- Whether a user or a media id comes twice, our own tracks counted.
unfoldable pub clashing : List Peer → KeyManager → Bool
clashing peers k =
    repeats (users_but k.me peers) || repeats (ids_of k.my_tracks ++ ids_but k.me peers)

abbrev seen_before : Option SeenKey → Peer → Option Bool
seen_before none p = none
seen_before (some seen) p =
    if (seen.identity_key == p.identity_key) && same_key seen.encryption_key p.encryption_key
    then some seen.holds
    else none

abbrev checked : Crypto → Peer → KeyManager → Bool
checked c p k =
    c.verify p.identity_key k.server p.user p.encryption_key.not_after p.encryption_key.key
      p.encryption_key.sig

unfoldable pub signed_by_identity : Crypto → Peer → KeyManager → KeyManager × Bool
signed_by_identity c p k = elim (seen_before (get p.user k.checked_signatures) p) [
  | some holds ↦ (k, holds)
  | none ↦ (
    record k {
      checked_signatures =
          insert p.user
            (record {
              identity_key = p.identity_key;
              encryption_key = p.encryption_key;
              holds = checked c p k;
            })
            k.checked_signatures;
    },
    checked c p k,
  )
]

abbrev is_listed : ℕ → List Peer → Bool
is_listed user [] = false
is_listed user (p ∷ peers) = (p.user == user) || is_listed user peers

unfoldable pub keep_listed : {V : Type 0} → List Peer → Map V → Map V
keep_listed peers [] = []
keep_listed peers ((user, v) ∷ m) =
    let rest = keep_listed peers m in if is_listed user peers then (user, v) ∷ rest else rest

-- The state, and the trusted peers and the notices so far.
pub record Trusting : Type 0 where
  pub keys : KeyManager
  pub trusted : Map KeyPeer
  pub notices : List KeyNotice

abbrev is_value : ℕ → Option ℕ → Bool
is_value x none = false
is_value x (some y) = x == y

abbrev is_shown : ℕ → Peer → KeyManager → Bool
is_shown room p k = not (p.user == k.me) && is_value room (get p.user k.present)

unfoldable pub key_peer : Peer → KeyPeer
key_peer p = record {
  identity_key = p.identity_key;
  encryption_key = p.encryption_key.key;
  tracks = p.tracks;
}

abbrev reject : ℕ → Trusting → Trusting
reject user t = record t { notices = t.notices ++ (bad_encryption_key user ∷ []) }

-- A peer whose key is signed is trusted, unless wrapping to that key was refused.
abbrev unless_refused : Peer → Trusting → Trusting
unless_refused p t =
    if is_value p.encryption_key.key (get p.user t.keys.unwrappable)
    then t
    else record t { trusted = insert p.user (key_peer p) t.trusted }

abbrev judge : Peer → KeyManager × Bool → Trusting → Trusting
judge p (k, true) t = unless_refused p (record t { keys = k })
judge p (k, false) t = reject p.user (record t { keys = k })

unfoldable pub trust : Crypto → (unix_now : ℕ) → Peer → Trusting → Trusting
trust c unix_now p t =
    if leb p.encryption_key.not_after unix_now
    then reject p.user t
    else judge p (signed_by_identity c p t.keys) t

unfoldable pub trust_all : Crypto → (room unix_now : ℕ) → List Peer → Trusting → Trusting
trust_all c room unix_now [] t = t
trust_all c room unix_now (p ∷ peers) t =
    trust_all c room unix_now peers (if is_shown room p t.keys then trust c unix_now p t else t)

unfoldable pub trusted_peers : Crypto → (room unix_now : ℕ) → List Peer → KeyManager → Trusting
trusted_peers c room unix_now peers k = trust_all c room unix_now peers (record {
  keys = record k {
    checked_signatures = keep_listed peers k.checked_signatures;
    unwrappable = keep_listed peers k.unwrappable;
  };
  trusted = [];
  notices = [];
})
