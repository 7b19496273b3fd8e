-- ===== src/Client/Keys/Steps.antt =====
-- The histories of a `KeyManager` of crates/throcc-client-core/src/keys.rs: each of its public
-- operations is a step, and another manager of the same `EpochFloors` may raise one.
pub mod Guarded
pub mod Cache
pub mod Backed
pub mod Floors
pub mod Replay
use throcc.Prelude.{ℕ, List, Option}
use throcc.Prelude.Table.{Table}
use throcc.Server.Hub.State.{Tracks, Peer}
use throcc.Client.Keys.{Crypto, KeyManager, Pair, new, raise, replace_encryption, recv_key, tick}
use throcc.Client.Keys.Secrets.{sender_key}
use throcc.Client.Keys.Rooms.{set_presence, reapply_peers, peers_changed, apply_placement}

pub data Step (c : Crypto) : KeyManager → KeyManager → Type 0 where
  presence : (k : KeyManager) (user : ℕ) (room : Option ℕ) → Step c k (set_presence user room k).0
  renewed : (k : KeyManager) (encryption now : ℕ) → Step c k (replace_encryption encryption now k)
  reapplied :
      (k : KeyManager) (now unix_now secret : ℕ)
      → Step c k (reapply_peers c now unix_now secret k).keys
  changed :
      (k : KeyManager) (room epoch : ℕ) (peers : List Peer) (now unix_now secret : ℕ)
      → Step c k (peers_changed c room epoch peers now unix_now secret k).keys
  placed :
      (k : KeyManager) (room : Option ℕ) (epoch : ℕ) (tracks : Option Tracks) (peers : List Peer)
      (now unix_now : ℕ) (secrets : ℕ × ℕ)
      → Step c k (apply_placement c room epoch tracks peers now unix_now secrets k).keys
  sent :
      (k : KeyManager) (source epoch : ℕ) (wrapped : List ℕ) (now : ℕ)
      → Step c k (sender_key c source epoch wrapped now k).0
  asked : (k : KeyManager) (media_id epoch : ℕ) → Step c k (recv_key c media_id epoch k).0
  ticked : (k : KeyManager) (now : ℕ) → Step c k (tick now k)
  raised :
      (k : KeyManager) (user room epoch : ℕ)
      → Step c k (record k { floors = raise user room epoch k.floors })

pub data Steps (c : Crypto) : KeyManager → KeyManager → Type 0 where
  done : (k : KeyManager) → Steps c k k
  then_step : (k l m : KeyManager) → Steps c k l → Step c l m → Steps c k m

-- The states that a new manager comes to.
pub data Reach (c : Crypto) : KeyManager → Type 0 where
  reach :
      (me encryption server : ℕ) (floors : Table Pair ℕ) (now : ℕ) (k : KeyManager)
      → Steps c (new me encryption server floors now) k
      → Reach c k

module _ (c : Crypto) (P : KeyManager → Type 0) where
  pub Steps_keep :
      ((k l : KeyManager) → P k → Step c k l → P l) → (k l : KeyManager) → P k → Steps c k l → P l
  Steps_keep step k _ p (done _) = p
  Steps_keep step k _ p (then_step _ l m s t) = step l m (Steps_keep step k l p s) t

  pub Reach_keep :
      ((k l : KeyManager) → P k → Step c k l → P l)
      → ((me encryption server : ℕ) (floors : Table Pair ℕ) (now : ℕ)
          → P (new me encryption server floors now))
      → (k : KeyManager) → Reach c k
      → P k
  Reach_keep step start _ (reach me encryption server floors now k s) =
      Steps_keep step (new me encryption server floors now) k
        (start me encryption server floors now) s
