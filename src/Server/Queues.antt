-- ===== src/Server/Queues.antt =====
-- `Queues` of crates/throcc-server/src/egress.rs: what waits for one receiver, audio first and video in
-- whole units. A packet is the list of its bytes.
pub mod Units
pub mod Budget
pub mod Sending
pub mod Valid
pub mod Dropped
pub mod Victims
pub mod Within
pub mod Kept
pub mod Popped
pub mod Reached
mod Tests
use throcc.Prelude.{
  ℕ, ◌+◌, ◌-◌, ◌*◌, ◌^◌, Bool, false, List, [], ◌∷◌, Option, none, some, leb, length, drop,
  if◌then◌else◌,
}
use throcc.Prelude.Map.{Map, get, contains_key, insert, Set}
use throcc.Prelude.Table.{Table, Pair, pair_eq}
use throcc.Proto.Frame
use throcc.Proto.Frame.{Header}
use throcc.Server.Hub.State.{max_room_shares}
use throcc.Server.AudioQueues
use throcc.Server.AudioQueues.{AudioQueues, no_audio}

abbrev pub video_budget : ℕ
video_budget = 150 * 10 ^ 6

-- The bytes that one share may send in that time.
abbrev pub max_queued_video_bytes : ℕ
max_queued_video_bytes = max_room_shares * 468750

abbrev pub max_unit_fragments : ℕ
max_unit_fragments = 4096

abbrev pub unit_idle : ℕ
unit_idle = 10 ^ 9

abbrev pub idle_check : ℕ
idle_check = 10 ^ 8

abbrev pub history_kept : ℕ
history_kept = 32

pub data TrackKind : Type 0 where
  audio video : TrackKind

pub record Packet : Type 0 where
  pub kind : TrackKind
  pub header : Header
  pub bytes : List ℕ

pub record Lost : Type 0 where
  pub kind : TrackKind
  pub media_id : ℕ
  pub seq : ℕ
  pub is_first : Bool

pub data Fate : Type 0 where
  queued : ℕ → Fate
  delivered dropped : Fate

pub record VideoUnit : Type 0 where
  pub id : ℕ
  pub media_id : ℕ
  pub packets : List (List ℕ)
  pub received : ℕ
  pub arrived : ℕ
  pub last_fragment : ℕ
  pub started : Bool
  pub complete : Bool
  pub stray : Bool
  pub first_seq : ℕ
  pub copy : Bool

unfoldable pub new_unit : (id media_id first_seq : ℕ) → List ℕ → (now : ℕ) → VideoUnit
new_unit id media_id first_seq bytes now = record {
  id = id;
  media_id = media_id;
  packets = bytes ∷ [];
  received = 1;
  arrived = now;
  last_fragment = now;
  started = false;
  complete = false;
  stray = false;
  first_seq = first_seq;
  copy = false;
}

pub record Counters : Type 0 where
  pub forwarded : ℕ
  pub dropped_units : ℕ

pub record Queues : Type 0 where
  pub audio : AudioQueues
  pub started : Map VideoUnit
  pub waiting : Map VideoUnit
  pub sending : Set
  pub strays : List ℕ
  pub copies : Table Pair Set
  pub next_idle_check : Option ℕ
  pub history : Map (Map Fate)
  pub active_tracks : Set
  pub next_id : ℕ
  pub stats : Map Counters
  pub video_bytes : ℕ

unfoldable pub new : Queues
new = record {
  audio = no_audio;
  started = [];
  waiting = [];
  sending = [];
  strays = [];
  copies = [];
  next_idle_check = none;
  history = [];
  active_tracks = [];
  next_id = 0;
  stats = [];
  video_bytes = 0;
}

-- The bytes of packets.
abbrev pub size : List (List ℕ) → ℕ
size [] = 0
size (bytes ∷ packets) = length bytes + size packets

abbrev pub counters : Option Counters → Counters
counters none = record { forwarded = 0; dropped_units = 0 }
counters (some c) = c

unfoldable pub count_drop : ℕ → Queues → Queues
count_drop media_id q =
    let c = counters (get media_id q.stats) in
    record q { stats = insert media_id (record c { dropped_units = c.dropped_units + 1 }) q.stats }

-- A unit that was counted as dropped has come after all.
unfoldable pub uncount_drop : ℕ → Queues → Queues
uncount_drop media_id q =
    let c = counters (get media_id q.stats) in
    record q { stats = insert media_id (record c { dropped_units = c.dropped_units - 1 }) q.stats }

unfoldable pub count_forwarded : ℕ → Queues → Queues
count_forwarded media_id q =
    let c = counters (get media_id q.stats) in
    record q { stats = insert media_id (record c { forwarded = c.forwarded + 1 }) q.stats }

-- `unit_mut`: the unit that is read.
abbrev pub or_else : {A : Type 0} → Option A → Option A → Option A
or_else none b = b
or_else (some a) b = some a

unfoldable pub unit_at : ℕ → Queues → Option VideoUnit
unit_at id q = or_else (get id q.started) (get id q.waiting)

-- `unit_mut`: the unit that is written back.
unfoldable pub set_unit : ℕ → VideoUnit → Queues → Queues
set_unit id unit q =
    if contains_key id q.started
    then record q { started = insert id unit q.started }
    else record q { waiting = insert id unit q.waiting }

abbrev pub or_empty : {V : Type 0} → Option (Map V) → Map V
or_empty none = []
or_empty (some m) = m

unfoldable pub remember : (first_seq : ℕ) → Fate → Map Fate → Map Fate
remember first_seq fate history =
    let longer = insert first_seq fate history in drop (length longer - history_kept) longer

-- `range(..=seq).next_back()`.
unfoldable pub last_upto : ℕ → Map Fate → Option (ℕ × Fate)
last_upto seq [] = none
last_upto seq ((s, fate) ∷ m) =
    let later = last_upto seq m in if leb s seq then or_else later (some (s, fate)) else none
