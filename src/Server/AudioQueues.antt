-- ===== src/Server/AudioQueues.antt =====
-- `AudioQueues` of crates/throcc-server/src/egress.rs: one receiver's audio, a queue per track, served
-- in turn. The tracks are in the order of their ids; among queues of one length the source may take
-- any for the longest, here it is the last.
mod Totals
mod Balance
mod Reached
mod Drops
mod Tests
use throcc.Prelude.{
  ℕ, ◌+◌, ◌-◌, ◌*◌, Bool, true, false, not, List, [], ◌∷◌, ◌++◌, Option, none, some, ltb, leb, ◌==◌,
  length, filter, if◌then◌else◌,
}
use throcc.Prelude.Map.{Map, get, insert, remove}
use throcc.Server.Hub.State.{max_room_members, max_room_shares}

abbrev pub max_queued_audio : ℕ
max_queued_audio = 2 * 50 * (max_room_members - 1 + max_room_shares)

abbrev pub Packets : Type 0
Packets = List (List ℕ)

pub record AudioQueues : Type 0 where
  pub tracks : Map Packets
  pub turns : List ℕ
  pub len : ℕ

abbrev pub no_audio : AudioQueues
no_audio = record { tracks = []; turns = []; len = 0 }

abbrev pub or_default : Option Packets → Packets
or_default none = []
or_default (some queue) = queue

abbrev pub is_empty : Packets → Bool
is_empty [] = true
is_empty (packet ∷ queue) = false

-- `max_by_key` of the lengths.
pub longest : Map Packets → Option (ℕ × Packets)
longest [] = none
longest ((id, queue) ∷ m) = elim (longest m) [
  | none ↦ some (id, queue)
  | some best ↦ if ltb (length best.1) (length queue) then some (id, queue) else some best
]

abbrev pub tail : Packets → Packets
tail [] = []
tail (packet ∷ queue) = queue

abbrev pub without : ℕ → List ℕ → List ℕ
without id turns = filter (λ other. not (other == id)) turns

-- The longest queue, which is the one of `id`, loses its oldest packet.
pub evict_from : ℕ → Packets → AudioQueues → AudioQueues
evict_from id queue q =
    if is_empty (tail queue)
    then record { tracks = remove id q.tracks; turns = without id q.turns; len = q.len - 1 }
    else record { tracks = insert id (tail queue) q.tracks; turns = q.turns; len = q.len - 1 }

pub evict_from_longest : AudioQueues → AudioQueues × Option ℕ
evict_from_longest q = elim (longest q.tracks) [
  | none ↦ (q, none)
  | some found ↦ (evict_from found.0 found.1 q, some found.0)
]

pub make_room : AudioQueues → AudioQueues × Option ℕ
make_room q = if leb max_queued_audio q.len then evict_from_longest q else (q, none)

pub enqueue : ℕ → List ℕ → AudioQueues → AudioQueues
enqueue id bytes q =
    let queue = or_default (get id q.tracks) in
    record {
      tracks = insert id (queue ++ bytes ∷ []) q.tracks;
      turns = if is_empty queue then q.turns ++ id ∷ [] else q.turns;
      len = q.len + 1;
    }

pub push : ℕ → List ℕ → AudioQueues → AudioQueues × Option ℕ
push id bytes q = (enqueue id bytes (make_room q).0, (make_room q).1)

-- The front packet of a track whose turn it is.
pub serve : ℕ → List ℕ → Packets → AudioQueues → AudioQueues × Option (ℕ × List ℕ)
serve id turns [] q = (record q { turns = turns }, none)
serve id turns (bytes ∷ queue) q = (
  if is_empty queue
      then record { tracks = remove id q.tracks; turns = turns; len = q.len - 1 }
      else record { tracks = insert id queue q.tracks; turns = turns ++ id ∷ []; len = q.len - 1 },
  some (id, bytes),
)

pub pop_from : List ℕ → AudioQueues → AudioQueues × Option (ℕ × List ℕ)
pop_from [] q = (q, none)
pop_from (id ∷ turns) q = serve id turns (or_default (get id q.tracks)) q

pub pop : AudioQueues → AudioQueues × Option (ℕ × List ℕ)
pop q = pop_from q.turns q
