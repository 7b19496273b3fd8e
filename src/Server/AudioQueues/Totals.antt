-- ===== src/Server/AudioQueues/Totals.antt =====
-- Counting packets and turns, for `AudioQueues` of crates/throcc-server/src/egress.rs.
use throcc.Prelude.{
  ℕ, suc, ◌+◌, ◌≤◌, ◌≡◌, refl, ◌∙◌, inl, inr, List, [], ◌∷◌, ◌++◌, none, some, ◌==◌, length,
  if◌then◌else◌, arith, Option-cases,
}
use throcc.Prelude.Map.{Map, get, insert, remove, IsSorted, get_below}
use throcc.Server.AudioQueues.{Packets, or_default, longest, without}

-- How many packets are queued.
unfoldable pub total : Map Packets → ℕ
total [] = 0
total ((id, queue) ∷ m) = length queue + total m

pub total-insert :
    (lo k : ℕ) (v : Packets) (m : Map Packets)
    → IsSorted lo m
    → total (insert k v m) + length (or_default (get k m)) ≡ total m + length v
unfolding total insert get
total-insert lo k v [] s = omega arith
total-insert lo k v ((j, w) ∷ m) s =
    ground (arith, total-insert (suc j) k v m s.1, get_below k (suc j) m s.1)

pub total-remove :
    (lo k : ℕ) (m : Map Packets)
    → IsSorted lo m
    → total (remove k m) + length (or_default (get k m)) ≡ total m
unfolding total remove get
total-remove lo k [] s = omega arith
total-remove lo k ((j, w) ∷ m) s =
    ground (arith, total-remove (suc j) k m s.1, get_below k (suc j) m s.1)

-- How often a track stands in the turns.
unfoldable pub turns_of : ℕ → List ℕ → ℕ
turns_of id [] = 0
turns_of id (other ∷ turns) = let n = turns_of id turns in if id == other then suc n else n

turns_of-append :
    (id : ℕ) (xs ys : List ℕ) → turns_of id (xs ++ ys) ≡ turns_of id xs + turns_of id ys
unfolding turns_of
turns_of-append id [] ys = omega arith
turns_of-append id (x ∷ xs) ys = ground (arith, turns_of-append id xs ys)

pub turns_of-append_one :
    (id next : ℕ) (turns : List ℕ)
    → turns_of id (turns ++ next ∷ [])
      ≡ (if id == next then suc (turns_of id turns) else turns_of id turns)
unfolding turns_of
turns_of-append_one id next turns = turns_of-append id turns (next ∷ []) ∙ ground arith

pub turns_of-without :
    (id gone : ℕ) (turns : List ℕ)
    → turns_of id (without gone turns) ≡ (if id == gone then 0 else turns_of id turns)
unfolding turns_of
turns_of-without id gone [] = ground arith
turns_of-without id gone (x ∷ turns) = ground (arith, turns_of-without id gone turns)

pub get-longest :
    (lo id : ℕ) (queue : Packets) (m : Map Packets)
    → IsSorted lo m
    → longest m ≡ some (id, queue)
    → (lo ≤ id) × (get id m ≡ some queue)
unfolding longest get
get-longest lo id queue [] s e = absurd (ground (arith, e))
get-longest lo id queue ((j, w) ∷ m) s e = elim (Option-cases (longest m)) [
  | inl p ↦ ground (arith, e, p, s.0)
  | inr p ↦ ground (arith, e, p.1, s.0, get-longest (suc j) id queue m s.1)
]

longest-none : (k : ℕ) (m : Map Packets) → longest m ≡ none → get k m ≡ none
unfolding longest get
longest-none k [] e = refl
longest-none k ((j, w) ∷ m) e = elim (Option-cases (longest m)) [
  | inl p ↦ absurd (ground (arith, e, p))
  | inr p ↦ absurd (ground (arith, e, p.1))
]

-- No queue is longer than the one that is found.
pub longest-bound :
    (k id : ℕ) (queue : Packets) (m : Map Packets)
    → longest m ≡ some (id, queue)
    → length (or_default (get k m)) ≤ length queue
unfolding longest get
longest-bound k id queue [] e = absurd (ground (arith, e))
longest-bound k id queue ((j, w) ∷ m) e = elim (Option-cases (longest m)) [
  | inl p ↦ ground (arith, e, p, longest-none k m p)
  | inr p ↦ ground (arith, e, p.1, longest-bound k p.0.0 p.0.1 m p.1)
]
