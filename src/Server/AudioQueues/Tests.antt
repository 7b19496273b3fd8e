-- ===== src/Server/AudioQueues/Tests.antt =====
-- `AudioQueues` (crates/throcc-server/src/egress.rs) with two tracks, and with one that floods.
use throcc.Prelude.{ℕ, zero, suc, ◌≤◌, ◌<◌, ◌≡◌, refl, [], ◌∷◌, some, length}
use throcc.Prelude.Map.{get, insert, remove}
use throcc.Server.AudioQueues.{
  AudioQueues, no_audio, max_queued_audio, tail, longest, evict_from, evict_from_longest, make_room,
  enqueue, push, serve, pop_from, pop,
}
use throcc.Server.AudioQueues.Balance.{IsBalanced}
use throcc.Server.AudioQueues.Reached.{Reach, starts, pushes, Reach-IsBalanced}
use throcc.Server.AudioQueues.Drops.{queue_of, push-longest}

abbrev two_tracks : AudioQueues
two_tracks = (push 3 (10 ∷ []) (push 3 (11 ∷ []) (push 8 (12 ∷ []) no_audio).0).0).0

two_reached : Reach two_tracks
two_reached = pushes 3 (10 ∷ []) (pushes 3 (11 ∷ []) (pushes 8 (12 ∷ []) starts))

serves_in_turn : (pop (pop two_tracks).0).1 ≡ some (3, 11 ∷ [])
unfolding push pop enqueue make_room pop_from serve get insert remove
serves_in_turn = refl

Reach-IsBalanced_example : IsBalanced two_tracks × (two_tracks.len ≤ 3400)
Reach-IsBalanced_example = Reach-IsBalanced two_reached

-- So many packets of track 3.
unfoldable flood : ℕ → AudioQueues → AudioQueues
flood zero q = q
flood (suc n) q = flood n (push 3 (9 ∷ []) q).0

flood_reached : (n : ℕ) (q : AudioQueues) → Reach q → Reach (flood n q)
unfolding flood
flood_reached zero q reach = reach
flood_reached (suc n) q reach = flood_reached n (push 3 (9 ∷ []) q).0 (pushes 3 (9 ∷ []) reach)

full : (push 8 (13 ∷ []) (flood 3400 no_audio)).1 ≡ some 3
unfolding flood push pop enqueue make_room evict_from_longest evict_from longest pop_from serve get
    insert remove
full = refl

push-longest_example :
    ((flood 3400 no_audio).len ≡ max_queued_audio)
    × (0 < length (queue_of 3 (flood 3400 no_audio)))
    × (length (queue_of 3 (flood 3400 no_audio)) ≤ length (queue_of 3 (flood 3400 no_audio)))
    × (queue_of 3 (push 8 (13 ∷ []) (flood 3400 no_audio)).0
        ≡ tail (queue_of 3 (flood 3400 no_audio)))
push-longest_example = push-longest 8 3 (13 ∷ []) 3 (flood_reached 3400 no_audio starts) full
