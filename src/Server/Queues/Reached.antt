-- ===== src/Server/Queues/Reached.antt =====
-- `Queues` of crates/throcc-server/src/egress.rs: its operations in any order.
use throcc.Prelude.{ℕ, ◌+◌, ◌≡◌, refl, ◌⊎◌, inl, none}
use throcc.Prelude.Map.{get}
use throcc.Server.Queues.{Queues, Packet, Lost, new}
use throcc.Server.Queues.Units.{push, lose}
use throcc.Server.Queues.Budget.{enforce_budget}
use throcc.Server.Queues.Sending.{pop, forget_quiet_tracks, take_stats}
use throcc.Server.Queues.Valid.{IsSound, IsValid, total}
use throcc.Server.Queues.Within.{enforce_budget-IsValid}
use throcc.Server.Queues.Kept.{push-IsValid, lose-IsValid}
use throcc.Server.Queues.Popped.{pop-IsValid}

pub data Reach : Queues → Type 0 where
  starts : Reach new
  pushes : (p : Packet) (now : ℕ) (q : Queues) → Reach q → Reach (push p now q)
  loses : (l : Lost) (q : Queues) → Reach q → Reach (lose l q)
  enforces : (now : ℕ) (q : Queues) → Reach q → Reach (enforce_budget now q)
  pops : (q : Queues) → Reach q → Reach (pop q).0
  forgets : (q : Queues) → Reach q → Reach (forget_quiet_tracks q)
  takes : (q : Queues) → Reach q → Reach (take_stats q).0

new-IsValid : IsValid new
unfolding new IsSound total get
new-IsValid = (tt, tt, (λ id. inl refl), (λ id l. (refl, refl)), refl)

Reach-IsValid : (q : Queues) → Reach q → IsValid q
unfolding forget_quiet_tracks take_stats
Reach-IsValid _ starts = new-IsValid
Reach-IsValid _ (pushes p now q r) = push-IsValid p now q (Reach-IsValid q r)
Reach-IsValid _ (loses l q r) = lose-IsValid l q (Reach-IsValid q r)
Reach-IsValid _ (enforces now q r) = enforce_budget-IsValid now q (Reach-IsValid q r)
Reach-IsValid _ (pops q r) = pop-IsValid q (Reach-IsValid q r)
Reach-IsValid _ (forgets q r) = Reach-IsValid q r
Reach-IsValid _ (takes q r) = Reach-IsValid q r

-- Whatever is pushed, lost, dropped and sent: the count of bytes is that of the packets in the units
-- that are queued, and no unit is among the started and the waiting ones at once.
pub Reach-video_bytes :
    (q : Queues)
    → Reach q
    → (q.video_bytes ≡ total q.started + total q.waiting)
      × ((id : ℕ) → (get id q.started ≡ none) ⊎ (get id q.waiting ≡ none))
unfolding IsSound
Reach-video_bytes q r = let h = Reach-IsValid q r in (h.4, h.2)
