-- ===== src/Server/Queues/Dropped.antt =====
-- Units that are finished, dropped or changed: `finish`, `drop_unit` and `unit_mut` of
-- crates/throcc-server/src/egress.rs.
use throcc.Prelude.{
  ℕ, ◌+◌, ◌≡◌, refl, inl, inr, Bool, true, false, ◌||◌, Option, none, some, if◌then◌else◌, arith,
  Bool-cases, Option-cases,
}
use throcc.Prelude.Map.{contains_key}
use throcc.Prelude.Table.{pair_eq, find}
use throcc.Server.Queues.{Queues, VideoUnit, Fate, dropped, size, unit_at, set_unit, count_drop}
use throcc.Server.Queues.Units.{
  finish_unit, finish, count_unless_twin, first_of, drop_found, drop_unit,
}
use throcc.Server.Queues.Valid.{
  IsSound, IsValid, unit_at_cases, contains_started, not_started, total-remove, length-insert_same,
  remove_started-IsSound, remove_waiting-IsSound, insert_started-IsSound, insert_waiting-IsSound,
}
use throcc.Server.Queues.Budget.{units}

finish_unit-IsValid :
    (id : ℕ) (unit : VideoUnit) (fate : Fate) (q : Queues)
    → unit_at id q ≡ some unit
    → IsValid q
    → IsValid (finish_unit id unit fate q) × (units (finish_unit id unit fate q) + 1 ≡ units q)
unfolding finish_unit IsSound
finish_unit-IsValid id unit fate q e h = elim (unit_at_cases id unit q e) [
  | inl s ↦ rw (contains_started id q.started unit s) (
    remove_started-IsSound id unit q.started q.waiting q.next_id q.video_bytes h s,
    omega (arith, (total-remove id 0 unit q.started h.0 s).1),
  )
  | inr w ↦ rw (not_started id q.started w.0) (
    remove_waiting-IsSound id unit q.started q.waiting q.next_id q.video_bytes h w.1,
    omega (arith, (total-remove id 0 unit q.waiting h.1 w.1).1),
  )
]

-- A unit that is written back, with `more` bytes queued then.
pub set_unit-IsSound :
    (id : ℕ) (unit new : VideoUnit) (more : ℕ) (q : Queues)
    → unit_at id q ≡ some unit
    → IsValid q
    → more + size unit.packets ≡ size new.packets + q.video_bytes
    → IsSound
        (set_unit id new q).started
        (set_unit id new q).waiting
        (set_unit id new q).next_id
        more
      × (units (set_unit id new q) ≡ units q)
unfolding set_unit IsSound
set_unit-IsSound id unit new more q e h m = elim (unit_at_cases id unit q e) [
  | inl s ↦ rw (contains_started id q.started unit s) (
    insert_started-IsSound id unit q.started q.waiting q.next_id q.video_bytes h new more s m,
    omega (arith, length-insert_same id 0 new unit q.started h.0 s),
  )
  | inr w ↦ rw (not_started id q.started w.0) (
    insert_waiting-IsSound id unit q.started q.waiting q.next_id q.video_bytes h new more w.1 m,
    omega (arith, length-insert_same id 0 new unit q.waiting h.1 w.1),
  )
]

count_if-IsValid :
    (b : Bool) (media_id : ℕ) (q : Queues)
    → IsValid q
    → IsValid (if b then q else count_drop media_id q)
      × (units (if b then q else count_drop media_id q) ≡ units q)
unfolding count_drop
count_if-IsValid true media_id q h = (h, refl)
count_if-IsValid false media_id q h = (h, refl)

pub video_bytes-set_unit :
    (id : ℕ) (new : VideoUnit) (q : Queues) → (set_unit id new q).video_bytes ≡ q.video_bytes
unfolding set_unit
video_bytes-set_unit id new q = elim (Bool-cases (contains_key id q.started)) [
  | inl e ↦ rw e refl
  | inr e ↦ rw e refl
]

count_unless_twin-IsValid :
    (unit : VideoUnit) (twin : Option ℕ) (q : Queues)
    → IsValid q
    → IsValid (count_unless_twin unit twin q) × (units (count_unless_twin unit twin q) ≡ units q)
count_unless_twin-IsValid unit none q h =
    count_if-IsValid (unit.stray || unit.copy) unit.media_id q h
count_unless_twin-IsValid unit (some twin) q h = elim (Option-cases (unit_at twin q)) [
  | inl e ↦ rw e (count_if-IsValid (unit.stray || unit.copy) unit.media_id q h)
  | inr e ↦
      let other = record e.0 { copy = false } in
      let set = set_unit-IsSound twin e.0 other q.video_bytes q e.1 h (omega arith) in
      rw e.1 (rw (video_bytes-set_unit twin other q) set.0, set.1)
]

-- A unit that is dropped is one fewer.
pub drop_unit-IsValid :
    (id : ℕ) (unit : VideoUnit) (q : Queues)
    → unit_at id q ≡ some unit
    → IsValid q
    → IsValid (drop_unit id q) × (units (drop_unit id q) + 1 ≡ units q)
unfolding drop_unit drop_found
drop_unit-IsValid id unit q e h =
    let out = finish_unit-IsValid id unit dropped q e h in
    let twin =
      count_unless_twin-IsValid unit
        (first_of (find (unit.media_id, unit.first_seq) (finish_unit id unit dropped q).copies))
        (finish_unit id unit dropped q) out.0 in
    rw (e, drop_unit) (twin.0, omega (arith, twin.1, out.1))

pub drops-IsValid : (id : ℕ) (q : Queues) → IsValid q → IsValid (drop_unit id q)
unfolding drop_unit
drops-IsValid id q h = elim (Option-cases (unit_at id q)) [
  | inl e ↦ rw (e, drop_unit) h
  | inr e ↦ (drop_unit-IsValid id e.0 q e.1 h).0
]

pub finish-IsValid : (id : ℕ) (fate : Fate) (q : Queues) → IsValid q → IsValid (finish id fate q)
unfolding finish
finish-IsValid id fate q h = elim (Option-cases (unit_at id q)) [
  | inl e ↦ rw (e, finish) h
  | inr e ↦ rw (e.1, finish) (finish_unit-IsValid id e.0 fate q e.1 h).0
]
