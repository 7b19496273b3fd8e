-- ===== src/Client/Keys/Steps/Floors.antt =====
-- No epoch that we took part in is accepted again: the floors of crates/throcc-client-core/src/keys.rs
-- and floors.rs.
use throcc.Prelude.{
  ℕ, ◌≡◌, refl, sym, ap, subst, ◌∙◌, inl, inr, true, not, ◌&&◌, ◌||◌, Option, none, some, ltb, leb,
  ◌==◌, ==_iff, length, arith, Bool-cases, Option-cases,
}
use throcc.Prelude.Map.{contains_key}
use throcc.Prelude.Table.{Table, find, find-put}
use throcc.Server.Hub.State.{max_signed_in, Tracks}
use throcc.Client.Keys.{
  Crypto, KeyManager, Pair, pair_eq, at_most, new, raise, replace_encryption, tick,
}
use throcc.Client.Keys.Secrets.{start_epoch, move_epoch}
use throcc.Client.Keys.Secrets.Rest.{
  sender_key_at-but_received, sender_key-but_received, recv_key-but_received,
  wrap_for_new_peers-but_peers,
}
use throcc.Client.Keys.Rooms.{same_room, set_presence, admit, take_place, leave_for}
use throcc.Client.Keys.Rooms.Keep.{
  Parts, peers_changed_keep, reapply_peers_keep, apply_placement_keep,
}
use throcc.Client.Keys.Steps.{
  Step, presence, renewed, reapplied, changed, placed, sent, asked, ticked, raised, Steps,
  Steps_keep, Reach, Reach_keep,
}

-- Where the floor was at an epoch at least, it is so after a raise.
at_most-raise :
    (p : Pair) (e user room epoch : ℕ) (t : Table Pair ℕ)
    → at_most (find p t) e ≡ true
    → at_most (find p (raise user room epoch t)) e ≡ true
unfolding raise
at_most-raise p e user room epoch t h = elim (Option-cases (find (user, room) t)) [
  | inl q ↦
      rw (q, raise)
        (rw (find-put p (user, room) epoch t) (elim (Bool-cases (pair_eq.beq p (user, room))) [
          | inl b ↦
              absurd (no_floor (ap (λ i. find i t) ((pair_eq.beq_iff p (user, room)).0 b) ∙ q))
          | inr b ↦ rw b h
        ]))
  | inr q ↦
      rw (q.1, raise)
        (elim (Bool-cases (ltb q.0 epoch)) [
          | inl l ↦ rw l (
              rw (find-put p (user, room) epoch t) (elim (Bool-cases (pair_eq.beq p (user, room))) [
                | inl b ↦ rw b (
                    risen q.0 l (
                      sym (
                        ap (λ o. at_most o e)
                          (ap (λ i. find i t) ((pair_eq.beq_iff p (user, room)).0 b) ∙ q.1))
                      ∙ h))
                | inr b ↦ rw b h
              ]))
          | inr l ↦ rw l h
        ])
]
  where
    no_floor : find p t ≡ none → ⊥
    no_floor q = ground (arith, subst (λ o. at_most o e ≡ true) q h)

    risen : (floor : ℕ) → ltb floor epoch ≡ true → leb e floor ≡ true → leb e epoch ≡ true
    risen floor l q = ground (arith, l, q)

-- A raise takes the floor to the epoch at least.
at_most-raise_same :
    (user room epoch : ℕ) (t : Table Pair ℕ)
    → at_most (find (user, room) (raise user room epoch t)) epoch ≡ true
unfolding raise
at_most-raise_same user room epoch t = elim (Option-cases (find (user, room) t)) [
  | inl q ↦
      rw (q, raise)
        (rw (find-put (user, room) (user, room) epoch t)
          (ground (arith, pair_eq.beq_iff (user, room) (user, room))))
  | inr q ↦
      rw (q.1, raise)
        (elim (Bool-cases (ltb q.0 epoch)) [
          | inl l ↦ rw l (
              rw (find-put (user, room) (user, room) epoch t)
                (ground (arith, pair_eq.beq_iff (user, room) (user, room))))
          | inr l ↦ rw l (rw q.1 (ground (arith, l)))
        ])
]

-- Where we are and what was raised.
pub record Place : Type 0 where
  pub me : ℕ
  pub room : Option ℕ
  pub epoch : ℕ
  pub floors : Table Pair ℕ

abbrev pub place_of : KeyManager → Place
place_of k = record { me = k.me; room = k.room; epoch = k.epoch; floors = k.floors }

-- A property of the place is kept by every step, where the start of an epoch, a placement and a
-- raise keep it.
module _ (c : Crypto) (P : Place → Type 0)
    (starts : (epoch now secret : ℕ) (k : KeyManager)
      → P (place_of k)
      → P (place_of (start_epoch c epoch now secret k)))
    (lands : (room : Option ℕ) (tracks : Option Tracks) (k : KeyManager)
      → P (place_of k)
      → P (place_of (take_place room tracks (leave_for room k))))
    (raises : (user room epoch : ℕ) (k : KeyManager)
      → P (place_of k)
      → P (record (place_of k) { floors = raise user room epoch k.floors })) where
  place_parts : Parts c (λ k. P (place_of k))
  unfolding admit
  place_parts = record {
    checks = λ k seen refused h. h;
    admits = λ now peers t h. h;
    starts = starts;
    wraps = λ room k h. subst (λ l. P (place_of l)) (sym (wrap_for_new_peers-but_peers c room k)) h;
    sends = λ k source epoch wrapped arrived now h.
        subst (λ l. P (place_of l))
          (sym (sender_key_at-but_received c k source epoch wrapped arrived now)) h;
    empties = λ k h. h;
    counts = λ k n h. h;
    stashes = λ k s h. h;
  }

  step_keeps : (k l : KeyManager) → P (place_of k) → Step c k l → P (place_of l)
  unfolding set_presence replace_encryption tick
  step_keeps _ _ h (presence k user none) = h
  step_keeps _ _ h (presence k user (some room)) =
      elim (Bool-cases
        (not (ltb (length k.present) max_signed_in) && not (contains_key user k.present))) [
          | inl e ↦ rw e h
          | inr e ↦ rw e h
        ]
  step_keeps _ _ h (renewed k encryption now) = h
  step_keeps _ _ h (reapplied k now unix_now secret) =
      reapply_peers_keep c (λ k. P (place_of k))
        (peers_changed_keep c (λ k. P (place_of k)) place_parts) (λ k s g. g) now unix_now secret k
        h
  step_keeps _ _ h (changed k room epoch peers now unix_now secret) =
      peers_changed_keep c (λ k. P (place_of k)) place_parts room epoch peers now unix_now secret k
        h
  step_keeps _ _ h (placed k room epoch tracks peers now unix_now secrets) =
      apply_placement_keep c (λ k. P (place_of k))
        (peers_changed_keep c (λ k. P (place_of k)) place_parts) (λ k s g. g) lands room epoch
        tracks peers now unix_now secrets k h
  step_keeps _ _ h (sent k source epoch wrapped now) =
      subst (λ l. P (place_of l)) (sym (sender_key-but_received c k source epoch wrapped now)) h
  step_keeps _ _ h (asked k m e) =
      subst (λ l. P (place_of l)) (sym (recv_key-but_received c k m e)) h
  step_keeps _ _ h (ticked k now) = h
  step_keeps _ _ h (raised k user room epoch) = raises user room epoch k h

same_room-eq : (a b : Option ℕ) → same_room a b ≡ true → a ≡ b
same_room-eq none none e = refl
same_room-eq (some a) (some b) e = ap some ((==_iff a b).0 e)
same_room-eq none (some b) e = absurd (ground (arith, e))
same_room-eq (some a) none e = absurd (ground (arith, e))

-- An epoch of the room we are in is no newer than its floor, but for the first one, 0.
unfoldable pub IsFloored : Place → Type 0
IsFloored p =
    (room : ℕ)
    → p.room ≡ some room
    → ((p.epoch == 0) || at_most (find (p.me, room) p.floors) p.epoch) ≡ true

-- The floor of a room is at an epoch at least.
unfoldable pub IsPast : (me room epoch : ℕ) → Place → Type 0
IsPast me room epoch p = (p.me ≡ me) × (at_most (find (me, room) p.floors) epoch ≡ true)

module _ (c : Crypto) where
  starts-IsFloored :
      (epoch now secret : ℕ) (k : KeyManager)
      → IsFloored (place_of k)
      → IsFloored (place_of (start_epoch c epoch now secret k))
  unfolding start_epoch move_epoch IsFloored
  starts-IsFloored epoch now secret k h = elim (Bool-cases (epoch == k.epoch)) [
    | inl e ↦ rw e h
    | inr e ↦
        rw e (λ room r. rw r (rw (at_most-raise_same k.me room epoch k.floors) (ground arith)))
  ]

  lands-IsFloored :
      (room : Option ℕ) (tracks : Option Tracks) (k : KeyManager)
      → IsFloored (place_of k)
      → IsFloored (place_of (take_place room tracks (leave_for room k)))
  unfolding take_place leave_for IsFloored
  lands-IsFloored none tracks k h r e = absurd (ground (arith, e))
  lands-IsFloored (some room) tracks k h r e = elim (Bool-cases (same_room (some room) k.room)) [
    | inl q ↦ rw q (h r (sym (same_room-eq (some room) k.room q) ∙ e))
    | inr q ↦ rw q (ground arith)
  ]

  raises-IsFloored :
      (user room epoch : ℕ) (k : KeyManager)
      → IsFloored (place_of k)
      → IsFloored (record (place_of k) { floors = raise user room epoch k.floors })
  unfolding IsFloored
  raises-IsFloored user room epoch k h r e =
      ground (arith, h r e, at_most-raise (k.me, r) k.epoch user room epoch k.floors)

  pub Reach-IsFloored : (k : KeyManager) → Reach c k → IsFloored (place_of k)
  unfolding IsFloored new
  Reach-IsFloored =
      Reach_keep c (λ k. IsFloored (place_of k))
        (step_keeps c IsFloored starts-IsFloored lands-IsFloored raises-IsFloored)
        (λ me encryption server floors now r e. ground arith)

  module _ (me room e : ℕ) where
    starts-IsPast :
        (epoch now secret : ℕ) (k : KeyManager)
        → IsPast me room e (place_of k)
        → IsPast me room e (place_of (start_epoch c epoch now secret k))
    unfolding start_epoch move_epoch IsPast
    starts-IsPast epoch now secret k h = elim (Bool-cases (epoch == k.epoch)) [
      | inl q ↦ rw q h
      | inr q ↦ rw q (elim (Option-cases k.room) [
        | inl r ↦ rw r h
        | inr r ↦ rw r.1 (h.0, at_most-raise (me, room) e k.me r.0 epoch k.floors h.1)
      ])
    ]

    lands-IsPast :
        (to : Option ℕ) (tracks : Option Tracks) (k : KeyManager)
        → IsPast me room e (place_of k)
        → IsPast me room e (place_of (take_place to tracks (leave_for to k)))
    unfolding take_place leave_for IsPast
    lands-IsPast to tracks k h = elim (Bool-cases (same_room to k.room)) [
      | inl q ↦ rw q h
      | inr q ↦ rw q h
    ]

    pub Steps-IsPast :
        (k l : KeyManager)
        → IsPast me room e (place_of k)
        → Steps c k l
        → IsPast me room e (place_of l)
    unfolding IsPast
    Steps-IsPast =
        Steps_keep c (λ k. IsPast me room e (place_of k))
          (step_keeps c (IsPast me room e) starts-IsPast lands-IsPast (λ user room' epoch k h.
            (h.0, at_most-raise (me, room) e user room' epoch k.floors h.1)))
