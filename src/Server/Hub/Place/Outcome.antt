-- ===== src/Server/Hub/Place/Outcome.antt =====
-- The two ways in which `move` ends.
use throcc.Prelude.{
  ℕ, ◌≡◌, ap, ◌∙◌, List, ◌++◌, Option, ok, err, arith, Result-cases, inl, inr, ◌⊎◌,
}
use throcc.Server.Hub.State.{ErrorCode, Hub, Tracks, write_epochs}
use throcc.Server.Hub.Place.{
  bump_epochs, next_epochs, set_entry_epochs, allocate_for, relocate, notify, to_list, move,
  placement,
}
use throcc.Server.Hub.Place.Steps.{bump_epochs-cases, allocate_for-keeps}

module _ (user : ℕ) (current target : Option ℕ) (h : Hub) where
  -- All steps were taken. `stored` is the hub once the new epochs are in the database.
  pub record Success : Type 0 where
    pub tracks : Option Tracks
    pub changes : List (ℕ × ℕ)
    pub stored : Hub
    pub allocated : (allocate_for target h).1 ≡ ok tracks
    pub next :
        next_epochs (allocate_for target h).0 (to_list current ++ to_list target) ≡ ok changes
    pub rooms : stored.rooms ≡ set_entry_epochs changes h.rooms
    pub epochs : stored.db.epochs ≡ write_epochs changes h.db.epochs
    pub sessions : stored.sessions ≡ h.sessions
    pub result : move user current target h ≡ (
      notify user current target (relocate user current target tracks stored),
      ok (placement (notify user current target (relocate user current target tracks stored)) user),
    )

  -- One was refused, and nobody has moved.
  pub record Failure : Type 0 where
    pub error : ErrorCode
    pub refused : (move user current target h).1 ≡ err error
    pub rooms : (move user current target h).0.rooms ≡ h.rooms
    pub epochs : (move user current target h).0.db.epochs ≡ h.db.epochs
    pub sessions : (move user current target h).0.sessions ≡ h.sessions

  pub move-outcome : Success ⊎ Failure
  unfolding move
  move-outcome =
      let (r, s, d) = allocate_for-keeps target h in
      elim (Result-cases (allocate_for target h).1) [
        | inr (e, q) ↦ inr (record {
          error = e;
          refused = ground arith;
          rooms = ground arith;
          epochs = ground arith;
          sessions = ground arith;
        })
        | inl (tracks, q) ↦
            elim (bump_epochs-cases (to_list current ++ to_list target) (allocate_for target h).0) [
              | inl (changes, n, b, br, bd, bs) ↦ inl (record {
                tracks = tracks;
                changes = changes;
                stored =
                    (bump_epochs (to_list current ++ to_list target) (allocate_for target h).0).0;
                allocated = q;
                next = n;
                rooms = br ∙ ap (set_entry_epochs changes) r;
                epochs = bd ∙ ap (write_epochs changes) d;
                sessions = bs ∙ s;
                result = rw (q, b, move);
              })
              | inr (e, b, br, bd, bs) ↦ inr (record {
                error = e;
                refused = rw (q, b, move);
                rooms = rw (q, b, move) (br ∙ r);
                epochs = rw (q, b, move) (bd ∙ d);
                sessions = rw (q, b, move) (bs ∙ s);
              })
            ]
      ]
