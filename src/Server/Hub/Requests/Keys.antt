-- ===== src/Server/Hub/Requests/Keys.antt =====
-- Who receives the sender keys that `publish_key` passes on.
use throcc.Prelude.{
  ℕ, ◌+◌, ◌≤◌, ◌≡◌, refl, Bool, true, false, not, ◌&&◌, List, [], ◌∷◌, ◌++◌, some, ok, ◌==◌,
  if◌then◌else◌, arith, Option-cases, inl, inr,
}
use throcc.Prelude.Map.{Set, get, insert, contains, contains-insert}
use throcc.Server.Hub.State.{Event, Session, Hub, sender_key_published}
use throcc.Server.Hub.Place.{room_entry, session}
use throcc.Server.Hub.Place.Rooms.{member_in}
use throcc.Server.Hub.Requests.{check_wrapped, send_keys, publish_key, emit_to, current_room}

-- How often `user` is a recipient.
pub times : ℕ → List (ℕ × List ℕ) → ℕ
times user [] = 0
times user ((to, blob) ∷ rest) = let n = times user rest in if to == user then n + 1 else n

abbrev is_key_to : ℕ → List ℕ × Event → Bool
is_key_to user (to ∷ [], sender_key_published source epoch blob) = to == user
is_key_to user _ = false

-- How many sender keys were sent to `user`.
unfoldable pub keys_to : ℕ → List (List ℕ × Event) → ℕ
keys_to user [] = 0
keys_to user (e ∷ sent) = let n = keys_to user sent in if is_key_to user e then n + 1 else n

keys_to-append :
    (user : ℕ) (sent : List (List ℕ × Event)) (e : List ℕ × Event)
    → keys_to user (sent ++ e ∷ [])
      ≡ (if is_key_to user e then keys_to user sent + 1 else keys_to user sent)
unfolding keys_to
keys_to-append user [] e = refl
keys_to-append user (x ∷ sent) e = ground (arith, keys_to-append user sent e)

abbrev pub one_if : Bool → ℕ
one_if true = 1
one_if false = 0

times-check_wrapped :
    (user : ℕ) (members seen : Set) (wrapped : List (ℕ × List ℕ)) (v : ℕ)
    → check_wrapped user members seen wrapped ≡ ok tt
    → times v wrapped ≤ one_if ((not (v == user)) && contains v members && not (contains v seen))
unfolding times check_wrapped
times-check_wrapped user members seen [] v e = omega arith
times-check_wrapped user members seen ((to, blob) ∷ rest) v e =
    ground (
      arith,
      times-check_wrapped user members (insert to tt seen) rest v,
      contains-insert v to seen,
    )

keys_to-send_keys :
    (user epoch : ℕ) (wrapped : List (ℕ × List ℕ)) (h : Hub) (v : ℕ)
    → keys_to v (send_keys user epoch wrapped h).sent ≤ keys_to v h.sent + times v wrapped
unfolding times send_keys emit_to
keys_to-send_keys user epoch [] h v = omega arith
keys_to-send_keys user epoch ((to, blob) ∷ rest) h v = ground (
  arith,
  keys_to-send_keys user epoch rest (emit_to to (sender_key_published user epoch blob) h) v,
  keys_to-append v h.sent (to ∷ [], sender_key_published user epoch blob),
)

-- Whatever a client asks, `publish_key` sends each other member of the client's room at most one
-- key, and nobody else any.
pub keys_to-publish_key :
    (user epoch : ℕ) (wrapped : List (ℕ × List ℕ)) (h : Hub) (s : Session) (room v : ℕ)
    → get user h.sessions ≡ some s
    → s.room ≡ some room
    → keys_to v (publish_key user epoch wrapped h).0.sent
      ≤ keys_to v h.sent + one_if ((not (v == user)) && member_in h.rooms room v)
unfolding publish_key current_room session room_entry member_in contains
keys_to-publish_key user epoch wrapped h s room v here there =
    elim (Option-cases (get room h.rooms)) [
      | inl q ↦ ground arith
      | inr (entry, q) ↦ ground (
        arith,
        keys_to-send_keys user epoch wrapped h v,
        times-check_wrapped user entry.members [] wrapped v,
      )
    ]
