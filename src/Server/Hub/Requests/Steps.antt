-- ===== src/Server/Hub/Requests/Steps.antt =====
-- Every request keeps members, sessions and stored epochs in agreement.
use throcc.Prelude.{
  ℕ, ◌≡◌, refl, ap, ◌∙◌, Bool, true, false, not, ◌&&◌, ◌||◌, List, [], ◌∷◌, none, ◌==◌,
  if◌then◌else◌, arith, Option-cases, Bool-cases, Result-cases, inl, inr, leb,
}
use throcc.Prelude.Map.{Map, get, remove}
use throcc.Server.Buckets.{take_for}
use throcc.Server.Hub.State.{
  Event, sender_key_published, kicked_from_room, MediaState, RoomEntry, Session, Hub, Clock,
  max_room_shares,
}
use throcc.Server.Hub.Place.{session, room_entry, update, leave_room, is_some}
use throcc.Server.Hub.Place.Rooms.{in_room, get-update}
use throcc.Server.Hub.Place.Steps.{
  Consistent, IsConsistent, IsConsistent-same, is_tracked, broadcast_peers-keeps,
}
use throcc.Server.Hub.Place.Leave.{leave_room-IsConsistent}
use throcc.Server.Hub.Requests.{
  current_room, with_media, apply_media, broadcast_if, rebuild_if, reroutes, announce_presence,
  emit_to, set_media, shares_in, same_share, publish_key, send_keys, kick_from_room, may_kick,
  check_wrapped,
}

with_media-Consistent :
    (rooms : Map RoomEntry) (sessions : Map Session) (epochs : Map ℕ) (user : ℕ)
    (media : MediaState)
    → Consistent rooms sessions epochs
    → Consistent rooms (update user (with_media media) sessions) epochs
unfolding in_room is_tracked
with_media-Consistent rooms sessions epochs user media c = record {
  agree = λ room v. ground (
    arith,
    c.agree room v,
    get-update v user (with_media media) sessions,
    Option-cases (get v sessions),
  );
  tracked = λ v. ground (
    arith,
    c.tracked v,
    get-update v user (with_media media) sessions,
    Option-cases (get v sessions),
  );
  within = c.within;
  stored = c.stored;
}

announce_presence-keeps :
    (user : ℕ) (h : Hub)
    → ((announce_presence user h).rooms ≡ h.rooms)
      × ((announce_presence user h).sessions ≡ h.sessions)
      × ((announce_presence user h).db ≡ h.db)
unfolding announce_presence
announce_presence-keeps user h = ground arith

broadcast_if-keeps :
    (b : Bool) (room : ℕ) (h : Hub)
    → ((broadcast_if b room h).rooms ≡ h.rooms)
      × ((broadcast_if b room h).sessions ≡ h.sessions)
      × ((broadcast_if b room h).db ≡ h.db)
broadcast_if-keeps true room h = broadcast_peers-keeps room none h
broadcast_if-keeps false room h = (refl, refl, refl)

rebuild_if-keeps :
    (b : Bool) (h : Hub)
    → ((rebuild_if b h).rooms ≡ h.rooms)
      × ((rebuild_if b h).sessions ≡ h.sessions)
      × ((rebuild_if b h).db ≡ h.db)
rebuild_if-keeps true h = (refl, refl, refl)
rebuild_if-keeps false h = (refl, refl, refl)

apply_media-IsConsistent :
    (user room : ℕ) (stored applied : MediaState) (h : Hub)
    → IsConsistent h
    → IsConsistent (apply_media user room stored applied h)
unfolding apply_media
apply_media-IsConsistent user room stored applied h c =
    let h1 = record h { sessions = update user (with_media applied) h.sessions } in
    let changed = not (same_share applied.share stored.share) in
    let h2 = broadcast_if changed room h1 in
    let rerouted = reroutes stored applied in
    let h3 = rebuild_if rerouted h2 in
    let (r2, m2, d2) = broadcast_if-keeps changed room h1 in
    let (r3, m3, d3) = rebuild_if-keeps rerouted h2 in
    let (r4, m4, d4) = announce_presence-keeps user h3 in
    IsConsistent-same h1 (announce_presence user h3) (r4 ∙ r3 ∙ r2) (m4 ∙ m3 ∙ m2)
      (ap (λ x. x.epochs) (d4 ∙ d3 ∙ d2))
      (with_media-Consistent h.rooms h.sessions h.db.epochs user applied c)

pub set_media-IsConsistent :
    (clock : Clock) (user : ℕ) (media : MediaState) (h : Hub)
    → IsConsistent h
    → IsConsistent (set_media clock user media h).0
unfolding set_media
set_media-IsConsistent clock user media h c = elim (Result-cases (current_room h user)) [
  | inr (e, q) ↦ rw (q, set_media) c
  | inl (room, q) ↦ elim (Result-cases (session h user)) [
    | inr (e, r) ↦ rw (q, r, set_media) c
    | inl (s, r) ↦
        let starting = is_some media.share && not (is_some s.media.share) in
        let at_cap = starting && leb max_room_shares (shares_in h room) in
        let asks =
          is_some media.share && not (same_share media.share s.media.share) && not at_cap in
        let asked = take_for h.share_changes user 1 clock.instant in
        let refused = at_cap || asks && not asked.1 in
        let applied = record media { share = if refused then s.media.share else media.share } in
        let h1 = record h { share_changes = if asks then asked.0 else h.share_changes } in
        rw (q, r, set_media) (apply_media-IsConsistent user room s.media applied h1 c)
  ]
]

emit_to-keeps :
    (user : ℕ) (event : Event) (h : Hub)
    → ((emit_to user event h).rooms ≡ h.rooms)
      × ((emit_to user event h).sessions ≡ h.sessions)
      × ((emit_to user event h).db ≡ h.db)
unfolding emit_to
emit_to-keeps user event h = ground arith

emit_to-IsConsistent :
    (user : ℕ) (event : Event) (h : Hub) → IsConsistent h → IsConsistent (emit_to user event h)
emit_to-IsConsistent user event h c =
    let (r, m, d) = emit_to-keeps user event h in
    IsConsistent-same h (emit_to user event h) r m (ap (λ x. x.epochs) d) c

send_keys-IsConsistent :
    (user epoch : ℕ) (wrapped : List (ℕ × List ℕ)) (h : Hub)
    → IsConsistent h
    → IsConsistent (send_keys user epoch wrapped h)
unfolding send_keys
send_keys-IsConsistent user epoch [] h c = c
send_keys-IsConsistent user epoch ((to, blob) ∷ rest) h c =
    let event = sender_key_published user epoch blob in
    send_keys-IsConsistent user epoch rest (emit_to to event h) (emit_to-IsConsistent to event h c)

pub publish_key-IsConsistent :
    (user epoch : ℕ) (wrapped : List (ℕ × List ℕ)) (h : Hub)
    → IsConsistent h
    → IsConsistent (publish_key user epoch wrapped h).0
unfolding publish_key
publish_key-IsConsistent user epoch wrapped h c = elim (Result-cases (current_room h user)) [
  | inr (e, q) ↦ rw (q, publish_key) c
  | inl (room, q) ↦ elim (Result-cases (room_entry h room)) [
    | inr (e, r) ↦ rw (q, r, publish_key) c
    | inl (entry, r) ↦ elim (Bool-cases (epoch == entry.epoch)) [
      | inr b ↦ rw (q, r, b, publish_key) c
      | inl b ↦ elim (Result-cases (check_wrapped user entry.members [] wrapped)) [
        | inr (e, k) ↦ rw (q, r, b, k, publish_key) c
        | inl (t, k) ↦ rw (q, r, b, k, publish_key) (send_keys-IsConsistent user epoch wrapped h c)
      ]
    ]
  ]
]

pub kick_from_room-IsConsistent :
    (clock : Clock) (user target room : ℕ) (h : Hub)
    → IsConsistent h
    → IsConsistent (kick_from_room clock user target room h).0
unfolding kick_from_room
kick_from_room-IsConsistent clock user target room h c =
    elim (Result-cases (may_kick h user target room)) [
      | inr (e, q) ↦ rw (q, kick_from_room) c
      | inl (t, q) ↦
          let h1 = record h { last_joined = remove target h.last_joined } in
          let event = kicked_from_room user room in
          rw (q, kick_from_room)
            (emit_to-IsConsistent target event (leave_room clock target h1)
              (leave_room-IsConsistent clock target h1 c))
    ]
