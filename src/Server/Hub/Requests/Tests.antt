-- ===== src/Server/Hub/Requests/Tests.antt =====
-- Keys, kicks and a room's deletion on the hub of Hub/Sample.antt, with a manager in the room.
use throcc.Prelude.{
  ◌+◌, ◌≤◌, ◌≡◌, refl, true, false, not, ◌&&◌, ◌||◌, [], ◌∷◌, none, some, ok, ◌==◌,
}
use throcc.Prelude.Map.{get, insert, remove, contains}
use throcc.Proto.Permissions.{manager, can_kick_from_room, can_manage_rooms, eq, admin, rank}
use throcc.Server.Hub.State.{
  Session, RoomEntry, Hub, keys, set_epochs, allocate_media_ids, write_epoch, write_epochs,
  delete_room_row,
}
use throcc.Server.Hub.Place.{
  place, session, may_enter, room_entry, move, allocate_tracks, bump_epochs, next_epochs,
  next_epoch, notify, announce, broadcast_peers, relocate, set_membership, update, set_entry_epochs,
  peers, others, placement, peer, forget_shares, presence,
}
use throcc.Server.Hub.Place.Rooms.{in_room, member_in}
use throcc.Server.Hub.Sample.{member, hub_sample, clock}
use throcc.Server.Hub.Requests.{
  role, session_in, may_kick, kick_from_room, outranked, may_delete, place_out, drop_room,
  delete_room, publish_key, check_wrapped, send_keys, emit_to, current_room, forget_joined,
}
use throcc.Server.Hub.Requests.Keys.{keys_to, one_if, keys_to-publish_key}
use throcc.Server.Hub.Requests.Kick.{kick_from_room-in_room, delete_room-member}

abbrev boss : Session
boss = record (member 7 0) { role = manager }

abbrev hub : Hub
hub = record (hub_sample none []) { sessions = (7, boss) ∷ (8, member 8 3) ∷ [] }

abbrev first_room : RoomEntry
first_room = record { epoch = 4; password_hash = none; members = (7, tt) ∷ (8, tt) ∷ [] }

boss_found : get 7 hub.sessions ≡ some boss
unfolding get
boss_found = refl

other_found : get 8 hub.sessions ≡ some (member 8 3)
unfolding get
other_found = refl

room_found : get 1 hub.rooms ≡ some first_room
unfolding get
room_found = refl

is_member : get 8 first_room.members ≡ some tt
unfolding get
is_member = refl

kicks_other : (kick_from_room clock 7 8 1 hub).1 ≡ ok tt
unfolding kick_from_room may_kick role session session_in can_kick_from_room get rank
kicks_other = refl

deletes_first : (delete_room clock 7 1 hub).1 ≡ ok tt
unfolding delete_room may_delete role session room_entry outranked place_out drop_room
    delete_room_row forget_joined can_kick_from_room can_manage_rooms eq rank get insert remove
    contains set_epochs allocate_media_ids write_epoch write_epochs place may_enter move
    allocate_tracks bump_epochs next_epochs next_epoch notify announce broadcast_peers relocate
    set_membership update set_entry_epochs peers others placement peer forget_shares keys presence
deletes_first = refl

sends_one : keys_to 8 (publish_key 7 4 ((8, 1 ∷ 2 ∷ []) ∷ []) hub).0.sent ≡ 1
unfolding keys_to publish_key current_room session room_entry check_wrapped send_keys emit_to get
    contains insert
sends_one = refl

keys_to-publish_key_example :
    keys_to 8 (publish_key 7 4 ((8, 1 ∷ 2 ∷ []) ∷ []) hub).0.sent
    ≤ keys_to 8 hub.sent + one_if ((not (8 == 7)) && member_in hub.rooms 1 8)
keys_to-publish_key_example =
    keys_to-publish_key 7 4 ((8, 1 ∷ 2 ∷ []) ∷ []) hub boss 1 8 boss_found refl

kick_from_room-in_room_example :
    ((member 8 3).room ≡ some 1)
    × (can_kick_from_room manager (member 8 3).role ≡ true)
    × (in_room (kick_from_room clock 7 8 1 hub).0.sessions 8 1 ≡ false)
kick_from_room-in_room_example =
    kick_from_room-in_room clock 7 8 1 1 hub boss (member 8 3) boss_found other_found kicks_other

delete_room-member_example :
    (eq manager admin || can_kick_from_room manager (member 8 3).role) ≡ true
delete_room-member_example =
    delete_room-member clock 7 1 8 hub boss (member 8 3) first_room boss_found room_found is_member
      refl other_found deletes_first
