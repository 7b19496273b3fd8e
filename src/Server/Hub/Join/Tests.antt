-- ===== src/Server/Hub/Join/Tests.antt =====
-- Runs of the joins of crates/throcc-server/src/rooms.rs, with a password on the second room of the
-- hub of Hub/Sample.antt.
use throcc.Prelude.{ℕ, ◌≡◌, refl, true, false, ◌||◌, [], ◌∷◌, none, some, ok}
use throcc.Prelude.Map.{get, insert, remove, contains}
use throcc.Proto.Permissions.{can_manage_rooms}
use throcc.Server.Buckets.{
  full, refill, holds, take, retain_unfull, is_due, sweep, entry, store, take_for, holds_for,
}
use throcc.Server.Guesses.{check, failures_of, remove_failures, succeeded, no_guesses}
use throcc.Server.Hub.State.{
  RoomEntry, Peer, set_epochs, allocate_media_ids, write_epoch, write_epochs, keys, Hub,
}
use throcc.Server.Hub.Place.{
  place, Placement, session, may_enter, room_entry, move, allocate_tracks, bump_epochs, same_room,
  next_epochs, next_epoch, notify, announce, broadcast_peers, relocate, set_membership, update,
  set_entry_epochs, peers, others, placement, peer, forget_shares, presence,
}
use throcc.Server.Hub.Sample.{tracks_from, member, hub_sample, clock}
use throcc.Server.Hub.Join.{
  done, pending, join, finish_join, rejoin, enter, enters_another_room, password_to_enter,
  ask_password, try_password, enter_done, has_place,
}

abbrev locked : Hub
locked = hub_sample (some 55) []

abbrev peer_at : ℕ → ℕ → Peer
peer_at id track = record {
  user = id;
  tracks = tracks_from track;
  share = none;
  identity_key = id;
  encryption_key = record { key = id; not_after = 1000; sig = 0 };
}

abbrev arrival : Placement
arrival = record {
  room = some 2;
  epoch = 10;
  tracks = some (tracks_from 6);
  peers = peer_at 7 6 ∷ [];
}

asks_password : (join clock 7 (some 2) (some 99) locked).1 ≡ ok (pending 2 99 55)
unfolding join enters_another_room session holds_for sweep is_due retain_unfull entry store holds
    refill full get insert has_place room_entry ask_password password_to_enter try_password check
    failures_of no_guesses take_for take can_manage_rooms
asks_password = refl

join_finishes : (finish_join clock 7 2 55 true locked).1 ≡ ok arrival
unfolding finish_join enter enters_another_room password_to_enter session room_entry succeeded
    remove_failures no_guesses take_for sweep is_due retain_unfull entry store take holds refill
    full can_manage_rooms get insert remove contains set_epochs allocate_media_ids write_epoch
    write_epochs place may_enter move allocate_tracks bump_epochs next_epochs next_epoch notify
    announce broadcast_peers relocate set_membership update set_entry_epochs peers others placement
    peer forget_shares keys presence
join_finishes = refl

rejoins : (rejoin clock 7 2 locked).1 ≡ some arrival
unfolding rejoin session room_entry holds_for take_for sweep is_due retain_unfull entry store take
    holds refill full get insert remove contains set_epochs allocate_media_ids write_epoch
    write_epochs place may_enter move allocate_tracks bump_epochs next_epochs next_epoch notify
    announce broadcast_peers relocate set_membership update set_entry_epochs peers others placement
    peer forget_shares keys presence
rejoins = refl

abbrev locked_room : RoomEntry
locked_room = record { epoch = 9; password_hash = some 55; members = [] }

room_found : get 2 locked.rooms ≡ some locked_room
unfolding get
room_found = refl

user_found : get 7 locked.sessions ≡ some (member 7 0)
unfolding get
user_found = refl

outsider : (same_room (some 1) (some 2) || can_manage_rooms (member 7 0).role) ≡ false
unfolding can_manage_rooms
outsider = refl

abbrev at_home : Placement
at_home = record {
  room = some 1;
  epoch = 4;
  tracks = some (tracks_from 0);
  peers = peer_at 7 0 ∷ peer_at 8 3 ∷ [];
}

stays : (join clock 7 (some 1) none locked).1 ≡ ok (done at_home)
unfolding join enters_another_room session holds_for sweep is_due retain_unfull entry store holds
    refill full get insert has_place room_entry ask_password password_to_enter enter_done enter
    take_for take place placement peers peer keys
stays = refl

abbrev first_room : RoomEntry
first_room = record { epoch = 4; password_hash = some 55; members = (7, tt) ∷ (8, tt) ∷ [] }

first_found : get 1 locked.rooms ≡ some first_room
unfolding get
first_found = refl
