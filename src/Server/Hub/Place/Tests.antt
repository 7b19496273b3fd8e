-- ===== src/Server/Hub/Place/Tests.antt =====
-- The lemmas about moving a user on the hub of Hub/Sample.antt.
use throcc.Prelude.{◌≡◌, refl, Bool, true, false, List, [], ◌∷◌, none, some, ok, err}
use throcc.Prelude.Map.{get, insert, remove, contains}
use throcc.Server.Hub.State.{
  Hub, internal, set_epochs, allocate_media_ids, write_epoch, write_epochs, keys,
}
use throcc.Server.Hub.Place.{
  place, leave_room, Placement, session, may_enter, room_entry, move, allocate_tracks, bump_epochs,
  next_epochs, next_epoch, notify, announce, broadcast_peers, relocate, set_membership, update,
  set_entry_epochs, peers, others, placement, peer, forget_shares, presence,
}
use throcc.Server.Hub.Place.Rooms.{epoch_in, in_room}
use throcc.Server.Hub.Place.Epochs.{Moves, place-Moves, place_refused}
use throcc.Server.Hub.Place.Leave.{in_room-leave_room}
use throcc.Server.Hub.Sample.{tracks_from, member, hub_sample, clock}

abbrev hub_failing : List Bool → Hub
hub_failing = hub_sample none

abbrev hub : Hub
hub = hub_failing []

hub_places : epoch_in (place clock 7 (some 2) hub).0.rooms 2 ≡ some 10
unfolding epoch_in get insert remove contains set_epochs allocate_media_ids write_epoch write_epochs
    place session may_enter room_entry move allocate_tracks bump_epochs next_epochs next_epoch
    notify announce broadcast_peers relocate set_membership update set_entry_epochs peers others
    placement peer forget_shares keys presence
hub_places = refl

abbrev arrival : Placement
arrival = record {
  room = some 2;
  epoch = 10;
  tracks = some (tracks_from 6);
  peers =
      record {
        user = 7;
        tracks = tracks_from 6;
        share = none;
        identity_key = 7;
        encryption_key = record { key = 7; not_after = 1000; sig = 0 };
      }
      ∷ [];
}

hub_arrives : (place clock 7 (some 2) hub).1 ≡ ok arrival
unfolding epoch_in get insert remove contains set_epochs allocate_media_ids write_epoch write_epochs
    place session may_enter room_entry move allocate_tracks bump_epochs next_epochs next_epoch
    notify announce broadcast_peers relocate set_membership update set_entry_epochs peers others
    placement peer forget_shares keys presence
hub_arrives = refl

hub_refuses : (place clock 7 (some 2) (hub_failing (true ∷ []))).1 ≡ err internal
unfolding epoch_in get insert remove contains set_epochs allocate_media_ids write_epoch write_epochs
    place session may_enter room_entry move allocate_tracks bump_epochs next_epochs next_epoch
    notify announce broadcast_peers relocate set_membership update set_entry_epochs peers others
    placement peer forget_shares keys presence
hub_refuses = refl

found : get 7 hub.sessions ≡ some (member 7 0)
unfolding get
found = refl

place-Moves_example : Moves 7 (some 1) (some 2) hub (place clock 7 (some 2) hub).0
place-Moves_example = place-Moves clock 7 (some 2) hub (member 7 0) arrival found refl hub_arrives

place_refused_example :
    ((place clock 7 (some 2) (hub_failing (true ∷ []))).0.rooms ≡ hub.rooms)
    × ((place clock 7 (some 2) (hub_failing (true ∷ []))).0.sessions ≡ hub.sessions)
    × ((place clock 7 (some 2) (hub_failing (true ∷ []))).0.db.epochs ≡ hub.db.epochs)
place_refused_example =
    place_refused clock 7 (some 2) (hub_failing (true ∷ [])) internal hub_refuses

in_room-leave_room_example :
    in_room (leave_room clock 7 (hub_failing (true ∷ []))).sessions 7 1 ≡ false
in_room-leave_room_example = in_room-leave_room clock 7 1 (hub_failing (true ∷ []))
