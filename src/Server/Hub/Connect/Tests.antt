-- ===== src/Server/Hub/Connect/Tests.antt =====
-- A run: two users sign in, one joins a room and is put out of it by a lost connection.
use throcc.Prelude.{ℕ, [], ◌∷◌, none, some}
use throcc.Proto.Permissions.{user}
use throcc.Server.Hub.State.{UserRow, Database, Hub}
use throcc.Server.Hub.Place.Steps.{IsConsistent}
use throcc.Server.Hub.Sample.{clock}
use throcc.Server.Hub.Join.{join}
use throcc.Server.Hub.Requests.{disconnect}
use throcc.Server.Hub.Connect.{connect, new_hub}
use throcc.Server.Hub.Connect.Reach.{
  Reach, starts, later, connects, joins, disconnects, Reach-IsConsistent,
}

abbrev row : ℕ → UserRow
row key = record {
  pubkey = key;
  name = 0;
  avatar = none;
  role = user;
  encryption_key = some (record { key = key; not_after = 1000; sig = 0 });
}

abbrev db : Database
db = record {
  epochs = (1, 4) ∷ [];
  next_media_id = 1;
  users = (7, row 70) ∷ (8, row 80) ∷ [];
  last_seen = [];
  faults = [];
}

abbrev signed_in : Hub
signed_in = (connect clock 8 80 none (connect clock 7 70 none (new_hub [] db)).0).0

abbrev after : Hub
after = disconnect clock 7 1 (join clock 7 (some 1) none signed_in).0

run : Reach [] db after
run =
    later
      (later (later (later starts (connects clock 7 70 none)) (connects clock 8 80 none))
        (joins clock 7 (some 1) none))
      (disconnects clock 7 1)

Reach-IsConsistent_example : IsConsistent after
Reach-IsConsistent_example = Reach-IsConsistent run
