-- ===== src/Server/Hub/Sample.antt =====
-- Two rooms and two users, both in the first, to run the hub on.
use throcc.Prelude.{ℕ, ◌+◌, ◌≡◌, Bool, true, false, Option, arith, List, [], ◌∷◌, none, some, arith}
use throcc.Prelude.Map.{get, contains}
use throcc.Proto.Permissions.{user}
use throcc.Server.Buckets.{Buckets}
use throcc.Server.Guesses.{no_guesses}
use throcc.Server.Hub.State.{Session, Hub, Clock, Tracks}
use throcc.Server.Hub.Place.Rooms.{epoch_in, in_room, member_in, size_in}
use throcc.Server.Hub.Place.Steps.{IsConsistent, is_tracked}

abbrev pub tracks_from : ℕ → Tracks
tracks_from n = record { mic = n; shares = record { video = n + 1; audio = n + 2 } ∷ [] }

abbrev pub member : ℕ → ℕ → Session
member id track = record {
  conn_id = id;
  id = id;
  pubkey = id;
  name = 0;
  avatar = none;
  role = user;
  encryption_key = some (record { key = id; not_after = 1000; sig = 0 });
  room = some 1;
  tracks = some (tracks_from track);
  media = record { mic = true; deafened = false; share = none };
  watching = [];
}

abbrev pub no_buckets : Buckets
no_buckets = record {
  rate = record { unit = 1; capacity = 5; refilled = 1 };
  buckets = [];
  next_sweep = none;
}

abbrev pub hub_sample : Option ℕ → List Bool → Hub
hub_sample hash faults = record {
  db = record {
    epochs = (1, 4) ∷ (2, 9) ∷ [];
    next_media_id = 6;
    users = [];
    last_seen = [];
    faults = faults;
  };
  sessions = (7, member 7 0) ∷ (8, member 8 3) ∷ [];
  rooms =
      (1, record { epoch = 4; password_hash = hash; members = (7, tt) ∷ (8, tt) ∷ [] })
      ∷ (2, record { epoch = 9; password_hash = hash; members = [] })
      ∷ [];
  next_conn = 8;
  keyframes = [];
  password_tries = no_buckets;
  guesses = no_guesses;
  room_changes = no_buckets;
  rejoins = no_buckets;
  share_changes = no_buckets;
  last_joined = [];
  sent = [];
}

abbrev pub clock : Clock
clock = record { unix = 100; instant = 0 }

hub_agrees :
    (hash : Option ℕ) (faults : List Bool) (room v : ℕ)
    → member_in (hub_sample hash faults).rooms room v
      ≡ in_room (hub_sample hash faults).sessions v room
unfolding member_in in_room get contains
hub_agrees hash faults room v = ground arith

pub hub-IsConsistent :
    (hash : Option ℕ) (faults : List Bool) → IsConsistent (hub_sample hash faults)
unfolding is_tracked size_in epoch_in get
hub-IsConsistent hash faults = record {
  agree = hub_agrees hash faults;
  tracked = λ v. ground arith;
  within = λ room. ground arith;
  stored = λ room. ground arith;
}
