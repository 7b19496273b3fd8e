-- ===== src/Lib.antt =====
-- throcc, a self-hosted voice and screen-sharing program: a server that places users in rooms
-- and forwards their media, and clients that send and receive it. This library models parts of
-- the wire protocol (crates/throcc-proto), of the server (crates/throcc-server), of the client
-- (crates/throcc-client-core) and of the cryptography (crates/throcc-crypto).
--
-- Proto.Frame        crates/throcc-proto/src/frame.rs: the 13-byte header of a media datagram.
-- Proto.Framing      crates/throcc-proto/src/framing.rs: frames of the control stream. The
--                    coding of a body (the crate postcard) is a parameter.
-- Proto.Permissions  crates/throcc-proto/src/permissions.rs, and `Role` of ids.rs.
-- Proto.Invite       crates/throcc-proto/src/invite.rs: invite codes.
-- Proto.Fingerprint  crates/throcc-proto/src/fingerprint.rs: showing and reading a SHA-256.
-- Server.Buckets     crates/throcc-server/src/limits.rs: `TokenBucket` and `Buckets`, which the
--                    hub asks before it does what a user requests.
-- Server.Sources     crates/throcc-server/src/limits.rs: `SourceKey`, an address as a source,
--                    with its network and region.
-- Server.Gate        crates/throcc-server/src/limits.rs: `Gate`, how many are let in at once. Its
--                    child Holders has the passes that are held as a list.
-- Server.Runs        crates/throcc-server/src/limits.rs: `RunWindow` and `SourceLimiter`. Its child
--                    Reference has a limiter that forgets nothing.
-- Server.Guesses     crates/throcc-server/src/room_password.rs: wrong guesses at passwords.
-- Server.Keyframes   crates/throcc-server/src/sfu.rs: `KeyframeAggregator`. Its children have runs of
--                    requests and looks of the timer (Laws, Once).
-- Server.AudioQueues crates/throcc-server/src/egress.rs: `AudioQueues`, the audio that waits for one
--                    receiver. Its children have the balance of its counts (Balance), the states
--                    that are reached (Reached) and what a full one drops (Drops).
-- Server.Queues      crates/throcc-server/src/egress.rs: `Queues`, audio and video for one receiver. Its
--                    children have the units that come and leave (Units), `enforce_budget`
--                    (Budget) and `pop` (Sending).
-- Server.Hub         crates/throcc-server/src/rooms.rs: the state of the hub (Hub.State) and
--                    `place` and `leave_room` with all they call (Hub.Place), `join`,
--                    `finish_join`, `enter` and `rejoin` (Hub.Join), `set_media`,
--                    `publish_key`, `kick_from_room`, `delete_room`, `disconnect` and `evict`
--                    (Hub.Requests), `new` and `connect` (Hub.Connect), whose child Reach has
--                    these as the steps of a run. `Role` comes from
--                    Proto.Permissions, the buckets from Server.Buckets and the guesses from
--                    Server.Guesses. Hub.Sample is a small hub for the tests.
-- Client.Fragment    crates/throcc-client-core/src/media/fragment.rs: `fragment`, which cuts a unit for
--                    datagrams. Its children Arrivals, Waiting, Delivered and Arrived have it with
--                    the reassembler.
-- Client.Reassembler crates/throcc-client-core/src/media/fragment.rs: `Reassembler`, units from
--                    fragments that arrive in any order. Its children have the runs of numbers
--                    (Spans, Joins, Inserted, Cuts, Forgets), the searches in sets (Ranges) and
--                    the states that are reached (Reached, Pushed), and pushes while a fragment
--                    is missing (Partial).
-- Client.Keys        crates/throcc-client-core/src/keys.rs: `KeyManager`, the sender secrets of a room by
--                    epoch. Its children have the trusted peers (Trust), our secret and those of
--                    the peers (Secrets), presences, room states and placements (Rooms), and the
--                    operations as the steps of a history (Steps). HPKE, signatures and the
--                    derivation of track keys are the parameter `Crypto`; random secrets are
--                    arguments.
-- Client.Reorder     crates/throcc-client-core/src/media/reorder.rs: `Reorder`, which takes the units
--                    that a reassembler emits (Client.Units).
-- Crypto.Media       crates/throcc-crypto/src/media.rs: `seal` and `open` (here `open_datagram`) of
--                    `TrackKey`. The cipher is a parameter.
--
-- Correspondence. A struct is a record and an enum a data type with the source's names, in lower
-- case for fields and constructors. Ids, keys, hashes and texts that are only stored and compared
-- are numbers, as are bytes, u32s and `Instant`s (in nanoseconds); what a machine type bounds
-- stands as a hypothesis, and wrapping arithmetic has its modulus. A `char` is its code point.
-- HashMap, BTreeMap and BTreeSet are lists in the order of keys (Prelude.Map), or in the order in
-- which keys were put in (Prelude.Table). A method that changes the hub takes the hub and returns
-- the new one with its result; `Refusal` is its `ErrorCode`, without the message. A time is
-- passed in where the source reads a clock.
--
-- The database is the tables that these operations use, with a list of outcomes of the
-- transactions to come, so that each may fail; one that fails changes nothing. What the hub sends
-- is the list `sent`, of events with their receivers. `rebuild_routes` is the event
-- `routes_rebuilt`: the forwarding table and the audiences it computes are not modelled.
--
-- Bounds. Tokens are counted exactly, in units of which a whole number is refilled each
-- nanosecond, where the source uses f64, which rounds in each refill, those of a sweep included;
-- so near the edge of a token its answers may differ from the model's. Two kinds of loop take fuel:
-- that of `fragment`, as much as there are bytes, since each round takes one at least, and those of
-- `enforce_budget`, as much as there are units, since each round drops one. All others recurse on
-- their lists or on a number of rounds.
--
-- Not modelled: the other requests of the hub (profiles, roles, invites, watching, creating
-- rooms), signing in before `connect`, the rest of the forwarding of media, the rest of the
-- clients, QUIC and TLS, tokio tasks, SQLite itself, Argon2 and SHA-256, the user interfaces,
-- capture and codecs, HKDF, HPKE and AES-GCM themselves, and the vendored crates under third_party.
pub mod Prelude
pub mod Proto
pub mod Server
pub mod Client
pub mod Crypto
