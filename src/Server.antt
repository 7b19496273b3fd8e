-- ===== src/Server.antt =====
-- The server of crates/throcc-server.
pub mod Buckets
pub mod Guesses
pub mod Sources
pub mod Gate
pub mod Runs
pub mod Hub
pub mod Keyframes
pub mod AudioQueues
pub mod Queues
