-- ===== src/Server/Hub.antt =====
-- crates/throcc-server/src/rooms.rs: the `Hub`, which owns rooms, membership and sessions.
pub mod State
pub mod Place
pub mod Join
pub mod Requests
pub mod Connect
mod Sample
