-- ===== src/Proto.antt =====
-- The wire types of crates/throcc-proto.
pub mod Frame
pub mod Framing
pub mod Permissions
pub mod Invite
pub mod Fingerprint
