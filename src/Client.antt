-- ===== src/Client.antt =====
-- crates/throcc-client-core: what the client does with the media it sends and receives.
pub mod Units
pub mod Fragment
pub mod Reorder
pub mod Keys
pub mod Reassembler
