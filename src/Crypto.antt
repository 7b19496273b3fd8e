-- ===== src/Crypto.antt =====
-- crates/throcc-crypto: the encryption of media.
pub mod Media
