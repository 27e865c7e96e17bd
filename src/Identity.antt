-- ===== src/Identity.antt =====
-- crates/identity/src: peer ids (peer_id.rs), keys and signed payloads (key.rs, ed25519.rs, signed.rs). Its
-- varints are Varint.
pub mod Base32
pub mod Base58
pub mod PeerId
pub mod PublicKey
pub mod Sample
pub mod Signed
pub mod Text
mod Tests
