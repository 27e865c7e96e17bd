-- ===== src/Dcutr.antt =====
-- crates/dcutr/src: direct connection upgrade through relay, its message (message.rs) and the two
-- flows (lib.rs).
pub mod HolePunch
pub mod Flow
pub mod Initiator
pub mod Responder
pub mod Exchange
mod Tests
