-- ===== src/Autonat.antt =====
-- crates/autonat/src/lib.rs: the AutoNAT messages, frames, client and server.
pub mod Types
pub mod Lossy
pub mod Reader
pub mod PeerInfo
pub mod Dial
pub mod DialResponse
pub mod Message
pub mod Frame
pub mod Flow
pub mod Client
pub mod Server
pub mod Exchange
mod Tests
