-- ===== src/Core.antt =====
-- crates/core/src: addresses (protocol.rs, multiaddr.rs, peer_addr.rs) and the selection of
-- addresses for direct connections (candidates.rs).
pub mod Protocol
pub mod Multiaddr
pub mod PeerAddr
pub mod Candidates
mod Tests
