-- ===== src/Relay.antt =====
-- crates/relay/src: Circuit Relay v2, the messages (message.rs) and the client flows (lib.rs).
pub mod Codes
pub mod Flow
pub mod HopReservation
pub mod StopResponder
pub mod HopConnect
pub mod Peer
pub mod Reservation
pub mod Limit
pub mod HopMessage
pub mod StopMessage
mod Tests
