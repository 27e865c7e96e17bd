-- ===== src/Ping/Types.antt =====
-- crates/ping/src/lib.rs: the data of the ping protocol. `PeerId` is a third-party multihash in a
-- struct, and a parameter `P` here; a stream id is its number.
use minip2p.Prelude.{ℕ, Option, none, List, []}
use minip2p.Prelude.Maps.{Map}
use minip2p.Varint.{Bytes}

abbrev pub ping_payload_len : ℕ
ping_payload_len = 32

abbrev pub StreamId : Type 0
StreamId = ℕ

pub record PingConfig : Type 0 where
  pub request_timeout_ms : ℕ

pub data PingAction (P : Type 0) : Type 0 where
  send : (peer_id : P) (stream_id : StreamId) (bytes : Bytes) → PingAction P
  close_stream_write : (peer_id : P) (stream_id : StreamId) → PingAction P
  reset_stream : (peer_id : P) (stream_id : StreamId) → PingAction P

-- The texts of the violations, in the order of the source.
pub data Reason : Type 0 where
  unknown_stream : Reason
  exceeds_payload : (buf_len : ℕ) → Reason
  no_request payload_mismatch closed_before_response : Reason

pub data PingEvent (P : Type 0) : Type 0 where
  outbound_stream_registered : (peer_id : P) (stream_id : StreamId) → PingEvent P
  inbound_stream_accepted : (peer_id : P) (stream_id : StreamId) → PingEvent P
  rtt_measured : (peer_id : P) (stream_id : StreamId) (rtt_ms : ℕ) → PingEvent P
  timeout : (peer_id : P) (stream_id : StreamId) (timeout_ms : ℕ) → PingEvent P
  outbound_stream_closed : (peer_id : P) (stream_id : StreamId) → PingEvent P
  stream_limit_exceeded : (peer_id : P) (stream_id : StreamId) (limit : ℕ) → PingEvent P
  protocol_violation : (peer_id : P) (stream_id : StreamId) (reason : Reason) → PingEvent P

pub data PingInput (P : Type 0) : Type 0 where
  register_outbound : (peer_id : P) (stream_id : StreamId) → PingInput P
  register_inbound : (peer_id : P) (stream_id : StreamId) → PingInput P
  send_ping_input : (peer_id : P) (payload : Bytes) (now_ms : ℕ) → PingInput P
  close_outbound_write : (peer_id : P) → PingInput P
  stream_data : (peer_id : P) (stream_id : StreamId) (bytes : Bytes) (now_ms : ℕ) → PingInput P
  stream_remote_write_closed : (peer_id : P) (stream_id : StreamId) → PingInput P
  stream_closed : (peer_id : P) (stream_id : StreamId) → PingInput P
  forget_peer : (peer_id : P) → PingInput P
  move_peer : (old_peer_id new_peer_id : P) → PingInput P
  tick : (now_ms : ℕ) → PingInput P

pub data PingOutput (P : Type 0) : Type 0 where
  action : PingAction P → PingOutput P
  event : PingEvent P → PingOutput P

pub data PingError (P : Type 0) : Type 0 where
  outbound_stream_exists : (peer_id : P) (existing_stream : StreamId) → PingError P
  outbound_stream_missing : (peer_id : P) → PingError P
  ping_already_in_flight : (peer_id : P) (stream_id : StreamId) → PingError P
  invalid_payload_length : (actual : ℕ) → PingError P

pub record PendingPing : Type 0 where
  pub payload : Bytes
  pub sent_at_ms : ℕ

pub record PeerPingState : Type 0 where
  pub outbound_stream : Option StreamId
  pub inbound_streams : Map StreamId (Unit {0})
  pub pending_ping : Option PendingPing
  pub recv_bufs : Map StreamId Bytes

abbrev pub default : PeerPingState
default = record {
  outbound_stream = none;
  inbound_streams = [];
  pending_ping = none;
  recv_bufs = [];
}

pub record PingProtocol (P : Type 0) : Type 0 where
  pub peers : Map P PeerPingState
  pub pending_events : List (PingEvent P)
  pub pending_actions : List (PingAction P)
  pub config : PingConfig
