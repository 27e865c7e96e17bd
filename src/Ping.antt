-- ===== src/Ping.antt =====
-- crates/ping/src/lib.rs: the ping protocol, its handlers and the trait methods.
pub mod Types
pub mod Protocol
pub mod Invariant
pub mod Safety
pub mod Chunks
pub mod Round
pub mod Deadline
mod Tests
use minip2p.Prelude.{
  ℕ, ◌+◌, ◌-◌, Bool, true, false, not, ◌&&◌, ◌||◌, List, [], ◌∷◌, ◌++◌, Option, none, some, ltb,
  leb, ◌==◌, if◌then◌else◌, length,
}
use minip2p.Prelude.Maps.{Order, nat_order, Map, get, insert, remove}
use minip2p.Prelude.Result.{Result, ok, err, ◌>>=◌}
use minip2p.Varint.{Bytes}
use minip2p.Multistream.Utf8.{bytes_eq}
use minip2p.Ping.Types.{
  ping_payload_len, StreamId, PingConfig, PingAction, send, close_stream_write, reset_stream,
  Reason, unknown_stream, exceeds_payload, no_request, payload_mismatch, closed_before_response,
  PingEvent, outbound_stream_registered, inbound_stream_accepted, rtt_measured, timeout,
  outbound_stream_closed, stream_limit_exceeded, protocol_violation, PingInput, register_outbound,
  register_inbound, send_ping_input, close_outbound_write, stream_data, stream_remote_write_closed,
  stream_closed, forget_peer, move_peer, tick, PingOutput, action, event, PingError,
  outbound_stream_exists, outbound_stream_missing, ping_already_in_flight, invalid_payload_length,
  PendingPing, PeerPingState, default, PingProtocol,
}

abbrev pub is_some {ℓ} : {A : Type ℓ} → Option A → Bool
is_some none = false
is_some (some a) = true

abbrev pub is_stream : Option StreamId → StreamId → Bool
is_stream none s = false
is_stream (some s') s = s' == s

abbrev pub or_else {ℓ} : {A : Type ℓ} → Option A → A → A
or_else none a = a
or_else (some b) a = b

abbrev pub is_known : PeerPingState → StreamId → Bool
is_known peer stream_id =
    is_stream peer.outbound_stream stream_id || is_some (get peer.inbound_streams stream_id)

module _ {P : Type 0} ⦃o : Order P⦄ where
  unfoldable pub new : PingConfig → PingProtocol P
  new config = record { peers = []; pending_events = []; pending_actions = []; config = config }

  abbrev pub store : PingProtocol P → P → PeerPingState → PingProtocol P
  store m peer_id peer = record m { peers = insert m.peers peer_id peer }

  abbrev pub push_event : PingProtocol P → PingEvent P → PingProtocol P
  push_event m e = record m { pending_events = m.pending_events ++ (e ∷ []) }

  -- `protocol_violation`: the event and the reset.
  abbrev pub violate : PingProtocol P → P → StreamId → Reason → PingProtocol P × List (PingAction P)
  violate m peer_id stream_id reason = (
    push_event m (protocol_violation peer_id stream_id reason),
    reset_stream peer_id stream_id ∷ [],
  )

  register_on :
      Option StreamId
      → PingProtocol P
      → P
      → PeerPingState
      → StreamId
      → PingProtocol P × Result (PingError P) (Unit {0})
  register_on (some existing) m peer_id peer stream_id =
      if not (existing == stream_id)
      then (m, err (outbound_stream_exists peer_id existing))
      else (m, ok tt)
  register_on none m peer_id peer stream_id = (
    push_event (store m peer_id (record peer { outbound_stream = some stream_id }))
        (outbound_stream_registered peer_id stream_id),
    ok tt,
  )

  -- `entry(..).or_default()` leaves an entry on every branch.
  unfoldable pub register_outbound_stream :
      PingProtocol P → P → StreamId → PingProtocol P × Result (PingError P) (Unit {0})
  unfolding register_on
  register_outbound_stream m peer_id stream_id =
      let peer = or_else (get m.peers peer_id) default in
      register_on peer.outbound_stream (store m peer_id peer) peer_id peer stream_id

  unfoldable pub register_inbound_stream :
      PingProtocol P → P → StreamId → PingProtocol P × List (PingAction P)
  register_inbound_stream m peer_id stream_id =
      let peer = or_else (get m.peers peer_id) default in
      let m = store m peer_id peer in
      if is_some (get peer.inbound_streams stream_id)
      then (m, [])
      else if leb 2 (length peer.inbound_streams)
      then (
        push_event m (stream_limit_exceeded peer_id stream_id 2),
        reset_stream peer_id stream_id ∷ [],
      )
      else (
        push_event
            (store m peer_id
              (record peer { inbound_streams = insert peer.inbound_streams stream_id tt }))
            (inbound_stream_accepted peer_id stream_id),
        [],
      )

  pub idle_on :
      Option StreamId
      → Option PendingPing
      → P
      → PeerPingState
      → Result (PingError P) (PeerPingState × StreamId)
  idle_on none pending peer_id peer = err (outbound_stream_missing peer_id)
  idle_on (some stream_id) none peer_id peer = ok (peer, stream_id)
  idle_on (some stream_id) (some pending) peer_id peer =
      err (ping_already_in_flight peer_id stream_id)

  -- The peer with its outbound stream when no ping is in flight, for the two handlers that need it.
  unfoldable pub idle_outbound :
      PingProtocol P → P → Result (PingError P) (PeerPingState × StreamId)
  unfolding idle_on
  idle_outbound m peer_id = elim (get m.peers peer_id) [
    | none ↦ err (outbound_stream_missing peer_id)
    | some peer ↦ idle_on peer.outbound_stream peer.pending_ping peer_id peer
  ]

  unfoldable pub send_ping :
      PingProtocol P → P → Bytes → ℕ → Result (PingError P) (PingProtocol P × PingAction P)
  send_ping m peer_id payload now_ms =
      if not (length payload == ping_payload_len)
      then err (invalid_payload_length (length payload))
      else do
        (peer, stream_id) ← idle_outbound m peer_id
        let pending : PendingPing = record { payload = payload; sent_at_ms = now_ms }
        ok (
          store m peer_id (record peer { pending_ping = some pending }),
          send peer_id stream_id payload,
        )

  unfoldable pub close_outbound_stream_write :
      PingProtocol P → P → Result (PingError P) (PingProtocol P × PingAction P)
  close_outbound_stream_write m peer_id = do
    (peer, stream_id) ← idle_outbound m peer_id
    ok (m, close_stream_write peer_id stream_id)

  on_response :
      Option PendingPing
      → PingProtocol P
      → P
      → StreamId
      → Bytes
      → ℕ
      → PingProtocol P × List (PingAction P)
  on_response none m peer_id stream_id payload now_ms = violate m peer_id stream_id no_request
  on_response (some pending) m peer_id stream_id payload now_ms =
      if not (bytes_eq pending.payload payload)
      then violate m peer_id stream_id payload_mismatch
      else (push_event m (rtt_measured peer_id stream_id (now_ms - pending.sent_at_ms)), [])

  unfoldable pub process_complete_payload :
      PingProtocol P
      → P
      → PeerPingState
      → StreamId
      → Bytes
      → ℕ
      → PingProtocol P × List (PingAction P)
  unfolding on_response
  process_complete_payload m peer_id peer stream_id payload now_ms =
      if is_stream peer.outbound_stream stream_id
      then on_response peer.pending_ping (store m peer_id (record peer { pending_ping = none }))
          peer_id stream_id payload now_ms
      else if is_some (get peer.inbound_streams stream_id)
      then (m, send peer_id stream_id payload ∷ [])
      else (m, [])

  -- `buf` is the stream's buffer with the new data.
  unfoldable pub on_buffered :
      PingProtocol P
      → P
      → PeerPingState
      → StreamId
      → Bytes
      → ℕ
      → PingProtocol P × List (PingAction P)
  on_buffered m peer_id peer stream_id buf now_ms =
      let without = record peer { recv_bufs = remove peer.recv_bufs stream_id } in
      if ltb ping_payload_len (length buf)
      then violate (store m peer_id without) peer_id stream_id (exceeds_payload (length buf))
      else if ltb (length buf) ping_payload_len
      then (store m peer_id (record peer { recv_bufs = insert peer.recv_bufs stream_id buf }), [])
      else process_complete_payload (store m peer_id without) peer_id without stream_id buf now_ms

  unfoldable pub on_stream_data :
      PingProtocol P → P → StreamId → Bytes → ℕ → PingProtocol P × List (PingAction P)
  unfolding on_buffered
  on_stream_data m peer_id stream_id bytes now_ms = elim (get m.peers peer_id) [
    | none ↦ violate m peer_id stream_id unknown_stream
    | some peer ↦
        if is_known peer stream_id
        then on_buffered m peer_id peer stream_id
            (or_else (get peer.recv_bufs stream_id) [] ++ bytes) now_ms
        else violate m peer_id stream_id unknown_stream
  ]
