-- ===== src/Ping/Tests.antt =====
-- The theorems on concrete peers; a peer id is a number here.
use mathlib.Core.List.{flatten}
use minip2p.Prelude.{
  ℕ, ◌-◌, ◌<◌, ◌≡◌, ◌≢◌, refl, arith, List, [], ◌∷◌, none, some, length, replicate, All,
}
use minip2p.Prelude.Maps.{nat_order, get}
use minip2p.Varint.{Bytes}
use minip2p.Ping.Types.{
  send, reset_stream, rtt_measured, payload_mismatch, protocol_violation, PendingPing,
  PeerPingState, PingProtocol, stream_data,
}
use minip2p.Ping.{store, push_event}
use minip2p.Ping.Protocol.{handle_input, on_tick, tick_loop, expired}
use minip2p.Ping.Invariant.{IsSound}
use minip2p.Ping.Safety.{handle_input-IsSound}
use minip2p.Ping.Chunks.{unbuffered, feed}
use minip2p.Ping.Round.{answered, ping_echo, ping_rtt, ping_mismatch}
use minip2p.Ping.Deadline.{KeepsDeadline, on_tick-KeepsDeadline}

abbrev payload : Bytes
payload = replicate 32 5

abbrev pieces : List Bytes
pieces = replicate 10 5 ∷ replicate 22 5 ∷ []

pieces_nonempty : All (λ (c : Bytes). 0 < length c) pieces
pieces_nonempty = (omega arith, (omega arith, tt))

pieces_whole : length (flatten pieces) ≡ 32
unfolding flatten
pieces_whole = refl

pieces_payload : payload ≡ flatten pieces
unfolding flatten
pieces_payload = refl

abbrev request : PendingPing
request = record { payload = payload; sent_at_ms = 100 }

abbrev peer : PeerPingState
peer = record {
  outbound_stream = some 4;
  inbound_streams = (7, tt) ∷ [];
  pending_ping = some request;
  recv_bufs = [];
}

abbrev node : PingProtocol ℕ
node = record {
  peers = (1, peer) ∷ [];
  pending_events = [];
  pending_actions = [];
  config = record { request_timeout_ms = 1000 };
}

node_peer : get node.peers 1 ≡ some peer
unfolding get
node_peer = refl

no_buffer : (get {K = ℕ} {V = Bytes} [] 7 ≡ none) × (get {K = ℕ} {V = Bytes} [] 4 ≡ none)
unfolding get
no_buffer = (refl, refl)

has_inbound : get peer.inbound_streams 7 ≡ some tt
unfolding get
has_inbound = refl

-- The deadline is 100 + 1000.
tick_in_time : (on_tick node 1100).1 ≡ []
unfolding on_tick expired tick_loop
tick_in_time = refl

tick_late : (on_tick node 1101).1 ≡ reset_stream 1 4 ∷ []
unfolding on_tick expired tick_loop
tick_late = refl

ping_echo_example :
    feed 1 7 500 node pieces ≡ (store node 1 (unbuffered peer 7), send 1 7 (flatten pieces) ∷ [])
unfolding get
ping_echo_example =
    ping_echo node 1 7 peer node_peer (no_buffer.0) pieces pieces_nonempty pieces_whole 500 refl
      refl

ping_rtt_example :
    feed 1 4 500 node pieces
    ≡ (push_event (store node 1 (answered peer 4)) (rtt_measured 1 4 (500 - 100)), [])
ping_rtt_example =
    ping_rtt node 1 4 peer node_peer (no_buffer.1) pieces pieces_nonempty pieces_whole 500 request
      refl refl pieces_payload

abbrev others : List Bytes
others = (6 ∷ []) ∷ replicate 31 5 ∷ []

others_nonempty : All (λ (c : Bytes). 0 < length c) others
others_nonempty = (omega arith, (omega arith, tt))

others_whole : length (flatten others) ≡ 32
unfolding flatten
others_whole = refl

others_differ : payload ≢ flatten others
unfolding flatten
others_differ e = cc

ping_mismatch_example : feed 1 4 500 node others ≡ (
  push_event (store node 1 (answered peer 4)) (protocol_violation 1 4 payload_mismatch),
  reset_stream 1 4 ∷ [],
)
ping_mismatch_example =
    ping_mismatch node 1 4 peer node_peer (no_buffer.1) others others_nonempty others_whole 500
      request refl refl others_differ

node-IsSound : IsSound node
node-IsSound = (
  record { has_stream = λ e. refl; sized = refl; few_inbound = omega arith; short_bufs = tt },
  tt,
)

handle_input-IsSound_example : IsSound ((handle_input node (stream_data 1 7 payload 500)).0)
handle_input-IsSound_example = handle_input-IsSound node (stream_data 1 7 payload 500) node-IsSound

-- At 1101 peer 1 is late, and peer 2, which asked at 101, is not.
abbrev two_peers : PingProtocol ℕ
two_peers = record node {
  peers =
      (1, peer)
      ∷ (2, record peer { pending_ping = some (record { payload = payload; sent_at_ms = 101 }) })
      ∷ [];
}

on_tick-KeepsDeadline_example : KeepsDeadline two_peers 1101 (on_tick two_peers 1101)
on_tick-KeepsDeadline_example = on_tick-KeepsDeadline two_peers 1101
