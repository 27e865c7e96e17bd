-- ===== src/Ping/Protocol.antt =====
-- crates/ping/src/lib.rs: the ends of streams, peers and time, and the trait methods.
use minip2p.Prelude.{
  ℕ, ◌-◌, Bool, true, false, ◌&&◌, List, [], ◌∷◌, ◌++◌, map, Option, none, some, ltb, if◌then◌else◌,
}
use minip2p.Prelude.Maps.{Order, nat_order, Map, get, insert, remove}
use minip2p.Prelude.Result.{Result, ok, err}
use minip2p.Ping.Types.{
  StreamId, PingAction, reset_stream, closed_before_response, PingEvent, outbound_stream_registered,
  inbound_stream_accepted, rtt_measured, timeout, outbound_stream_closed, stream_limit_exceeded,
  protocol_violation, PingInput, register_outbound, register_inbound, send_ping_input,
  close_outbound_write, stream_data, stream_remote_write_closed, stream_closed, forget_peer,
  move_peer, tick, PingOutput, action, event, PingError, PeerPingState, PingProtocol,
}
use minip2p.Ping.{
  is_some, is_stream, store, push_event, violate, register_outbound_stream, register_inbound_stream,
  send_ping, close_outbound_stream_write, on_stream_data,
}

abbrev pub without_outbound : PeerPingState → StreamId → PeerPingState
without_outbound peer stream_id = record peer {
  pending_ping = none;
  outbound_stream = none;
  recv_bufs = remove peer.recv_bufs stream_id;
}

abbrev pub closed_peer : PeerPingState → StreamId → PeerPingState
closed_peer peer stream_id =
    let peer : PeerPingState = record peer {
      inbound_streams = remove peer.inbound_streams stream_id;
      recv_bufs = remove peer.recv_bufs stream_id;
    } in
    if is_stream peer.outbound_stream stream_id
    then record peer { outbound_stream = none; pending_ping = none }
    else peer

-- The peer is past its deadline: the stream to reset.
unfoldable pub expired : ℕ → ℕ → PeerPingState → Option StreamId
expired limit now_ms peer = elim (peer.outbound_stream) [
  | none ↦ none
  | some stream_id ↦ elim (peer.pending_ping) [
    | none ↦ none
    | some pending ↦ if ltb limit (now_ms - pending.sent_at_ms) then some stream_id else none
  ]
]

abbrev pub is_nil {ℓ} : {A : Type ℓ} → List A → Bool
is_nil [] = true
is_nil (a ∷ rest) = false

module _ {P : Type 0} ⦃o : Order P⦄ where
  unfoldable pub close_on :
      PingProtocol P → P → PeerPingState → StreamId → PingProtocol P × List (PingAction P)
  close_on m peer_id peer stream_id =
      let m' = store m peer_id (without_outbound peer stream_id) in
      if is_some (get peer.inbound_streams stream_id)
      then (
        store m peer_id (record peer {
          inbound_streams = remove peer.inbound_streams stream_id;
          recv_bufs = remove peer.recv_bufs stream_id;
        }),
        [],
      )
      else if is_stream peer.outbound_stream stream_id
      then (if is_some peer.pending_ping
          then violate m' peer_id stream_id closed_before_response
          else (push_event m' (outbound_stream_closed peer_id stream_id), []))
      else (m, [])

  unfoldable pub on_stream_remote_write_closed :
      PingProtocol P → P → StreamId → PingProtocol P × List (PingAction P)
  unfolding close_on
  on_stream_remote_write_closed m peer_id stream_id = elim (get m.peers peer_id) [
    | none ↦ (m, [])
    | some peer ↦ close_on m peer_id peer stream_id
  ]

  unfoldable pub on_stream_closed : PingProtocol P → P → StreamId → PingProtocol P
  on_stream_closed m peer_id stream_id = elim (get m.peers peer_id) [
    | none ↦ m
    | some peer ↦ store m peer_id (closed_peer peer stream_id)
  ]

  unfoldable pub remove_peer : PingProtocol P → P → PingProtocol P
  remove_peer m peer_id = record m { peers = remove m.peers peer_id }

  renamed : P → P → P → P
  renamed old new peer_id = if o.same peer_id old then new else peer_id

  rename_event : P → P → PingEvent P → PingEvent P
  unfolding renamed
  rename_event old new (outbound_stream_registered p s) =
      outbound_stream_registered (renamed old new p) s
  rename_event old new (inbound_stream_accepted p s) = inbound_stream_accepted (renamed old new p) s
  rename_event old new (rtt_measured p s t) = rtt_measured (renamed old new p) s t
  rename_event old new (timeout p s t) = timeout (renamed old new p) s t
  rename_event old new (outbound_stream_closed p s) = outbound_stream_closed (renamed old new p) s
  rename_event old new (stream_limit_exceeded p s l) = stream_limit_exceeded (renamed old new p) s l
  rename_event old new (protocol_violation p s r) = protocol_violation (renamed old new p) s r

  abbrev pub moved : Map P PeerPingState → P → P → Map P PeerPingState
  moved peers old new = elim (get peers old) [
    | none ↦ peers
    | some state ↦ insert (remove peers old) new state
  ]

  unfoldable pub migrate_peer : PingProtocol P → P → P → PingProtocol P
  unfolding rename_event
  migrate_peer m old new = if o.same old new then m else record m {
    peers = moved m.peers old new;
    pending_events = map (rename_event old new) m.pending_events;
  }

  -- The loop of `on_tick`, with the peers that it has passed, and its events and actions.
  unfoldable pub tick_loop :
      ℕ → ℕ → Map P PeerPingState → Map P PeerPingState × (List (PingEvent P) × List (PingAction P))
  tick_loop limit now_ms [] = ([], ([], []))
  tick_loop limit now_ms ((peer_id, peer) ∷ rest) =
      let (peers, (events, actions)) = tick_loop limit now_ms rest in
      elim (expired limit now_ms peer) [
        | none ↦ ((peer_id, peer) ∷ peers, (events, actions))
        | some stream_id ↦ (
          (peer_id, without_outbound peer stream_id) ∷ peers,
          (
            timeout peer_id stream_id limit ∷ outbound_stream_closed peer_id stream_id ∷ events,
            reset_stream peer_id stream_id ∷ actions,
          ),
        )
      ]

  unfoldable pub on_tick : PingProtocol P → ℕ → PingProtocol P × List (PingAction P)
  unfolding tick_loop
  on_tick m now_ms =
      let (peers, (events, actions)) = tick_loop m.config.request_timeout_ms now_ms m.peers in
      (record m { peers = peers; pending_events = m.pending_events ++ events }, actions)

  abbrev pub queue :
      PingProtocol P × List (PingAction P) → PingProtocol P × Result (PingError P) (Unit {0})
  queue (m, actions) = (record m { pending_actions = m.pending_actions ++ actions }, ok tt)

  -- An error leaves the state as it was.
  abbrev pub queue_one :
      PingProtocol P
      → Result (PingError P) (PingProtocol P × PingAction P)
      → PingProtocol P × Result (PingError P) (Unit {0})
  queue_one m (err e) = (m, err e)
  queue_one m (ok (m', a)) = queue (m', a ∷ [])

  unfoldable pub handle_input :
      PingProtocol P → PingInput P → PingProtocol P × Result (PingError P) (Unit {0})
  handle_input m (register_outbound p s) = register_outbound_stream m p s
  handle_input m (register_inbound p s) = queue (register_inbound_stream m p s)
  handle_input m (send_ping_input p payload now_ms) = queue_one m (send_ping m p payload now_ms)
  handle_input m (close_outbound_write p) = queue_one m (close_outbound_stream_write m p)
  handle_input m (stream_data p s bytes now_ms) = queue (on_stream_data m p s bytes now_ms)
  handle_input m (stream_remote_write_closed p s) = queue (on_stream_remote_write_closed m p s)
  handle_input m (stream_closed p s) = (on_stream_closed m p s, ok tt)
  handle_input m (forget_peer p) = (remove_peer m p, ok tt)
  handle_input m (move_peer old new) = (migrate_peer m old new, ok tt)
  handle_input m (tick now_ms) = queue (on_tick m now_ms)

  poll_event : List (PingEvent P) → PingProtocol P → PingProtocol P × Option (PingOutput P)
  poll_event [] m = (m, none)
  poll_event (e ∷ es) m = (record m { pending_events = es }, some (event e))

  poll_action : List (PingAction P) → PingProtocol P → PingProtocol P × Option (PingOutput P)
  unfolding poll_event
  poll_action [] m = poll_event m.pending_events m
  poll_action (a ∷ as') m = (record m { pending_actions = as' }, some (action a))

  unfoldable pub poll_output : PingProtocol P → PingProtocol P × Option (PingOutput P)
  unfolding poll_action
  poll_output m = poll_action m.pending_actions m

  unfoldable pub is_idle : PingProtocol P → Bool
  is_idle m = is_nil m.pending_actions && is_nil m.pending_events
