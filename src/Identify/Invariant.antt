-- ===== src/Identify/Invariant.antt =====
-- What every reachable state of the identify protocol keeps: no receive buffer is over the limit.
use minip2p.Prelude.{
  ◌≤◌, ◌≡◌, refl, arith, List, [], ◌++◌, Option, none, some, length, ltb, not, ◌&&◌, All, inl, inr,
  Option-cases, Bool-cases,
}
use minip2p.Prelude.Maps.{
  Order, nat_order, Map, get, insert, remove, All-insert, All-remove, All-get,
}
use minip2p.Prelude.Result.{Result, ok, err}
use minip2p.Varint.{Bytes}
use minip2p.Identity.PeerId.{Multihash, PeerId}
use minip2p.Core.Multiaddr.{Multiaddr}
use minip2p.Ping.{is_some, or_else}
use minip2p.Identify.Types.{
  max_message_size, StreamId, IdentifyProtocol, IdentifyInput, IdentifyAction, IdentifyError,
  register_outbound, register_inbound, stream_data, stream_remote_write_closed, stream_closed,
  forget_peer, move_peer, PeerIdentifyState, default,
}
use minip2p.Identify.{
  is_empty, store, queue_ok, register_outbound_stream, register_inbound_stream, on_inbound,
  on_peer_data, on_stream_data, close_inbound, close_peer_stream, kept,
  on_stream_remote_write_closed, without_stream, close_stream, on_stream_closed, remove_peer, moved,
  migrate_peer, handle_input,
}

abbrev pub IsShort : StreamId × Bytes → Type 0
IsShort e = length (e.1) ≤ max_message_size

abbrev pub PeerIsBounded : PeerIdentifyState → Type 0
PeerIsBounded state = All IsShort state.inbound_streams

or_default-IsBounded :
    (s : Option PeerIdentifyState)
    → ((state : PeerIdentifyState) → s ≡ some state → PeerIsBounded state)
    → PeerIsBounded (or_else s default)
or_default-IsBounded none h = tt
or_default-IsBounded (some state) h = h state refl

buffer_known :
    (streams : Map StreamId Bytes) (s : StreamId)
    → All IsShort streams
    → IsShort (s, or_else (get streams s) [])
buffer_known streams s h = elim (Option-cases (get streams s)) [
  | inl e ↦ rw e (omega arith)
  | inr (buf, e) ↦ rw e (All-get (λ (b : Bytes). length b ≤ max_message_size) streams s buf h e)
]

module _ {H : Type 0} ⦃m : Multihash H⦄ ⦃o : Order (PeerId H)⦄ where
  abbrev Entry : PeerId H × PeerIdentifyState → Type 0
  Entry e = PeerIsBounded (e.1)

  abbrev pub IsBounded : IdentifyProtocol H → Type 0
  IsBounded p = All Entry p.peers

  store-IsBounded :
      (p : IdentifyProtocol H) (peer_id : PeerId H) (state : PeerIdentifyState)
      → IsBounded p
      → PeerIsBounded state
      → IsBounded (store p peer_id state)
  store-IsBounded p peer_id state h b = All-insert Entry p.peers peer_id state h b

  known-IsBounded :
      (p : IdentifyProtocol H) (peer_id : PeerId H)
      → IsBounded p
      → PeerIsBounded (or_else (get p.peers peer_id) default)
  known-IsBounded p peer_id h =
      or_default-IsBounded (get p.peers peer_id)
        (λ state e. All-get PeerIsBounded p.peers peer_id state h e)

  register_outbound-IsBounded :
      (p : IdentifyProtocol H) (peer_id : PeerId H) (s : StreamId) (seen : Option (Multiaddr H))
      (addrs : List (Multiaddr H))
      → IsBounded p
      → IsBounded (register_outbound_stream p peer_id s seen addrs).0
  unfolding register_outbound_stream
  register_outbound-IsBounded p peer_id s seen addrs h =
      let state = or_else (get p.peers peer_id) default in
      let b = known-IsBounded p peer_id h in
      elim (Bool-cases (is_some state.outbound_stream)) [
        | inl e ↦ rw e (store-IsBounded p peer_id state h b)
        | inr e ↦ rw e (store-IsBounded p peer_id (record state { outbound_stream = some s }) h b)
      ]

  register_inbound-IsBounded :
      (p : IdentifyProtocol H) (peer_id : PeerId H) (s : StreamId)
      → IsBounded p
      → IsBounded (register_inbound_stream p peer_id s)
  unfolding register_inbound_stream
  register_inbound-IsBounded p peer_id s h =
      let state = or_else (get p.peers peer_id) default in
      let b = known-IsBounded p peer_id h in
      let buf = or_else (get state.inbound_streams s) [] in
      store-IsBounded p peer_id
        (record state { inbound_streams = insert state.inbound_streams s buf }) h
        (All-insert IsShort state.inbound_streams s buf b (buffer_known state.inbound_streams s b))

  on_inbound-IsBounded :
      (p : IdentifyProtocol H) (peer_id : PeerId H) (s : StreamId) (state : PeerIdentifyState)
      (buf : Option Bytes) (c : Bytes)
      → IsBounded p
      → PeerIsBounded state
      → IsBounded (on_inbound p peer_id s state buf c)
  unfolding on_inbound
  on_inbound-IsBounded p peer_id s state none c h b = h
  on_inbound-IsBounded p peer_id s state (some buf) c h b =
      elim (Bool-cases (ltb max_message_size (length (buf ++ c)))) [
        | inl e ↦ rw e (
            store-IsBounded p peer_id
              (record state { inbound_streams = remove state.inbound_streams s }) h
              (All-remove IsShort state.inbound_streams s b))
        | inr e ↦ rw e (
            store-IsBounded p peer_id
              (record state { inbound_streams = insert state.inbound_streams s (buf ++ c) }) h
              (All-insert IsShort state.inbound_streams s (buf ++ c) b (ground (arith, e))))
      ]

  on_stream_data-IsBounded :
      (p : IdentifyProtocol H) (peer_id : PeerId H) (s : StreamId) (c : Bytes)
      → IsBounded p
      → IsBounded (on_stream_data p peer_id s c).0
  unfolding on_stream_data on_peer_data
  on_stream_data-IsBounded p peer_id s c h = elim (Option-cases (get p.peers peer_id)) [
    | inl e ↦ rw e h
    | inr (state, e) ↦ rw e (
        on_inbound-IsBounded p peer_id s state (get state.inbound_streams s) c h
          (All-get PeerIsBounded p.peers peer_id state h e))
  ]

  close_inbound-IsBounded :
      (p : IdentifyProtocol H) (peer_id : PeerId H) (s : StreamId) (state : PeerIdentifyState)
      (buf : Option Bytes)
      → IsBounded p
      → PeerIsBounded state
      → IsBounded (close_inbound p peer_id s state buf).0
  unfolding close_inbound
  close_inbound-IsBounded p peer_id s state none h b = h
  close_inbound-IsBounded p peer_id s state (some buf) h b =
      store-IsBounded p peer_id (record state { inbound_streams = remove state.inbound_streams s })
        h (All-remove IsShort state.inbound_streams s b)

  write_closed-IsBounded :
      (p : IdentifyProtocol H) (peer_id : PeerId H) (s : StreamId)
      → IsBounded p
      → IsBounded (on_stream_remote_write_closed p peer_id s).0
  unfolding on_stream_remote_write_closed close_peer_stream
  write_closed-IsBounded p peer_id s h = elim (Option-cases (get p.peers peer_id)) [
    | inl e ↦ rw e h
    | inr (state, e) ↦ rw e (
        close_inbound-IsBounded p peer_id s state (get state.inbound_streams s) h
          (All-get PeerIsBounded p.peers peer_id state h e))
  ]

  kept-IsBounded :
      (p : IdentifyProtocol H) (peer_id : PeerId H) (state : PeerIdentifyState)
      → IsBounded p
      → PeerIsBounded state
      → IsBounded (kept p peer_id state)
  unfolding kept
  kept-IsBounded p peer_id state h b =
      elim (Bool-cases (not (is_some state.outbound_stream) && is_empty state.inbound_streams)) [
        | inl e ↦ rw e (All-remove Entry p.peers peer_id h)
        | inr e ↦ rw e (store-IsBounded p peer_id state h b)
      ]

  stream_closed-IsBounded :
      (p : IdentifyProtocol H) (peer_id : PeerId H) (s : StreamId)
      → IsBounded p
      → IsBounded (on_stream_closed p peer_id s)
  unfolding on_stream_closed close_stream without_stream
  stream_closed-IsBounded p peer_id s h = elim (Option-cases (get p.peers peer_id)) [
    | inl e ↦ rw e h
    | inr (state, e) ↦ rw e (
        kept-IsBounded p peer_id (without_stream state s) h (
          All-remove IsShort state.inbound_streams s
            (All-get PeerIsBounded p.peers peer_id state h e)))
  ]

  moved-IsBounded :
      (peers : Map (PeerId H) PeerIdentifyState) (old new_id : PeerId H)
      → All Entry peers
      → All Entry (moved peers old new_id)
  moved-IsBounded peers old new_id h = elim (Option-cases (get peers old)) [
    | inl g ↦ rw (g, moved) h
    | inr (state, g) ↦
        rw (g, moved)
          (All-insert Entry (remove peers old) new_id state (All-remove Entry peers old h)
            (All-get PeerIsBounded peers old state h g))
  ]

  migrate-IsBounded :
      (p : IdentifyProtocol H) (old new_id : PeerId H)
      → IsBounded p
      → IsBounded (migrate_peer p old new_id)
  unfolding migrate_peer
  migrate-IsBounded p old new_id h = elim (Bool-cases (o.same old new_id)) [
    | inl e ↦ rw e h
    | inr e ↦ rw e (moved-IsBounded p.peers old new_id h)
  ]

  queued-IsBounded :
      (r : IdentifyProtocol H × Result (IdentifyError H) (List (IdentifyAction H)))
      → IsBounded r.0
      → IsBounded (queue_ok r).0
  queued-IsBounded (p, ok added) h = h
  queued-IsBounded (p, err e) h = h

  -- No receive buffer of any peer ever exceeds the size limit: every input keeps that.
  pub handle_input-IsBounded :
      (p : IdentifyProtocol H) (i : IdentifyInput H) → IsBounded p → IsBounded (handle_input p i).0
  unfolding handle_input remove_peer
  handle_input-IsBounded p (register_outbound peer_id s seen addrs) h =
      queued-IsBounded (register_outbound_stream p peer_id s seen addrs)
        (register_outbound-IsBounded p peer_id s seen addrs h)
  handle_input-IsBounded p (register_inbound peer_id s) h = register_inbound-IsBounded p peer_id s h
  handle_input-IsBounded p (stream_data peer_id s c) h = on_stream_data-IsBounded p peer_id s c h
  handle_input-IsBounded p (stream_remote_write_closed peer_id s) h =
      write_closed-IsBounded p peer_id s h
  handle_input-IsBounded p (stream_closed peer_id s) h = stream_closed-IsBounded p peer_id s h
  handle_input-IsBounded p (forget_peer peer_id) h = All-remove Entry p.peers peer_id h
  handle_input-IsBounded p (move_peer old new_id) h = migrate-IsBounded p old new_id h
