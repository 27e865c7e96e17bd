-- ===== src/Ping/Safety.antt =====
-- crates/ping/src/lib.rs: every input keeps what `Ping.Invariant` states.
use minip2p.Prelude.{
  ℕ, ◌≡◌, refl, sym, ap, ◌∙◌, arith, [], ◌∷◌, Option, none, some, length, not, ◌==◌, All, inl, inr,
  Option-cases,
}
use minip2p.Prelude.Maps.{Order, nat_order, Map, get, All-insert, All-remove}
use minip2p.Prelude.Result.{ok, Result-cases}
use minip2p.Varint.{Bytes}
use minip2p.Ping.Types.{
  ping_payload_len, StreamId, PingInput, register_outbound, register_inbound, send_ping_input,
  close_outbound_write, stream_data, stream_remote_write_closed, stream_closed, forget_peer,
  move_peer, tick, PendingPing, PeerPingState, PingProtocol,
}
use minip2p.Ping.{
  is_some, is_stream, send_ping, close_outbound_stream_write, idle_outbound, idle_on,
}
use minip2p.Ping.Protocol.{
  close_on, on_stream_remote_write_closed, on_stream_closed, remove_peer, migrate_peer, moved,
  expired, tick_loop, on_tick, queue_one, handle_input,
}
use minip2p.Ping.Invariant.{
  PeerIsSound, Entry, IsSound, Answers, if_both, peer_of, stored, outbound-IsSound, inbound-IsSound,
  data-IsSound, without_outbound-IsSound, without_inbound-IsSound, closed_peer-IsSound,
}

module _ {P : Type 0} ⦃o : Order P⦄ where
  close_on-IsSound :
      (m : PingProtocol P) (k : P) (p : PeerPingState) (s : StreamId)
      → IsSound m
      → PeerIsSound p
      → Answers (close_on m k p s)
  unfolding close_on
  close_on-IsSound m k p s h u =
      let v = stored m k _ h (without_outbound-IsSound p s u) in
      if_both Answers (is_some (get p.inbound_streams s)) _ _
        (λ _. stored m k _ h (without_inbound-IsSound p s u))
        (λ _.
          if_both Answers (is_stream p.outbound_stream s) _ _
            (λ _. if_both Answers (is_some p.pending_ping) _ _ (λ _. v) (λ _. v)) (λ _. h))

  write_closed-IsSound :
      (m : PingProtocol P) (k : P) (s : StreamId)
      → IsSound m
      → Answers (on_stream_remote_write_closed m k s)
  unfolding on_stream_remote_write_closed
  write_closed-IsSound m k s h = elim (Option-cases (get m.peers k)) [
    | inl n ↦ rw (n, on_stream_remote_write_closed) h
    | inr (p, e) ↦
        rw (e, on_stream_remote_write_closed) (close_on-IsSound m k p s h (peer_of m k p h e))
  ]

  closed-IsSound :
      (m : PingProtocol P) (k : P) (s : StreamId) → IsSound m → IsSound (on_stream_closed m k s)
  unfolding on_stream_closed
  closed-IsSound m k s h = elim (Option-cases (get m.peers k)) [
    | inl n ↦ rw (n, on_stream_closed) h
    | inr (p, e) ↦
        rw (e, on_stream_closed) (stored m k _ h (closed_peer-IsSound p s (peer_of m k p h e)))
  ]

  migrated-IsSound :
      (m : PingProtocol P) (old new : P) → IsSound m → IsSound (migrate_peer m old new)
  unfolding migrate_peer
  migrated-IsSound m old new h = if_both IsSound (o.same old new) _ _ (λ _. h) (λ _. peers)
    where
      peers : All Entry (moved m.peers old new)
      peers = elim (Option-cases (get m.peers old)) [
        | inl n ↦ rw (n, moved) h
        | inr (p, e) ↦
            rw (e, moved)
              (All-insert Entry _ new p (All-remove Entry m.peers old h) (peer_of m old p h e))
      ]

  tick_loop-IsSound :
      (limit now : ℕ) (peers : Map P PeerPingState)
      → All Entry peers
      → All Entry ((tick_loop limit now peers).0)
  unfolding tick_loop
  tick_loop-IsSound limit now [] h = tt
  tick_loop-IsSound limit now ((k, p) ∷ rest) h = elim (Option-cases (expired limit now p)) [
    | inl n ↦ rw (n, tick_loop) (h.0, tick_loop-IsSound limit now rest h.1)
    | inr (s, e) ↦
        rw (e, tick_loop) (without_outbound-IsSound p s h.0, tick_loop-IsSound limit now rest h.1)
  ]

  -- What the two handlers that need a free outbound stream go by.
  pub record Free (m : PingProtocol P) (k : P) (p : PeerPingState) (s : StreamId) : Type 0 where
    pub there : get m.peers k ≡ some p
    pub outbound : p.outbound_stream ≡ some s
    pub free : p.pending_ping ≡ none

  idle_on_ok :
      (out : Option StreamId) (pending : Option PendingPing) (k : P) (q p : PeerPingState)
      (s : StreamId)
      → idle_on out pending k q ≡ ok (p, s)
      → (q ≡ p) × (out ≡ some s) × (pending ≡ none)
  unfolding idle_on
  idle_on_ok none pending k q p s e = cc
  idle_on_ok (some t) none k q p s e = (cc, cc, refl)
  idle_on_ok (some t) (some x) k q p s e = cc

  idle_outbound-Free :
      (m : PingProtocol P) (k : P) (p : PeerPingState) (s : StreamId)
      → idle_outbound m k ≡ ok (p, s)
      → Free m k p s
  unfolding idle_outbound
  idle_outbound-Free m k p s e = elim (Option-cases (get m.peers k)) [
    | inl n ↦ cc (rw (n, idle_outbound) at e)
    | inr (q, g) ↦
        let found : idle_on q.outbound_stream q.pending_ping k q ≡ ok (p, s) =
          rw (g, idle_outbound) at e in
        let (same, out, free) = idle_on_ok q.outbound_stream q.pending_ping k q p s found in
        record {
          there = g ∙ ap some same;
          outbound = sym (ap (λ (x : PeerPingState). x.outbound_stream) same) ∙ out;
          free = sym (ap (λ (x : PeerPingState). x.pending_ping) same) ∙ free;
        }
  ]

  send-IsSound :
      (m : PingProtocol P) (k : P) (b : Bytes) (now : ℕ)
      → IsSound m
      → Answers (queue_one m (send_ping m k b now))
  unfolding send_ping
  send-IsSound m k b now h =
      if_both (λ r. Answers (queue_one m r)) (not (length b == ping_payload_len)) _ _ (λ _. h)
        (λ sized. elim (Result-cases (idle_outbound m k)) [
          | inr (x, e) ↦ rw e h
          | inl ((p, s), e) ↦
              let f = idle_outbound-Free m k p s e in
              let u = peer_of m k p h f.there in
              rw e (
                stored m k _ h (record {
                  has_stream = λ _. ap is_some f.outbound;
                  sized = ground arith;
                  few_inbound = u.few_inbound;
                  short_bufs = u.short_bufs;
                }))
        ])

  close_write-IsSound :
      (m : PingProtocol P) (k : P)
      → IsSound m
      → Answers (queue_one m (close_outbound_stream_write m k))
  unfolding close_outbound_stream_write
  close_write-IsSound m k h = elim (Result-cases (idle_outbound m k)) [
    | inr (x, e) ↦ rw (e, close_outbound_stream_write) h
    | inl ((p, s), e) ↦ rw (e, close_outbound_stream_write) h
  ]

  -- Every input keeps the invariant of all peers: a request in flight has a stream and a payload of
  -- the length of a ping, a peer has two inbound streams at most, and every receive buffer is
  -- shorter than a ping. The state before it is sound.
  pub handle_input-IsSound :
      (m : PingProtocol P) (input : PingInput P) → IsSound m → IsSound ((handle_input m input).0)
  unfolding handle_input remove_peer on_tick
  handle_input-IsSound m (register_outbound p s) h = outbound-IsSound m p s h
  handle_input-IsSound m (register_inbound p s) h = inbound-IsSound m p s h
  handle_input-IsSound m (send_ping_input p b now) h = send-IsSound m p b now h
  handle_input-IsSound m (close_outbound_write p) h = close_write-IsSound m p h
  handle_input-IsSound m (stream_data p s b now) h = data-IsSound m p s b now h
  handle_input-IsSound m (stream_remote_write_closed p s) h = write_closed-IsSound m p s h
  handle_input-IsSound m (stream_closed p s) h = closed-IsSound m p s h
  handle_input-IsSound m (forget_peer p) h = All-remove Entry m.peers p h
  handle_input-IsSound m (move_peer old new) h = migrated-IsSound m old new h
  handle_input-IsSound m (tick now) h = tick_loop-IsSound m.config.request_timeout_ms now m.peers h
