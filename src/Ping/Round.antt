-- ===== src/Ping/Round.antt =====
-- crates/ping/src/lib.rs: a ping, its echo and its response.
use mathlib.Core.List.{flatten}
use minip2p.Prelude.{
  ℕ, ◌-◌, ◌<◌, ◌≡◌, ◌≢◌, refl, sym, ap, ◌∙◌, arith, true, false, List, [], ◌∷◌, Option, none, some,
  length, All, Bool-cases, inl, inr,
}
use minip2p.Prelude.Maps.{Order, nat_order, Map, get, insert-insert, ==_refl}
use minip2p.Varint.{Bytes}
use minip2p.Ping.Types.{
  ping_payload_len, StreamId, PingAction, send, reset_stream, PingEvent, rtt_measured,
  payload_mismatch, protocol_violation, PendingPing, PeerPingState, PingProtocol,
}
use minip2p.Multistream.Utf8.{bytes_eq, bytes_eq_refl, bytes_eq→eq}
use minip2p.Ping.{
  is_some, is_stream, or_else, store, push_event, is_known, process_complete_payload, on_response,
}
use minip2p.Ping.Chunks.{unbuffered, feed, feed-process}

-- The peer once its request is answered.
abbrev pub answered : PeerPingState → StreamId → PeerPingState
answered p s = record (unbuffered p s) { pending_ping = none }

-- The peer once a request is sent.
abbrev pub asking : PeerPingState → Bytes → ℕ → PeerPingState
asking p payload t = record p { pending_ping = some (record { payload = payload; sent_at_ms = t }) }

module _ {P : Type 0} ⦃o : Order P⦄ (m : PingProtocol P) (k : P) (s : StreamId) (p : PeerPingState)
    (there : get m.peers k ≡ some p) (fresh : get p.recv_bufs s ≡ none) (cs : List Bytes)
    (pieces : All (λ (c : Bytes). 0 < length c) cs) (whole : length (flatten cs) ≡ ping_payload_len)
    (now : ℕ) where
  processed :
      is_known p s ≡ true
      → feed k s now m cs
        ≡ process_complete_payload
            (store m k (unbuffered p s))
            k
            (unbuffered p s)
            s
            (flatten cs)
            now
  processed known =
      feed-process k s now cs m p []
        (record {
          there = there;
          known = known;
          buffered = ap (λ (x : Option Bytes). or_else x []) fresh;
        })
        pieces (omega arith) whole

  -- A ping of 32 bytes on an inbound stream, in any pieces, is sent back once and whole, and leaves
  -- no event and no buffer. The stream is inbound, not the outbound one, and has nothing
  -- buffered; no piece is empty.
  pub ping_echo :
      is_stream p.outbound_stream s ≡ false
      → is_some (get p.inbound_streams s) ≡ true
      → feed k s now m cs ≡ (store m k (unbuffered p s), send k s (flatten cs) ∷ [])
  unfolding process_complete_payload
  ping_echo not_out inbound = processed (rw (not_out, inbound) refl) ∙ rw (not_out, inbound) refl

  is_outbound : p.outbound_stream ≡ some s → is_stream p.outbound_stream s ≡ true
  is_outbound out = rw out (==_refl s)

  response :
      (q : PendingPing)
      → p.outbound_stream ≡ some s
      → p.pending_ping ≡ some q
      → feed k s now m cs
        ≡ on_response
            (some q)
            (store (store m k (unbuffered p s)) k (answered p s))
            k
            s
            (flatten cs)
            now
  unfolding process_complete_payload
  response q out pending =
      let on = is_outbound out in
      processed (rw on refl)
      ∙ rw (on, process_complete_payload)
          (ap
            (λ (x : Option PendingPing).
              on_response x (store (store m k (unbuffered p s)) k (answered p s)) k s (flatten cs)
                now)
            pending)

  settled :
      (q : PendingPing) (e : PingEvent P) (actions : List (PingAction P))
      → p.outbound_stream ≡ some s
      → p.pending_ping ≡ some q
      → on_response
          (some q)
          (store (store m k (unbuffered p s)) k (answered p s))
          k
          s
          (flatten cs)
          now
        ≡ (push_event (store (store m k (unbuffered p s)) k (answered p s)) e, actions)
      → feed k s now m cs ≡ (push_event (store m k (answered p s)) e, actions)
  settled q e actions out pending r =
      response q out pending
      ∙ r
      ∙ ap (λ (x : Map P PeerPingState). (push_event (record m { peers = x }) e, actions))
          (insert-insert m.peers k (unbuffered p s) (answered p s))

  -- The response to a request, in any pieces: it is the payload of the request, so the round trip
  -- time is reported, nothing is reset, and the request is settled. The stream is the outbound one
  -- and has nothing buffered; no piece is empty.
  pub ping_rtt :
      (q : PendingPing)
      → p.outbound_stream ≡ some s
      → p.pending_ping ≡ some q
      → q.payload ≡ flatten cs
      → feed k s now m cs
        ≡ (push_event (store m k (answered p s)) (rtt_measured k s (now - q.sent_at_ms)), [])
  unfolding on_response
  ping_rtt q out pending same =
      let test : bytes_eq q.payload (flatten cs) ≡ true =
        ap (bytes_eq q.payload) (sym same) ∙ bytes_eq_refl q.payload in
      settled q (rtt_measured k s (now - q.sent_at_ms)) [] out pending (rw test refl)

  -- A response of 32 other bytes, in any pieces, is a violation that resets the stream, and the
  -- request is settled. The stream is the outbound one and has nothing buffered; no piece is empty.
  pub ping_mismatch :
      (q : PendingPing)
      → p.outbound_stream ≡ some s
      → p.pending_ping ≡ some q
      → q.payload ≢ flatten cs
      → feed k s now m cs ≡ (
        push_event (store m k (answered p s)) (protocol_violation k s payload_mismatch),
        reset_stream k s ∷ [],
      )
  unfolding on_response
  ping_mismatch q out pending other = elim (Bool-cases (bytes_eq q.payload (flatten cs))) [
    | inl e ↦ absurd (other (bytes_eq→eq q.payload (flatten cs) e))
    | inr e ↦
        settled q (protocol_violation k s payload_mismatch) (reset_stream k s ∷ []) out pending
          (rw e refl)
  ]
