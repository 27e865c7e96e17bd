-- ===== src/Relay/StopResponder/Chunks.antt =====
-- `StopResponder` on a request in pieces, the decision, and the bytes of the circuit.
use mathlib.Core.List.{flatten}
use minip2p.Prelude.{
  ℕ, ◌+◌, ◌≤◌, ◌<◌, ◌^◌, ◌≡◌, sym, ap, ◌∙◌, false, List, [], ◌∷◌, ◌++◌, none, some, drop, arith,
  refl, length, length-append, append-nil, append_assoc, drop-length, All, append_split, inl, inr,
}
use minip2p.Prelude.Result.{ok, err}
use minip2p.Varint.{Bytes}
use minip2p.Frame.{complete, incomplete, decode_frame, encode_frame}
use minip2p.Frame.Laws.{decode_frame-encode_frame, length-encode_frame, encode_frame_pos}
use minip2p.Frame.Stream.{decode_frame_cut}
use minip2p.Relay.Codes.{StopMessageType, Status}
use minip2p.Relay.StopMessage
use minip2p.Relay.StopMessage.{StopMessage}
use minip2p.Relay.StopMessage.RoundTrip.{IsTyped, stop_decode-encode}
use minip2p.Relay.Flow.{Handled, enforce_max_size, max_message_size}
use minip2p.Relay.Peer.{Peer}
use minip2p.Relay.StopResponder.{
  StopResponder, awaiting_connect, awaiting_decision, bridged, on_data, handle_input, accept,
  status_response,
}

unfoldable pub feed : StopResponder → List Bytes → Handled StopResponder
feed f [] = some (f, ok tt)
feed f (c ∷ cs) = elim (on_data f c) [
  | none ↦ none
  | some (f', err e) ↦ some (f', err e)
  | some (f', ok _) ↦ feed f' cs
]

feed_next :
    (f f' : StopResponder) (c : Bytes) (cs : List Bytes)
    → on_data f c ≡ some (f', ok tt)
    → feed f (c ∷ cs) ≡ feed f' cs
unfolding feed
feed_next f f' c cs e = rw (e, feed)

-- The responder when the request is in and `early` has come in behind it.
abbrev pub asked : StopResponder → StopMessage → Peer → Bytes → StopResponder
asked f msg peer early = record f {
  recv_buf = early;
  state = awaiting_decision;
  request = some (record { source_peer_id = peer.id; limit = msg.limit });
  emitted_request = false;
}

on_data-asked :
    (f : StopResponder) (msg : StopMessage) (peer : Peer) (early c : Bytes)
    → on_data (asked f msg peer early) c ≡ some (asked f msg peer (early ++ c), ok tt)
unfolding on_data
on_data-asked f msg peer early c = refl

feed-asked :
    (f : StopResponder) (msg : StopMessage) (peer : Peer) (early : Bytes) (cs : List Bytes)
    → feed (asked f msg peer early) cs ≡ some (asked f msg peer (early ++ flatten cs), ok tt)
unfolding flatten
feed-asked f msg peer early [] = unfold feed in rw (append-nil early)
feed-asked f msg peer early (c ∷ cs) =
    feed_next (asked f msg peer early) (asked f msg peer (early ++ c)) c cs
      (on_data-asked f msg peer early c)
    ∙ feed-asked f msg peer (early ++ c) cs
    ∙ ap (λ (b : Bytes). some (asked f msg peer b, ok tt)) (append_assoc early c (flatten cs))

on_data_bridged :
    (f : StopResponder) (c : Bytes)
    → f.state ≡ bridged
    → on_data f c ≡ some (record f { bridge_bytes = f.bridge_bytes ++ c }, ok tt)
unfolding on_data
on_data_bridged f c e = ground arith

feed_bridged :
    (f : StopResponder) (cs : List Bytes)
    → f.state ≡ bridged
    → feed f cs ≡ some (record f { bridge_bytes = f.bridge_bytes ++ flatten cs }, ok tt)
unfolding flatten
feed_bridged f [] e = unfold feed in rw (append-nil f.bridge_bytes)
feed_bridged f (c ∷ cs) e =
    feed_next f _ c cs (on_data_bridged f c e)
    ∙ feed_bridged (record f { bridge_bytes = f.bridge_bytes ++ c }) cs e
    ∙ ap (λ (b : Bytes). some (record f { bridge_bytes = b }, ok tt))
        (append_assoc f.bridge_bytes c (flatten cs))

on_data_wait :
    (f : StopResponder) (c : Bytes)
    → f.state ≡ awaiting_connect
    → length (f.recv_buf ++ c) ≤ max_message_size
    → decode_frame (f.recv_buf ++ c) ≡ incomplete
    → on_data f c ≡ some (record f { recv_buf = f.recv_buf ++ c }, ok tt)
unfolding on_data enforce_max_size
on_data_wait f c s h e = ground arith

on_data_whole :
    (f : StopResponder) (c payload : Bytes) (consumed : ℕ) (msg : StopMessage) (peer : Peer)
    → f.state ≡ awaiting_connect
    → length (f.recv_buf ++ c) ≤ max_message_size
    → decode_frame (f.recv_buf ++ c) ≡ complete payload consumed
    → StopMessage.decode payload ≡ ok msg
    → msg.kind ≡ StopMessageType.connect
    → msg.peer ≡ some peer
    → on_data f c ≡ some (asked f msg peer (drop consumed (f.recv_buf ++ c)), ok tt)
unfolding on_data enforce_max_size
on_data_whole f c payload consumed msg peer s h e d k o = ground arith

abbrev pub connect_frame : StopMessage → Bytes
connect_frame msg = encode_frame (StopMessage.encode msg)

module _ (msg : StopMessage) (u : IsTyped msg) (k : msg.kind ≡ StopMessageType.connect)
    (peer : Peer) (o : msg.peer ≡ some peer) (fits : length (StopMessage.encode msg) < 2 ^ 63) where
  on_data-connect_frame :
      (f : StopResponder) (c over : Bytes)
      → f.state ≡ awaiting_connect
      → length (f.recv_buf ++ c) ≤ max_message_size
      → f.recv_buf ++ c ≡ connect_frame msg ++ over
      → on_data f c ≡ some (asked f msg peer over, ok tt)
  on_data-connect_frame f c over s h e =
      let body = StopMessage.encode msg in
      let n = length (connect_frame msg) in
      let frame = ap decode_frame e ∙ decode_frame-encode_frame body over fits in
      on_data_whole f c body n msg peer s h frame (stop_decode-encode msg u (omega arith)) k o
      ∙ ap (λ (b : Bytes). some (asked f msg peer b, ok tt))
          (ap (drop n) e ∙ drop-length (connect_frame msg) over)

  feed-connect_frame :
      (cs : List Bytes) (f : StopResponder) (after : Bytes)
      → f.state ≡ awaiting_connect
      → length f.recv_buf < length (connect_frame msg)
      → All (λ (c : Bytes). length c + length (connect_frame msg) ≤ max_message_size) cs
      → f.recv_buf ++ flatten cs ≡ connect_frame msg ++ after
      → feed f cs ≡ some (asked f msg peer after, ok tt)
  unfolding flatten
  feed-connect_frame [] f after s p h e = absurd (
      omega
        (arith, ap length e, length-append f.recv_buf [], length-append (connect_frame msg) after))
  feed-connect_frame (c ∷ cs) f after s p h e =
      let size : length (f.recv_buf ++ c) ≤ max_message_size =
        omega (arith, length-append f.recv_buf c, h.0) in
      let whole : (f.recv_buf ++ c) ++ flatten cs ≡ connect_frame msg ++ after =
        append_assoc f.recv_buf c (flatten cs) ∙ e in
      elim (append_split (f.recv_buf ++ c) (flatten cs) (connect_frame msg) after whole) [
        | inl (x, back, cut) ↦
            let wait =
              on_data_wait f c s size
                (decode_frame_cut (StopMessage.encode msg) (f.recv_buf ++ c) x back fits cut) in
            feed_next f _ c cs wait
            ∙ feed-connect_frame cs (record f { recv_buf = f.recv_buf ++ c }) after s
                (omega (arith, ap length cut, length-append (f.recv_buf ++ c) (x ∷ back))) h.1 whole
        | inr (over, here, later) ↦
            feed_next f _ c cs (on_data-connect_frame f c over s size here)
            ∙ feed-asked f msg peer over cs
            ∙ ap (λ (b : Bytes). some (asked f msg peer b, ok tt)) (sym later)
      ]

-- The responder once the request is accepted.
abbrev pub circuit : StopResponder → StopMessage → Peer → Bytes → StopResponder
circuit f msg peer bridge = record f {
  outbound = f.outbound ++ encode_frame (StopMessage.encode (status_response Status.ok));
  recv_buf = [];
  state = bridged;
  request = some (record { source_peer_id = peer.id; limit = msg.limit });
  emitted_request = false;
  bridge_bytes = f.bridge_bytes ++ bridge;
}

accept_asked :
    (f : StopResponder) (msg : StopMessage) (peer : Peer) (early : Bytes)
    → handle_input (asked f msg peer early) accept ≡ some (circuit f msg peer early, ok tt)
unfolding handle_input
accept_asked f msg peer early = refl

stop_request :
    (msg : StopMessage) (peer : Peer) (f : StopResponder) (cs : List Bytes) (early : Bytes)
    → IsTyped msg
    → msg.kind ≡ StopMessageType.connect
    → msg.peer ≡ some peer
    → f.state ≡ awaiting_connect
    → f.recv_buf ≡ []
    → All (λ (c : Bytes). length c + length (connect_frame msg) ≤ max_message_size) cs
    → flatten cs ≡ connect_frame msg ++ early
    → feed f cs ≡ some (asked f msg peer early, ok tt)
unfolding flatten
stop_request msg peer f [] early u k o s n h e = absurd (
    omega (
      arith,
      ap length e,
      length-append (connect_frame msg) early,
      encode_frame_pos (StopMessage.encode msg),
    ))
stop_request msg peer f (c ∷ cs) early u k o s n h e =
    feed-connect_frame msg u k peer o
      (omega (arith, length-encode_frame (StopMessage.encode msg), h.0)) (c ∷ cs) f early s
      (omega (arith, ap length n, encode_frame_pos (StopMessage.encode msg))) h
      (ap (λ (b : Bytes). b ++ flatten (c ∷ cs)) n ∙ e)

-- A CONNECT in any chunks, accepted, with bytes of the circuit before the decision (`early`) and
-- after it (`late`): the request is recorded with the peer and the limit of the message, accepting
-- queues the STATUS OK frame, and all circuit bytes are in `bridge_bytes`, the early ones first.
-- The message names a peer and has values of their machine types, the responder is fresh, and
-- each early chunk and the request fit the size limit together.
pub stop_circuit :
    (msg : StopMessage) (peer : Peer) (f : StopResponder) (cs late : List Bytes) (early : Bytes)
    → IsTyped msg
    → msg.kind ≡ StopMessageType.connect
    → msg.peer ≡ some peer
    → f.state ≡ awaiting_connect
    → f.recv_buf ≡ []
    → All (λ (c : Bytes). length c + length (connect_frame msg) ≤ max_message_size) cs
    → flatten cs ≡ connect_frame msg ++ early
    → (feed f cs ≡ some (asked f msg peer early, ok tt))
      × (handle_input (asked f msg peer early) accept ≡ some (circuit f msg peer early, ok tt))
      × (feed (circuit f msg peer early) late
          ≡ some (circuit f msg peer (early ++ flatten late), ok tt))
stop_circuit msg peer f cs late early u k o s n h e = (
  stop_request msg peer f cs early u k o s n h e,
  accept_asked f msg peer early,
  feed_bridged (circuit f msg peer early) late refl
      ∙ ap (λ (b : Bytes). some (record (circuit f msg peer early) { bridge_bytes = b }, ok tt))
          (append_assoc f.bridge_bytes early (flatten late)),
)
