-- ===== src/Identify/Delivery.antt =====
-- From the peer that opens the stream to the event of the other one; and a stream that says too much.
use mathlib.Core.List.{flatten}
use minip2p.Prelude.{
  ℕ, ◌+◌, ◌-◌, ◌≤◌, ◌<◌, ◌≡◌, refl, sym, ap, ◌∙◌, arith, true, false, List, [], ◌∷◌, ◌++◌, Option,
  none, some, length, length-append, append_assoc, append-nil, ltb, All, drop, take-length,
  drop-length,
}
use minip2p.Prelude.Bits.{IsU64}
use minip2p.Prelude.Maps.{Order, nat_order, get, insert, remove, get-insert, get-remove}
use minip2p.Prelude.Result.{ok}
use minip2p.Varint.{Bytes, uvarint_len, write_uvarint}
use minip2p.Varint.Encode.{length-write_uvarint}
use minip2p.Varint.RoundTrip.{read_uvarint-write_uvarint}
use minip2p.Identity.PeerId.{Multihash, PeerId}
use minip2p.Core.Multiaddr.{Multiaddr}
use minip2p.Identify.Message
use minip2p.Identify.Message.{IdentifyMessage}
use minip2p.Identify.Message.RoundTrip.{IsText, IsTyped, identify_decode-encode}
use minip2p.Identify.Types.{
  max_message_size, StreamId, IdentifyConfig, IdentifyProtocol, IdentifyAction, send,
  close_stream_write, received, error, exceeds_maximum, PeerIdentifyState, default,
}
use minip2p.Ping.{is_some, or_else}
use minip2p.Identify.{
  store, push_event, encode_length_prefixed, decode_length_prefixed, decode_buf, decoded_event,
  own_message, register_outbound_stream, register_inbound_stream, on_stream_data,
  on_stream_remote_write_closed,
}

-- `decode_length_prefixed` takes the payload out, whatever follows it.
decode_length_prefixed-append :
    (payload rest : Bytes)
    → IsU64 (length payload)
    → decode_length_prefixed (encode_length_prefixed payload ++ rest) ≡ ok payload
unfolding decode_length_prefixed encode_length_prefixed
decode_length_prefixed-append payload rest h =
    let front = write_uvarint (length payload) [] in
    let n : length front ≡ uvarint_len (length payload) =
      omega (arith, length-write_uvarint (length payload) []) in
    let read = read_uvarint-write_uvarint (length payload) (payload ++ rest) h in
    let all : length (front ++ (payload ++ rest)) ≡ length front + (length payload + length rest) =
      omega (arith, length-append front (payload ++ rest), length-append payload rest) in
    let enough : ltb (length (front ++ (payload ++ rest)) - uvarint_len (length payload))
          (length payload)
        ≡ false =
      ground (arith, all, n) in
    let behind : drop (uvarint_len (length payload)) (front ++ (payload ++ rest))
        ≡ payload ++ rest =
      ap (λ (k : ℕ). drop k (front ++ (payload ++ rest))) (sym n)
      ∙ drop-length front (payload ++ rest) in
    rw (append_assoc front payload rest, read, enough, behind, take-length payload rest) refl

decode_buf-sent :
    (msg : IdentifyMessage)
    → IsTyped msg
    → IsU64 (length (Message.encode msg))
    → decode_buf (encode_length_prefixed (Message.encode msg)) ≡ ok msg
unfolding decode_buf
decode_buf-sent msg u h =
    let body = Message.encode msg in
    let e =
      ap decode_length_prefixed (sym (append-nil (encode_length_prefixed body)))
      ∙ decode_length_prefixed-append body [] h in
    rw (e, identify_decode-encode msg u h) refl

sent_small :
    (body : Bytes) → length (encode_length_prefixed body) ≤ max_message_size → IsU64 (length body)
unfolding encode_length_prefixed
sent_small body h = omega (arith, length-append (write_uvarint (length body) []) body)

-- The texts of a configuration are texts.
pub record IsConfig (config : IdentifyConfig) : Type 0 where
  pub protocols_text : All IsText config.protocols
  pub version_text : IsText config.protocol_version
  pub agent_text : IsText config.agent_version

module _ {H : Type 0} ⦃m : Multihash H⦄ ⦃o : Order (PeerId H)⦄ where
  own_message-IsTyped :
      (config : IdentifyConfig) (seen : Option (Multiaddr H)) (addrs : List (Multiaddr H))
      → IsConfig config
      → IsTyped (own_message config seen addrs)
  unfolding own_message
  own_message-IsTyped config seen addrs h = record {
    protocols_text = h.protocols_text;
    version_text = h.version_text;
    agent_text = h.agent_text;
  }

  -- The bytes that a peer sends about itself.
  abbrev pub sent : IdentifyConfig → Option (Multiaddr H) → List (Multiaddr H) → Bytes
  sent config seen addrs = encode_length_prefixed (Message.encode (own_message config seen addrs))

  module _ (k : PeerId H) (s : StreamId) where
    -- Data of the stream, one chunk after the other.
    unfoldable pub feed : IdentifyProtocol H → List Bytes → IdentifyProtocol H
    feed p [] = p
    feed p (c ∷ cs) = feed (on_stream_data p k s c).0 cs

    -- The stream is known, and `buf` is what it has received.
    pub record Waits (p : IdentifyProtocol H) (state : PeerIdentifyState) (buf : Bytes)
        : Type 0 where
      pub there : get p.peers k ≡ some state
      pub buffered : get state.inbound_streams s ≡ some buf

    abbrev buffering : PeerIdentifyState → Bytes → PeerIdentifyState
    buffering state buf = record state { inbound_streams = insert state.inbound_streams s buf }

    Waits-store :
        (p : IdentifyProtocol H) (state : PeerIdentifyState) (buf : Bytes)
        → Waits (store p k (buffering state buf)) (buffering state buf) buf
    Waits-store p state buf = record {
      there = get-insert p.peers k (buffering state buf);
      buffered = get-insert state.inbound_streams s buf;
    }

    on_data_part :
        (p : IdentifyProtocol H) (state : PeerIdentifyState) (buf c : Bytes)
        → Waits p state buf
        → length (buf ++ c) ≤ max_message_size
        → (on_stream_data p k s c).0 ≡ store p k (buffering state (buf ++ c))
    unfolding on_stream_data
    on_data_part p state buf c w h =
        let short : ltb max_message_size (length (buf ++ c)) ≡ false = ground arith in
        rw (w.there, w.buffered, short, on_stream_data) refl

    -- What a run of chunks leaves: the buffer is complete and nothing else has happened.
    pub record Fed (p p' : IdentifyProtocol H) (buf : Bytes) : Type 0 where
      pub state : PeerIdentifyState
      pub waits : Waits p' state buf
      pub events_same : p'.events ≡ p.events

    feed-Fed :
        (cs : List Bytes) (p : IdentifyProtocol H) (state : PeerIdentifyState) (buf : Bytes)
        → Waits p state buf
        → length (buf ++ flatten cs) ≤ max_message_size
        → Fed p (feed p cs) (buf ++ flatten cs)
    unfolding feed flatten
    feed-Fed [] p state buf w h = record {
      state = state;
      waits = rw append-nil w;
      events_same = refl;
    }
    feed-Fed (c ∷ cs) p state buf w h =
        let next = store p k (buffering state (buf ++ c)) in
        let size : length (buf ++ c) ≤ max_message_size = omega (
          arith,
          length-append buf (c ++ flatten cs),
          length-append c (flatten cs),
          length-append buf c,
        ) in
        let rest =
          feed-Fed cs next (buffering state (buf ++ c)) (buf ++ c) (Waits-store p state (buf ++ c))
            (rw (append_assoc buf c (flatten cs)) h) in
        rw (on_data_part p state buf c w size) (
          rw (append_assoc buf c (flatten cs)) at (
            let r : Fed p (feed next cs) ((buf ++ c) ++ flatten cs) = record {
              state = rest.state;
              waits = rest.waits;
              events_same = rest.events_same;
            } in
            r))

    abbrev closed : PeerIdentifyState → PeerIdentifyState
    closed state = record state { inbound_streams = remove state.inbound_streams s }

    on_close :
        (p : IdentifyProtocol H) (state : PeerIdentifyState) (buf : Bytes)
        → Waits p state buf
        → on_stream_remote_write_closed p k s ≡ (
          push_event (store p k (closed state)) (decoded_event k s (decode_buf buf)),
          close_stream_write k s ∷ [],
        )
    unfolding on_stream_remote_write_closed
    on_close p state buf w = rw (w.there, w.buffered, on_stream_remote_write_closed) refl

    register_inbound-Waits :
        (p : IdentifyProtocol H)
        → get (or_else (get p.peers k) default).inbound_streams s ≡ none
        → Waits (register_inbound_stream p k s) (buffering (or_else (get p.peers k) default) []) []
    unfolding register_inbound_stream
    register_inbound-Waits p n = rw n (Waits-store p (or_else (get p.peers k) default) [])

    -- What a peer sends about itself when it opens the stream is, cut into chunks anyhow, reported by
    -- the other one when the stream ends, as one event behind those before it, and that one closes its
    -- own side. The sender has no stream open to its peer, the stream is new to the receiver, the texts
    -- are texts and the bytes are within the size limit.
    pub identify_delivery :
        (q p : IdentifyProtocol H) (j : PeerId H) (r : StreamId) (seen : Option (Multiaddr H))
        (addrs : List (Multiaddr H)) (cs : List Bytes)
        → IsConfig q.config
        → is_some (or_else (get q.peers j) default).outbound_stream ≡ false
        → get (or_else (get p.peers k) default).inbound_streams s ≡ none
        → length (sent q.config seen addrs) ≤ max_message_size
        → flatten cs ≡ sent q.config seen addrs
        → ((register_outbound_stream q j r seen addrs).1
            ≡ ok (send j r (sent q.config seen addrs) ∷ close_stream_write j r ∷ []))
          × ((on_stream_remote_write_closed (feed (register_inbound_stream p k s) cs) k s).0.events
              ≡ p.events ++ (received k (own_message q.config seen addrs) ∷ []))
          × ((on_stream_remote_write_closed (feed (register_inbound_stream p k s) cs) k s).1
              ≡ close_stream_write k s ∷ [])
    identify_delivery q p j r seen addrs cs c free new_stream size e =
        let p' = register_inbound_stream p k s in
        let w = register_inbound-Waits p new_stream in
        let fed =
          feed-Fed cs p' (buffering (or_else (get p.peers k) default) []) [] w
            (omega (arith, ap length e)) in
        let close = on_close (feed p' cs) fed.state (flatten cs) fed.waits in
        let msg = own_message q.config seen addrs in
        let body = Message.encode msg in
        let decoded =
          ap decode_buf e
          ∙ decode_buf-sent msg (own_message-IsTyped q.config seen addrs c)
              (sent_small body size) in
        (
          unfold register_outbound_stream in rw free refl,
          ap (λ (x : IdentifyProtocol H × List (IdentifyAction H)). x.0.events) close
              ∙ rw (decoded, fed.events_same) (unfold register_inbound_stream in refl),
          ap (λ (x : IdentifyProtocol H × List (IdentifyAction H)). x.1) close,
        )

    -- A stream that has said more than the size limit is given up: one error event with the length
    -- that was reached, no action, and the stream is forgotten, so that its end is not reported.
    pub identify_overflow :
        (p : IdentifyProtocol H) (state : PeerIdentifyState) (buf c : Bytes)
        → Waits p state buf
        → max_message_size < length (buf ++ c)
        → ((on_stream_data p k s c).0.events
            ≡ p.events ++ (error k s (exceeds_maximum (length (buf ++ c))) ∷ []))
          × ((on_stream_data p k s c).1 ≡ [])
          × (on_stream_remote_write_closed (on_stream_data p k s c).0 k s
              ≡ ((on_stream_data p k s c).0, []))
    unfolding on_stream_data
    identify_overflow p state buf c w h =
        let long : ltb max_message_size (length (buf ++ c)) ≡ true = ground arith in
        rw (w.there, w.buffered, long, on_stream_data)
          (
            refl,
            refl,
            unfold on_stream_remote_write_closed in
                rw
                  (
                    get-insert p.peers k (closed state),
                    get-remove state.inbound_streams s,
                    on_stream_remote_write_closed,
                  )
                  refl,
          )
