-- ===== src/Relay/HopConnect/Chunks.antt =====
-- `HopConnect` on a response in pieces, with the first bytes of the bridge behind it.
use mathlib.Core.List.{flatten}
use minip2p.Prelude.{
  ℕ, ◌+◌, ◌≤◌, ◌<◌, ◌^◌, ◌≡◌, ◌≢◌, sym, ap, ◌∙◌, false, List, [], ◌∷◌, ◌++◌, none, some, drop,
  arith, length, length-append, append-nil, append_assoc, drop-length, All, append_split, inl, inr,
}
use minip2p.Prelude.Result.{ok, err}
use minip2p.Varint.{Bytes}
use minip2p.Frame.{complete, incomplete, decode_frame, encode_frame}
use minip2p.Frame.Laws.{decode_frame-encode_frame, length-encode_frame, encode_frame_pos}
use minip2p.Frame.Stream.{decode_frame_cut}
use minip2p.Relay.Codes.{HopMessageType, Status}
use minip2p.Relay.HopMessage
use minip2p.Relay.HopMessage.{HopMessage}
use minip2p.Relay.HopMessage.RoundTrip.{IsTyped, hop_decode-encode}
use minip2p.Relay.Flow.{done, Handled, enforce_max_size, max_message_size}
use minip2p.Relay.HopConnect.{HopConnect, bridged, on_data}

unfoldable pub feed : HopConnect → List Bytes → Handled HopConnect
feed f [] = some (f, ok tt)
feed f (c ∷ cs) = elim (on_data f c) [
  | none ↦ none
  | some (f', err e) ↦ some (f', err e)
  | some (f', ok _) ↦ feed f' cs
]

feed_next :
    (f f' : HopConnect) (c : Bytes) (cs : List Bytes)
    → on_data f c ≡ some (f', ok tt)
    → feed f (c ∷ cs) ≡ feed f' cs
unfolding feed
feed_next f f' c cs e = rw (e, feed)

-- The flow when the circuit is up and `bridge` has come in behind the response.
abbrev pub connected : HopConnect → HopMessage → Bytes → HopConnect
connected f msg bridge = record f {
  recv_buf = [];
  state = done;
  outcome = some (bridged msg.limit);
  emitted_outcome = false;
  bridge_bytes = f.bridge_bytes ++ bridge;
}

on_data_bridged :
    (f : HopConnect) (msg : HopMessage) (bridge c : Bytes)
    → on_data (connected f msg bridge) c ≡ some (connected f msg (bridge ++ c), ok tt)
unfolding on_data
on_data_bridged f msg bridge c = rw append_assoc

feed_bridged :
    (f : HopConnect) (msg : HopMessage) (bridge : Bytes) (cs : List Bytes)
    → feed (connected f msg bridge) cs ≡ some (connected f msg (bridge ++ flatten cs), ok tt)
unfolding flatten
feed_bridged f msg bridge [] = unfold feed in rw (append-nil bridge)
feed_bridged f msg bridge (c ∷ cs) =
    feed_next (connected f msg bridge) (connected f msg (bridge ++ c)) c cs
      (on_data_bridged f msg bridge c)
    ∙ feed_bridged f msg (bridge ++ c) cs
    ∙ ap (λ (b : Bytes). some (connected f msg b, ok tt)) (append_assoc bridge c (flatten cs))

on_data_wait :
    (f : HopConnect) (c : Bytes)
    → f.state ≢ done
    → length (f.recv_buf ++ c) ≤ max_message_size
    → decode_frame (f.recv_buf ++ c) ≡ incomplete
    → on_data f c ≡ some (record f { recv_buf = f.recv_buf ++ c }, ok tt)
unfolding on_data enforce_max_size
on_data_wait f c s h e = ground arith

on_data_whole :
    (f : HopConnect) (c payload : Bytes) (consumed : ℕ) (msg : HopMessage)
    → f.state ≢ done
    → length (f.recv_buf ++ c) ≤ max_message_size
    → decode_frame (f.recv_buf ++ c) ≡ complete payload consumed
    → HopMessage.decode payload ≡ ok msg
    → msg.kind ≡ HopMessageType.status
    → msg.status ≡ some Status.ok
    → on_data f c ≡ some (connected f msg (drop consumed (f.recv_buf ++ c)), ok tt)
unfolding on_data enforce_max_size
on_data_whole f c payload consumed msg s h e d k o = ground arith

abbrev pub response : HopMessage → Bytes
response msg = encode_frame (HopMessage.encode msg)

module _ (msg : HopMessage) (u : IsTyped msg) (k : msg.kind ≡ HopMessageType.status)
    (o : msg.status ≡ some Status.ok) (fits : length (HopMessage.encode msg) < 2 ^ 63) where
  on_data-response :
      (f : HopConnect) (c over : Bytes)
      → f.state ≢ done
      → length (f.recv_buf ++ c) ≤ max_message_size
      → f.recv_buf ++ c ≡ response msg ++ over
      → on_data f c ≡ some (connected f msg over, ok tt)
  on_data-response f c over s h e =
      let body = HopMessage.encode msg in
      let n = length (response msg) in
      let frame = ap decode_frame e ∙ decode_frame-encode_frame body over fits in
      on_data_whole f c body n msg s h frame (hop_decode-encode msg u (omega arith)) k o
      ∙ ap (λ (b : Bytes). some (connected f msg b, ok tt))
          (ap (drop n) e ∙ drop-length (response msg) over)

  feed-response :
      (cs : List Bytes) (f : HopConnect) (after : Bytes)
      → f.state ≢ done
      → length f.recv_buf < length (response msg)
      → All (λ (c : Bytes). length c + length (response msg) ≤ max_message_size) cs
      → f.recv_buf ++ flatten cs ≡ response msg ++ after
      → feed f cs ≡ some (connected f msg after, ok tt)
  unfolding flatten
  feed-response [] f after s p h e =
      absurd (
        omega (arith, ap length e, length-append f.recv_buf [], length-append (response msg) after))
  feed-response (c ∷ cs) f after s p h e =
      let size : length (f.recv_buf ++ c) ≤ max_message_size =
        omega (arith, length-append f.recv_buf c, h.0) in
      let whole : (f.recv_buf ++ c) ++ flatten cs ≡ response msg ++ after =
        append_assoc f.recv_buf c (flatten cs) ∙ e in
      elim (append_split (f.recv_buf ++ c) (flatten cs) (response msg) after whole) [
        | inl (x, back, cut) ↦
            let wait =
              on_data_wait f c s size
                (decode_frame_cut (HopMessage.encode msg) (f.recv_buf ++ c) x back fits cut) in
            feed_next f _ c cs wait
            ∙ feed-response cs (record f { recv_buf = f.recv_buf ++ c }) after s
                (omega (arith, ap length cut, length-append (f.recv_buf ++ c) (x ∷ back))) h.1 whole
        | inr (over, here, later) ↦
            feed_next f _ c cs (on_data-response f c over s size here)
            ∙ feed_bridged f msg over cs
            ∙ ap (λ (b : Bytes). some (connected f msg b, ok tt)) (sym later)
      ]

-- However an accepting response and the bytes of the bridge behind it are cut into chunks, no
-- byte is lost, doubled or moved: the flow ends bridged, with the response's limit, and the bytes
-- behind the response are in `bridge_bytes` in their order. The response is a STATUS OK with
-- values of their machine types, the flow has not ended and has nothing buffered, and each chunk
-- and the response fit the size limit together.
pub connect_chunks :
    (msg : HopMessage) (f : HopConnect) (cs : List Bytes) (after : Bytes)
    → IsTyped msg
    → msg.kind ≡ HopMessageType.status
    → msg.status ≡ some Status.ok
    → f.state ≢ done
    → f.recv_buf ≡ []
    → All (λ (c : Bytes). length c + length (response msg) ≤ max_message_size) cs
    → flatten cs ≡ response msg ++ after
    → feed f cs ≡ some (connected f msg after, ok tt)
unfolding flatten
connect_chunks msg f [] after u k o s n h e = absurd (
    omega (
      arith,
      ap length e,
      length-append (response msg) after,
      encode_frame_pos (HopMessage.encode msg),
    ))
connect_chunks msg f (c ∷ cs) after u k o s n h e =
    feed-response msg u k o (omega (arith, length-encode_frame (HopMessage.encode msg), h.0))
      (c ∷ cs) f after s (omega (arith, ap length n, encode_frame_pos (HopMessage.encode msg))) h
      (ap (λ (b : Bytes). b ++ flatten (c ∷ cs)) n ∙ e)
