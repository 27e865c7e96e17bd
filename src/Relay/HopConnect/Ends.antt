-- ===== src/Relay/HopConnect/Ends.antt =====
-- `HopConnect` on errors, on its end, and on a length that overflows.
use mathlib.Core.Path.{subst}
use minip2p.Prelude.{
  ℕ, ◌+◌, ◌≤◌, ◌<◌, ◌^◌, ◌≡◌, ◌≢◌, refl, sym, ap, ◌∙◌, [], ◌++◌, Option, none, some, arith, length,
  Bool-cases, drop, append-nil, inl, inr,
}
use minip2p.Prelude.Bits.{IsU64}
use minip2p.Prelude.Result.{Result, ok, err}
use minip2p.Varint.{Bytes, read_uvarint}
use minip2p.Frame.{FrameDecode, complete, incomplete, error, panicked, decode_frame, encode_frame}
use minip2p.Frame.Laws.{decode_frame_panics, decode_frame-encode_frame}
use minip2p.Relay.Codes.{RelayMessageError, HopMessageType}
use minip2p.Relay.HopMessage
use minip2p.Relay.HopMessage.{HopMessage}
use minip2p.Relay.HopMessage.RoundTrip.{IsTyped, hop_decode-encode}
use minip2p.Relay.Flow.{
  RelayError, FlowState, pending, awaiting_response, done, Handled, enforce_max_size,
  max_message_size,
}
use minip2p.Relay.HopConnect.{
  HopConnect, HopConnectInput, connect_request, new, take_outbound, flush, received,
  remote_write_closed, ConnectOutcome, is_bridged, on_data_in, on_message, on_payload, on_frame,
  on_buffer, try_decode_response, on_data, on_remote_write_closed, handle_input,
}

on_data_panics :
    (f : HopConnect) (c : Bytes)
    → f.state ≢ done
    → length (f.recv_buf ++ c) ≤ max_message_size
    → decode_frame (f.recv_buf ++ c) ≡ panicked
    → on_data f c ≡ none
unfolding on_data enforce_max_size
on_data_panics f c s h e = ground arith

-- A peer can make a CONNECT flow panic: it does on data that completes a length prefix, when the
-- prefix and the announced length do not fit 64 bits together, although the buffer is within the
-- size limit. The flow has not ended.
pub connect_overflow_panics :
    (f : HopConnect) (c : Bytes) (len used : ℕ)
    → f.state ≢ done
    → length (f.recv_buf ++ c) ≤ max_message_size
    → read_uvarint (f.recv_buf ++ c) ≡ ok (len, used)
    → IsU64 len
    → 2 ^ 64 ≤ used + len
    → handle_input f (received c) ≡ none
unfolding handle_input
connect_overflow_panics f c len used s h e u big =
    on_data_panics f c s h
      ((decode_frame_panics (f.recv_buf ++ c) len used u (omega arith) e).1 big)

-- What an error leaves of a flow.
abbrev pub Ended : Option ConnectOutcome → Bytes → Handled HopConnect → Type 0
Ended outcome bridge none = Unit {0}
Ended outcome bridge (some (f', ok _)) = Unit {0}
Ended outcome bridge (some (f', err e)) =
    (f'.state ≡ done) × (f'.outcome ≡ outcome) × (f'.bridge_bytes ≡ bridge)

payload-Ended :
    (f : HopConnect) (n : ℕ) (r : Result RelayMessageError HopMessage)
    → Ended f.outcome f.bridge_bytes (some (on_payload f n r))
unfolding on_payload on_message
payload-Ended f n (err e) = (refl, refl, refl)
payload-Ended f n (ok msg) = go msg.kind
  where
    go :
        (k : HopMessageType)
        → Ended f.outcome f.bridge_bytes
            (some (on_message k (record f { recv_buf = drop n f.recv_buf }) msg))
    go HopMessageType.status = tt
    go HopMessageType.reserve = (refl, refl, refl)
    go HopMessageType.connect = (refl, refl, refl)

frame-Ended : (f : HopConnect) (d : FrameDecode) → Ended f.outcome f.bridge_bytes (on_frame f d)
unfolding on_frame
frame-Ended f panicked = tt
frame-Ended f incomplete = tt
frame-Ended f (error e) = (refl, refl, refl)
frame-Ended f (complete p n) = payload-Ended f n (HopMessage.decode p)

buffer-Ended :
    (f : HopConnect) (r : Result RelayError (Unit {0}))
    → Ended f.outcome f.bridge_bytes (on_buffer f r)
unfolding on_buffer
buffer-Ended f (err e) = (refl, refl, refl)
buffer-Ended f (ok _) = frame-Ended f (decode_frame f.recv_buf)

decode-Ended :
    (s : FlowState) (f : HopConnect) → Ended f.outcome f.bridge_bytes (try_decode_response s f)
unfolding try_decode_response
decode-Ended done f = tt
decode-Ended pending f = buffer-Ended f (enforce_max_size f.recv_buf)
decode-Ended awaiting_response f = buffer-Ended f (enforce_max_size f.recv_buf)

data-Ended :
    (s : FlowState) (f : HopConnect) (c : Bytes) → Ended f.outcome f.bridge_bytes (on_data_in s f c)
unfolding on_data_in
data-Ended pending f c = decode-Ended f.state (record f { recv_buf = f.recv_buf ++ c })
data-Ended awaiting_response f c = decode-Ended f.state (record f { recv_buf = f.recv_buf ++ c })
data-Ended done f c = elim (Bool-cases (is_bridged f.outcome)) [ inl b ↦ rw b tt | inr b ↦ rw b tt ]

input-Ended :
    (f : HopConnect) (i : HopConnectInput) → Ended f.outcome f.bridge_bytes (handle_input f i)
unfolding handle_input on_data on_remote_write_closed
input-Ended f flush = tt
input-Ended f remote_write_closed = decode-Ended f.state f
input-Ended f (received c) = data-Ended f.state f c

-- Every error, whatever the input, ends a CONNECT flow; the outcome is what it was, so that no
-- bridge is reported, and no byte is added to the bridge.
pub connect_error_ends :
    (f f' : HopConnect) (i : HopConnectInput) (e : RelayError)
    → handle_input f i ≡ some (f', err e)
    → (f'.state ≡ done) × (f'.outcome ≡ f.outcome) × (f'.bridge_bytes ≡ f.bridge_bytes)
connect_error_ends f f' i e h = subst (Ended f.outcome f.bridge_bytes) h (input-Ended f i)

-- The first bytes that a CONNECT flow sends are one frame, whose payload decodes to a CONNECT for
-- the target, and the flow then waits for the response. The request lies in memory.
pub connect_sends :
    (target_peer_id : Bytes)
    → length (HopMessage.encode (connect_request target_peer_id)) < 2 ^ 63
    → (payload : Bytes) × (decode_frame ((take_outbound (new target_peer_id)).1)
        ≡ complete payload (length ((take_outbound (new target_peer_id)).1)))
      × (HopMessage.decode payload ≡ ok (connect_request target_peer_id))
      × ((take_outbound (new target_peer_id)).0.state ≡ awaiting_response)
unfolding take_outbound new connect_request
connect_sends t h =
    let body = HopMessage.encode (connect_request t) in
    (
      body,
      ap decode_frame (sym (append-nil (encode_frame body))) ∙ decode_frame-encode_frame body [] h,
      hop_decode-encode (connect_request t) typed (omega arith),
      refl,
    )
  where
    typed : IsTyped (connect_request t)
    typed = (tt, tt)
