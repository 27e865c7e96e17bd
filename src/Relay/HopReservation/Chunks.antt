-- ===== src/Relay/HopReservation/Chunks.antt =====
-- `HopReservation` on a response that arrives in pieces.
use mathlib.Core.List.{flatten}
use minip2p.Prelude.{
  ℕ, ◌+◌, ◌≤◌, ◌<◌, ◌^◌, ◌≡◌, ◌≢◌, refl, ap, ◌∙◌, false, List, [], ◌∷◌, ◌++◌, Option, none, some,
  drop, arith, length, length-append, append_assoc, All, append_split, inl, inr,
}
use minip2p.Prelude.Result.{ok, err}
use minip2p.Varint.{Bytes}
use minip2p.Frame.{complete, incomplete, decode_frame, encode_frame}
use minip2p.Frame.Laws.{decode_frame-encode_frame, length-encode_frame, encode_frame_pos}
use minip2p.Frame.Stream.{decode_frame_cut}
use minip2p.Relay.Codes.{HopMessageType, Status}
use minip2p.Relay.Reservation.{Reservation}
use minip2p.Relay.Limit.{Limit}
use minip2p.Relay.HopMessage
use minip2p.Relay.HopMessage.{HopMessage}
use minip2p.Relay.HopMessage.RoundTrip.{IsTyped, hop_decode-encode}
use minip2p.Relay.Flow.{done, Handled, enforce_max_size, max_message_size, describe_status}
use minip2p.Relay.HopReservation.{
  ReservationOutcome, accepted, refused, HopReservation, on_data, outcome_of, status_of,
}

-- The chunks of a stream, up to an error.
unfoldable pub feed : HopReservation → List Bytes → Handled HopReservation
feed f [] = some (f, ok tt)
feed f (c ∷ cs) = elim (on_data f c) [
  | none ↦ none
  | some (f', err e) ↦ some (f', err e)
  | some (f', ok _) ↦ feed f' cs
]

feed_next :
    (f f' : HopReservation) (c : Bytes) (cs : List Bytes)
    → on_data f c ≡ some (f', ok tt)
    → feed f (c ∷ cs) ≡ feed f' cs
unfolding feed
feed_next f f' c cs e = rw (e, feed)

on_data_done : (f : HopReservation) (c : Bytes) → f.state ≡ done → on_data f c ≡ some (f, ok tt)
unfolding on_data
on_data_done f c e = ground arith

feed_done : (f : HopReservation) (cs : List Bytes) → f.state ≡ done → feed f cs ≡ some (f, ok tt)
feed_done f [] e = unfold feed in refl
feed_done f (c ∷ cs) e = feed_next f f c cs (on_data_done f c e) ∙ feed_done f cs e

on_data_wait :
    (f : HopReservation) (c : Bytes)
    → f.state ≢ done
    → length (f.recv_buf ++ c) ≤ max_message_size
    → decode_frame (f.recv_buf ++ c) ≡ incomplete
    → on_data f c ≡ some (record f { recv_buf = f.recv_buf ++ c }, ok tt)
unfolding on_data enforce_max_size
on_data_wait f c s h e = ground arith

-- What a status tells the client: OK is the reservation with its limit, and every other one, a
-- missing one too, is a refusal with its name and number.
abbrev pub verdict : Option Status → Option Reservation → Option Limit → ReservationOutcome
verdict (some Status.ok) reservation limit = accepted reservation limit
verdict none reservation limit = refused Status.unused "UNUSED (0)"
verdict (some Status.unused) reservation limit = refused Status.unused "UNUSED (0)"
verdict (some Status.reservation_refused) reservation limit =
    refused Status.reservation_refused "RESERVATION_REFUSED (200)"
verdict (some Status.resource_limit_exceeded) reservation limit =
    refused Status.resource_limit_exceeded "RESOURCE_LIMIT_EXCEEDED (201)"
verdict (some Status.permission_denied) reservation limit =
    refused Status.permission_denied "PERMISSION_DENIED (202)"
verdict (some Status.connection_failed) reservation limit =
    refused Status.connection_failed "CONNECTION_FAILED (203)"
verdict (some Status.no_reservation) reservation limit =
    refused Status.no_reservation "NO_RESERVATION (204)"
verdict (some Status.malformed_message) reservation limit =
    refused Status.malformed_message "MALFORMED_MESSAGE (400)"
verdict (some Status.unexpected_message) reservation limit =
    refused Status.unexpected_message "UNEXPECTED_MESSAGE (401)"

outcome_of-verdict :
    (status : Option Status) (msg : HopMessage)
    → outcome_of (status_of status) msg ≡ verdict status msg.reservation msg.limit
unfolding outcome_of describe_status
outcome_of-verdict none msg = refl
outcome_of-verdict (some Status.ok) msg = refl
outcome_of-verdict (some Status.unused) msg = refl
outcome_of-verdict (some Status.reservation_refused) msg = refl
outcome_of-verdict (some Status.resource_limit_exceeded) msg = refl
outcome_of-verdict (some Status.permission_denied) msg = refl
outcome_of-verdict (some Status.connection_failed) msg = refl
outcome_of-verdict (some Status.no_reservation) msg = refl
outcome_of-verdict (some Status.malformed_message) msg = refl
outcome_of-verdict (some Status.unexpected_message) msg = refl

-- The state when the response is in: the outcome is set and not yet reported.
abbrev pub answered : HopReservation → HopMessage → Bytes → HopReservation
answered f msg rest = record f {
  recv_buf = rest;
  state = done;
  outcome = some (verdict msg.status msg.reservation msg.limit);
  emitted_outcome = false;
}

on_data_whole :
    (f : HopReservation) (c payload : Bytes) (consumed : ℕ) (msg : HopMessage)
    → f.state ≢ done
    → length (f.recv_buf ++ c) ≤ max_message_size
    → decode_frame (f.recv_buf ++ c) ≡ complete payload consumed
    → HopMessage.decode payload ≡ ok msg
    → msg.kind ≡ HopMessageType.status
    → on_data f c ≡ some (answered f msg (drop consumed (f.recv_buf ++ c)), ok tt)
unfolding on_data enforce_max_size
on_data_whole f c payload consumed msg s h e d k =
    rw (← outcome_of-verdict msg.status msg) (ground arith)

abbrev pub response : HopMessage → Bytes
response msg = encode_frame (HopMessage.encode msg)

module _ (msg : HopMessage) (u : IsTyped msg) (k : msg.kind ≡ HopMessageType.status)
    (fits : length (HopMessage.encode msg) < 2 ^ 63) where
  on_data-response :
      (f : HopReservation) (c over : Bytes)
      → f.state ≢ done
      → length (f.recv_buf ++ c) ≤ max_message_size
      → f.recv_buf ++ c ≡ response msg ++ over
      → (rest : Bytes) × (on_data f c ≡ some (answered f msg rest, ok tt))
  on_data-response f c over s h e =
      let body = HopMessage.encode msg in
      let frame = ap decode_frame e ∙ decode_frame-encode_frame body over fits in
      (
        drop (length (response msg)) (f.recv_buf ++ c),
        on_data_whole f c body (length (response msg)) msg s h frame
            (hop_decode-encode msg u (omega arith)) k,
      )

  feed-response :
      (cs : List Bytes) (f : HopReservation) (after : Bytes)
      → f.state ≢ done
      → length f.recv_buf < length (response msg)
      → All (λ (c : Bytes). length c + length (response msg) ≤ max_message_size) cs
      → f.recv_buf ++ flatten cs ≡ response msg ++ after
      → (rest : Bytes) × (feed f cs ≡ some (answered f msg rest, ok tt))
  unfolding flatten
  feed-response [] f after s p h e =
      absurd (
        omega (arith, ap length e, length-append f.recv_buf [], length-append (response msg) after))
  feed-response (c ∷ cs) f after s p h e =
      let size : length (f.recv_buf ++ c) ≤ max_message_size =
        omega (arith, length-append f.recv_buf c, h.0) in
      let whole : (f.recv_buf ++ c) ++ flatten cs ≡ response msg ++ after =
        append_assoc f.recv_buf c (flatten cs) ∙ e in
      elim (append_split (f.recv_buf ++ c) (flatten cs) (response msg) after whole) [
        | inl (x, back, cut) ↦
            let wait =
              on_data_wait f c s size
                (decode_frame_cut (HopMessage.encode msg) (f.recv_buf ++ c) x back fits cut) in
            let (rest, r) =
              feed-response cs (record f { recv_buf = f.recv_buf ++ c }) after s
                (omega (arith, ap length cut, length-append (f.recv_buf ++ c) (x ∷ back))) h.1
                whole in
            (rest, feed_next f _ c cs wait ∙ r)
        | inr (over, here, later) ↦
            let (rest, r) = on_data-response f c over s size here in
            (rest, feed_next f _ c cs r ∙ feed_done (answered f msg rest) cs refl)
      ]

-- However the relay's response is cut into chunks, and whatever follows it, a flow that has not
-- ended and has nothing buffered takes it: no chunk fails, the flow is done, and the outcome is
-- waiting to be reported: accepted with the message's reservation and limit when the status is OK,
-- and refused with the status, its name and number in every other case, a missing status as UNUSED.
-- The message is a STATUS with values of their machine types, and each chunk and the response fit
-- the size limit together.
pub reservation_chunks :
    (msg : HopMessage) (f : HopReservation) (cs : List Bytes) (after : Bytes)
    → IsTyped msg
    → msg.kind ≡ HopMessageType.status
    → f.state ≢ done
    → f.recv_buf ≡ []
    → All (λ (c : Bytes). length c + length (response msg) ≤ max_message_size) cs
    → flatten cs ≡ response msg ++ after
    → (rest : Bytes) × (feed f cs ≡ some (answered f msg rest, ok tt))
unfolding flatten
reservation_chunks msg f [] after u k s n h e = absurd (
    omega (
      arith,
      ap length e,
      length-append (response msg) after,
      encode_frame_pos (HopMessage.encode msg),
    ))
reservation_chunks msg f (c ∷ cs) after u k s n h e =
    feed-response msg u k (omega (arith, length-encode_frame (HopMessage.encode msg), h.0)) (c ∷ cs)
      f after s (omega (arith, ap length n, encode_frame_pos (HopMessage.encode msg))) h
      (ap (λ (b : Bytes). b ++ flatten (c ∷ cs)) n ∙ e)
