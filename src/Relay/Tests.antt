-- ===== src/Relay/Tests.antt =====
-- Runs of the relay messages and flows, and the theorems on concrete messages.
use mathlib.Core.List.{flatten}
use minip2p.Prelude.{
  false, ◌^◌, ◌-◌, ◌≡◌, ◌≢◌, ◌≤◌, ◌+◌, refl, List, [], ◌∷◌, ◌++◌, arith, All, length, none, some,
}
use minip2p.Prelude.Bits.{IsU64}
use minip2p.Prelude.Result.{ok, err}
use minip2p.Varint.{Bytes, non_canonical, read_uvarint, write_uvarint}
use minip2p.Wire.{encode_varint_field, encode_bytes_field}
use minip2p.Frame.{decode_frame, encode_frame}
use minip2p.Relay.Codes.{
  RelayMessageError, HopMessageType, StopMessageType, Status, relay_wire_error, hop_type_to_u64,
  stop_type_to_u64, status_to_u64,
}
use minip2p.Relay.Peer
use minip2p.Relay.Peer.{Peer}
use minip2p.Relay.Reservation
use minip2p.Relay.Reservation.{Reservation}
use minip2p.Relay.Limit
use minip2p.Relay.Limit.{Limit}
use minip2p.Relay.Flow.{
  RelayError, malformed, awaiting_response, done, max_message_size, enforce_max_size,
}
use minip2p.Relay.HopMessage
use minip2p.Relay.HopMessage.{HopMessage}
use minip2p.Relay.HopMessage.RoundTrip.{hop_decode-encode}
use minip2p.Relay.StopMessage
use minip2p.Relay.StopMessage.{StopMessage}
use minip2p.Relay.StopMessage.RoundTrip.{stop_decode-encode}
use minip2p.Relay.HopReservation
use minip2p.Relay.HopReservation.Chunks.{reservation_chunks}
use minip2p.Relay.HopConnect
use minip2p.Relay.HopConnect.Ends.{connect_overflow_panics, connect_error_ends}
use minip2p.Relay.HopConnect.Chunks.{connect_chunks}
use minip2p.Relay.StopResponder
use minip2p.Relay.StopResponder.Chunks.{stop_circuit}

abbrev limit_of : Limit
limit_of = record { duration = some 120; bytes = some 1024 }

abbrev accepting : HopMessage
accepting = record {
  kind = HopMessageType.status;
  peer = none;
  reservation = some (record { expire = some 300; addrs = (4 ∷ 1 ∷ []) ∷ []; voucher = none });
  limit = some limit_of;
  status = some Status.ok;
}

accepting-IsTyped : HopMessage.RoundTrip.IsTyped accepting
accepting-IsTyped = (omega arith, (omega arith, omega arith))

encode-accepting :
    HopMessage.encode accepting
    ≡ 8 ∷ 2 ∷ 26 ∷ 7 ∷ 8 ∷ 172 ∷ 2 ∷ 18 ∷ 2 ∷ 4 ∷ 1 ∷ 34 ∷ 5 ∷ 8 ∷ 120 ∷ 16 ∷ 128 ∷ 8 ∷ 40 ∷ 100
      ∷ []
unfolding HopMessage.encode Reservation.encode Limit.encode encode_varint_field encode_bytes_field
    write_uvarint hop_type_to_u64 status_to_u64
encode-accepting = refl

accepting_fits : IsU64 (length (HopMessage.encode accepting))
unfolding HopMessage.encode Reservation.encode Limit.encode encode_varint_field encode_bytes_field
    write_uvarint hop_type_to_u64 status_to_u64
accepting_fits = omega arith

hop_decode-encode_example : HopMessage.decode (HopMessage.encode accepting) ≡ ok accepting
hop_decode-encode_example = hop_decode-encode accepting accepting-IsTyped accepting_fits

abbrev short : Bytes
short = 8 ∷ 2 ∷ []

abbrev source : Peer
source = record { id = 1 ∷ 2 ∷ 3 ∷ []; addrs = [] }

abbrev request : StopMessage
request = record {
  kind = StopMessageType.connect;
  peer = some source;
  limit = some limit_of;
  status = none;
}

request-IsTyped : StopMessage.RoundTrip.IsTyped request
request-IsTyped = (omega arith, omega arith)

request_fits : IsU64 (length (StopMessage.encode request))
unfolding StopMessage.encode Peer.encode Limit.encode encode_varint_field encode_bytes_field
    write_uvarint stop_type_to_u64 status_to_u64
request_fits = omega arith

-- A STATUS OK with nothing else, in two pieces and with two bytes behind it.
abbrev status_ok : HopMessage
status_ok = record {
  kind = HopMessageType.status;
  peer = none;
  reservation = none;
  limit = none;
  status = some Status.ok;
}

abbrev pieces : List Bytes
pieces = (4 ∷ 8 ∷ []) ∷ (2 ∷ 40 ∷ 100 ∷ 7 ∷ []) ∷ (9 ∷ []) ∷ []

status_ok_frame : encode_frame (HopMessage.encode status_ok) ≡ 4 ∷ 8 ∷ 2 ∷ 40 ∷ 100 ∷ []
unfolding encode_frame HopMessage.encode encode_varint_field write_uvarint hop_type_to_u64
    status_to_u64
status_ok_frame = refl

pieces_bytes : flatten pieces ≡ encode_frame (HopMessage.encode status_ok) ++ (7 ∷ 9 ∷ [])
unfolding flatten
pieces_bytes = rw status_ok_frame refl

pieces_fit :
    All
      (λ (c : Bytes).
        length c + length (encode_frame (HopMessage.encode status_ok)) ≤ max_message_size)
      pieces
pieces_fit = rw status_ok_frame (omega arith, (omega arith, (omega arith, tt)))

not_done : (HopReservation.new).state ≢ done
unfolding HopReservation.new
not_done e = cc

reservation_chunks_example :
    (rest : Bytes) × (HopReservation.Chunks.feed HopReservation.new pieces
      ≡ some (HopReservation.Chunks.answered HopReservation.new status_ok rest, ok tt))
unfolding HopReservation.new
reservation_chunks_example =
    reservation_chunks status_ok HopReservation.new pieces (7 ∷ 9 ∷ []) (tt, tt) refl not_done refl
      pieces_fit pieces_bytes

connecting : (HopConnect.new (5 ∷ [])).state ≢ done
unfolding HopConnect.new
connecting e = cc

connect_chunks_example :
    HopConnect.Chunks.feed (HopConnect.new (5 ∷ [])) pieces
    ≡ some (HopConnect.Chunks.connected (HopConnect.new (5 ∷ [])) status_ok (7 ∷ 9 ∷ []), ok tt)
unfolding HopConnect.new
connect_chunks_example =
    connect_chunks status_ok (HopConnect.new (5 ∷ [])) pieces (7 ∷ 9 ∷ []) (tt, tt) refl refl
      connecting refl pieces_fit pieces_bytes

-- The request that ends in `request`, in two pieces, with two bytes of the circuit behind it.
abbrev request_pieces : List Bytes
request_pieces =
    (16 ∷ 8 ∷ 0 ∷ 18 ∷ 5 ∷ 10 ∷ [])
    ∷ (3 ∷ 1 ∷ 2 ∷ 3 ∷ 26 ∷ 5 ∷ 8 ∷ 120 ∷ 16 ∷ 128 ∷ 8 ∷ 7 ∷ [])
    ∷ (9 ∷ [])
    ∷ []

request_frame :
    encode_frame (StopMessage.encode request)
    ≡ 16 ∷ 8 ∷ 0 ∷ 18 ∷ 5 ∷ 10 ∷ 3 ∷ 1 ∷ 2 ∷ 3 ∷ 26 ∷ 5 ∷ 8 ∷ 120 ∷ 16 ∷ 128 ∷ 8 ∷ []
unfolding encode_frame StopMessage.encode Peer.encode Limit.encode encode_varint_field
    encode_bytes_field write_uvarint stop_type_to_u64 status_to_u64
request_frame = refl

request_bytes : flatten request_pieces ≡ encode_frame (StopMessage.encode request) ++ (7 ∷ 9 ∷ [])
unfolding flatten
request_bytes = rw request_frame refl

request_pieces_fit :
    All
      (λ (c : Bytes).
        length c + length (encode_frame (StopMessage.encode request)) ≤ max_message_size)
      request_pieces
request_pieces_fit = rw request_frame (omega arith, (omega arith, (omega arith, tt)))

abbrev late : List Bytes
late = (11 ∷ []) ∷ (12 ∷ []) ∷ []

stop_circuit_example :
    (StopResponder.Chunks.feed StopResponder.new request_pieces
      ≡ some (StopResponder.Chunks.asked StopResponder.new request source (7 ∷ 9 ∷ []), ok tt))
    × (StopResponder.handle_input
          (StopResponder.Chunks.asked StopResponder.new request source (7 ∷ 9 ∷ []))
          StopResponder.accept
        ≡ some (StopResponder.Chunks.circuit StopResponder.new request source (7 ∷ 9 ∷ []), ok tt))
    × (StopResponder.Chunks.feed
          (StopResponder.Chunks.circuit StopResponder.new request source (7 ∷ 9 ∷ []))
          late
        ≡ some (
          StopResponder.Chunks.circuit StopResponder.new request source
              ((7 ∷ 9 ∷ []) ++ flatten late),
          ok tt,
        ))
unfolding StopResponder.new
stop_circuit_example =
    stop_circuit request source StopResponder.new request_pieces late (7 ∷ 9 ∷ []) request-IsTyped
      refl refl refl refl request_pieces_fit request_bytes

-- The length prefix is 2 ^ 64 - 1.
abbrev overflowing : Bytes
overflowing = 0xff ∷ 0xff ∷ 0xff ∷ 0xff ∷ 0xff ∷ 0xff ∷ 0xff ∷ 0xff ∷ 0xff ∷ 0x01 ∷ []

abbrev waiting : HopConnect.HopConnect
waiting = record {
  outbound = [];
  recv_buf = [];
  state = awaiting_response;
  outcome = none;
  emitted_outcome = false;
  bridge_bytes = [];
}

waiting_on : waiting.state ≢ done
waiting_on e = cc

read_overflowing : read_uvarint overflowing ≡ ok (2 ^ 64 - 1, 10)
unfolding read_uvarint
read_overflowing = refl

connect_overflow_panics_example :
    HopConnect.handle_input waiting (HopConnect.received overflowing) ≡ none
connect_overflow_panics_example =
    connect_overflow_panics waiting overflowing (2 ^ 64 - 1) 10 waiting_on (omega arith)
      read_overflowing (omega arith) (omega arith)

-- Two bytes that are no minimal length.
abbrev overlong : Bytes
overlong = 0x80 ∷ 0x00 ∷ []

abbrev overlong_error : RelayError
overlong_error = malformed (RelayMessageError.varint non_canonical)

refused_flow :
    HopConnect.handle_input waiting (HopConnect.received overlong)
    ≡ some (record waiting { recv_buf = overlong; state = done }, err overlong_error)
unfolding HopConnect.handle_input HopConnect.on_data enforce_max_size decode_frame read_uvarint
refused_flow = refl

connect_error_ends_example :
    (done ≡ done)
    × (waiting.outcome ≡ waiting.outcome)
    × (waiting.bridge_bytes ≡ waiting.bridge_bytes)
connect_error_ends_example =
    connect_error_ends waiting (record waiting { recv_buf = overlong; state = done })
      (HopConnect.received overlong) overlong_error refused_flow
