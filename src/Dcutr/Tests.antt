-- ===== src/Dcutr/Tests.antt =====
-- The theorems on a concrete message.
use mathlib.Core.List.{flatten}
use minip2p.Prelude.{
  ◌^◌, ◌≤◌, ◌<◌, ap, some, map, List, take, drop, length-take, length-drop, take-append-drop,
  append-nil, ◌++◌, ◌≡◌, refl, [], ◌∷◌, arith, length,
}
use minip2p.Prelude.Bits.{IsU64}
use minip2p.Prelude.Result.{ok}
use minip2p.Varint.{Bytes, write_uvarint}
use minip2p.Wire.{encode_varint_field, encode_bytes_field}
use minip2p.Identity.Sample.{SampleHash, sample_hash, sample-IsLawful}
use minip2p.Core.Protocol.{ip4, udp, quic_v1, write_binary}
use minip2p.Core.Multiaddr.{Multiaddr, from_protocols, to_bytes}
use minip2p.Frame.{encode_frame}
use minip2p.Frame.Laws.{length-encode_frame}
use minip2p.Dcutr.Responder.{DcutrResponder, new}
use minip2p.Dcutr.Responder.Chunks.{Roomy, feed}
use minip2p.Dcutr.Responder.Chunks.Rounds.{connected, synced}
use minip2p.Dcutr.Exchange.{Upgraded, dcutr_exchange, responder_chunks}
use minip2p.Dcutr.Flow.{frame_of, connect_with, sync_message, encode_multiaddr}
use minip2p.Dcutr.HolePunch
use minip2p.Dcutr.HolePunch.{
  HolePunch, dcutr_wire_error, encode, decode, step, nothing, type_to_u64, punch_decode-encode,
  punch_decode_total,
}

abbrev punch : HolePunch
punch = record { kind = HolePunch.sync; obs_addrs = (4 ∷ 127 ∷ []) ∷ [] }

encode-punch : encode punch ≡ 8 ∷ 172 ∷ 2 ∷ 18 ∷ 2 ∷ 4 ∷ 127 ∷ []
unfolding encode encode_varint_field encode_bytes_field write_uvarint type_to_u64
encode-punch = refl

punch_fits : IsU64 (length (encode punch))
punch_fits = rw encode-punch (omega arith)

abbrev input : Bytes
input = 8 ∷ 172 ∷ []

abbrev quic_addr : Multiaddr SampleHash
quic_addr = from_protocols (ip4 (10 ∷ 0 ∷ 0 ∷ 1 ∷ []) ∷ udp 4001 ∷ quic_v1 ∷ [])

-- The three messages of an exchange between a peer with one address and a peer with none.
abbrev hello_bytes : Bytes
hello_bytes = 15 ∷ 8 ∷ 100 ∷ 18 ∷ 11 ∷ 4 ∷ 10 ∷ 0 ∷ 0 ∷ 1 ∷ 145 ∷ 2 ∷ 15 ∷ 161 ∷ 205 ∷ 3 ∷ []

abbrev reply_bytes : Bytes
reply_bytes = 2 ∷ 8 ∷ 100 ∷ []

abbrev sync_bytes : Bytes
sync_bytes = 3 ∷ 8 ∷ 172 ∷ 2 ∷ []

abbrev own : List (Multiaddr SampleHash)
own = quic_addr ∷ []

abbrev remote : List (Multiaddr SampleHash)
remote = []

hello_lem : frame_of (connect_with (map encode_multiaddr own)) ≡ hello_bytes
unfolding encode encode_varint_field encode_bytes_field write_uvarint type_to_u64 encode_frame
    encode_multiaddr to_bytes write_binary
hello_lem = refl

reply_lem : frame_of (connect_with (map encode_multiaddr remote)) ≡ reply_bytes
unfolding encode encode_varint_field encode_bytes_field write_uvarint type_to_u64 encode_frame
    encode_multiaddr to_bytes write_binary
reply_lem = refl

sync_lem : frame_of sync_message ≡ sync_bytes
unfolding encode encode_varint_field encode_bytes_field write_uvarint type_to_u64 encode_frame
    encode_multiaddr to_bytes write_binary
sync_lem = refl

abbrev halves : Bytes → List Bytes
halves bytes = take 2 bytes ∷ drop 2 bytes ∷ []

halves-Roomy :
    (frame bytes : Bytes) → frame ≡ bytes → length bytes ≤ 100 → Roomy (length frame) (halves bytes)
halves-Roomy frame bytes e h =
    rw e (omega (arith, length-take 2 bytes), (omega (arith, length-drop 2 bytes), tt))

flatten-halves : (frame bytes : Bytes) → frame ≡ bytes → flatten (halves bytes) ≡ frame
unfolding flatten
flatten-halves frame bytes e = rw (e, append-nil) (take-append-drop 2 bytes)

abbrev connect_frame : Bytes
connect_frame = frame_of (connect_with (map encode_multiaddr own))

abbrev reply_frame : Bytes
reply_frame = frame_of (connect_with (map encode_multiaddr remote))

dcutr_exchange_example :
    Upgraded own remote 30 (halves hello_bytes) (halves reply_bytes) (halves sync_bytes)
dcutr_exchange_example =
    dcutr_exchange own remote 30 sample-IsLawful (halves hello_bytes) (halves reply_bytes)
      (halves sync_bytes) ((refl, (omega arith, (tt, tt))), tt) tt
      (halves-Roomy connect_frame hello_bytes hello_lem (omega arith))
      (halves-Roomy reply_frame reply_bytes reply_lem (omega arith))
      (halves-Roomy (frame_of sync_message) sync_bytes sync_lem (omega arith))
      (flatten-halves connect_frame hello_bytes hello_lem)
      (flatten-halves reply_frame reply_bytes reply_lem)
      (flatten-halves (frame_of sync_message) sync_bytes sync_lem)

abbrev pipelined : List Bytes
pipelined = halves (reply_bytes ++ (sync_bytes ++ (9 ∷ [])))

abbrev fresh : DcutrResponder SampleHash
fresh = new own

abbrev Both : Type 0
Both = (buf : Bytes) × (feed fresh pipelined ≡ some (synced (connected fresh [] []) buf, ok tt))

message_fits :
    (msg : HolePunch) (bytes : Bytes)
    → frame_of msg ≡ bytes
    → length bytes ≤ 100
    → length (encode msg) < 2 ^ 63
message_fits msg bytes e h = omega (arith, ap length e, length-encode_frame (encode msg))

responder_chunks_example : Both
unfolding new
responder_chunks_example =
    responder_chunks [] fresh pipelined (9 ∷ []) refl refl
      (message_fits (connect_with []) reply_bytes reply_lem (omega arith))
      (message_fits sync_message sync_bytes sync_lem (omega arith))
      (rw (reply_lem, sync_lem) (omega arith, (omega arith, tt)))
      (unfold flatten in rw (reply_lem, sync_lem) refl)
