-- ===== src/Autonat/Tests.antt =====
-- The theorems on a concrete probe.
use mathlib.Core.List.{flatten}
use minip2p.Prelude.{
  ◌≤◌, ◌≡◌, ◌≢◌, refl, sym, ap, ◌∙◌, false, List, [], ◌∷◌, ◌++◌, none, arith, length, take, drop,
  length-take, length-drop, take-append-drop, append-nil,
}
use minip2p.Prelude.Bits.{IsU64}
use minip2p.Prelude.Result.{ok, err}
use minip2p.Varint.{Bytes, read_uvarint, write_uvarint}
use minip2p.Wire
use minip2p.Wire.{encode_varint_field, encode_bytes_field}
use minip2p.Frame
use minip2p.Identity.PeerId
use minip2p.Identity.Sample.{SampleHash, sample_hash, sample-IsLawful, alice_id}
use minip2p.Core.Protocol.{ip4, udp, quic_v1, write_binary}
use minip2p.Core.Multiaddr
use minip2p.Core.Multiaddr.{Multiaddr, from_protocols}
use minip2p.Autonat.Types
use minip2p.Autonat.Types.{Message, type_to_u64, status_to_u64}
use minip2p.Autonat.PeerInfo
use minip2p.Autonat.Dial
use minip2p.Autonat.DialResponse
use minip2p.Autonat.Message
use minip2p.Autonat.Message.{autonat_decode-encode}
use minip2p.Autonat.Flow.{frame_of, Roomy, encode_addrs}
use minip2p.Autonat.Client
use minip2p.Autonat.Client.{dial_of, peer_info}
use minip2p.Autonat.Server
use minip2p.Autonat.Client.{AutoNatClient}
use minip2p.Autonat.Client.Errors.{client_fails}
use minip2p.Frame.Laws.{length-encode_frame}
use minip2p.Autonat.Reader.{decode_fields, run_fields, read_tag}
use minip2p.Autonat.Frame.{enforce_max_size, decode_frame, frame_at}
use minip2p.Autonat.Server.Once.{ServerOp, give, poll, reported, server_once}
use minip2p.Autonat.Exchange.{Answer, reached, reply_of, Probed, autonat_probe}

abbrev quic_addr : Multiaddr SampleHash
quic_addr = from_protocols (ip4 (10 ∷ 0 ∷ 0 ∷ 1 ∷ []) ∷ udp 4001 ∷ quic_v1 ∷ [])

abbrev own : List (Multiaddr SampleHash)
own = quic_addr ∷ []

abbrev answer : Answer SampleHash
answer = reached own

abbrev request : Message
request = dial_of (peer_info alice_id own)

abbrev hello_bytes : Bytes
hello_bytes =
    22 ∷ 8 ∷ 0 ∷ 18 ∷ 18 ∷ 10 ∷ 16 ∷ 10 ∷ 1 ∷ 0 ∷ 18 ∷ 11 ∷ 4 ∷ 10 ∷ 0 ∷ 0 ∷ 1 ∷ 145 ∷ 2 ∷ 15 ∷ 161
    ∷ 205 ∷ 3 ∷ []

abbrev reply_bytes : Bytes
reply_bytes =
    19 ∷ 8 ∷ 1 ∷ 26 ∷ 15 ∷ 8 ∷ 0 ∷ 26 ∷ 11 ∷ 4 ∷ 10 ∷ 0 ∷ 0 ∷ 1 ∷ 145 ∷ 2 ∷ 15 ∷ 161 ∷ 205 ∷ 3 ∷ []

hello_lem : frame_of request ≡ hello_bytes
unfolding Frame.encode_frame Message.encode PeerInfo.encode Dial.encode encode_varint_field
    encode_bytes_field write_uvarint type_to_u64 peer_info encode_addrs PeerId.to_bytes
    Multiaddr.to_bytes write_binary
hello_lem = refl

reply_lem : frame_of (reply_of answer) ≡ reply_bytes
unfolding Frame.encode_frame Message.encode DialResponse.encode encode_varint_field
    encode_bytes_field write_uvarint type_to_u64 status_to_u64 encode_addrs Multiaddr.to_bytes
    write_binary
reply_lem = refl

abbrev halves : Bytes → List Bytes
halves bytes = take 2 bytes ∷ drop 2 bytes ∷ []

halves-Roomy :
    (msg : Message) (bytes : Bytes)
    → frame_of msg ≡ bytes
    → length bytes ≤ 100
    → Roomy msg (halves bytes)
halves-Roomy msg bytes e h = (
  omega (arith, ap length e, length-take 2 bytes),
  (omega (arith, ap length e, length-drop 2 bytes), tt),
)

flatten-halves :
    (msg : Message) (bytes : Bytes) → frame_of msg ≡ bytes → flatten (halves bytes) ≡ frame_of msg
unfolding flatten
flatten-halves msg bytes e =
    ap (λ xs. take 2 bytes ++ xs) (append-nil (drop 2 bytes)) ∙ take-append-drop 2 bytes ∙ sym e

autonat_probe_example : Probed alice_id own answer (halves hello_bytes) (halves reply_bytes)
unfolding PeerId.validate_multihash
autonat_probe_example =
    autonat_probe alice_id own answer sample-IsLawful (halves hello_bytes) (halves reply_bytes) refl
      ((refl, (omega arith, (tt, tt))), tt) (((refl, (omega arith, (tt, tt))), tt), tt)
      (halves-Roomy request hello_bytes hello_lem (omega arith))
      (halves-Roomy (reply_of answer) reply_bytes reply_lem (omega arith))
      (flatten-halves request hello_bytes hello_lem)
      (flatten-halves (reply_of answer) reply_bytes reply_lem)

request_fits : IsU64 (length (Message.encode request))
request_fits = omega (arith, ap length hello_lem, length-encode_frame (Message.encode request))

autonat_decode-encode_example : Message.decode (Message.encode request) ≡ ok request
autonat_decode-encode_example = autonat_decode-encode request tt request_fits

-- A request that comes twice.
abbrev twice : List (ServerOp SampleHash)
twice = give (Server.received hello_bytes) ∷ poll ∷ give (Server.received hello_bytes) ∷ poll ∷ []

server_once_example : reported Server.new twice ≤ 1
server_once_example = server_once twice

-- A message without a type.
abbrev untyped : Bytes
untyped = 0 ∷ []

abbrev probing : AutoNatClient SampleHash
probing = record {
  outbound = [];
  recv_buf = [];
  state = Client.awaiting_response;
  outcome = none;
  emitted_outcome = false;
}

untyped_lem : (Client.on_data probing untyped).1 ≡ err Types.missing_type
unfolding Client.on_data Client.try_decode_response enforce_max_size decode_frame
    minip2p.Autonat.Frame.frame_of frame_at Message.decode decode_fields run_fields read_uvarint
    read_tag Wire.read_tag
untyped_lem = refl

abbrev Unchanged : Type 0
Unchanged =
    ((Client.on_data probing untyped).0.outcome ≡ none)
    × ((Client.on_data probing untyped).0.outbound ≡ [])
    × (Types.missing_type ≢ Types.unexpected_message "expected DIAL_RESPONSE"
        → (Client.on_data probing untyped).0.state ≡ Client.awaiting_response)

client_fails_example : Unchanged
client_fails_example = client_fails probing untyped Types.missing_type untyped_lem
