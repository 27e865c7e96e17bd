-- ===== src/Identify/Tests.antt =====
-- The theorems on concrete peers and a small message.
use mathlib.Core.List.{flatten}
use minip2p.Prelude.{
  ℕ, ◌≡◌, ◌<◌, refl, arith, List, [], ◌∷◌, ◌++◌, none, some, length, drop, replicate, length-append,
  length-replicate,
}
use minip2p.Prelude.Maps.{nat_order, get}
use minip2p.Prelude.Result.{ok}
use minip2p.Varint.{Bytes, write_uvarint}
use minip2p.Wire.{encode_bytes_field}
use minip2p.Multistream.Utf8.{is_utf8}
use minip2p.Identity.Sample.{SampleHash, sample_hash, sample_order, alice_id, bob_id}
use minip2p.Identify.Message
use minip2p.Identify.Message.{IdentifyMessage}
use minip2p.Identify.Message.RoundTrip.{IsTyped, identify_decode-encode}
use minip2p.Identify.Types.{
  max_message_size, IdentifyConfig, IdentifyProtocol, IdentifyAction, send, close_stream_write,
  received, error, exceeds_maximum, PeerIdentifyState, stream_data,
}
use minip2p.Identify.{
  encode_length_prefixed, own_message, register_outbound_stream, register_inbound_stream,
  on_stream_data, on_stream_remote_write_closed, handle_input,
}
use minip2p.Identify.Invariant.{IsBounded, handle_input-IsBounded}
use minip2p.Identify.Delivery.{IsConfig, Waits, sent, feed, identify_delivery, identify_overflow}

abbrev config : IdentifyConfig
config = record {
  protocol_version = b'a' ∷ [];
  agent_version = b'b' ∷ [];
  protocols = (b'c' ∷ []) ∷ [];
  public_key = 1 ∷ [];
}

abbrev message : IdentifyMessage
message = record {
  public_key = some (1 ∷ []);
  listen_addrs = [];
  protocols = (b'c' ∷ []) ∷ [];
  observed_addr = none;
  protocol_version = some (b'a' ∷ []);
  agent_version = some (b'b' ∷ []);
}

abbrev message_bytes : Bytes
message_bytes = 10 ∷ 1 ∷ 1 ∷ 26 ∷ 1 ∷ b'c' ∷ 42 ∷ 1 ∷ b'a' ∷ 50 ∷ 1 ∷ b'b' ∷ []

encode-message : Message.encode message ≡ message_bytes
unfolding Message.encode encode_bytes_field write_uvarint
encode-message = refl

message-IsTyped : IsTyped message
unfolding is_utf8
message-IsTyped = record { protocols_text = (refl, tt); version_text = refl; agent_text = refl }

identify_decode-encode_example : Message.decode (Message.encode message) ≡ ok message
identify_decode-encode_example =
    identify_decode-encode message message-IsTyped (rw encode-message (omega arith))

config-IsConfig : IsConfig config
unfolding is_utf8
config-IsConfig = record { protocols_text = (refl, tt); version_text = refl; agent_text = refl }

sent_lem : sent {H = SampleHash} config none [] ≡ 12 ∷ message_bytes
unfolding own_message Message.encode encode_bytes_field encode_length_prefixed write_uvarint
sent_lem = refl

abbrev chunks : List Bytes
chunks = (12 ∷ 10 ∷ []) ∷ drop 1 message_bytes ∷ []

chunks_whole : flatten chunks ≡ sent {H = SampleHash} config none []
unfolding flatten
chunks_whole = rw sent_lem refl

abbrev open_node : IdentifyProtocol SampleHash
open_node = record { peers = []; events = []; actions = []; config = config }

abbrev listening : IdentifyProtocol SampleHash
listening = register_inbound_stream open_node alice_id 4

abbrev ending : IdentifyProtocol SampleHash × List (IdentifyAction SampleHash)
ending = on_stream_remote_write_closed (feed alice_id 4 listening chunks) alice_id 4

identify_delivery_example :
    ((register_outbound_stream open_node bob_id 7 none []).1
      ≡ ok
          (send bob_id 7 (sent {H = SampleHash} config none []) ∷ close_stream_write bob_id 7 ∷ []))
    × (ending.0.events ≡ received alice_id (own_message {H = SampleHash} config none []) ∷ [])
    × (ending.1 ≡ close_stream_write alice_id 4 ∷ [])
unfolding get
identify_delivery_example =
    identify_delivery alice_id 4 open_node open_node bob_id 7 none [] chunks config-IsConfig refl
      refl (rw sent_lem (omega arith)) chunks_whole

abbrev full : PeerIdentifyState
full = record { outbound_stream = none; inbound_streams = (4, replicate 2 9) ∷ [] }

abbrev full_node : IdentifyProtocol SampleHash
full_node = record { peers = (alice_id, full) ∷ []; events = []; actions = []; config = config }

full_node-IsBounded : IsBounded full_node
full_node-IsBounded = ((omega arith, tt), tt)

-- The data follow the two bytes that stream 4 has buffered.
handle_input-IsBounded_example :
    IsBounded (handle_input full_node (stream_data alice_id 4 (1 ∷ []))).0
handle_input-IsBounded_example =
    handle_input-IsBounded full_node (stream_data alice_id 4 (1 ∷ [])) full_node-IsBounded

full-Waits : Waits alice_id 4 full_node full (replicate 2 9)
unfolding get
full-Waits = record { there = refl; buffered = refl }

abbrev flood : Bytes
flood = replicate 8191 9

flood_long : max_message_size < length (replicate 2 9 ++ flood)
flood_long = omega (arith, length-append (replicate 2 9) flood, length-replicate {A = ℕ} 8191 9)

abbrev flooded : IdentifyProtocol SampleHash × List (IdentifyAction SampleHash)
flooded = on_stream_data full_node alice_id 4 flood

identify_overflow_example :
    (flooded.0.events ≡ error alice_id 4 (exceeds_maximum (length (replicate 2 9 ++ flood))) ∷ [])
    × (flooded.1 ≡ [])
    × (on_stream_remote_write_closed flooded.0 alice_id 4 ≡ (flooded.0, []))
identify_overflow_example =
    identify_overflow alice_id 4 full_node full (replicate 2 9) flood full-Waits flood_long
