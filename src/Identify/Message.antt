-- ===== src/Identify/Message.antt =====
-- crates/identify/src/message.rs: `IdentifyMessage`, its encoding and its decoding. The source writes
-- the readers of Wire inline. A `String` is its bytes, which are UTF-8.
pub mod RoundTrip
use mathlib.Core.List.{foldl}
use minip2p.Prelude.{ℕ, ◌≡◌, List, [], ◌∷◌, ◌++◌, ◌==◌, if◌then◌else◌, Option, none, some, if_some}
use minip2p.Prelude.Result.{Result, ok, err, ◌>>=◌}
use minip2p.Varint.{Bytes, VarintError}
use minip2p.Multistream.Utf8.{is_utf8}
use minip2p.Wire.{
  WireError, tag_byte, wire_len, encode_bytes_field, read_len_delimited, skip_unknown_field,
  decode_fields,
}

abbrev pub field_public_key : ℕ
field_public_key = 1

abbrev pub field_listen_addrs : ℕ
field_listen_addrs = 2

abbrev pub field_protocols : ℕ
field_protocols = 3

abbrev pub field_observed_addr : ℕ
field_observed_addr = 4

abbrev pub field_protocol_version : ℕ
field_protocol_version = 5

abbrev pub field_agent_version : ℕ
field_agent_version = 6

pub record IdentifyMessage : Type 0 where
  pub public_key : Option Bytes
  pub listen_addrs : List Bytes
  pub protocols : List Bytes
  pub observed_addr : Option Bytes
  pub protocol_version : Option Bytes
  pub agent_version : Option Bytes

abbrev pub default : IdentifyMessage
default = record {
  public_key = none;
  listen_addrs = [];
  protocols = [];
  observed_addr = none;
  protocol_version = none;
  agent_version = none;
}

pub data IdentifyMessageError : Type 0 where
  varint : VarintError → IdentifyMessageError
  field_overflow : (offset len remaining : ℕ) → IdentifyMessageError
  invalid_utf8 : (field_number : ℕ) → IdentifyMessageError
  unsupported_wire_type : (wire_type offset : ℕ) → IdentifyMessageError

instance abbrev pub identify_wire_error : WireError IdentifyMessageError
identify_wire_error = record {
  varint = varint;
  field_overflow = field_overflow;
  unsupported_wire_type = unsupported_wire_type;
}

unfoldable pub encode : IdentifyMessage → Bytes
encode msg =
    let key = if_some msg.public_key (λ d. encode_bytes_field [] (tag_byte 1 wire_len) d) [] in
    let addrs =
      foldl (λ out d. encode_bytes_field out (tag_byte 2 wire_len) d) key msg.listen_addrs in
    let protos =
      foldl (λ out d. encode_bytes_field out (tag_byte 3 wire_len) d) addrs msg.protocols in
    let seen =
      if_some msg.observed_addr (λ d. encode_bytes_field protos (tag_byte 4 wire_len) d) protos in
    let version =
      if_some msg.protocol_version (λ d. encode_bytes_field seen (tag_byte 5 wire_len) d) seen in
    if_some msg.agent_version (λ d. encode_bytes_field version (tag_byte 6 wire_len) d) version

unfoldable pub from_utf8 : Bytes → ℕ → Result IdentifyMessageError Bytes
from_utf8 value field_number = if is_utf8 value then ok value else err (invalid_utf8 field_number)

-- The `match` on the number of a LEN field.
unfoldable pub put_field :
    IdentifyMessage → (field : ℕ) → Bytes → Result IdentifyMessageError IdentifyMessage
put_field msg field value =
    if field == field_public_key
    then ok (record msg { public_key = some value })
    else if field == field_listen_addrs
    then ok (record msg { listen_addrs = msg.listen_addrs ++ (value ∷ []) })
    else if field == field_protocols
    then (do s ← from_utf8 value field; ok (record msg { protocols = msg.protocols ++ (s ∷ []) }))
    else if field == field_observed_addr
    then ok (record msg { observed_addr = some value })
    else if field == field_protocol_version
    then (do s ← from_utf8 value field; ok (record msg { protocol_version = some s }))
    else if field == field_agent_version
    then (do s ← from_utf8 value field; ok (record msg { agent_version = some s }))
    else ok msg

-- The `match` on the wire type.
unfoldable pub step :
    Bytes
    → IdentifyMessage
    → (field wire_type idx : ℕ) → Result IdentifyMessageError (IdentifyMessage × ℕ)
step input msg field wire_type idx =
    if wire_type == wire_len
    then (do
      (value, idx') ← read_len_delimited input idx
      msg' ← put_field msg field value
      ok (msg', idx'))
    else do idx' ← skip_unknown_field input idx wire_type; ok (msg, idx')

unfoldable pub decode : Bytes → Result IdentifyMessageError IdentifyMessage
decode input = decode_fields step input default
