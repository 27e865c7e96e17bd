-- ===== src/Relay/HopMessage.antt =====
-- crates/relay/src/message.rs: `HopMessage`, its encoding and its decoding.
pub mod RoundTrip
pub mod Unknown
use minip2p.Prelude.{
  ℕ, ◌+◌, ◌*◌, ◌<◌, ◌≤◌, ◌^◌, ◌≡◌, List, [], ◌∷◌, ◌++◌, ◌&&◌, ◌==◌, if◌then◌else◌, arith, Option,
  none, some, if_some,
}
use minip2p.Prelude.Result.{Result, ok, err, ◌>>=◌, ok_or}
use minip2p.Varint.{Bytes}
use minip2p.Wire.{
  tag_byte, wire_varint, wire_len, encode_varint_field, encode_nested_field, read_varint_value,
  read_len_delimited, skip_unknown_field, decode_fields,
}
use minip2p.Wire.Loop.{Advances, moves}
use minip2p.Relay.Codes.{
  RelayMessageError, missing_type, invalid_message_type, relay_wire_error, HopMessageType,
  hop_type_to_u64, hop_type_from_u64, Status, status_to_u64, status_from_u64,
}
use minip2p.Relay.Peer
use minip2p.Relay.Peer.{Peer}
use minip2p.Relay.Reservation
use minip2p.Relay.Reservation.{Reservation}
use minip2p.Relay.Limit
use minip2p.Relay.Limit.{Limit}

pub record HopMessage : Type 0 where
  pub kind : HopMessageType
  pub peer : Option Peer
  pub reservation : Option Reservation
  pub limit : Option Limit
  pub status : Option Status

unfoldable pub encode : HopMessage → Bytes
encode msg =
    let out = encode_varint_field [] (tag_byte 1 wire_varint) (hop_type_to_u64 msg.kind) in
    let out =
      if_some msg.peer (λ peer. encode_nested_field out (tag_byte 2 wire_len) (Peer.encode peer))
        out in
    let out =
      if_some msg.reservation
        (λ r. encode_nested_field out (tag_byte 3 wire_len) (Reservation.encode r)) out in
    let out =
      if_some msg.limit
        (λ limit. encode_nested_field out (tag_byte 4 wire_len) (Limit.encode limit)) out in
    if_some msg.status
      (λ status. encode_varint_field out (tag_byte 5 wire_varint) (status_to_u64 status)) out

-- The local variables of `decode`.
pub record Parts : Type 0 where
  pub kind : Option HopMessageType
  pub peer : Option Peer
  pub reservation : Option Reservation
  pub limit : Option Limit
  pub status : Option Status

abbrev pub nothing : Parts
nothing = record { kind = none; peer = none; reservation = none; limit = none; status = none }

unfoldable pub step :
    Bytes → Parts → (field wire_type idx : ℕ) → Result RelayMessageError (Parts × ℕ)
step input msg field wire_type idx =
    if field == 1 && wire_type == wire_varint
    then (do
      (value, idx') ← read_varint_value input idx
      kind ← ok_or (hop_type_from_u64 value) (invalid_message_type value)
      ok (record msg { kind = some kind }, idx'))
    else if field == 2 && wire_type == wire_len
    then (do
      (body, idx') ← read_len_delimited input idx
      peer ← Peer.decode body
      ok (record msg { peer = some peer }, idx'))
    else if field == 3 && wire_type == wire_len
    then (do
      (body, idx') ← read_len_delimited input idx
      reservation ← Reservation.decode body
      ok (record msg { reservation = some reservation }, idx'))
    else if field == 4 && wire_type == wire_len
    then (do
      (body, idx') ← read_len_delimited input idx
      limit ← Limit.decode body
      ok (record msg { limit = some limit }, idx'))
    else if field == 5 && wire_type == wire_varint
    then (do
      (value, idx') ← read_varint_value input idx
      ok (record msg { status = some (status_from_u64 value) }, idx'))
    else do idx' ← skip_unknown_field input idx wire_type; ok (msg, idx')

unfoldable pub decode : Bytes → Result RelayMessageError HopMessage
unfolding step
decode input = do
  msg ← decode_fields step input nothing
  kind ← ok_or msg.kind missing_type
  ok (record {
    kind = kind;
    peer = msg.peer;
    reservation = msg.reservation;
    limit = msg.limit;
    status = msg.status;
  })

pub step-Advances : Advances step
unfolding step
step-Advances input msg field wire_type idx msg' idx' e = grind (arith, moves)
