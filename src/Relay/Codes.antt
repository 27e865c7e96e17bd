-- ===== src/Relay/Codes.antt =====
-- crates/relay/src/message.rs: the enums with their numbers, and the decoding errors.
use minip2p.Prelude.{ℕ, ◌≡◌, refl, Option, none, some, ◌==◌, if◌then◌else◌, arith, ◌<◌, ◌^◌}
use minip2p.Varint.{VarintError}
use minip2p.Wire.{WireError}

pub data HopMessageType : Type 0 where
  reserve connect status : HopMessageType

pub data StopMessageType : Type 0 where
  connect status : StopMessageType

pub data Status : Type 0 where
  unused ok reservation_refused resource_limit_exceeded permission_denied : Status
  connection_failed no_reservation malformed_message unexpected_message : Status

-- `self.kind as u64`
unfoldable pub hop_type_to_u64 : HopMessageType → ℕ
hop_type_to_u64 HopMessageType.reserve = 0
hop_type_to_u64 HopMessageType.connect = 1
hop_type_to_u64 HopMessageType.status = 2

unfoldable pub hop_type_from_u64 : ℕ → Option HopMessageType
hop_type_from_u64 value =
    if value == 0
    then some HopMessageType.reserve
    else if value == 1
    then some HopMessageType.connect
    else if value == 2
    then some HopMessageType.status
    else none

unfoldable pub stop_type_to_u64 : StopMessageType → ℕ
stop_type_to_u64 StopMessageType.connect = 0
stop_type_to_u64 StopMessageType.status = 1

unfoldable pub stop_type_from_u64 : ℕ → Option StopMessageType
stop_type_from_u64 value =
    if value == 0
    then some StopMessageType.connect
    else if value == 1
    then some StopMessageType.status
    else none

unfoldable pub status_to_u64 : Status → ℕ
status_to_u64 Status.unused = 0
status_to_u64 Status.ok = 100
status_to_u64 Status.reservation_refused = 200
status_to_u64 Status.resource_limit_exceeded = 201
status_to_u64 Status.permission_denied = 202
status_to_u64 Status.connection_failed = 203
status_to_u64 Status.no_reservation = 204
status_to_u64 Status.malformed_message = 400
status_to_u64 Status.unexpected_message = 401

unfoldable pub status_from_u64 : ℕ → Status
status_from_u64 value =
    if value == 100
    then Status.ok
    else if value == 200
    then Status.reservation_refused
    else if value == 201
    then Status.resource_limit_exceeded
    else if value == 202
    then Status.permission_denied
    else if value == 203
    then Status.connection_failed
    else if value == 204
    then Status.no_reservation
    else if value == 400
    then Status.malformed_message
    else if value == 401
    then Status.unexpected_message
    else Status.unused

pub data RelayMessageError : Type 0 where
  varint : VarintError → RelayMessageError
  field_overflow : (offset len remaining : ℕ) → RelayMessageError
  unsupported_wire_type : (wire_type offset : ℕ) → RelayMessageError
  missing_type : RelayMessageError
  invalid_message_type : (value : ℕ) → RelayMessageError

instance abbrev pub relay_wire_error : WireError RelayMessageError
relay_wire_error = record {
  varint = varint;
  field_overflow = field_overflow;
  unsupported_wire_type = unsupported_wire_type;
}

pub hop_type_from-to : (t : HopMessageType) → hop_type_from_u64 (hop_type_to_u64 t) ≡ some t
unfolding hop_type_from_u64 hop_type_to_u64
hop_type_from-to HopMessageType.reserve = refl
hop_type_from-to HopMessageType.connect = refl
hop_type_from-to HopMessageType.status = refl

pub hop_type_lt : (t : HopMessageType) → hop_type_to_u64 t < 2 ^ 64
unfolding hop_type_to_u64
hop_type_lt t = ground arith

pub stop_type_from-to : (t : StopMessageType) → stop_type_from_u64 (stop_type_to_u64 t) ≡ some t
unfolding stop_type_from_u64 stop_type_to_u64
stop_type_from-to t = ground arith

pub stop_type_lt : (t : StopMessageType) → stop_type_to_u64 t < 2 ^ 64
unfolding stop_type_to_u64
stop_type_lt t = ground arith

pub status_from-to : (s : Status) → status_from_u64 (status_to_u64 s) ≡ s
unfolding status_from_u64 status_to_u64
status_from-to s = ground arith

pub status_lt : (s : Status) → status_to_u64 s < 2 ^ 64
unfolding status_to_u64
status_lt s = ground arith
