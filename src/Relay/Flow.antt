-- ===== src/Relay/Flow.antt =====
-- crates/relay/src/lib.rs: what the three flows share (errors, texts, the size limit), and the
-- status texts of message.rs.
use Prim.Native.String.{String}
use minip2p.Prelude.{ℕ, Option, ltb, if◌then◌else◌, length}
use minip2p.Prelude.Result.{Result, ok, err}
use minip2p.Varint.{Bytes}
use minip2p.Relay.Codes.{RelayMessageError, HopMessageType, StopMessageType, Status}

abbrev pub max_message_size : ℕ
max_message_size = 8192

pub data RelayError : Type 0 where
  message_too_large : (len : ℕ) → RelayError
  malformed : RelayMessageError → RelayError
  unexpected_message : String → RelayError

pub data FlowState : Type 0 where
  pending awaiting_response done : FlowState

-- A handler returns the new state and a result; `none`: it panicked.
abbrev pub Handled : Type 0 → Type 0
Handled S = Option (S × Result RelayError (Unit {0}))

unfoldable pub enforce_max_size : Bytes → Result RelayError (Unit {0})
enforce_max_size buf =
    if ltb max_message_size (length buf) then err (message_too_large (length buf)) else ok tt

-- `unexpected_hop_reason(actual, "STATUS")`.
unfoldable pub unexpected_hop_reason : HopMessageType → String
unexpected_hop_reason HopMessageType.reserve = "expected HOP message of type STATUS but got Reserve"
unexpected_hop_reason HopMessageType.connect = "expected HOP message of type STATUS but got Connect"
unexpected_hop_reason HopMessageType.status = "expected HOP message of type STATUS but got Status"

-- `unexpected_stop_reason(actual, "CONNECT")`.
unfoldable pub unexpected_stop_reason : StopMessageType → String
unexpected_stop_reason StopMessageType.connect =
    "expected STOP message of type CONNECT but got Connect"
unexpected_stop_reason StopMessageType.status =
    "expected STOP message of type CONNECT but got Status"

unfoldable pub describe_status : Status → String
describe_status Status.unused = "UNUSED (0)"
describe_status Status.ok = "OK"
describe_status Status.reservation_refused = "RESERVATION_REFUSED (200)"
describe_status Status.resource_limit_exceeded = "RESOURCE_LIMIT_EXCEEDED (201)"
describe_status Status.permission_denied = "PERMISSION_DENIED (202)"
describe_status Status.connection_failed = "CONNECTION_FAILED (203)"
describe_status Status.no_reservation = "NO_RESERVATION (204)"
describe_status Status.malformed_message = "MALFORMED_MESSAGE (400)"
describe_status Status.unexpected_message = "UNEXPECTED_MESSAGE (401)"
