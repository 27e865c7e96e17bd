-- ===== src/Relay/HopReservation.antt =====
-- crates/relay/src/lib.rs: `HopReservation`, the RESERVE flow of a client.
pub mod Chunks
use Prim.Native.String.{String}
use minip2p.Prelude.{
  ℕ, ◌&&◌, ◌||◌, Bool, true, false, List, [], ◌∷◌, ◌++◌, Option, none, some, drop, not,
}
use minip2p.Prelude.Result.{Result, ok, err}
use minip2p.Varint.{Bytes}
use minip2p.Frame.{FrameDecode, complete, incomplete, error, panicked, decode_frame, encode_frame}
use minip2p.Relay.Codes.{RelayMessageError, HopMessageType, Status}
use minip2p.Relay.Reservation.{Reservation}
use minip2p.Relay.Limit.{Limit}
use minip2p.Relay.HopMessage
use minip2p.Relay.HopMessage.{HopMessage}
use minip2p.Relay.Flow.{
  RelayError, malformed, unexpected_message, FlowState, pending, awaiting_response, done, Handled,
  enforce_max_size, unexpected_hop_reason, describe_status,
}

pub data ReservationOutcome : Type 0 where
  accepted : Option Reservation → Option Limit → ReservationOutcome
  refused : Status → String → ReservationOutcome

pub data HopReservationInput : Type 0 where
  flush : HopReservationInput
  received : Bytes → HopReservationInput
  remote_write_closed : HopReservationInput

pub data HopReservationOutput : Type 0 where
  outbound : Bytes → HopReservationOutput
  outcome : ReservationOutcome → HopReservationOutput

pub record HopReservation : Type 0 where
  pub outbound : Bytes
  pub recv_buf : Bytes
  pub state : FlowState
  pub outcome : Option ReservationOutcome
  pub emitted_outcome : Bool

abbrev pub reserve_request : HopMessage
reserve_request = record {
  kind = HopMessageType.reserve;
  peer = none;
  reservation = none;
  limit = none;
  status = none;
}

unfoldable pub new : HopReservation
new = record {
  outbound = encode_frame (HopMessage.encode reserve_request);
  recv_buf = [];
  state = pending;
  outcome = none;
  emitted_outcome = false;
}

abbrev pub sent : FlowState → FlowState
sent pending = awaiting_response
sent s = s

unfoldable pub take_outbound : HopReservation → HopReservation × Bytes
take_outbound f = (record f { state = sent f.state; outbound = [] }, f.outbound)

abbrev pub status_of : Option Status → Status
status_of none = Status.unused
status_of (some s) = s

unfoldable pub outcome_of : Status → HopMessage → ReservationOutcome
outcome_of Status.ok msg = accepted msg.reservation msg.limit
outcome_of status msg = refused status (describe_status status)

on_message :
    HopMessageType → HopReservation → HopMessage → HopReservation × Result RelayError (Unit {0})
on_message HopMessageType.status f msg = (
  record f {
    state = done;
    outcome = some (outcome_of (status_of msg.status) msg);
    emitted_outcome = false;
  },
  ok tt,
)
on_message kind f msg =
    (record f { state = done }, err (unexpected_message (unexpected_hop_reason kind)))

on_payload :
    HopReservation
    → ℕ
    → Result RelayMessageError HopMessage
    → HopReservation × Result RelayError (Unit {0})
on_payload f consumed (err e) = (record f { state = done }, err (malformed e))
on_payload f consumed (ok msg) =
    on_message msg.kind (record f { recv_buf = drop consumed f.recv_buf }) msg

on_frame : HopReservation → FrameDecode → Handled HopReservation
on_frame f panicked = none
on_frame f incomplete = some (f, ok tt)
on_frame f (error e) =
    some (record f { state = done }, err (malformed (RelayMessageError.varint e)))
on_frame f (complete payload consumed) = some (on_payload f consumed (HopMessage.decode payload))

on_buffer : HopReservation → Result RelayError (Unit {0}) → Handled HopReservation
on_buffer f (err e) = some (record f { state = done }, err e)
on_buffer f (ok _) = on_frame f (decode_frame f.recv_buf)

unfoldable pub try_decode_response : FlowState → HopReservation → Handled HopReservation
unfolding on_buffer on_frame on_payload on_message outcome_of
try_decode_response done f = some (f, ok tt)
try_decode_response _ f = on_buffer f (enforce_max_size f.recv_buf)

on_data_in : FlowState → HopReservation → Bytes → Handled HopReservation
on_data_in done f bytes = some (f, ok tt)
on_data_in _ f bytes = try_decode_response f.state (record f { recv_buf = f.recv_buf ++ bytes })

unfoldable pub on_data : HopReservation → Bytes → Handled HopReservation
unfolding on_data_in try_decode_response
on_data f = on_data_in f.state f

unfoldable pub on_remote_write_closed : HopReservation → Handled HopReservation
unfolding try_decode_response
on_remote_write_closed f = try_decode_response f.state f

unfoldable pub handle_input : HopReservation → HopReservationInput → Handled HopReservation
unfolding on_data on_remote_write_closed
handle_input f flush = some (f, ok tt)
handle_input f (received bytes) = on_data f bytes
handle_input f remote_write_closed = on_remote_write_closed f

poll_outcome :
    Bool → Option ReservationOutcome → HopReservation → HopReservation × Option HopReservationOutput
poll_outcome false (some o) f =
    (record f { emitted_outcome = true }, some (HopReservationOutput.outcome o))
poll_outcome _ _ f = (f, none)

poll_outbound : HopReservation × Bytes → HopReservation × Option HopReservationOutput
poll_outbound (f, []) = poll_outcome f.emitted_outcome f.outcome f
poll_outbound (f, b ∷ bs) = (f, some (HopReservationOutput.outbound (b ∷ bs)))

unfoldable pub poll_output : HopReservation → HopReservation × Option HopReservationOutput
unfolding poll_outbound poll_outcome take_outbound
poll_output f = poll_outbound (take_outbound f)

unfoldable pub is_done : HopReservation → Bool
is_done f = elim f.state [ done ↦ true | _ ↦ false ]

is_empty : Bytes → Bool
is_empty [] = true
is_empty (b ∷ bs) = false

is_none : Option ReservationOutcome → Bool
is_none none = true
is_none (some o) = false

unfoldable pub is_idle : HopReservation → Bool
unfolding is_empty is_none
is_idle f = is_empty f.outbound && (f.emitted_outcome || is_none f.outcome)
