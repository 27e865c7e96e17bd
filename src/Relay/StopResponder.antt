-- ===== src/Relay/StopResponder.antt =====
-- crates/relay/src/lib.rs: `StopResponder`, the destination's side of a circuit.
pub mod Chunks
use Prim.Native.String.{String}
use minip2p.Prelude.{
  ℕ, ◌&&◌, ◌||◌, if◌then◌else◌, Bool, true, false, List, [], ◌∷◌, ◌++◌, Option, none, some, drop,
  not,
}
use minip2p.Prelude.Result.{Result, ok, err}
use minip2p.Varint.{Bytes}
use minip2p.Frame.{FrameDecode, complete, incomplete, error, panicked, decode_frame, encode_frame}
use minip2p.Relay.Codes.{RelayMessageError, StopMessageType, Status}
use minip2p.Relay.Peer.{Peer}
use minip2p.Relay.Limit.{Limit}
use minip2p.Relay.StopMessage
use minip2p.Relay.StopMessage.{StopMessage}
use minip2p.Relay.Flow.{
  RelayError, malformed, unexpected_message, Handled, enforce_max_size, unexpected_stop_reason,
}

pub record StopConnectRequest : Type 0 where
  pub source_peer_id : Bytes
  pub limit : Option Limit

pub data StopResponderInput : Type 0 where
  flush : StopResponderInput
  received : Bytes → StopResponderInput
  remote_write_closed : StopResponderInput
  accept : StopResponderInput
  reject : Status → StopResponderInput

pub data StopResponderOutput : Type 0 where
  request : StopConnectRequest → StopResponderOutput
  outbound : Bytes → StopResponderOutput
  bridge_data : Bytes → StopResponderOutput

pub data StopState : Type 0 where
  awaiting_connect awaiting_decision done bridged : StopState

pub record StopResponder : Type 0 where
  pub outbound : Bytes
  pub recv_buf : Bytes
  pub state : StopState
  pub request : Option StopConnectRequest
  pub emitted_request : Bool
  pub bridge_bytes : Bytes

unfoldable pub new : StopResponder
new = record {
  outbound = [];
  recv_buf = [];
  state = awaiting_connect;
  request = none;
  emitted_request = false;
  bridge_bytes = [];
}

on_peer : Option Peer → StopResponder → StopMessage → StopResponder × Result RelayError (Unit {0})
on_peer none f msg =
    (record f { state = done }, err (unexpected_message "STOP CONNECT missing peer field"))
on_peer (some peer) f msg = (
  record f {
    request = some (record { source_peer_id = peer.id; limit = msg.limit });
    emitted_request = false;
    state = awaiting_decision;
  },
  ok tt,
)

on_message :
    StopMessageType → StopResponder → StopMessage → StopResponder × Result RelayError (Unit {0})
on_message StopMessageType.connect f msg = on_peer msg.peer f msg
on_message StopMessageType.status f msg = (
  record f { state = done },
  err (unexpected_message (unexpected_stop_reason StopMessageType.status)),
)

on_payload :
    StopResponder
    → ℕ
    → Result RelayMessageError StopMessage
    → StopResponder × Result RelayError (Unit {0})
on_payload f consumed (err e) = (record f { state = done }, err (malformed e))
on_payload f consumed (ok msg) =
    on_message msg.kind (record f { recv_buf = drop consumed f.recv_buf }) msg

on_frame : StopResponder → FrameDecode → Handled StopResponder
on_frame f panicked = none
on_frame f incomplete = some (f, ok tt)
on_frame f (error e) =
    some (record f { state = done }, err (malformed (RelayMessageError.varint e)))
on_frame f (complete payload consumed) = some (on_payload f consumed (StopMessage.decode payload))

on_buffer : StopResponder → Result RelayError (Unit {0}) → Handled StopResponder
on_buffer f (err e) = some (record f { state = done }, err e)
on_buffer f (ok _) = on_frame f (decode_frame f.recv_buf)

unfoldable pub try_decode_connect : StopState → StopResponder → Handled StopResponder
unfolding on_buffer on_frame on_payload on_message on_peer
try_decode_connect awaiting_connect f = on_buffer f (enforce_max_size f.recv_buf)
try_decode_connect _ f = some (f, ok tt)

on_data_in : StopState → StopResponder → Bytes → Handled StopResponder
on_data_in bridged f bytes = some (record f { bridge_bytes = f.bridge_bytes ++ bytes }, ok tt)
on_data_in done f bytes = some (f, ok tt)
on_data_in _ f bytes = try_decode_connect f.state (record f { recv_buf = f.recv_buf ++ bytes })

unfoldable pub on_data : StopResponder → Bytes → Handled StopResponder
unfolding on_data_in try_decode_connect
on_data f = on_data_in f.state f

unfoldable pub on_remote_write_closed : StopResponder → Handled StopResponder
unfolding try_decode_connect
on_remote_write_closed f = try_decode_connect f.state f

abbrev pub status_response : Status → StopMessage
status_response status = record {
  kind = StopMessageType.status;
  peer = none;
  limit = none;
  status = some status;
}

-- `format!("cannot respond from state {:?}", self.state)`.
cannot_respond : StopState → String
cannot_respond awaiting_connect = "cannot respond from state AwaitingConnect"
cannot_respond awaiting_decision = "cannot respond from state AwaitingDecision"
cannot_respond done = "cannot respond from state Done"
cannot_respond bridged = "cannot respond from state Bridged"

unfoldable pub send_status :
    StopState → StopResponder → Status → StopState → StopResponder × Result RelayError (Unit {0})
unfolding cannot_respond
send_status awaiting_decision f status next_state = (
  record f {
    outbound = f.outbound ++ encode_frame (StopMessage.encode (status_response status));
    state = next_state;
  },
  ok tt,
)
send_status state f status next_state = (f, err (unexpected_message (cannot_respond state)))

then_bridge :
    StopResponder × Result RelayError (Unit {0}) → StopResponder × Result RelayError (Unit {0})
then_bridge (f, err e) = (f, err e)
then_bridge (f, ok _) =
    (record f { bridge_bytes = f.bridge_bytes ++ f.recv_buf; recv_buf = [] }, ok tt)

unfoldable pub do_accept : StopResponder → StopResponder × Result RelayError (Unit {0})
unfolding then_bridge send_status
do_accept f = then_bridge (send_status f.state f Status.ok bridged)

unfoldable pub do_reject : StopResponder → Status → StopResponder × Result RelayError (Unit {0})
unfolding send_status
do_reject f status = send_status f.state f status done

unfoldable pub handle_input : StopResponder → StopResponderInput → Handled StopResponder
unfolding on_data on_remote_write_closed do_accept do_reject
handle_input f flush = some (f, ok tt)
handle_input f (received bytes) = on_data f bytes
handle_input f remote_write_closed = on_remote_write_closed f
handle_input f accept = some (do_accept f)
handle_input f (reject status) = some (do_reject f status)

poll_bridge : Bytes → StopResponder → StopResponder × Option StopResponderOutput
poll_bridge [] f = (f, none)
poll_bridge (b ∷ bs) f =
    (record f { bridge_bytes = [] }, some (StopResponderOutput.bridge_data (b ∷ bs)))

poll_outbound : Bytes → StopResponder → StopResponder × Option StopResponderOutput
poll_outbound [] f = poll_bridge f.bridge_bytes f
poll_outbound (b ∷ bs) f =
    (record f { outbound = [] }, some (StopResponderOutput.outbound (b ∷ bs)))

poll_request :
    Bool → Option StopConnectRequest → StopResponder → StopResponder × Option StopResponderOutput
poll_request false (some r) f =
    (record f { emitted_request = true }, some (StopResponderOutput.request r))
poll_request _ _ f = poll_outbound f.outbound f

unfoldable pub poll_output : StopResponder → StopResponder × Option StopResponderOutput
unfolding poll_request poll_outbound poll_bridge
poll_output f = poll_request f.emitted_request f.request f

unfoldable pub is_done : StopResponder → Bool
is_done f = elim f.state [ done ↦ true | bridged ↦ true | _ ↦ false ]

is_empty : Bytes → Bool
is_empty [] = true
is_empty (b ∷ bs) = false

is_none : Option StopConnectRequest → Bool
is_none none = true
is_none (some o) = false

unfoldable pub is_idle : StopResponder → Bool
unfolding is_empty is_none
is_idle f =
    is_empty f.outbound && is_empty f.bridge_bytes && (f.emitted_request || is_none f.request)
