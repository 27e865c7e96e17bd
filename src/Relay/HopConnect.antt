-- ===== src/Relay/HopConnect.antt =====
-- crates/relay/src/lib.rs: `HopConnect`, the CONNECT flow of a client.
pub mod Chunks
pub mod Ends
use Prim.Native.String.{String}
use minip2p.Prelude.{
  ℕ, ◌&&◌, ◌||◌, if◌then◌else◌, Bool, true, false, List, [], ◌∷◌, ◌++◌, Option, none, some, drop,
  not,
}
use minip2p.Prelude.Result.{Result, ok, err}
use minip2p.Varint.{Bytes}
use minip2p.Frame.{FrameDecode, complete, incomplete, error, panicked, decode_frame, encode_frame}
use minip2p.Relay.Codes.{RelayMessageError, HopMessageType, Status}
use minip2p.Relay.Peer.{Peer}
use minip2p.Relay.Limit.{Limit}
use minip2p.Relay.HopMessage
use minip2p.Relay.HopMessage.{HopMessage}
use minip2p.Relay.Flow.{
  RelayError, malformed, unexpected_message, FlowState, pending, awaiting_response, done, Handled,
  enforce_max_size, unexpected_hop_reason, describe_status,
}

pub data ConnectOutcome : Type 0 where
  bridged : Option Limit → ConnectOutcome
  refused : Status → String → ConnectOutcome

pub data HopConnectInput : Type 0 where
  flush : HopConnectInput
  received : Bytes → HopConnectInput
  remote_write_closed : HopConnectInput

pub data HopConnectOutput : Type 0 where
  outbound : Bytes → HopConnectOutput
  outcome : ConnectOutcome → HopConnectOutput
  bridge_data : Bytes → HopConnectOutput

pub record HopConnect : Type 0 where
  pub outbound : Bytes
  pub recv_buf : Bytes
  pub state : FlowState
  pub outcome : Option ConnectOutcome
  pub emitted_outcome : Bool
  pub bridge_bytes : Bytes

unfoldable pub connect_request : Bytes → HopMessage
connect_request target_peer_id = record {
  kind = HopMessageType.connect;
  peer = some (record { id = target_peer_id; addrs = [] });
  reservation = none;
  limit = none;
  status = none;
}

unfoldable pub new : Bytes → HopConnect
unfolding connect_request
new target_peer_id = record {
  outbound = encode_frame (HopMessage.encode (connect_request target_peer_id));
  recv_buf = [];
  state = pending;
  outcome = none;
  emitted_outcome = false;
  bridge_bytes = [];
}

abbrev pub sent : FlowState → FlowState
sent pending = awaiting_response
sent s = s

unfoldable pub take_outbound : HopConnect → HopConnect × Bytes
take_outbound f = (record f { state = sent f.state; outbound = [] }, f.outbound)

abbrev pub status_of : Option Status → Status
status_of none = Status.unused
status_of (some s) = s

-- Bytes behind an accepting STATUS frame belong to the bridge.
unfoldable pub respond : Status → HopConnect → HopMessage → HopConnect
respond Status.ok f msg = record f {
  outcome = some (bridged msg.limit);
  bridge_bytes = f.bridge_bytes ++ f.recv_buf;
  recv_buf = [];
  emitted_outcome = false;
}
respond status f msg = record f {
  outcome = some (refused status (describe_status status));
  emitted_outcome = false;
}

on_message : HopMessageType → HopConnect → HopMessage → HopConnect × Result RelayError (Unit {0})
on_message HopMessageType.status f msg =
    (respond (status_of msg.status) (record f { state = done }) msg, ok tt)
on_message kind f msg =
    (record f { state = done }, err (unexpected_message (unexpected_hop_reason kind)))

on_payload :
    HopConnect → ℕ → Result RelayMessageError HopMessage → HopConnect × Result RelayError (Unit {0})
on_payload f consumed (err e) = (record f { state = done }, err (malformed e))
on_payload f consumed (ok msg) =
    on_message msg.kind (record f { recv_buf = drop consumed f.recv_buf }) msg

on_frame : HopConnect → FrameDecode → Handled HopConnect
on_frame f panicked = none
on_frame f incomplete = some (f, ok tt)
on_frame f (error e) =
    some (record f { state = done }, err (malformed (RelayMessageError.varint e)))
on_frame f (complete payload consumed) = some (on_payload f consumed (HopMessage.decode payload))

on_buffer : HopConnect → Result RelayError (Unit {0}) → Handled HopConnect
on_buffer f (err e) = some (record f { state = done }, err e)
on_buffer f (ok _) = on_frame f (decode_frame f.recv_buf)

unfoldable pub try_decode_response : FlowState → HopConnect → Handled HopConnect
unfolding on_buffer on_frame on_payload on_message respond
try_decode_response done f = some (f, ok tt)
try_decode_response _ f = on_buffer f (enforce_max_size f.recv_buf)

is_bridged : Option ConnectOutcome → Bool
is_bridged (some (bridged limit)) = true
is_bridged _ = false

on_data_in : FlowState → HopConnect → Bytes → Handled HopConnect
on_data_in done f bytes =
    if is_bridged f.outcome
    then some (record f { bridge_bytes = f.bridge_bytes ++ bytes }, ok tt)
    else some (f, ok tt)
on_data_in _ f bytes = try_decode_response f.state (record f { recv_buf = f.recv_buf ++ bytes })

unfoldable pub on_data : HopConnect → Bytes → Handled HopConnect
unfolding on_data_in is_bridged try_decode_response
on_data f = on_data_in f.state f

unfoldable pub on_remote_write_closed : HopConnect → Handled HopConnect
unfolding try_decode_response
on_remote_write_closed f = try_decode_response f.state f

unfoldable pub handle_input : HopConnect → HopConnectInput → Handled HopConnect
unfolding on_data on_remote_write_closed
handle_input f flush = some (f, ok tt)
handle_input f (received bytes) = on_data f bytes
handle_input f remote_write_closed = on_remote_write_closed f

poll_bridge : Bytes → HopConnect → HopConnect × Option HopConnectOutput
poll_bridge [] f = (f, none)
poll_bridge (b ∷ bs) f =
    (record f { bridge_bytes = [] }, some (HopConnectOutput.bridge_data (b ∷ bs)))

poll_outcome : Bool → Option ConnectOutcome → HopConnect → HopConnect × Option HopConnectOutput
poll_outcome false (some o) f =
    (record f { emitted_outcome = true }, some (HopConnectOutput.outcome o))
poll_outcome _ _ f = poll_bridge f.bridge_bytes f

poll_outbound : HopConnect × Bytes → HopConnect × Option HopConnectOutput
poll_outbound (f, []) = poll_outcome f.emitted_outcome f.outcome f
poll_outbound (f, b ∷ bs) = (f, some (HopConnectOutput.outbound (b ∷ bs)))

unfoldable pub poll_output : HopConnect → HopConnect × Option HopConnectOutput
unfolding poll_outbound poll_outcome poll_bridge take_outbound
poll_output f = poll_outbound (take_outbound f)

unfoldable pub is_done : HopConnect → Bool
is_done f = elim f.state [ done ↦ true | _ ↦ false ]

is_empty : Bytes → Bool
is_empty [] = true
is_empty (b ∷ bs) = false

is_none : Option ConnectOutcome → Bool
is_none none = true
is_none (some o) = false

unfoldable pub is_idle : HopConnect → Bool
unfolding is_empty is_none
is_idle f =
    is_empty f.outbound && is_empty f.bridge_bytes && (f.emitted_outcome || is_none f.outcome)
