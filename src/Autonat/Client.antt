-- ===== src/Autonat/Client.antt =====
-- crates/autonat/src/lib.rs: `AutoNatClient`.
pub mod Chunks
pub mod Errors
use Prim.Native.String.{String}
use minip2p.Prelude.{
  ℕ, ◌&&◌, ◌||◌, Bool, true, false, List, [], ◌∷◌, ◌++◌, Option, none, some, drop,
}
use minip2p.Prelude.Result.{Result, ok, err}
use minip2p.Varint.{Bytes}
use minip2p.Identity.PeerId
use minip2p.Identity.PeerId.{Multihash, PeerId}
use minip2p.Core.Multiaddr.{Multiaddr}
use minip2p.Autonat.Types
use minip2p.Autonat.Types.{
  MessageType, dial, dial_response, ResponseStatus, Reachability, public, private, unknown,
  PeerInfo, DialResponse, Message, AutoNatError, varint, frame_too_large, missing_field,
  unexpected_message,
}
use minip2p.Autonat.Message
use minip2p.Autonat.Frame.{
  FrameDecode, complete, incomplete, too_large, error, decode_frame, enforce_max_size,
}
use minip2p.Autonat.Flow.{Handled, frame_of, is_empty, decode_addrs, encode_addrs}

pub data FlowState : Type 0 where
  pending awaiting_response done : FlowState

pub data AutoNatClientInput : Type 0 where
  flush : AutoNatClientInput
  received : Bytes → AutoNatClientInput

pub data AutoNatClientOutput (H : Type 0) : Type 0 where
  outbound_bytes : Bytes → AutoNatClientOutput H
  outcome_reached : Reachability H → AutoNatClientOutput H

pub record AutoNatClient (H : Type 0) : Type 0 where
  pub outbound : Bytes
  pub recv_buf : Bytes
  pub state : FlowState
  pub outcome : Option (Reachability H)
  pub emitted_outcome : Bool

-- `unwrap_or_default()`, of a `String`.
abbrev pub or_default : Option Bytes → Bytes
or_default none = []
or_default (some text) = text

abbrev pub dial_of : PeerInfo → Message
dial_of peer = record {
  kind = dial;
  dial = some (record { peer = some peer });
  dial_response = none;
}

abbrev sent : FlowState → FlowState
sent pending = awaiting_response
sent other = other

module _ {H : Type 0} where
  unfoldable pub take_outbound : AutoNatClient H → AutoNatClient H × Bytes
  take_outbound f = (record f { outbound = []; state = sent f.state }, f.outbound)

  poll_outcome :
      Bool
      → Option (Reachability H)
      → AutoNatClient H
      → AutoNatClient H × Option (AutoNatClientOutput H)
  poll_outcome false (some o) f = (record f { emitted_outcome = true }, some (outcome_reached o))
  poll_outcome _ _ f = (f, none)

  poll_outbound : AutoNatClient H × Bytes → AutoNatClient H × Option (AutoNatClientOutput H)
  poll_outbound (f, []) = poll_outcome f.emitted_outcome f.outcome f
  poll_outbound (f, b ∷ bs) = (f, some (outbound_bytes (b ∷ bs)))

  unfoldable pub poll_output : AutoNatClient H → AutoNatClient H × Option (AutoNatClientOutput H)
  unfolding poll_outbound poll_outcome take_outbound
  poll_output f = poll_outbound (take_outbound f)

  abbrev is_none : Option (Reachability H) → Bool
  is_none none = true
  is_none (some o) = false

  unfoldable pub is_idle : AutoNatClient H → Bool
  is_idle f = is_empty f.outbound && (f.emitted_outcome || is_none f.outcome)

module _ {H : Type 0} ⦃m : Multihash H⦄ where
  unfoldable pub peer_info : PeerId H → List (Multiaddr H) → PeerInfo
  peer_info peer_id addrs = record { id = PeerId.to_bytes peer_id; addrs = encode_addrs addrs }

  -- `new`
  unfoldable pub new : PeerId H → List (Multiaddr H) → AutoNatClient H
  new peer_id addrs = record {
    outbound = frame_of (dial_of (peer_info peer_id addrs));
    recv_buf = [];
    state = pending;
    outcome = none;
    emitted_outcome = false;
  }

  -- The `match` on the status of the response.
  unfoldable pub outcome_of : ResponseStatus → (reason : Bytes) → List Bytes → Reachability H
  outcome_of Types.ok reason raw = public (decode_addrs raw) raw
  outcome_of Types.dial_error reason raw = private Types.dial_error reason
  outcome_of Types.dial_refused reason raw = private Types.dial_refused reason
  outcome_of Types.bad_request reason raw = unknown Types.bad_request reason
  outcome_of Types.internal_error reason raw = unknown Types.internal_error reason

  on_response : AutoNatClient H → Option DialResponse → Handled (AutoNatClient H)
  on_response f none = (f, err (missing_field "dial_response"))
  on_response f (some response) = (
    record f {
      outcome = some (outcome_of response.status (or_default response.status_text) response.addrs);
      state = done;
    },
    ok tt,
  )

  on_message : AutoNatClient H → MessageType → Message → Handled (AutoNatClient H)
  on_message f dial_response msg = on_response f msg.dial_response
  on_message f dial msg =
      (record f { state = done }, err (unexpected_message "expected DIAL_RESPONSE"))

  on_payload : AutoNatClient H → Result AutoNatError Message → Handled (AutoNatClient H)
  on_payload f (err e) = (f, err e)
  on_payload f (ok msg) = on_message f msg.kind msg

  on_frame : AutoNatClient H → FrameDecode → Handled (AutoNatClient H)
  on_frame f (complete payload consumed) =
      on_payload (record f { recv_buf = drop consumed f.recv_buf }) (Message.decode payload)
  on_frame f incomplete = (f, ok tt)
  on_frame f (too_large len) = (f, err (frame_too_large len))
  on_frame f (error e) = (f, err (varint e))

  unfoldable pub try_decode_response : AutoNatClient H → Handled (AutoNatClient H)
  unfolding on_frame on_payload on_message on_response
  try_decode_response f = elim (enforce_max_size f.recv_buf) [
    | err e ↦ (f, err e)
    | ok _ ↦ on_frame f (decode_frame f.recv_buf)
  ]

  data_in : FlowState → AutoNatClient H → Bytes → Handled (AutoNatClient H)
  data_in done f chunk = (f, ok tt)
  data_in _ f chunk = try_decode_response (record f { recv_buf = f.recv_buf ++ chunk })

  unfoldable pub on_data : AutoNatClient H → Bytes → Handled (AutoNatClient H)
  unfolding data_in try_decode_response
  on_data f chunk = data_in f.state f chunk

  unfoldable pub handle_input : AutoNatClient H → AutoNatClientInput → Handled (AutoNatClient H)
  handle_input f flush = (f, ok tt)
  handle_input f (received chunk) = on_data f chunk
