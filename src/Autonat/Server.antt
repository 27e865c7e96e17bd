-- ===== src/Autonat/Server.antt =====
-- crates/autonat/src/lib.rs: `AutoNatServer`.
pub mod Chunks
pub mod Once
use Prim.Native.String.{String}
use minip2p.Prelude.{
  ℕ, ◌&&◌, ◌||◌, Bool, true, false, List, [], ◌∷◌, ◌++◌, Option, none, some, drop,
}
use minip2p.Prelude.Result.{Result, ok, err}
use minip2p.Varint.{Bytes}
use minip2p.Identity.PeerId
use minip2p.Identity.PeerId.{Multihash, PeerId, PeerIdError}
use minip2p.Core.Multiaddr.{Multiaddr}
use minip2p.Autonat.Types
use minip2p.Autonat.Types.{
  MessageType, dial, dial_response, ResponseStatus, AutoNatRequest, PeerInfo, Dial, DialResponse,
  Message, AutoNatError, varint, frame_too_large, missing_field, unexpected_message,
  invalid_peer_id,
}
use minip2p.Autonat.Message
use minip2p.Autonat.Frame.{
  FrameDecode, complete, incomplete, too_large, error, decode_frame, enforce_max_size,
}
use minip2p.Autonat.Flow.{Handled, frame_of, is_empty, decode_addrs, encode_addrs}

pub data ServerState : Type 0 where
  awaiting_request request_ready done : ServerState

pub data AutoNatServerInput (H : Type 0) : Type 0 where
  received : Bytes → AutoNatServerInput H
  public_response : (addrs : List (Multiaddr H)) → AutoNatServerInput H
  error_response : (status : ResponseStatus) (reason : Bytes) → AutoNatServerInput H
  flush : AutoNatServerInput H

pub data AutoNatServerOutput (H : Type 0) : Type 0 where
  request_ready : AutoNatRequest H → AutoNatServerOutput H
  outbound_bytes : Bytes → AutoNatServerOutput H

pub record AutoNatServer (H : Type 0) : Type 0 where
  pub outbound : Bytes
  pub recv_buf : Bytes
  pub request : Option (AutoNatRequest H)
  pub emitted_request : Bool
  pub state : ServerState

abbrev pub response_of : ResponseStatus → Option Bytes → List Bytes → Message
response_of status status_text addrs = record {
  kind = dial_response;
  dial = none;
  dial_response = some (record { status = status; status_text = status_text; addrs = addrs });
}

module _ {H : Type 0} where
  -- `new`
  unfoldable pub new : AutoNatServer H
  new = record {
    outbound = [];
    recv_buf = [];
    request = none;
    emitted_request = false;
    state = awaiting_request;
  }

  unfoldable pub take_outbound : AutoNatServer H → AutoNatServer H × Bytes
  take_outbound f = (record f { outbound = [] }, f.outbound)

  poll_outbound : AutoNatServer H × Bytes → AutoNatServer H × Option (AutoNatServerOutput H)
  poll_outbound (f, []) = (f, none)
  poll_outbound (f, b ∷ bs) = (f, some (outbound_bytes (b ∷ bs)))

  poll_request :
      Bool
      → Option (AutoNatRequest H)
      → AutoNatServer H
      → AutoNatServer H × Option (AutoNatServerOutput H)
  poll_request false (some r) f = (record f { emitted_request = true }, some (request_ready r))
  poll_request _ _ f = poll_outbound (take_outbound f)

  unfoldable pub poll_output : AutoNatServer H → AutoNatServer H × Option (AutoNatServerOutput H)
  unfolding poll_request poll_outbound take_outbound
  poll_output f = poll_request f.emitted_request f.request f

  abbrev is_none : Option (AutoNatRequest H) → Bool
  is_none none = true
  is_none (some r) = false

  unfoldable pub is_idle : AutoNatServer H → Bool
  is_idle f = is_empty f.outbound && (f.emitted_request || is_none f.request)

module _ {H : Type 0} ⦃m : Multihash H⦄ where
  unfoldable pub respond :
      AutoNatServer H → ResponseStatus → Option Bytes → List (Multiaddr H) → AutoNatServer H
  respond f status status_text addrs = record f {
    outbound = frame_of (response_of status status_text (encode_addrs addrs));
    state = done;
  }

  unfoldable pub respond_public : AutoNatServer H → List (Multiaddr H) → AutoNatServer H
  unfolding respond
  respond_public f addrs = respond f Types.ok none addrs

  unfoldable pub respond_error : AutoNatServer H → ResponseStatus → Bytes → AutoNatServer H
  unfolding respond
  respond_error f status reason = respond f status (some reason) []

  on_peer_id :
      AutoNatServer H → List Bytes → Result PeerIdError (PeerId H) → Handled (AutoNatServer H)
  on_peer_id f raw (err e) = (f, err (invalid_peer_id e))
  on_peer_id f raw (ok peer_id) = (
    record f {
      request = some (record { peer_id = peer_id; addrs = decode_addrs raw; raw_addrs = raw });
      emitted_request = false;
      state = request_ready;
    },
    ok tt,
  )

  on_peer : AutoNatServer H → Option PeerInfo → Handled (AutoNatServer H)
  on_peer f none = (f, err (missing_field "dial.peer"))
  on_peer f (some peer) = on_peer_id f peer.addrs (PeerId.from_bytes peer.id)

  on_dial : AutoNatServer H → Option Dial → Handled (AutoNatServer H)
  on_dial f none = (f, err (missing_field "dial"))
  on_dial f (some d) = on_peer f d.peer

  on_message : AutoNatServer H → MessageType → Message → Handled (AutoNatServer H)
  on_message f dial msg = on_dial f msg.dial
  on_message f dial_response msg =
      (record f { state = done }, err (unexpected_message "expected DIAL"))

  on_payload : AutoNatServer H → Result AutoNatError Message → Handled (AutoNatServer H)
  on_payload f (err e) = (f, err e)
  on_payload f (ok msg) = on_message f msg.kind msg

  on_frame : AutoNatServer H → FrameDecode → Handled (AutoNatServer H)
  on_frame f (complete payload consumed) =
      on_payload (record f { recv_buf = drop consumed f.recv_buf }) (Message.decode payload)
  on_frame f incomplete = (f, ok tt)
  on_frame f (too_large len) = (f, err (frame_too_large len))
  on_frame f (error e) = (f, err (varint e))

  unfoldable pub try_decode_request : AutoNatServer H → Handled (AutoNatServer H)
  unfolding on_frame on_payload on_message on_dial on_peer on_peer_id
  try_decode_request f = elim (enforce_max_size f.recv_buf) [
    | err e ↦ (f, err e)
    | ok _ ↦ on_frame f (decode_frame f.recv_buf)
  ]

  data_in : ServerState → AutoNatServer H → Bytes → Handled (AutoNatServer H)
  data_in awaiting_request f chunk =
      try_decode_request (record f { recv_buf = f.recv_buf ++ chunk })
  data_in _ f chunk = (f, ok tt)

  unfoldable pub on_data : AutoNatServer H → Bytes → Handled (AutoNatServer H)
  unfolding data_in try_decode_request
  on_data f chunk = data_in f.state f chunk

  unfoldable pub handle_input : AutoNatServer H → AutoNatServerInput H → Handled (AutoNatServer H)
  handle_input f (received chunk) = on_data f chunk
  handle_input f (public_response addrs) = (respond_public f addrs, ok tt)
  handle_input f (error_response status reason) = (respond_error f status reason, ok tt)
  handle_input f flush = (f, ok tt)
