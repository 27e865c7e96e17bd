-- ===== src/Dcutr/Responder.antt =====
-- crates/dcutr/src/lib.rs: `DcutrResponder`.
pub mod Chunks
use Prim.Native.String.{String}
use minip2p.Prelude.{
  ℕ, zero, suc, ◌&&◌, Bool, true, false, List, [], ◌∷◌, ◌++◌, map, Option, none, some, drop,
}
use minip2p.Prelude.Result.{Result, ok, err}
use minip2p.Varint.{Bytes}
use minip2p.Frame.{FrameDecode, complete, incomplete, error, panicked, decode_frame}
use minip2p.Identity.PeerId.{Multihash}
use minip2p.Core.Multiaddr.{Multiaddr}
use minip2p.Dcutr.HolePunch
use minip2p.Dcutr.HolePunch.{HolePunch, HolePunchType, DcutrMessageError}
use minip2p.Dcutr.Flow.{
  DcutrError, malformed, unexpected_message, Handled, enforce_max_size, frame_of, connect_with,
  encode_multiaddr, decode_remote_addrs,
}

pub data ResponderEvent (H : Type 0) : Type 0 where
  connect_received :
      (remote_addrs : List (Multiaddr H)) (remote_addr_bytes : List Bytes) → ResponderEvent H
  sync_received : ResponderEvent H

pub data DcutrResponderInput : Type 0 where
  flush : DcutrResponderInput
  received : Bytes → DcutrResponderInput
  remote_write_closed : DcutrResponderInput

pub data DcutrResponderOutput (H : Type 0) : Type 0 where
  outbound_bytes : Bytes → DcutrResponderOutput H
  event : ResponderEvent H → DcutrResponderOutput H

pub data ResponderState : Type 0 where
  awaiting_connect awaiting_sync done : ResponderState

pub record DcutrResponder (H : Type 0) : Type 0 where
  pub own_addrs : List Bytes
  pub outbound : Bytes
  pub recv_buf : Bytes
  pub state : ResponderState
  pub events : List (ResponderEvent H)

-- `format!("unexpected {:?} in state {:?}", actual_kind, current_state)`.
unfoldable pub unexpected_in : HolePunchType → ResponderState → String
unexpected_in HolePunch.connect awaiting_connect = "unexpected Connect in state AwaitingConnect"
unexpected_in HolePunch.connect awaiting_sync = "unexpected Connect in state AwaitingSync"
unexpected_in HolePunch.connect done = "unexpected Connect in state Done"
unexpected_in HolePunch.sync awaiting_connect = "unexpected Sync in state AwaitingConnect"
unexpected_in HolePunch.sync awaiting_sync = "unexpected Sync in state AwaitingSync"
unexpected_in HolePunch.sync done = "unexpected Sync in state Done"

is_empty {ℓ} : {A : Type ℓ} → List A → Bool
is_empty [] = true
is_empty (x ∷ xs) = false

module _ {H : Type 0} where
  unfoldable pub take_outbound : DcutrResponder H → DcutrResponder H × Bytes
  take_outbound f = (record f { outbound = [] }, f.outbound)

  unfoldable pub is_done : DcutrResponder H → Bool
  is_done f = elim f.state [ done ↦ true | _ ↦ false ]

  poll_event :
      List (ResponderEvent H)
      → DcutrResponder H
      → DcutrResponder H × Option (DcutrResponderOutput H)
  poll_event [] f = (f, none)
  poll_event (e ∷ es) f = (record f { events = es }, some (event e))

  poll_outbound : DcutrResponder H × Bytes → DcutrResponder H × Option (DcutrResponderOutput H)
  poll_outbound (f, []) = poll_event f.events f
  poll_outbound (f, b ∷ bs) = (f, some (outbound_bytes (b ∷ bs)))

  unfoldable pub poll_output : DcutrResponder H → DcutrResponder H × Option (DcutrResponderOutput H)
  unfolding poll_outbound poll_event take_outbound
  poll_output f = poll_outbound (take_outbound f)

  unfoldable pub is_idle : DcutrResponder H → Bool
  unfolding is_empty
  is_idle f = is_empty f.outbound && is_empty f.events

module _ {H : Type 0} ⦃m : Multihash H⦄ where
  unfoldable pub new : List (Multiaddr H) → DcutrResponder H
  new own_addrs = record {
    own_addrs = map encode_multiaddr own_addrs;
    outbound = [];
    recv_buf = [];
    state = awaiting_connect;
    events = [];
  }

  -- `true`: the loop goes on; `false`: it returns `Ok(())`.
  on_message :
      ResponderState
      → HolePunchType
      → DcutrResponder H
      → HolePunch
      → DcutrResponder H × Result DcutrError Bool
  on_message awaiting_connect HolePunch.connect f msg = (
    record f {
      outbound = f.outbound ++ frame_of (connect_with f.own_addrs);
      events =
          f.events ++ (connect_received (decode_remote_addrs msg.obs_addrs) msg.obs_addrs ∷ []);
      state = awaiting_sync;
    },
    ok true,
  )
  on_message awaiting_sync HolePunch.sync f msg =
      (record f { events = f.events ++ (sync_received ∷ []); state = done }, ok true)
  on_message current_state actual_kind f msg = (
    record f { state = done },
    err (unexpected_message (unexpected_in actual_kind current_state)),
  )

  on_payload :
      DcutrResponder H
      → ℕ
      → Result DcutrMessageError HolePunch
      → DcutrResponder H × Result DcutrError Bool
  on_payload f consumed (err e) = (record f { state = done }, err (malformed e))
  on_payload f consumed (ok msg) =
      on_message f.state msg.kind (record f { recv_buf = drop consumed f.recv_buf }) msg

  on_frame : DcutrResponder H → FrameDecode → Option (DcutrResponder H × Result DcutrError Bool)
  on_frame f panicked = none
  on_frame f incomplete = some (f, ok false)
  on_frame f (error e) =
      some (record f { state = done }, err (malformed (DcutrMessageError.varint e)))
  on_frame f (complete payload consumed) = some (on_payload f consumed (HolePunch.decode payload))

  on_buffer :
      DcutrResponder H
      → Result DcutrError (Unit {0})
      → Option (DcutrResponder H × Result DcutrError Bool)
  on_buffer f (err e) = some (record f { state = done }, err e)
  on_buffer f (ok _) = on_frame f (decode_frame f.recv_buf)

  round_in : ResponderState → DcutrResponder H → Option (DcutrResponder H × Result DcutrError Bool)
  round_in done f = some (f, ok false)
  round_in _ f = on_buffer f (enforce_max_size f.recv_buf)

  -- One round of `try_decode`'s loop.
  unfoldable pub round : DcutrResponder H → Option (DcutrResponder H × Result DcutrError Bool)
  unfolding round_in on_buffer on_frame on_payload on_message
  round f = round_in f.state f

  -- `none`: the fuel ran out.
  unfoldable pub decode_loop : ℕ → DcutrResponder H → Option (Handled (DcutrResponder H))
  decode_loop zero f = none
  decode_loop (suc fuel) f = elim (round f) [
    | none ↦ some none
    | some (f', err e) ↦ some (some (f', err e))
    | some (f', ok false) ↦ some (some (f', ok tt))
    | some (f', ok true) ↦ decode_loop fuel f'
  ]

  abbrev pub settled : Option (Handled (DcutrResponder H)) → Handled (DcutrResponder H)
  settled none = none
  settled (some r) = r

  -- Two messages end the flow, so three rounds are enough (`decode_loop_total`).
  unfoldable pub try_decode : DcutrResponder H → Handled (DcutrResponder H)
  unfolding decode_loop
  try_decode f = settled (decode_loop 3 f)

  on_data_in : ResponderState → DcutrResponder H → Bytes → Handled (DcutrResponder H)
  on_data_in done f bytes = some (f, ok tt)
  on_data_in _ f bytes = try_decode (record f { recv_buf = f.recv_buf ++ bytes })

  unfoldable pub on_data : DcutrResponder H → Bytes → Handled (DcutrResponder H)
  unfolding on_data_in
  on_data f = on_data_in f.state f

  unfoldable pub on_remote_write_closed : DcutrResponder H → Handled (DcutrResponder H)
  on_remote_write_closed f = try_decode f

  unfoldable pub handle_input : DcutrResponder H → DcutrResponderInput → Handled (DcutrResponder H)
  unfolding on_data on_remote_write_closed
  handle_input f flush = some (f, ok tt)
  handle_input f (received bytes) = on_data f bytes
  handle_input f remote_write_closed = on_remote_write_closed f
