-- ===== src/Dcutr/Initiator.antt =====
-- crates/dcutr/src/lib.rs: `DcutrInitiator`.
pub mod Chunks
use Prim.Native.String.{String}
use minip2p.Prelude.{
  ℕ, ◌&&◌, ◌||◌, Bool, true, false, List, [], ◌∷◌, ◌++◌, map, Option, none, some, drop,
}
use minip2p.Prelude.Result.{Result, ok, err}
use minip2p.Varint.{Bytes}
use minip2p.Frame.{FrameDecode, complete, incomplete, error, panicked, decode_frame}
use minip2p.Identity.PeerId.{Multihash}
use minip2p.Core.Multiaddr.{Multiaddr}
use minip2p.Dcutr.HolePunch
use minip2p.Dcutr.HolePunch.{HolePunch, HolePunchType, DcutrMessageError}
use minip2p.Dcutr.Flow.{
  DcutrError, malformed, unexpected_message, Handled, enforce_max_size, frame_of, connect_with,
  sync_message, encode_multiaddr, decode_remote_addrs,
}

pub data InitiatorState : Type 0 where
  pending awaiting_connect_reply ready_to_sync sync_pending done : InitiatorState

pub data InitiatorOutcome (H : Type 0) : Type 0 where
  dial_now :
      (remote_addrs : List (Multiaddr H)) (remote_addr_bytes : List Bytes) (rtt_ms : ℕ)
      → InitiatorOutcome H

pub data DcutrInitiatorInput : Type 0 where
  flush : DcutrInitiatorInput
  received : Bytes → (rtt_ms : ℕ) → DcutrInitiatorInput
  remote_write_closed : DcutrInitiatorInput
  send_sync_input : DcutrInitiatorInput

pub data DcutrInitiatorOutput (H : Type 0) : Type 0 where
  outbound_bytes : Bytes → DcutrInitiatorOutput H
  outcome_reached : InitiatorOutcome H → DcutrInitiatorOutput H

pub record DcutrInitiator (H : Type 0) : Type 0 where
  pub outbound : Bytes
  pub recv_buf : Bytes
  pub state : InitiatorState
  pub outcome : Option (InitiatorOutcome H)
  pub emitted_outcome : Bool

-- `format!("cannot send SYNC from state {:?}", self.state)`.
unfoldable pub cannot_sync : InitiatorState → String
cannot_sync pending = "cannot send SYNC from state Pending"
cannot_sync awaiting_connect_reply = "cannot send SYNC from state AwaitingConnectReply"
cannot_sync ready_to_sync = "cannot send SYNC from state ReadyToSync"
cannot_sync sync_pending = "cannot send SYNC from state SyncPending"
cannot_sync done = "cannot send SYNC from state Done"

-- `format!("expected HolePunch CONNECT but got {:?}", reply.kind)`.
unfoldable pub expected_connect : HolePunchType → String
expected_connect HolePunch.connect = "expected HolePunch CONNECT but got Connect"
expected_connect HolePunch.sync = "expected HolePunch CONNECT but got Sync"

abbrev pub sent : InitiatorState → InitiatorState
sent pending = awaiting_connect_reply
sent sync_pending = done
sent other = other

is_empty : Bytes → Bool
is_empty [] = true
is_empty (b ∷ bs) = false

module _ {H : Type 0} where
  unfoldable pub take_outbound : DcutrInitiator H → DcutrInitiator H × Bytes
  take_outbound f = (record f { outbound = []; state = sent f.state }, f.outbound)

  unfoldable pub on_remote_write_closed : DcutrInitiator H → Handled (DcutrInitiator H)
  on_remote_write_closed f = some (f, ok tt)

  unfoldable pub is_done : DcutrInitiator H → Bool
  is_done f = elim f.state [ done ↦ true | _ ↦ false ]

  sync_from : InitiatorState → DcutrInitiator H → Handled (DcutrInitiator H)
  sync_from ready_to_sync f =
      some
        (record f { outbound = f.outbound ++ frame_of sync_message; state = sync_pending }, ok tt)
  sync_from s f = some (f, err (unexpected_message (cannot_sync s)))

  unfoldable pub send_sync : DcutrInitiator H → Handled (DcutrInitiator H)
  unfolding sync_from
  send_sync f = sync_from f.state f

  poll_outcome :
      Bool
      → Option (InitiatorOutcome H)
      → DcutrInitiator H
      → DcutrInitiator H × Option (DcutrInitiatorOutput H)
  poll_outcome false (some o) f = (record f { emitted_outcome = true }, some (outcome_reached o))
  poll_outcome _ _ f = (f, none)

  poll_outbound : DcutrInitiator H × Bytes → DcutrInitiator H × Option (DcutrInitiatorOutput H)
  poll_outbound (f, []) = poll_outcome f.emitted_outcome f.outcome f
  poll_outbound (f, b ∷ bs) = (f, some (outbound_bytes (b ∷ bs)))

  unfoldable pub poll_output : DcutrInitiator H → DcutrInitiator H × Option (DcutrInitiatorOutput H)
  unfolding poll_outbound poll_outcome take_outbound
  poll_output f = poll_outbound (take_outbound f)

  is_none : Option (InitiatorOutcome H) → Bool
  is_none none = true
  is_none (some o) = false

  unfoldable pub is_idle : DcutrInitiator H → Bool
  unfolding is_empty is_none
  is_idle f = is_empty f.outbound && (f.emitted_outcome || is_none f.outcome)

module _ {H : Type 0} ⦃m : Multihash H⦄ where
  unfoldable pub new : List (Multiaddr H) → DcutrInitiator H
  new own_addrs = record {
    outbound = frame_of (connect_with (map encode_multiaddr own_addrs));
    recv_buf = [];
    state = pending;
    outcome = none;
    emitted_outcome = false;
  }

  on_reply :
      HolePunchType
      → DcutrInitiator H
      → HolePunch
      → ℕ
      → DcutrInitiator H × Result DcutrError (Unit {0})
  on_reply HolePunch.connect f reply rtt_ms = (
    record f {
      state = ready_to_sync;
      outcome = some (dial_now (decode_remote_addrs reply.obs_addrs) reply.obs_addrs rtt_ms);
      emitted_outcome = false;
    },
    ok tt,
  )
  on_reply kind f reply rtt_ms =
      (record f { state = done }, err (unexpected_message (expected_connect kind)))

  on_payload :
      DcutrInitiator H
      → ℕ
      → Result DcutrMessageError HolePunch
      → ℕ
      → DcutrInitiator H × Result DcutrError (Unit {0})
  on_payload f consumed (err e) rtt_ms = (record f { state = done }, err (malformed e))
  on_payload f consumed (ok reply) rtt_ms =
      on_reply reply.kind (record f { recv_buf = drop consumed f.recv_buf }) reply rtt_ms

  on_frame : DcutrInitiator H → FrameDecode → ℕ → Handled (DcutrInitiator H)
  on_frame f panicked rtt_ms = none
  on_frame f incomplete rtt_ms = some (f, ok tt)
  on_frame f (error e) rtt_ms =
      some (record f { state = done }, err (malformed (DcutrMessageError.varint e)))
  on_frame f (complete payload consumed) rtt_ms =
      some (on_payload f consumed (HolePunch.decode payload) rtt_ms)

  on_buffer : DcutrInitiator H → Result DcutrError (Unit {0}) → ℕ → Handled (DcutrInitiator H)
  on_buffer f (err e) rtt_ms = some (record f { state = done }, err e)
  on_buffer f (ok _) rtt_ms = on_frame f (decode_frame f.recv_buf) rtt_ms

  unfoldable pub try_decode_reply :
      InitiatorState → DcutrInitiator H → ℕ → Handled (DcutrInitiator H)
  unfolding on_buffer on_frame on_payload on_reply
  try_decode_reply awaiting_connect_reply f rtt_ms =
      on_buffer f (enforce_max_size f.recv_buf) rtt_ms
  try_decode_reply _ f rtt_ms = some (f, ok tt)

  on_data_in : InitiatorState → DcutrInitiator H → Bytes → ℕ → Handled (DcutrInitiator H)
  on_data_in done f bytes rtt_ms = some (f, ok tt)
  on_data_in sync_pending f bytes rtt_ms = some (f, ok tt)
  on_data_in _ f bytes rtt_ms =
      try_decode_reply f.state (record f { recv_buf = f.recv_buf ++ bytes }) rtt_ms

  unfoldable pub on_data : DcutrInitiator H → Bytes → ℕ → Handled (DcutrInitiator H)
  unfolding on_data_in try_decode_reply
  on_data f = on_data_in f.state f

  unfoldable pub handle_input : DcutrInitiator H → DcutrInitiatorInput → Handled (DcutrInitiator H)
  unfolding on_data on_remote_write_closed send_sync
  handle_input f flush = some (f, ok tt)
  handle_input f (received bytes rtt_ms) = on_data f bytes rtt_ms
  handle_input f remote_write_closed = on_remote_write_closed f
  handle_input f send_sync_input = send_sync f
