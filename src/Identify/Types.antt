-- ===== src/Identify/Types.antt =====
-- crates/identify/src/lib.rs: the data of the identify protocol. An error event keeps the error whose
-- text the source stores.
use minip2p.Prelude.{ℕ, Option, none, List, []}
use minip2p.Prelude.Maps.{Map}
use minip2p.Varint.{Bytes}
use minip2p.Identity.PeerId.{PeerId}
use minip2p.Core.Multiaddr.{Multiaddr}
use minip2p.Identify.Message.{IdentifyMessage, IdentifyMessageError}

abbrev pub max_message_size : ℕ
max_message_size = 8192

abbrev pub StreamId : Type 0
StreamId = ℕ

pub record IdentifyConfig : Type 0 where
  pub protocol_version : Bytes
  pub agent_version : Bytes
  pub protocols : List Bytes
  pub public_key : Bytes

pub data IdentifyAction (H : Type 0) : Type 0 where
  send : (peer_id : PeerId H) (stream_id : StreamId) (bytes : Bytes) → IdentifyAction H
  close_stream_write : (peer_id : PeerId H) (stream_id : StreamId) → IdentifyAction H

pub data Failure : Type 0 where
  exceeds_maximum : (len : ℕ) → Failure
  undecodable : IdentifyMessageError → Failure

pub data IdentifyEvent (H : Type 0) : Type 0 where
  received : (peer_id : PeerId H) (info : IdentifyMessage) → IdentifyEvent H
  error : (peer_id : PeerId H) (stream_id : StreamId) → Failure → IdentifyEvent H

pub data IdentifyInput (H : Type 0) : Type 0 where
  register_outbound :
      (peer_id : PeerId H) (stream_id : StreamId)
      → Option (Multiaddr H)
      → List (Multiaddr H)
      → IdentifyInput H
  register_inbound : (peer_id : PeerId H) (stream_id : StreamId) → IdentifyInput H
  stream_data : (peer_id : PeerId H) (stream_id : StreamId) → Bytes → IdentifyInput H
  stream_remote_write_closed : (peer_id : PeerId H) (stream_id : StreamId) → IdentifyInput H
  stream_closed : (peer_id : PeerId H) (stream_id : StreamId) → IdentifyInput H
  forget_peer : (peer_id : PeerId H) → IdentifyInput H
  move_peer : (old_peer_id new_peer_id : PeerId H) → IdentifyInput H

pub data IdentifyOutput (H : Type 0) : Type 0 where
  action : IdentifyAction H → IdentifyOutput H
  event : IdentifyEvent H → IdentifyOutput H

-- The source's `NoOutboundStream` is made nowhere.
pub data IdentifyError (H : Type 0) : Type 0 where
  stream_already_registered : (peer_id : PeerId H) → IdentifyError H
  no_outbound_stream : (peer_id : PeerId H) → IdentifyError H

pub record PeerIdentifyState : Type 0 where
  pub outbound_stream : Option StreamId
  pub inbound_streams : Map StreamId Bytes

abbrev pub default : PeerIdentifyState
default = record { outbound_stream = none; inbound_streams = [] }

pub record IdentifyProtocol (H : Type 0) : Type 0 where
  pub peers : Map (PeerId H) PeerIdentifyState
  pub events : List (IdentifyEvent H)
  pub actions : List (IdentifyAction H)
  pub config : IdentifyConfig
