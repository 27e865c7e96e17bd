-- ===== src/Autonat/Types.antt =====
-- crates/autonat/src/lib.rs: the data of the AutoNAT protocol. A `String` is its bytes, which are UTF-8;
-- `invalid_peer_id` keeps the error whose text the source stores.
use Prim.Native.String.{String}
use minip2p.Prelude.{ℕ, Option, some, none, List, ◌==◌, if◌then◌else◌}
use minip2p.Varint.{Bytes, VarintError}
use minip2p.Wire.{WireError}
use minip2p.Identity.PeerId.{PeerId, PeerIdError}
use minip2p.Core.Multiaddr.{Multiaddr}

abbrev pub max_message_size : ℕ
max_message_size = 8192

pub data MessageType : Type 0 where
  dial dial_response : MessageType

-- `self.kind as u64`
unfoldable pub type_to_u64 : MessageType → ℕ
type_to_u64 dial = 0
type_to_u64 dial_response = 1

unfoldable pub type_from_u64 : ℕ → Option MessageType
type_from_u64 value =
    if value == 0 then some dial else if value == 1 then some dial_response else none

pub data ResponseStatus : Type 0 where
  ok dial_error dial_refused bad_request internal_error : ResponseStatus

unfoldable pub status_to_u64 : ResponseStatus → ℕ
status_to_u64 ok = 0
status_to_u64 dial_error = 100
status_to_u64 dial_refused = 101
status_to_u64 bad_request = 200
status_to_u64 internal_error = 300

-- An unknown number is an internal error.
unfoldable pub status_from_u64 : ℕ → ResponseStatus
status_from_u64 value =
    if value == 0
    then ok
    else if value == 100
    then dial_error
    else if value == 101
    then dial_refused
    else if value == 200
    then bad_request
    else internal_error

pub data Reachability (H : Type 0) : Type 0 where
  public : (addrs : List (Multiaddr H)) (raw_addrs : List Bytes) → Reachability H
  private : (status : ResponseStatus) (reason : Bytes) → Reachability H
  unknown : (status : ResponseStatus) (reason : Bytes) → Reachability H

pub record AutoNatRequest (H : Type 0) : Type 0 where
  pub peer_id : PeerId H
  pub addrs : List (Multiaddr H)
  pub raw_addrs : List Bytes

pub record PeerInfo : Type 0 where
  pub id : Bytes
  pub addrs : List Bytes

pub record Dial : Type 0 where
  pub peer : Option PeerInfo

pub record DialResponse : Type 0 where
  pub status : ResponseStatus
  pub status_text : Option Bytes
  pub addrs : List Bytes

pub record Message : Type 0 where
  pub kind : MessageType
  pub dial : Option Dial
  pub dial_response : Option DialResponse

pub data AutoNatError : Type 0 where
  message_too_large : (len : ℕ) → AutoNatError
  frame_too_large : (len : ℕ) → AutoNatError
  varint : VarintError → AutoNatError
  field_overflow : (offset len remaining : ℕ) → AutoNatError
  unsupported_wire_type : (wire_type offset : ℕ) → AutoNatError
  missing_type : AutoNatError
  invalid_message_type : (value : ℕ) → AutoNatError
  missing_field : String → AutoNatError
  unexpected_message : String → AutoNatError
  invalid_peer_id : PeerIdError → AutoNatError

instance abbrev pub autonat_wire_error : WireError AutoNatError
autonat_wire_error = record {
  varint = varint;
  field_overflow = field_overflow;
  unsupported_wire_type = unsupported_wire_type;
}
