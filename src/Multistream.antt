-- ===== src/Multistream.antt =====
-- crates/multistream-select/src/lib.rs: the framing of protocol lines and the negotiation.
-- A text is the list of its UTF-8 bytes. `reason` of a ProtocolError is the error whose text the
-- source puts there. The set of supported protocols is the list that it was collected from.
pub mod Utf8
pub mod Framing
pub mod Message
pub mod Sound
pub mod Loop
pub mod Chunks
pub mod Stream
pub mod Agree
mod Tests
use minip2p.Prelude.{
  ℕ, zero, suc, ◌+◌, Bool, true, false, List, [], ◌∷◌, ◌++◌, Option, none, some, ltb, ◌==◌,
  if◌then◌else◌, length, take, drop,
}
use minip2p.Prelude.Result.{Result, ok, err}
use minip2p.Varint.{
  Bytes, VarintError, buffer_too_short, overflow, non_canonical, read_uvarint, write_uvarint,
}
use minip2p.Multistream.Utf8.{bytes_eq}
use minip2p.Multistream.Framing.{
  DecodeResult, MultistreamError, complete, decode_body, decode_message, decode_prefix,
  decode_sized, empty_protocol, encode_message, error, incomplete, invalid_varint, max_message_len,
  message_too_long, missing_newline, non_utf8, split_last, unexpected_header,
  unexpected_protocol_response,
}

-- "/multistream/1.0.0"
abbrev pub multistream_protocol_id : Bytes
multistream_protocol_id =
    47 ∷ 109 ∷ 117 ∷ 108 ∷ 116 ∷ 105 ∷ 115 ∷ 116 ∷ 114 ∷ 101 ∷ 97 ∷ 109 ∷ 47 ∷ 49 ∷ 46 ∷ 48 ∷ 46
    ∷ 48 ∷ []

-- "na"
abbrev pub not_available_line : Bytes
not_available_line = 110 ∷ 97 ∷ []

pub data MultistreamOutput : Type 0 where
  outbound_data : Bytes → MultistreamOutput
  negotiated : (protocol : Bytes) → MultistreamOutput
  not_available : MultistreamOutput
  protocol_error : (reason : MultistreamError) → MultistreamOutput

pub data MultistreamInput : Type 0 where
  start_input : MultistreamInput
  data_input : Bytes → MultistreamInput

pub data Role : Type 0 where
  dialer_role listener_role : Role

pub data State : Type 0 where
  waiting_for_remote_header waiting_for_protocol_request waiting_for_protocol_response done : State

pub record MultistreamSelect : Type 0 where
  pub role : Role
  pub state : State
  pub desired_protocol : Option Bytes
  pub supported_protocols : List Bytes
  pub recv_buf : Bytes
  pub started : Bool
  pub pending_outputs : List MultistreamOutput

unfoldable pub dialer : Bytes → MultistreamSelect
dialer protocol = record {
  role = dialer_role;
  state = waiting_for_remote_header;
  desired_protocol = some protocol;
  supported_protocols = [];
  recv_buf = [];
  started = false;
  pending_outputs = [];
}

unfoldable pub listener : List Bytes → MultistreamSelect
listener protocols = record {
  role = listener_role;
  state = waiting_for_remote_header;
  desired_protocol = none;
  supported_protocols = protocols;
  recv_buf = [];
  started = false;
  pending_outputs = [];
}

abbrev pub contains : List Bytes → Bytes → Bool
contains [] line = false
contains (p ∷ ps) line = if bytes_eq p line then true else contains ps line

-- The `expect` on the desired protocol panics: `none`.
on_header : Role → Option Bytes → Option (State × List MultistreamOutput)
on_header dialer_role none = none
on_header dialer_role (some desired) =
    some (waiting_for_protocol_response, outbound_data (encode_message desired) ∷ [])
on_header listener_role desired = some (waiting_for_protocol_request, [])

on_request : List Bytes → Bytes → State × List MultistreamOutput
on_request supported line =
    if contains supported line
    then (done, outbound_data (encode_message line) ∷ negotiated line ∷ [])
    else (done, outbound_data (encode_message not_available_line) ∷ not_available ∷ [])

on_response : Option Bytes → Bytes → Option (State × List MultistreamOutput)
on_response none line = none
on_response (some desired) line =
    if bytes_eq line desired
    then some (done, negotiated desired ∷ [])
    else if bytes_eq line not_available_line
    then some (done, not_available ∷ [])
    else some (done, protocol_error (unexpected_protocol_response line) ∷ [])

unfoldable pub handle_message :
    Role → State → Option Bytes → List Bytes → Bytes → Option (State × List MultistreamOutput)
unfolding on_header on_request on_response
handle_message role waiting_for_remote_header desired supported line =
    if bytes_eq line multistream_protocol_id
    then on_header role desired
    else some (done, protocol_error (unexpected_header line) ∷ [])
handle_message role waiting_for_protocol_request desired supported line =
    some (on_request supported line)
handle_message role waiting_for_protocol_response desired supported line = on_response desired line
handle_message role done desired supported line = some (done, [])

-- How `receive` ends; `out_of_fuel` is no Rust value.
pub data Received : Type 0 where
  out_of_fuel panicked : Received
  returned : MultistreamSelect → List MultistreamOutput → Received

abbrev pub next : MultistreamSelect → ℕ → State → MultistreamSelect
next m consumed state = record m { recv_buf = drop consumed m.recv_buf; state = state }

is_done_state : State → Bool
is_done_state done = true
is_done_state _ = false

unfoldable pub is_done : MultistreamSelect → Bool
unfolding is_done_state
is_done m = is_done_state m.state

unfoldable pub receive_loop : ℕ → MultistreamSelect → List MultistreamOutput → Received
receive_loop zero m outputs = out_of_fuel
receive_loop (suc fuel) m outputs = elim (is_done m) [
  | true ↦ returned m outputs
  | false ↦ elim (decode_message m.recv_buf) [
    | incomplete ↦ returned m outputs
    | error e ↦ returned (record m { state = done }) (outputs ++ (protocol_error e ∷ []))
    | complete payload consumed ↦
        elim (handle_message m.role m.state m.desired_protocol m.supported_protocols payload) [
          | none ↦ panicked
          | some (next_state, produced) ↦
              receive_loop fuel (next m consumed next_state) (outputs ++ produced)
        ]
  ]
]

-- Every line moves the state on, and there are two before the end (`receive_loop_total`).
unfoldable pub receive : MultistreamSelect → Bytes → Received
receive m bytes =
    if is_done m
    then returned m []
    else receive_loop 3 (record m { recv_buf = m.recv_buf ++ bytes }) []

unfoldable pub start : MultistreamSelect → MultistreamSelect × List MultistreamOutput
start m =
    if m.started
    then (m, [])
    else (record m { started = true }, outbound_data (encode_message multistream_protocol_id) ∷ [])

abbrev pub queue : MultistreamSelect → List MultistreamOutput → MultistreamSelect
queue m outputs = record m { pending_outputs = m.pending_outputs ++ outputs }

abbrev pub queue_received : Received → Option MultistreamSelect
queue_received out_of_fuel = none
queue_received panicked = none
queue_received (returned m outputs) = some (queue m outputs)

-- `handle_input` answers `Ok` always; `none`: it panicked.
unfoldable pub handle_input : MultistreamSelect → MultistreamInput → Option MultistreamSelect
handle_input m start_input = let (m', outputs) = start m in some (queue m' outputs)
handle_input m (data_input bytes) = queue_received (receive m bytes)

pop_front :
    List MultistreamOutput → MultistreamSelect → MultistreamSelect × Option MultistreamOutput
pop_front [] m = (m, none)
pop_front (o ∷ os) m = (record m { pending_outputs = os }, some o)

unfoldable pub poll_output : MultistreamSelect → MultistreamSelect × Option MultistreamOutput
unfolding pop_front
poll_output m = pop_front m.pending_outputs m

is_nil : List MultistreamOutput → Bool
is_nil [] = true
is_nil (o ∷ os) = false

unfoldable pub is_idle : MultistreamSelect → Bool
unfolding is_nil
is_idle m = is_nil m.pending_outputs

unfoldable pub take_remaining_buffer : MultistreamSelect → MultistreamSelect × Bytes
take_remaining_buffer m = (record m { recv_buf = [] }, m.recv_buf)
