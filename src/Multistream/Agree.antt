-- ===== src/Multistream/Agree.antt =====
-- A dialer and a listener negotiate a protocol.
use minip2p.Prelude.{
  ℕ, suc, ◌≡◌, ◌≢◌, refl, sym, ap, ◌∙◌, true, false, List, [], ◌∷◌, ◌++◌, some, arith, length, drop,
  drop-length, Bool-cases, inl, inr,
}
use minip2p.Varint.{Bytes}
use minip2p.Multistream.{
  MultistreamSelect, MultistreamOutput, outbound_data, negotiated, not_available, State,
  waiting_for_protocol_request, waiting_for_protocol_response, done, multistream_protocol_id,
  not_available_line, handle_message, contains, returned, is_done, receive_loop, receive, start,
  dialer, listener,
}
use minip2p.Multistream.Framing.{encode_message, decode_message}
use minip2p.Multistream.Utf8.{is_utf8, bytes_eq, bytes_eq_refl, bytes_eq→eq}
use minip2p.Multistream.Message.{IsLine, decode_message-encode_message}
use minip2p.Multistream.Loop.{loop_done, loop_line}
use minip2p.Multistream.Chunks.{buffer}
use minip2p.Multistream.Stream.{receive_open}

pub header-IsLine : IsLine multistream_protocol_id
unfolding is_utf8
header-IsLine = record { text = refl; some_byte = omega arith; fits = omega arith }

pub not_available_line-IsLine : IsLine not_available_line
unfolding is_utf8
not_available_line-IsLine = record { text = refl; some_byte = omega arith; fits = omega arith }

-- One line at the front of the buffer.
line_next :
    (n : ℕ) (m : MultistreamSelect) (line rest : Bytes) (s : State)
    (outs produced : List MultistreamOutput)
    → IsLine line
    → is_done m ≡ false
    → m.recv_buf ≡ encode_message line ++ rest
    → handle_message m.role m.state m.desired_protocol m.supported_protocols line
      ≡ some (s, produced)
    → receive_loop (suc n) m outs
      ≡ receive_loop n (record m { recv_buf = rest; state = s }) (outs ++ produced)
line_next n m line rest s outs produced l d b h =
    loop_line m outs n line (length (encode_message line)) s produced d
      (ap decode_message b ∙ decode_message-encode_message line rest l) h
    ∙ ap (λ (x : Bytes). receive_loop n (record m { recv_buf = x; state = s }) (outs ++ produced))
        (ap (drop (length (encode_message line))) b ∙ drop-length (encode_message line) rest)

two_lines :
    (m : MultistreamSelect) (first second rest : Bytes) (s : State)
    (made produced : List MultistreamOutput)
    → IsLine first
    → IsLine second
    → is_done m ≡ false
    → m.recv_buf ≡ []
    → handle_message m.role m.state m.desired_protocol m.supported_protocols first ≡ some (s, made)
    → is_done (record m { state = s }) ≡ false
    → handle_message m.role s m.desired_protocol m.supported_protocols second
      ≡ some (done, produced)
    → receive m (encode_message first ++ (encode_message second ++ rest))
      ≡ returned (record m { recv_buf = rest; state = done }) (made ++ produced)
unfolding is_done
two_lines m first second rest s made produced l1 l2 d b h d' h' =
    let input = encode_message first ++ (encode_message second ++ rest) in
    receive_open m input d
    ∙ line_next 2 (buffer m input) first (encode_message second ++ rest) s [] made l1 d
        (ap (λ (x : Bytes). x ++ input) b) h
    ∙ line_next 1 (record m { recv_buf = encode_message second ++ rest; state = s }) second rest
        done made produced l2 d' refl h'
    ∙ loop_done (record m { recv_buf = rest; state = done }) (made ++ produced) 0 refl

-- The state in which a negotiation ends, with what the peer sent behind it.
abbrev pub finished : MultistreamSelect → Bytes → MultistreamSelect
finished m rest = record m { recv_buf = rest; state = done }

abbrev pub header_frame : Bytes
header_frame = encode_message multistream_protocol_id

-- Both sides start with the header. Given the header and the line of the other side, a dialer and
-- a listener that supports its protocol both report the protocol as negotiated, each has sent
-- what the other one was given, and the bytes behind the handshake stay in their buffers. The
-- protocol is a line that the framing carries.
pub negotiate_supported :
    (protocol : Bytes) (protocols : List Bytes) (early late : Bytes)
    → IsLine protocol
    → contains protocols protocol ≡ true
    → ((start (dialer protocol)).1 ≡ outbound_data header_frame ∷ [])
      × ((start (listener protocols)).1 ≡ outbound_data header_frame ∷ [])
      × (receive (listener protocols) (header_frame ++ (encode_message protocol ++ early))
          ≡ returned
              (finished (listener protocols) early)
              (outbound_data (encode_message protocol) ∷ negotiated protocol ∷ []))
      × (receive (dialer protocol) (header_frame ++ (encode_message protocol ++ late))
          ≡ returned
              (finished (dialer protocol) late)
              (outbound_data (encode_message protocol) ∷ negotiated protocol ∷ []))
unfolding start dialer listener handle_message is_done
negotiate_supported p ps early late l c = (
  refl,
  refl,
  two_lines (listener ps) multistream_protocol_id p early waiting_for_protocol_request [] _
      header-IsLine l refl refl (rw (bytes_eq_refl multistream_protocol_id) refl) refl (rw c refl),
  two_lines (dialer p) multistream_protocol_id p late waiting_for_protocol_response
      (outbound_data (encode_message p) ∷ []) (negotiated p ∷ []) header-IsLine l refl refl
      (rw (bytes_eq_refl multistream_protocol_id) refl) refl (rw (bytes_eq_refl p) refl),
)

other_line : (a b : Bytes) → a ≢ b → bytes_eq a b ≡ false
other_line a b n = elim (Bool-cases (bytes_eq a b)) [
  | inl e ↦ absurd (n (bytes_eq→eq a b e))
  | inr e ↦ e
]

-- A listener that does not support the protocol answers "na", and both sides report it as not
-- available. The protocol is a line that the framing carries, and is not "na" itself.
pub negotiate_refused :
    (protocol : Bytes) (protocols : List Bytes) (early late : Bytes)
    → IsLine protocol
    → protocol ≢ not_available_line
    → contains protocols protocol ≡ false
    → (receive (listener protocols) (header_frame ++ (encode_message protocol ++ early))
        ≡ returned
            (finished (listener protocols) early)
            (outbound_data (encode_message not_available_line) ∷ not_available ∷ []))
      × (receive (dialer protocol) (header_frame ++ (encode_message not_available_line ++ late))
          ≡ returned
              (finished (dialer protocol) late)
              (outbound_data (encode_message protocol) ∷ not_available ∷ []))
unfolding dialer listener handle_message is_done
negotiate_refused p ps early late l n c = (
  two_lines (listener ps) multistream_protocol_id p early waiting_for_protocol_request [] _
      header-IsLine l refl refl (rw (bytes_eq_refl multistream_protocol_id) refl) refl (rw c refl),
  two_lines (dialer p) multistream_protocol_id not_available_line late waiting_for_protocol_response
      (outbound_data (encode_message p) ∷ []) (not_available ∷ []) header-IsLine
      not_available_line-IsLine refl refl (rw (bytes_eq_refl multistream_protocol_id) refl) refl
      (rw (other_line not_available_line p (λ e. n (sym e)), bytes_eq_refl not_available_line)
        refl),
)
