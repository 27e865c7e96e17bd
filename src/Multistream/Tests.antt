-- ===== src/Multistream/Tests.antt =====
-- Runs of the negotiation, and the theorems on concrete lines.
use mathlib.Core.List.{flatten}
use minip2p.Prelude.{◌⊎◌, ◌≡◌, ◌≢◌, refl, true, false, List, [], ◌∷◌, ◌++◌, some, arith, length}
use minip2p.Varint.{Bytes, write_uvarint, read_uvarint}
use minip2p.Multistream.{
  MultistreamSelect, MultistreamOutput, outbound_data, negotiated, not_available, data_input,
  not_available_line, contains, returned, is_done, receive, handle_input, start, dialer, listener,
}
use minip2p.Multistream.Framing.{complete, encode_message, decode_message}
use minip2p.Multistream.Utf8.{is_utf8, bytes_eq}
use minip2p.Multistream.Message.{IsLine, decode_message-encode_message}
use minip2p.Multistream.Sound.{decode_message_sound}
use minip2p.Multistream.Loop.{IsSound}
use minip2p.Multistream.Chunks.{buffer}
use minip2p.Multistream.Stream.{feed, receive_chunks, handle_input_safe}
use minip2p.Multistream.Agree.{header_frame, finished, negotiate_supported, negotiate_refused}

-- "/p"
abbrev protocol : Bytes
protocol = 47 ∷ 112 ∷ []

protocol-IsLine : IsLine protocol
unfolding is_utf8
protocol-IsLine = record { text = refl; some_byte = omega arith; fits = omega arith }

protocol_frame : encode_message protocol ≡ 3 ∷ 47 ∷ 112 ∷ 10 ∷ []
unfolding encode_message write_uvarint
protocol_frame = refl

decode_protocol : decode_message (3 ∷ 47 ∷ 112 ∷ 10 ∷ 1 ∷ []) ≡ complete protocol 4
unfolding decode_message read_uvarint is_utf8
decode_protocol = refl

surrogate_refused : is_utf8 (0xed ∷ 0xa0 ∷ 0x80 ∷ []) ≡ false
unfolding is_utf8
surrogate_refused = refl

euro_sign : is_utf8 (0xe2 ∷ 0x82 ∷ 0xac ∷ []) ≡ true
unfolding is_utf8
euro_sign = refl

decode_message-encode_message_example :
    decode_message (encode_message protocol ++ (1 ∷ []))
    ≡ complete protocol (length (encode_message protocol))
decode_message-encode_message_example =
    decode_message-encode_message protocol (1 ∷ []) protocol-IsLine

decode_message_sound_example :
    (rest : Bytes) × (3 ∷ 47 ∷ 112 ∷ 10 ∷ 1 ∷ [] ≡ encode_message protocol ++ rest)
    × (4 ≡ length (encode_message protocol))
    × IsLine protocol
decode_message_sound_example =
    decode_message_sound (3 ∷ 47 ∷ 112 ∷ 10 ∷ 1 ∷ []) protocol 4
      (omega arith, (omega arith, (omega arith, (omega arith, (omega arith, tt))))) decode_protocol

abbrev cut_stream : List Bytes
cut_stream = (3 ∷ 47 ∷ []) ∷ (112 ∷ 10 ∷ 1 ∷ []) ∷ []

dialer-IsSound : IsSound (dialer protocol)
unfolding dialer
dialer-IsSound = tt

receive_chunks_example :
    (m' : MultistreamSelect) × (outputs : List MultistreamOutput) × (lost : Bytes) × (feed
        (dialer protocol)
        ((19 ∷ []) ∷ cut_stream)
      ≡ returned m' outputs)
    × (receive (dialer protocol) (flatten ((19 ∷ []) ∷ cut_stream))
        ≡ returned (buffer m' lost) outputs)
    × ((is_done m' ≡ true) ⊎ (lost ≡ []))
receive_chunks_example = receive_chunks (dialer protocol) (19 ∷ []) cut_stream dialer-IsSound

handle_input_safe_example :
    (m' : MultistreamSelect) × (handle_input (dialer protocol) (data_input (3 ∷ 47 ∷ [])) ≡ some m')
    × IsSound m'
handle_input_safe_example =
    handle_input_safe (dialer protocol) (data_input (3 ∷ 47 ∷ [])) dialer-IsSound

supports : contains (protocol ∷ []) protocol ≡ true
unfolding bytes_eq
supports = refl

negotiate_supported_example :
    ((start (dialer protocol)).1 ≡ outbound_data header_frame ∷ [])
    × ((start (listener (protocol ∷ []))).1 ≡ outbound_data header_frame ∷ [])
    × (receive (listener (protocol ∷ [])) (header_frame ++ (encode_message protocol ++ (7 ∷ [])))
        ≡ returned
            (finished (listener (protocol ∷ [])) (7 ∷ []))
            (outbound_data (encode_message protocol) ∷ negotiated protocol ∷ []))
    × (receive (dialer protocol) (header_frame ++ (encode_message protocol ++ (9 ∷ [])))
        ≡ returned
            (finished (dialer protocol) (9 ∷ []))
            (outbound_data (encode_message protocol) ∷ negotiated protocol ∷ []))
negotiate_supported_example =
    negotiate_supported protocol (protocol ∷ []) (7 ∷ []) (9 ∷ []) protocol-IsLine supports

another_line : protocol ≢ not_available_line
another_line e = cc

negotiate_refused_example :
    (receive (listener []) (header_frame ++ (encode_message protocol ++ []))
      ≡ returned
          (finished (listener []) [])
          (outbound_data (encode_message not_available_line) ∷ not_available ∷ []))
    × (receive (dialer protocol) (header_frame ++ (encode_message not_available_line ++ []))
        ≡ returned
            (finished (dialer protocol) [])
            (outbound_data (encode_message protocol) ∷ not_available ∷ []))
negotiate_refused_example = negotiate_refused protocol [] [] [] protocol-IsLine another_line refl
