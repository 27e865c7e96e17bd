-- ===== src/Frame/Tests.antt =====
-- Runs of the frame functions, and the theorems on concrete frames.
use minip2p.Prelude.{◌≡◌, ◌↔◌, ◌≤◌, ◌^◌, ◌+◌, ◌-◌, refl, [], ◌∷◌, ◌++◌, arith, length}
use minip2p.Prelude.Result.{ok}
use minip2p.Varint.{Bytes, read_uvarint, write_uvarint}
use minip2p.Frame.{complete, panicked, decode_frame, encode_frame}
use minip2p.Frame.Laws.{decode_frame-encode_frame, decode_frame_panics}
use minip2p.Frame.Stream.{decode_frame_sound}

abbrev body : Bytes
body = 10 ∷ 20 ∷ 30 ∷ []

encode_body : encode_frame body ≡ 3 ∷ 10 ∷ 20 ∷ 30 ∷ []
unfolding encode_frame write_uvarint
encode_body = refl

decode_body : decode_frame (3 ∷ 10 ∷ 20 ∷ 30 ∷ 40 ∷ []) ≡ complete body 4
unfolding decode_frame read_uvarint
decode_body = refl

-- The prefix is 2 ^ 64 - 1, in ten bytes.
abbrev greatest_prefix : Bytes
greatest_prefix = 0xff ∷ 0xff ∷ 0xff ∷ 0xff ∷ 0xff ∷ 0xff ∷ 0xff ∷ 0xff ∷ 0xff ∷ 0x01 ∷ []

read_greatest_prefix : read_uvarint greatest_prefix ≡ ok (2 ^ 64 - 1, 10)
unfolding read_uvarint
read_greatest_prefix = refl

decode_frame_run_panics : decode_frame greatest_prefix ≡ panicked
unfolding decode_frame read_uvarint
decode_frame_run_panics = refl

decode_frame-encode_frame_example :
    decode_frame (encode_frame body ++ (40 ∷ [])) ≡ complete body (length (encode_frame body))
decode_frame-encode_frame_example = decode_frame-encode_frame body (40 ∷ []) (omega arith)

decode_frame_panics_example :
    (decode_frame greatest_prefix ≡ panicked) ↔ (2 ^ 64 ≤ 10 + (2 ^ 64 - 1))
decode_frame_panics_example =
    decode_frame_panics greatest_prefix (2 ^ 64 - 1) 10 (omega arith) (omega arith)
      read_greatest_prefix

decode_frame_sound_example :
    (rest : Bytes) × (3 ∷ 10 ∷ 20 ∷ 30 ∷ 40 ∷ [] ≡ encode_frame body ++ rest)
    × (4 ≡ length (encode_frame body))
decode_frame_sound_example =
    decode_frame_sound (3 ∷ 10 ∷ 20 ∷ 30 ∷ 40 ∷ []) body 4
      (omega arith, (omega arith, (omega arith, (omega arith, (omega arith, tt))))) (omega arith)
      decode_body
