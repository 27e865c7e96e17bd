-- ===== src/Frame/Laws.antt =====
-- Frames: round trip, cut input, what is accepted, and when the decoder panics.
use minip2p.Prelude.{
  ℕ, ◌+◌, ◌-◌, ◌%◌, ◌^◌, ◌≤◌, ◌<◌, ◌≡◌, ◌↔◌, refl, sym, ◌∙◌, true, false, [], ◌∷◌, ◌++◌,
  append_assoc, arith, length, length-append, take-length, drop-length, ltb,
}
use mathlib.Core.Path.{subst}
use minip2p.Prelude.Bits.{IsU64}
use minip2p.Prelude.Result.{ok}
use minip2p.Varint.{Bytes, uvarint_len, read_uvarint, write_uvarint}
use minip2p.Varint.Encode.{uvarint_len_pos, length-write_uvarint, uvarint_len_le}
use minip2p.Varint.RoundTrip.{read_uvarint-write_uvarint}
use minip2p.Varint.Stream.{read_uvarint_used}
use minip2p.Frame.{complete, incomplete, panicked, frame_at, frame_of, decode_frame, encode_frame}

pub decode_frame-frame_of :
    (input : Bytes) → decode_frame input ≡ frame_of input (read_uvarint input)
unfolding decode_frame read_uvarint
decode_frame-frame_of [] = refl
decode_frame-frame_of (b ∷ bs) = refl

pub decode_frame_ok :
    (input : Bytes) (len used : ℕ)
    → read_uvarint input ≡ ok (len, used)
    → decode_frame input ≡ frame_at input len used
decode_frame_ok input len used e = decode_frame-frame_of input ∙ rw e (unfold frame_of in refl)

frame_at_whole :
    (front payload rest : Bytes)
    → length front + length payload < 2 ^ 64
    → frame_at (front ++ (payload ++ rest)) (length payload) (length front)
      ≡ complete payload (length front + length payload)
unfolding frame_at
frame_at_whole front payload rest h =
    let total : (length front + length payload) % 2 ^ 64 ≡ length front + length payload =
      omega arith in
    let all : length (front ++ (payload ++ rest)) ≡ length front + (length payload + length rest) =
      omega (arith, length-append front (payload ++ rest), length-append payload rest) in
    let enough : ltb (length front + (length payload + length rest)) (length front + length payload)
        ≡ false =
      ground arith in
    let forward : ltb (length front + length payload) (length front) ≡ false = ground arith in
    let rest_len : length front + length payload - length front ≡ length payload = omega arith in
    rw (
      total,
      all,
      enough,
      forward,
      rest_len,
      drop-length front (payload ++ rest),
      take-length payload rest,
    )

pub ten_bytes : (len : ℕ) → IsU64 len → uvarint_len len ≤ 10
ten_bytes len h = uvarint_len_le 9 len (omega arith)

-- A frame whose payload lies in memory is read back whole, whatever follows it, and the count of
-- consumed bytes is the length of the frame.
pub decode_frame-encode_frame :
    (payload rest : Bytes)
    → length payload < 2 ^ 63
    → decode_frame (encode_frame payload ++ rest) ≡ complete payload (length (encode_frame payload))
unfolding encode_frame
decode_frame-encode_frame payload rest h =
    let front = write_uvarint (length payload) [] in
    let n : length front ≡ uvarint_len (length payload) =
      omega (arith, length-write_uvarint (length payload) []) in
    let used =
      subst (λ (k : ℕ). read_uvarint (front ++ (payload ++ rest)) ≡ ok (length payload, k)) (sym n)
        (read_uvarint-write_uvarint (length payload) (payload ++ rest) (omega arith)) in
    rw (append_assoc front payload rest, length-append front payload)
      (decode_frame_ok _ (length payload) (length front) used
        ∙ frame_at_whole front payload rest
            (omega (arith, ten_bytes (length payload) (omega arith))))

pub frame_at_cut :
    (input : Bytes) (len used : ℕ)
    → used + len < 2 ^ 64
    → length input < used + len
    → frame_at input len used ≡ incomplete
unfolding frame_at
frame_at_cut input len used h k =
    let total : (used + len) % 2 ^ 64 ≡ used + len = omega arith in
    let short : ltb (length input) (used + len) ≡ true = ground arith in rw (total, short)

-- The decoder panics exactly when the length prefix and the length that it announces do not fit
-- 64 bits together.
pub decode_frame_panics :
    (input : Bytes) (len used : ℕ)
    → IsU64 len
    → length input < 2 ^ 63
    → read_uvarint input ≡ ok (len, used)
    → (decode_frame input ≡ panicked) ↔ (2 ^ 64 ≤ used + len)
unfolding frame_at
decode_frame_panics input len used hl hi e =
    let (pos, le) = read_uvarint_used input len used e in
    let d = decode_frame_ok input len used e in
    (
      (λ p. ground (arith, d, p)),
      (λ q.
          let wrap : (used + len) % 2 ^ 64 ≡ used + len - 2 ^ 64 = omega arith in
          let there : ltb (length input) (used + len - 2 ^ 64) ≡ false = ground arith in
          let back : ltb (used + len - 2 ^ 64) used ≡ true = ground arith in
          d ∙ rw (wrap, there, back)),
    )

pub length-encode_frame :
    (payload : Bytes)
    → length (encode_frame payload) ≡ uvarint_len (length payload) + length payload
unfolding encode_frame
length-encode_frame payload = omega (
  arith,
  length-append (write_uvarint (length payload) []) payload,
  length-write_uvarint (length payload) [],
)

pub encode_frame_pos : (payload : Bytes) → 0 < length (encode_frame payload)
encode_frame_pos payload =
    omega (arith, length-encode_frame payload, uvarint_len_pos (length payload))
