-- ===== src/Autonat/Frame/Laws.antt =====
-- Frames of the AutoNAT crate: whole, cut and too large.
use minip2p.Prelude.{
  ℕ, ◌+◌, ◌-◌, ◌^◌, ◌≤◌, ◌<◌, ◌≡◌, sym, ap, ◌∙◌, false, [], ◌∷◌, ◌++◌, append_assoc, arith, length,
  length-append, inl, inr, ltb, take-length, drop-length,
}
use mathlib.Core.Path.{subst}
use minip2p.Prelude.Bits.{IsU64}
use minip2p.Prelude.Result.{ok}
use minip2p.Varint.{Bytes, uvarint_len, read_uvarint, write_uvarint}
use minip2p.Varint.Encode.{length-write_uvarint}
use minip2p.Varint.RoundTrip.{read_uvarint-write_uvarint}
use minip2p.Varint.Stream.{read_uvarint-append, too_short_cases}
use minip2p.Frame
use minip2p.Frame.Laws.{ten_bytes}
use minip2p.Autonat.Types.{max_message_size}
use minip2p.Autonat.Frame.{
  complete, incomplete, too_large, encode_frame, frame_at, frame_of, decode_frame,
}

decode_frame_ok :
    (input : Bytes) (len used : ℕ)
    → read_uvarint input ≡ ok (len, used)
    → decode_frame input ≡ frame_at input len used
unfolding decode_frame frame_of
decode_frame_ok input len used e = rw (e, frame_of)

frame_at_whole :
    (front payload rest : Bytes)
    → length front ≤ 10
    → length payload ≤ max_message_size
    → frame_at (front ++ (payload ++ rest)) (length payload) (length front)
      ≡ complete payload (length front + length payload)
unfolding frame_at
frame_at_whole front payload rest k h =
    let small : ltb max_message_size (length payload) ≡ false = ground arith in
    let total : ltb (2 ^ 64 - 1) (length front + length payload) ≡ false = ground arith in
    let all : length (front ++ (payload ++ rest)) ≡ length front + (length payload + length rest) =
      omega (arith, length-append front (payload ++ rest), length-append payload rest) in
    let enough : ltb (length front + (length payload + length rest)) (length front + length payload)
        ≡ false =
      ground arith in
    let rest_len : length front + length payload - length front ≡ length payload = omega arith in
    rw (
      small,
      total,
      all,
      enough,
      rest_len,
      drop-length front (payload ++ rest),
      take-length payload rest,
    )

-- A frame is read back whole, whatever follows it.
pub autonat_frame_whole :
    (payload rest : Bytes)
    → length payload ≤ max_message_size
    → decode_frame (encode_frame payload ++ rest) ≡ complete payload (length (encode_frame payload))
unfolding Frame.encode_frame
autonat_frame_whole payload rest h =
    let front = write_uvarint (length payload) [] in
    let n : length front ≡ uvarint_len (length payload) =
      omega (arith, length-write_uvarint (length payload) []) in
    let used =
      subst (λ (k : ℕ). read_uvarint (front ++ (payload ++ rest)) ≡ ok (length payload, k)) (sym n)
        (read_uvarint-write_uvarint (length payload) (payload ++ rest) (omega arith)) in
    rw (append_assoc front payload rest, length-append front payload)
      (decode_frame_ok _ (length payload) (length front) used
        ∙ frame_at_whole front payload rest
            (omega (arith, ten_bytes (length payload) (omega arith))) h)

frame_at_cut :
    (input : Bytes) (len used : ℕ)
    → used ≤ 10
    → len ≤ max_message_size
    → length input < used + len
    → frame_at input len used ≡ incomplete
unfolding frame_at
frame_at_cut input len used u h k = ground arith

-- On every proper prefix of a frame the decoder waits.
pub autonat_frame_cut :
    (payload front : Bytes) (x : ℕ) (back : Bytes)
    → length payload ≤ max_message_size
    → encode_frame payload ≡ front ++ (x ∷ back)
    → decode_frame front ≡ incomplete
unfolding Frame.encode_frame decode_frame frame_of
autonat_frame_cut payload front x back h e = elim (too_short_cases (read_uvarint front)) [
  | inl short ↦ rw (short, frame_of)
  | inr other ↦
      let len = length payload in
      let whole = read_uvarint-write_uvarint len payload (omega arith) in
      let seen =
        sym (read_uvarint-append front (x ∷ back) other) ∙ ap read_uvarint (sym e) ∙ whole in
      decode_frame_ok front len (uvarint_len len) seen
      ∙ frame_at_cut front len (uvarint_len len) (ten_bytes len (omega arith)) h (
          omega (
            arith,
            ap length e,
            length-append front (x ∷ back),
            length-append (write_uvarint len []) payload,
            length-write_uvarint len [],
          ))
]

-- A length over the limit is refused as soon as its prefix is there, whatever follows.
pub autonat_frame_too_large :
    (len : ℕ) (rest : Bytes)
    → IsU64 len
    → max_message_size < len
    → decode_frame (write_uvarint len [] ++ rest) ≡ too_large len
unfolding frame_at
autonat_frame_too_large len rest h k =
    decode_frame_ok _ len (uvarint_len len) (read_uvarint-write_uvarint len rest h) ∙ ground arith
