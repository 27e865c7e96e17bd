-- ===== src/Frame/Stream.antt =====
-- Frames in a growing buffer: cut frames, and what the decoder accepts.
use minip2p.Prelude.{
  ℕ, ◌+◌, ◌-◌, ◌%◌, ◌^◌, ◌≤◌, ◌<◌, ◌≡◌, refl, sym, ◌∙◌, ap, false, [], ◌∷◌, ◌++◌, append_assoc,
  arith, length, length-append, inl, inr, All, take, drop, length-take, drop-length,
  take-append-drop, ltb,
}
use native.Mathlib.Decide.{dec_lt}
use minip2p.Prelude.Bits.{IsByte}
use minip2p.Prelude.Result.{ok, err, Result-cases}
use minip2p.Varint.{
  Bytes, buffer_too_short, overflow, non_canonical, uvarint_len, read_uvarint, write_uvarint,
}
use minip2p.Varint.Encode.{length-write_uvarint}
use minip2p.Varint.RoundTrip.{read_uvarint-write_uvarint}
use minip2p.Varint.Canonical.{read_uvarint_canonical}
use minip2p.Varint.Stream.{read_uvarint-append, too_short_cases}
use minip2p.Frame.{complete, incomplete, error, frame_at, frame_of, decode_frame, encode_frame}
use minip2p.Frame.Laws.{
  decode_frame-frame_of, decode_frame_ok, frame_at_cut, ten_bytes, decode_frame_panics,
}

decode_frame_short :
    (input : Bytes) → read_uvarint input ≡ err buffer_too_short → decode_frame input ≡ incomplete
decode_frame_short input e = decode_frame-frame_of input ∙ rw e (unfold frame_of in refl)

-- On every proper prefix of a frame the decoder waits.
pub decode_frame_cut :
    (payload front : Bytes) (x : ℕ) (back : Bytes)
    → length payload < 2 ^ 63
    → encode_frame payload ≡ front ++ (x ∷ back)
    → decode_frame front ≡ incomplete
unfolding encode_frame
decode_frame_cut payload front x back h e = elim (too_short_cases (read_uvarint front)) [
  | inl short ↦ decode_frame_short front short
  | inr other ↦
      let len = length payload in
      let whole = read_uvarint-write_uvarint len payload (omega arith) in
      let seen =
        sym (read_uvarint-append front (x ∷ back) other) ∙ ap read_uvarint (sym e) ∙ whole in
      decode_frame_ok front len (uvarint_len len) seen
      ∙ frame_at_cut front len (uvarint_len len) (omega (arith, ten_bytes len (omega arith))) (
          omega (
            arith,
            ap length e,
            length-append front (x ∷ back),
            length-append (write_uvarint len []) payload,
            length-write_uvarint len [],
          ))
]

record Split (input payload : Bytes) (consumed len used : ℕ) : Type 0 where
  fits : used + len ≤ length input
  payload_eq : payload ≡ take len (drop used input)
  consumed_eq : consumed ≡ used + len

frame_at-Split :
    (input payload : Bytes) (consumed len used : ℕ)
    → used + len < 2 ^ 64
    → frame_at input len used ≡ complete payload consumed
    → Split input payload consumed len used
unfolding frame_at
frame_at-Split input payload consumed len used h e = elim (dec_lt (length input) (used + len)) [
  | yes short ↦ cc (frame_at_cut input len used h short, e)
  | no enough ↦
      let total : (used + len) % 2 ^ 64 ≡ used + len = omega arith in
      let there : ltb (length input) (used + len) ≡ false = ground arith in
      let forward : ltb (used + len) used ≡ false = ground arith in
      let n : used + len - used ≡ len = omega arith in
      let whole : complete (take len (drop used input)) (used + len) ≡ complete payload consumed =
        rw (total, there, forward, n) at e in
      record { fits = omega arith; payload_eq = cc; consumed_eq = cc }
]

-- What `decode_frame` went by when it returned a frame.
frame_read :
    (input payload : Bytes) (consumed : ℕ)
    → decode_frame input ≡ complete payload consumed
    → (len : ℕ) × (used : ℕ) × (read_uvarint input ≡ ok (len, used))
unfolding frame_of
frame_read input payload consumed e = elim (Result-cases (read_uvarint input)) [
  | inl ((len, used), r) ↦ (len, used, r)
  | inr (buffer_too_short, r) ↦ cc (e, decode_frame_short input r)
  | inr (overflow, r) ↦
      let d : decode_frame input ≡ error overflow =
        decode_frame-frame_of input ∙ ap (frame_of input) r in
      cc (d, e)
  | inr (non_canonical, r) ↦
      let d : decode_frame input ≡ error non_canonical =
        decode_frame-frame_of input ∙ ap (frame_of input) r in
      cc (d, e)
]

frame_bytes :
    (input payload : Bytes) (consumed len used : ℕ) (rest : Bytes)
    → Split input payload consumed len used
    → used ≡ uvarint_len len
    → input ≡ write_uvarint len [] ++ rest
    → (input ≡ encode_frame payload ++ drop len rest) × (consumed ≡ length (encode_frame payload))
unfolding encode_frame
frame_bytes input payload consumed len used rest s n e =
    let front = write_uvarint len [] in
    let nf : length front ≡ used = omega (arith, length-write_uvarint len []) in
    let tail : drop used input ≡ rest =
      ap (drop used) e ∙ ap (λ (k : ℕ). drop k (front ++ rest)) (sym nf) ∙ drop-length front rest in
    let body : payload ≡ take len rest = s.payload_eq ∙ ap (take len) tail in
    let size : length payload ≡ len =
      ap length body
      ∙ omega (arith, length-take len rest, s.fits, ap length e, length-append front rest) in
    (
      e
          ∙ rw (
            size,
            body,
            append_assoc front (take len rest) (drop len rest),
            take-append-drop len rest,
          ),
      omega (
        arith,
        s.consumed_eq,
        length-append (write_uvarint (length payload) []) payload,
        length-write_uvarint (length payload) [],
        ap uvarint_len size,
      ),
    )

-- A complete frame is one that `encode_frame` writes: the input is the frame of the returned
-- payload and what follows it, and exactly the frame is consumed.
pub decode_frame_sound :
    (input payload : Bytes) (consumed : ℕ)
    → All IsByte input
    → length input < 2 ^ 63
    → decode_frame input ≡ complete payload consumed
    → (rest : Bytes) × (input ≡ encode_frame payload ++ rest)
      × (consumed ≡ length (encode_frame payload))
decode_frame_sound input payload consumed hb hl e =
    let (len, used, r) = frame_read input payload consumed e in
    let (hv, n, rest, b) = read_uvarint_canonical input len used hb r in
    let fits : used + len < 2 ^ 64 = elim (dec_lt (used + len) (2 ^ 64)) [
      | yes f ↦ f
      | no f ↦ cc (e, (decode_frame_panics input len used hv hl r).1 (omega arith))
    ] in
    let s =
      frame_at-Split input payload consumed len used fits
        (sym (decode_frame_ok input len used r) ∙ e) in
    let (x, y) = frame_bytes input payload consumed len used rest s n b in (drop len rest, x, y)
