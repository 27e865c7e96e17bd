-- ===== src/Multistream/Sound.antt =====
-- What the decoder of lines accepts, and that it waits for the end of a frame.
use native.Mathlib.Decide.{dec_lt}
use minip2p.Prelude.{
  ℕ, ◌+◌, ◌≤◌, ◌<◌, ◌≡◌, refl, sym, ap, ◌∙◌, true, false, [], ◌∷◌, ◌++◌, Option, none, some,
  Option-cases, arith, ltb, length, length-append, length-take, take, drop, take-append-drop,
  drop-length, append_assoc, append-nil, All, inl, inr,
}
use minip2p.Prelude.Bits.{IsByte}
use minip2p.Prelude.Result.{ok, Result-cases}
use minip2p.Varint.{
  Bytes, buffer_too_short, overflow, non_canonical, uvarint_len, read_uvarint, write_uvarint,
}
use minip2p.Varint.Encode.{length-write_uvarint}
use minip2p.Varint.Canonical.{read_uvarint_canonical}
use minip2p.Multistream.Framing.{
  complete, incomplete, error, invalid_varint, encode_message, split_last, decode_body,
  decode_sized, decode_prefix, decode_message, max_message_len,
}
use minip2p.Multistream.Utf8.{is_utf8}
use minip2p.Multistream.Message.{
  IsLine, decode_message_lem, decode_message_ok, decode_message-encode_message,
  decode_message-append, incomplete_cases,
}

split_last-eq :
    (xs front : Bytes) (last : ℕ) → split_last xs ≡ some (front, last) → xs ≡ front ++ (last ∷ [])
unfolding split_last
split_last-eq [] front last e = cc
split_last-eq (b ∷ bs) front last e = elim (Option-cases (split_last bs)) [
  | inl n ↦
      let first : ◌≡◌ {A = Option (Bytes × ℕ)} (some ([], b)) (some (front, last)) = rw n at e in
      let all : bs ≡ [] = split_last-none bs n in rw all cc
  | inr ((rest, last'), s) ↦
      let same : ◌≡◌ {A = Option (Bytes × ℕ)} (some (b ∷ rest, last')) (some (front, last)) =
        rw s at e in
      let tail : bs ≡ rest ++ (last' ∷ []) = split_last-eq bs rest last' s in cc
]
  where
    split_last-none : (ys : Bytes) → split_last ys ≡ none → ys ≡ []
    split_last-none [] e = refl
    split_last-none (y ∷ ys) e = elim (Option-cases (split_last ys)) [
      | inl n ↦ cc (rw n at e)
      | inr (p, s) ↦ cc (rw s at e)
    ]

decode_body_complete :
    (r : Option (Bytes × ℕ)) (total : ℕ) (p : Bytes) (n : ℕ)
    → decode_body r total ≡ complete p n
    → (r ≡ some (p, 10)) × (is_utf8 p ≡ true) × (0 < length p) × (n ≡ total)
unfolding decode_body
decode_body_complete none total p n e = cc
decode_body_complete (some ([], last)) total p n e = ground arith
decode_body_complete (some (b ∷ bs, last)) total p n e = ground arith

-- What `decode_sized` went by when it returned a line.
record Sized (buf p : Bytes) (n len used : ℕ) : Type 0 where
  pub small : len ≤ max_message_len
  pub there : used + len ≤ length buf
  pub line_eq : take len (drop used buf) ≡ p ++ (10 ∷ [])
  pub text : is_utf8 p ≡ true
  pub some_byte : 0 < length p
  pub consumed_eq : n ≡ used + len

decode_sized-Sized :
    (buf p : Bytes) (n len used : ℕ)
    → decode_sized buf len used ≡ complete p n
    → Sized buf p n len used
unfolding decode_sized
decode_sized-Sized buf p n len used e = elim (dec_lt max_message_len len) [
  | yes big ↦ let test : ltb max_message_len len ≡ true = ground arith in cc (rw test at e)
  | no small ↦
      let test : ltb max_message_len len ≡ false = ground arith in
      elim (dec_lt (length buf) (used + len)) [
        | yes short ↦
            let cut : ltb (length buf) (used + len) ≡ true = ground arith in
            cc (rw (test, cut) at e)
        | no enough ↦
            let there : ltb (length buf) (used + len) ≡ false = ground arith in
            let (line, text, some_byte, total) =
              decode_body_complete (split_last (take len (drop used buf))) (used + len) p n
                (rw (test, there) at e) in
            record {
              small = omega arith;
              there = omega arith;
              line_eq = split_last-eq _ p 10 line;
              text = text;
              some_byte = some_byte;
              consumed_eq = total;
            }
      ]
]

decode_message-Sized :
    (buf p : Bytes) (n : ℕ)
    → decode_message buf ≡ complete p n
    → (len : ℕ) × (used : ℕ) × (read_uvarint buf ≡ ok (len, used)) × Sized buf p n len used
unfolding decode_prefix
decode_message-Sized buf p n e = elim (Result-cases (read_uvarint buf)) [
  | inl ((len, used), r) ↦ (
    len,
    used,
    r,
    decode_sized-Sized buf p n len used (sym (decode_message_ok buf len used r) ∙ e),
  )
  | inr (buffer_too_short, r) ↦
      let d : decode_message buf ≡ incomplete = decode_message_lem buf ∙ ap (decode_prefix buf) r in
      cc (d, e)
  | inr (overflow, r) ↦
      let d : decode_message buf ≡ error (invalid_varint overflow) =
        decode_message_lem buf ∙ ap (decode_prefix buf) r in
      cc (d, e)
  | inr (non_canonical, r) ↦
      let d : decode_message buf ≡ error (invalid_varint non_canonical) =
        decode_message_lem buf ∙ ap (decode_prefix buf) r in
      cc (d, e)
]

-- A line takes no more than the buffer holds.
pub decode_message_consumed :
    (buf p : Bytes) (n : ℕ) → decode_message buf ≡ complete p n → n ≤ length buf
decode_message_consumed buf p n e =
    let (len, used, r, s) = decode_message-Sized buf p n e in omega (arith, s.consumed_eq, s.there)

-- On every proper prefix of a framed line the decoder waits.
pub decode_message_cut :
    (protocol front : Bytes) (x : ℕ) (back : Bytes)
    → IsLine protocol
    → encode_message protocol ≡ front ++ (x ∷ back)
    → decode_message front ≡ incomplete
decode_message_cut p front x back l e = elim (incomplete_cases (decode_message front)) [
  | inl waits ↦ waits
  | inr other ↦
      let now : decode_message front ≡ complete p (length (encode_message p)) =
        sym (decode_message-append front (x ∷ back) other)
        ∙ ap decode_message (sym e ∙ sym (append-nil (encode_message p)))
        ∙ decode_message-encode_message p [] l in
      absurd (
        omega (
          arith,
          decode_message_consumed front p _ now,
          ap length e,
          length-append front (x ∷ back),
        ))
]

frame_of_IsLine :
    (buf p rest : Bytes) (n len used : ℕ)
    → Sized buf p n len used
    → used ≡ uvarint_len len
    → buf ≡ write_uvarint len [] ++ rest
    → (buf ≡ encode_message p ++ drop len rest) × (n ≡ length (encode_message p)) × IsLine p
unfolding encode_message
frame_of_IsLine buf p rest n len used s h e =
    let front = write_uvarint len [] in
    let nf : length front ≡ used = omega (arith, length-write_uvarint len []) in
    let tail : drop used buf ≡ rest =
      ap (drop used) e ∙ ap (λ (k : ℕ). drop k (front ++ rest)) (sym nf) ∙ drop-length front rest in
    let line : take len rest ≡ p ++ (10 ∷ []) = ap (take len) (sym tail) ∙ s.line_eq in
    let size : length p + 1 ≡ len = omega (
      arith,
      ap length line,
      length-append p (10 ∷ []),
      length-take len rest,
      s.there,
      ap length e,
      length-append front rest,
    ) in
    (
      e
          ∙ rw (
            size,
            append_assoc front p (10 ∷ []),
            sym line,
            append_assoc front (take len rest) (drop len rest),
            take-append-drop len rest,
          ),
      omega (
        arith,
        s.consumed_eq,
        length-append (write_uvarint (length p + 1) [] ++ p) (10 ∷ []),
        length-append (write_uvarint (length p + 1) []) p,
        length-write_uvarint (length p + 1) [],
        ap uvarint_len size,
      ),
      record { text = s.text; some_byte = s.some_byte; fits = omega (arith, s.small) },
    )

-- An accepted line is one that `encode_message` frames: it is a text, not empty, and within the
-- limit with its newline; the buffer is the frame of the line and what follows it, and exactly
-- the frame is consumed.
pub decode_message_sound :
    (buf payload : Bytes) (consumed : ℕ)
    → All IsByte buf
    → decode_message buf ≡ complete payload consumed
    → (rest : Bytes) × (buf ≡ encode_message payload ++ rest)
      × (consumed ≡ length (encode_message payload))
      × IsLine payload
decode_message_sound buf p n h e =
    let (len, used, r, s) = decode_message-Sized buf p n e in
    let (fits, u, rest, b) = read_uvarint_canonical buf len used h r in
    let (whole, size, line) = frame_of_IsLine buf p rest n len used s u b in
    (drop len rest, whole, size, line)
