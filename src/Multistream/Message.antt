-- ===== src/Multistream/Message.antt =====
-- The framing of lines: round trip, cut input, and answers on a growing buffer.
use mathlib.Core.Path.{subst}
use native.Mathlib.Decide.{dec_lt}
use minip2p.Prelude.{
  ℕ, zero, suc, ◌+◌, ◌≤◌, ◌<◌, ◌≡◌, ◌≢◌, refl, sym, ap, ◌∙◌, true, false, [], ◌∷◌, ◌++◌, some,
  arith, ltb, length, length-append, take, drop, take-length, drop-length, append_assoc, ◌⊎◌, inl,
  inr,
}
use minip2p.Prelude.Result.{ok, Result-cases}
use minip2p.Varint.{
  Bytes, buffer_too_short, overflow, non_canonical, uvarint_len, read_uvarint, write_uvarint,
}
use minip2p.Varint.Encode.{length-write_uvarint}
use minip2p.Varint.RoundTrip.{read_uvarint-write_uvarint}
use minip2p.Varint.Stream.{read_uvarint-append, too_short_cases}
use minip2p.Multistream.Framing.{
  DecodeResult, complete, incomplete, error, encode_message, split_last, decode_body, decode_sized,
  decode_prefix, decode_message, max_message_len,
}
use minip2p.Multistream.Utf8.{is_utf8}

-- A line that the framing carries.
pub record IsLine (protocol : Bytes) : Type 0 where
  pub text : is_utf8 protocol ≡ true
  pub some_byte : 0 < length protocol
  pub fits : length protocol < max_message_len

pub decode_message_lem : (buf : Bytes) → decode_message buf ≡ decode_prefix buf (read_uvarint buf)
unfolding decode_message read_uvarint
decode_message_lem [] = refl
decode_message_lem (b ∷ bs) = refl

pub decode_message_ok :
    (buf : Bytes) (len used : ℕ)
    → read_uvarint buf ≡ ok (len, used)
    → decode_message buf ≡ decode_sized buf len used
decode_message_ok buf len used e = decode_message_lem buf ∙ rw e (unfold decode_prefix in refl)

split_last-append :
    (front : Bytes) (last : ℕ) → split_last (front ++ (last ∷ [])) ≡ some (front, last)
unfolding split_last
split_last-append [] last = refl
split_last-append (b ∷ bs) last = rw (split_last-append bs last)

decode_body_line :
    (p : Bytes) (total : ℕ) → IsLine p → decode_body (some (p, 10)) total ≡ complete p total
unfolding decode_body
decode_body_line [] total l = absurd (omega (arith, l.some_byte))
decode_body_line (b ∷ bs) total l = rw l.text

decode_sized_whole :
    (front p rest : Bytes)
    → IsLine p
    → decode_sized (front ++ ((p ++ (10 ∷ [])) ++ rest)) (length p + 1) (length front)
      ≡ complete p (length front + (length p + 1))
unfolding decode_sized
decode_sized_whole front p rest l =
    let line = p ++ (10 ∷ []) in
    let n : length line ≡ length p + 1 = length-append p (10 ∷ []) in
    let all : length (front ++ (line ++ rest)) ≡ length front + ((length p + 1) + length rest) =
      omega (arith, length-append front (line ++ rest), length-append line rest, n) in
    let small : ltb max_message_len (length p + 1) ≡ false = ground (arith, l.fits) in
    let there : ltb (length front + ((length p + 1) + length rest)) (length front + (length p + 1))
        ≡ false =
      ground arith in
    let cut : take (length p + 1) (line ++ rest) ≡ line =
      ap (λ (k : ℕ). take k (line ++ rest)) (sym n) ∙ take-length line rest in
    rw (all, small, there, drop-length front (line ++ rest), cut, split_last-append p 10)
      (decode_body_line p _ l)

-- A line in its frame is read back, whatever follows it, and the frame is consumed.
pub decode_message-encode_message :
    (protocol rest : Bytes)
    → IsLine protocol
    → decode_message (encode_message protocol ++ rest)
      ≡ complete protocol (length (encode_message protocol))
unfolding encode_message
decode_message-encode_message p rest l =
    let front = write_uvarint (length p + 1) [] in
    let line = p ++ (10 ∷ []) in
    let n : length front ≡ uvarint_len (length p + 1) =
      omega (arith, length-write_uvarint (length p + 1) []) in
    let used =
      subst (λ (k : ℕ). read_uvarint (front ++ (line ++ rest)) ≡ ok (length p + 1, k)) (sym n)
        (read_uvarint-write_uvarint (length p + 1) (line ++ rest) (omega (arith, l.fits))) in
    let shape : ((front ++ p) ++ (10 ∷ [])) ++ rest ≡ front ++ (line ++ rest) = simp append_assoc in
    let size : length ((front ++ p) ++ (10 ∷ [])) ≡ length front + (length p + 1) =
      omega (arith, length-append (front ++ p) (10 ∷ []), length-append front p) in
    rw (shape, size)
      (decode_message_ok _ (length p + 1) (length front) used ∙ decode_sized_whole front p rest l)

pub incomplete_cases : (r : DecodeResult) → (r ≡ incomplete) ⊎ (r ≢ incomplete)
incomplete_cases incomplete = inl refl
incomplete_cases (complete p n) = inr (λ e. cc)
incomplete_cases (error x) = inr (λ e. cc)

take-drop-append :
    (xs ys : Bytes) (n k : ℕ) → k + n ≤ length xs → take n (drop k (xs ++ ys)) ≡ take n (drop k xs)
take-drop-append [] ys zero zero h = refl
take-drop-append [] ys (suc n) zero h = absurd (omega arith)
take-drop-append [] ys n (suc k) h = absurd (omega arith)
take-drop-append (x ∷ xs) ys zero zero h = refl
take-drop-append (x ∷ xs) ys (suc n) zero h = ap (◌∷◌ x) (take-drop-append xs ys n 0 (omega arith))
take-drop-append (x ∷ xs) ys n (suc k) h = take-drop-append xs ys n k (omega arith)

decode_sized-append :
    (buf more : Bytes) (len used : ℕ)
    → decode_sized buf len used ≢ incomplete
    → decode_sized (buf ++ more) len used ≡ decode_sized buf len used
unfolding decode_sized
decode_sized-append buf more len used h = elim (dec_lt max_message_len len) [
  | yes big ↦ let test : ltb max_message_len len ≡ true = ground arith in rw test refl
  | no small ↦
      let test : ltb max_message_len len ≡ false = ground arith in
      elim (dec_lt (length buf) (used + len)) [
        | yes short ↦
            let cut : ltb (length buf) (used + len) ≡ true = ground arith in
            absurd (h (rw (test, cut) refl))
        | no enough ↦
            let there : ltb (length buf) (used + len) ≡ false = ground arith in
            let still : ltb (length (buf ++ more)) (used + len) ≡ false =
              ground (arith, length-append buf more) in
            rw (test, there, still, take-drop-append buf more len used (omega arith)) refl
      ]
]

-- Bytes behind the buffer do not change an answer other than `incomplete`.
pub decode_message-append :
    (buf more : Bytes)
    → decode_message buf ≢ incomplete
    → decode_message (buf ++ more) ≡ decode_message buf
unfolding decode_prefix
decode_message-append buf more h = elim (too_short_cases (read_uvarint buf)) [
  | inl short ↦ absurd (h (decode_message_lem buf ∙ ap (decode_prefix buf) short))
  | inr other ↦
      let same =
        decode_message_lem (buf ++ more)
        ∙ ap (decode_prefix (buf ++ more)) (read_uvarint-append buf more other) in
      let here = decode_message_lem buf in
      elim (Result-cases (read_uvarint buf)) [
        | inl ((len, used), r) ↦
            let now : decode_message buf ≡ decode_sized buf len used =
              here ∙ ap (decode_prefix buf) r in
            same
            ∙ ap (decode_prefix (buf ++ more)) r
            ∙ decode_sized-append buf more len used (λ e. h (now ∙ e))
            ∙ sym now
        | inr (buffer_too_short, r) ↦ absurd (other r)
        | inr (overflow, r) ↦
            same ∙ ap (decode_prefix (buf ++ more)) r ∙ sym (here ∙ ap (decode_prefix buf) r)
        | inr (non_canonical, r) ↦
            same ∙ ap (decode_prefix (buf ++ more)) r ∙ sym (here ∙ ap (decode_prefix buf) r)
      ]
]
