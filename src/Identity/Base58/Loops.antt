-- ===== src/Identity/Base58/Loops.antt =====
-- The loops of the base58btc encoder and decoder, by the numbers that their digits stand for.
use minip2p.Prelude.{
  ℕ, suc, ◌+◌, ◌*◌, ◌/◌, ◌%◌, ◌<◌, ◌≡◌, ◌≢◌, refl, ap, ◌∙◌, arith, List, [], ◌∷◌, map, All,
}
use minip2p.Prelude.Bits.{IsByte}
use minip2p.Prelude.Result.{ok}
use minip2p.Varint.{Bytes}
use minip2p.Identity.Base58.{
  base58_char, carry_digits, push_digit, or_zero, encode_digits, decode_chars,
}
use minip2p.Identity.Base58.Horner.{horner}
use minip2p.Identity.Base58.Positional.{
  value_of, IsNumeral, push_nil, push_cons, push_value, push-IsNumeral,
}
use minip2p.Identity.Base58.Alphabet.{base58_value-char}

or_zero_pos : (base : ℕ) (ds : List ℕ) → 0 < value_of base ds → or_zero ds ≡ ds
unfolding value_of
or_zero_pos base [] h = absurd (omega arith)
or_zero_pos base (d ∷ ds) h = refl

-- The loop of the encoder, once a digit is there.
encode_rest :
    (input : Bytes) (ds : List ℕ)
    → All IsByte input
    → IsNumeral 58 ds
    → 0 < value_of 58 ds
    → IsNumeral 58 (encode_digits ds input)
      × (value_of 58 (encode_digits ds input) ≡ horner 256 (value_of 58 ds) input)
unfolding encode_digits horner
encode_rest [] ds b h p = (h, refl)
encode_rest (x ∷ xs) ds b h p =
    let ds' = push_digit 58 256 ds x in
    let v = push_value 58 (omega arith) 256 (omega arith) ds x in
    let pos : 0 < value_of 58 ds' = omega arith in
    let (k, n) =
      encode_rest xs ds' b.1 (push-IsNumeral 58 (omega arith) 256 (omega arith) ds x h) pos in
    rw (or_zero_pos 58 ds' pos) (k, n ∙ ap (λ a. horner 256 a xs) v)

pub encode_whole :
    (x : ℕ) (xs : Bytes)
    → All IsByte (x ∷ xs)
    → x ≢ 0
    → IsNumeral 58 (encode_digits [] (x ∷ xs))
      × (value_of 58 (encode_digits [] (x ∷ xs)) ≡ horner 256 0 (x ∷ xs))
unfolding encode_digits horner value_of
encode_whole x xs b n =
    let ds' = push_digit 58 256 [] x in
    let v = push_value 58 (omega arith) 256 (omega arith) [] x in
    let pos : 0 < value_of 58 ds' = omega (arith, n) in
    let (k, m) =
      encode_rest xs ds' b.1 (push-IsNumeral 58 (omega arith) 256 (omega arith) [] x (tt, tt))
        pos in
    rw (or_zero_pos 58 ds' pos) (k, m ∙ ap (λ a. horner 256 a xs) v)

-- The loop of the decoder, once a byte is there.
decode_rest :
    (digits : List ℕ) (index : ℕ) (bytes : Bytes)
    → All (λ (d : ℕ). d < 58) digits
    → IsNumeral 256 bytes
    → 0 < value_of 256 bytes
    → (out : Bytes) × (decode_chars (map base58_char digits) index bytes ≡ ok out)
      × IsNumeral 256 out
      × (value_of 256 out ≡ horner 58 (value_of 256 bytes) digits)
unfolding decode_chars horner
decode_rest [] index bytes b h p = (bytes, refl, h, refl)
decode_rest (d ∷ ds) index bytes b h p =
    let bytes' = push_digit 256 58 bytes d in
    let v = push_value 256 (omega arith) 58 (omega arith) bytes d in
    let pos : 0 < value_of 256 bytes' = omega arith in
    let (out, e, k, n) =
      decode_rest ds (suc index) bytes' b.1
        (push-IsNumeral 256 (omega arith) 58 (omega arith) bytes d h) pos in
    (
      out,
      rw (base58_value-char d b.0, or_zero_pos 256 bytes p) e,
      k,
      n ∙ ap (λ a. horner 58 a ds) v,
    )

first_byte : (d : ℕ) → 0 < d → d < 58 → push_digit 256 58 (0 ∷ []) d ≡ d ∷ []
unfolding carry_digits
first_byte d p h =
    let low : (0 * 58 + d) % 256 ≡ d = omega arith in
    let high : (0 * 58 + d) / 256 ≡ 0 = omega arith in
    push_cons 256 58 0 [] d ∙ rw (low, high, push_nil 256 58 0) refl

pub decode_whole :
    (d : ℕ) (ds : List ℕ) (index : ℕ)
    → All (λ (d : ℕ). d < 58) (d ∷ ds)
    → d ≢ 0
    → (out : Bytes) × (decode_chars (map base58_char (d ∷ ds)) index [] ≡ ok out)
      × IsNumeral 256 out
      × (value_of 256 out ≡ horner 58 0 (d ∷ ds))
unfolding decode_chars horner value_of
decode_whole d ds index b n =
    let small : d < 58 = b.0 in
    let pos : 0 < d = omega (arith, n) in
    let (out, e, k, v) =
      decode_rest ds (suc index) (d ∷ []) b.1 ((omega arith, tt), n) (omega arith) in
    let start : d + 256 * 0 ≡ 0 * 58 + d = omega arith in
    (
      out,
      rw (base58_value-char d small, first_byte d pos small) e,
      k,
      v ∙ ap (λ a. horner 58 a ds) start,
    )
