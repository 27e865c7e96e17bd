-- ===== src/Identity/Base32/RoundTrip.antt =====
-- Base32 text reads back as the bytes that it was made of.
use minip2p.Prelude.{
  ℕ, suc, ◌-◌, ◌*◌, ◌/◌, ◌%◌, ◌^◌, ◌<◌, ◌≡◌, refl, sym, ap, ◌∙◌, arith, [], ◌∷◌, ◌++◌, map,
  append_assoc, append-nil, All,
}
use minip2p.Prelude.Bits.{IsByte, and_five}
use minip2p.Prelude.Result.{ok}
use minip2p.Varint.{Bytes}
use minip2p.Identity.Base32.{
  base32_char, base32_digits, encode_base32_nopad_lower, decode_base32_chars, decode_base32_nopad,
}
use minip2p.Identity.Base32.Digits.{
  push, decode_more, decode_byte, fill, digits_zero, digits_one, digits_two, digits_three,
  digits_four,
}

-- What the decoder makes of the digits from some point on, where the encoder has `buffer` and `bits`.
abbrev Reads : (input : Bytes) (buffer bits index other more : ℕ) (out whole : Bytes) → Type 0
Reads input buffer bits index other more out whole =
    decode_base32_chars (map base32_char (base32_digits input buffer bits)) index other more out
    ≡ ok whole

-- Encoder and decoder, `bits` bits of the byte `b` before the decoder's end.
abbrev Late : (bits low high : ℕ) → Bytes → Type 0
Late bits low high input =
    (buffer other b index : ℕ) (out : Bytes)
    → b < 256
    → buffer % low ≡ b % low
    → other % high ≡ b / low
    → Reads input buffer bits index other (8 - bits) out (out ++ (b ∷ input))

abbrev Even : Bytes → Type 0
Even input =
    (buffer other index : ℕ) (out : Bytes) → Reads input buffer 0 index other 0 out (out ++ input)

record Steps (input : Bytes) : Type 0 where
  even : Even input
  one : Late 1 2 128 input
  two : Late 2 4 64 input
  three : Late 3 8 32 input
  four : Late 4 16 16 input

last_three : Late 3 8 32 []
unfolding base32_digits decode_base32_chars
last_three buffer other b index out h low high =
    let v = buffer * 2 ^ 2 % 2 ^ 16 % 32 in
    let value : push other v / 2 ^ 2 % 256 ≡ b = omega arith in
    rw (and_five (buffer * 2 ^ 2 % 2 ^ 16))
      (decode_byte v [] index other 5 2 out (omega arith) refl ∙ rw value refl)

last_one : Late 1 2 128 []
unfolding base32_digits decode_base32_chars
last_one buffer other b index out h low high =
    let v = buffer * 2 ^ 4 % 2 ^ 16 % 32 in
    let value : push other v / 2 ^ 4 % 256 ≡ b = omega arith in
    rw (and_five (buffer * 2 ^ 4 % 2 ^ 16))
      (decode_byte v [] index other 7 4 out (omega arith) refl ∙ rw value refl)

last_two : Late 2 4 64 []
unfolding base32_digits decode_base32_chars
last_two buffer other b index out h low high =
    let v = buffer * 2 ^ 3 % 2 ^ 16 % 32 in
    let value : push other v / 2 ^ 3 % 256 ≡ b = omega arith in
    rw (and_five (buffer * 2 ^ 3 % 2 ^ 16))
      (decode_byte v [] index other 6 3 out (omega arith) refl ∙ rw value refl)

last_four : Late 4 16 16 []
unfolding base32_digits decode_base32_chars
last_four buffer other b index out h low high =
    let v = buffer * 2 ^ 1 % 2 ^ 16 % 32 in
    let value : push other v / 2 ^ 1 % 256 ≡ b = omega arith in
    rw (and_five (buffer * 2 ^ 1 % 2 ^ 16))
      (decode_byte v [] index other 4 1 out (omega arith) refl ∙ rw value refl)

module _ (c : ℕ) (cs : Bytes) (small : c < 256) (ih : Steps cs) where
  Even-next : Even (c ∷ cs)
  Even-next buffer other index out =
      let v = fill buffer c / 8 % 32 in
      let low : fill buffer c % 8 ≡ c % 8 = omega arith in
      let high : push other v % 32 ≡ c / 8 = omega arith in
      rw (digits_zero c cs buffer small) (
        decode_more v _ index other 0 out (omega arith) (omega arith)
        ∙ ih.three (fill buffer c) (push other v) c (suc index) out small low high)

  one_next : Late 1 2 128 (c ∷ cs)
  one_next buffer other b index out h low high =
      let v = fill buffer c / 16 % 32 in
      let value : push other v / 2 ^ 4 % 256 ≡ b = omega arith in
      let low' : fill buffer c % 16 ≡ c % 16 = omega arith in
      let high' : push other v % 16 ≡ c / 16 = omega arith in
      rw (digits_one c cs buffer small) (
        decode_byte v _ index other 7 4 out (omega arith) refl
        ∙ rw value (
            ih.four (fill buffer c) (push other v) c (suc index) (out ++ (b ∷ [])) small low' high'
            ∙ rw append_assoc refl))

  two_next : Late 2 4 64 (c ∷ cs)
  two_next buffer other b index out h low high =
      let v = fill buffer c / 32 % 32 in
      let w = fill buffer c / 1 % 32 in
      let value : push other v / 2 ^ 3 % 256 ≡ b = omega arith in
      let value' : push (push other v) w / 2 ^ 0 % 256 ≡ c = omega arith in
      rw (digits_two c cs buffer small) (
        decode_byte v _ index other 6 3 out (omega arith) refl
        ∙ decode_byte w _ (suc index) (push other v) 3 0 _ (omega arith) refl
        ∙ rw (value, value')
            (ih.even (fill buffer c) (push (push other v) w) (suc (suc index))
                ((out ++ (b ∷ [])) ++ (c ∷ []))
              ∙ ap ok (
                  append_assoc (out ++ (b ∷ [])) (c ∷ []) cs ∙ append_assoc out (b ∷ []) (c ∷ cs))))

  three_next : Late 3 8 32 (c ∷ cs)
  three_next buffer other b index out h low high =
      let v = fill buffer c / 64 % 32 in
      let w = fill buffer c / 2 % 32 in
      let value : push other v / 2 ^ 2 % 256 ≡ b = omega arith in
      let low' : fill buffer c % 2 ≡ c % 2 = omega arith in
      let high' : push (push other v) w % 128 ≡ c / 2 = omega arith in
      rw (digits_three c cs buffer small) (
        decode_byte v _ index other 5 2 out (omega arith) refl
        ∙ decode_more w _ (suc index) (push other v) 2 _ (omega arith) (omega arith)
        ∙ rw value (
            ih.one (fill buffer c) (push (push other v) w) c (suc (suc index)) (out ++ (b ∷ []))
              small low' high'
            ∙ rw append_assoc refl))

  four_next : Late 4 16 16 (c ∷ cs)
  four_next buffer other b index out h low high =
      let v = fill buffer c / 128 % 32 in
      let w = fill buffer c / 4 % 32 in
      let value : push other v / 2 ^ 1 % 256 ≡ b = omega arith in
      let low' : fill buffer c % 4 ≡ c % 4 = omega arith in
      let high' : push (push other v) w % 64 ≡ c / 4 = omega arith in
      rw (digits_four c cs buffer small) (
        decode_byte v _ index other 4 1 out (omega arith) refl
        ∙ decode_more w _ (suc index) (push other v) 1 _ (omega arith) (omega arith)
        ∙ rw value (
            ih.two (fill buffer c) (push (push other v) w) c (suc (suc index)) (out ++ (b ∷ []))
              small low' high'
            ∙ rw append_assoc refl))

steps : (input : Bytes) → All IsByte input → Steps input
unfolding base32_digits decode_base32_chars
steps [] h = record {
  even = λ buffer other index out. ap ok (sym (append-nil out));
  one = last_one;
  two = last_two;
  three = last_three;
  four = last_four;
}
steps (c ∷ cs) h =
    let ih = steps cs h.1 in
    record {
      even = Even-next c cs h.0 ih;
      one = one_next c cs h.0 ih;
      two = two_next c cs h.0 ih;
      three = three_next c cs h.0 ih;
      four = four_next c cs h.0 ih;
    }

-- `decode_base32_nopad` reads back the bytes that `encode_base32_nopad_lower` was given.
pub decode_base32-encode_base32 :
    (input : Bytes)
    → All IsByte input
    → decode_base32_nopad (encode_base32_nopad_lower input) ≡ ok input
unfolding decode_base32_nopad encode_base32_nopad_lower
decode_base32-encode_base32 input h = (steps input h).even 0 0 0 []
