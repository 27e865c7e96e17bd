-- ===== src/Identity/Base32/Digits.antt =====
-- What one digit does to the base32 decoder, and which digits a byte completes in the encoder.
use Prim.Native.Nat.{bit_or}
use minip2p.Prelude.{
  ℕ, suc, ◌+◌, ◌-◌, ◌*◌, ◌/◌, ◌%◌, ◌^◌, ◌<◌, ◌≡◌, refl, ap, ◌∙◌, arith, true, false, [], ◌∷◌, ◌++◌,
  Option, none, some, leb,
}
use minip2p.Prelude.Bits.{every_below, every_below→eq, and_five, and_byte, or_low}
use minip2p.Varint.{Bytes}
use minip2p.Identity.Base58.{Text, char_at}
use minip2p.Identity.Base32.{
  base32_char, base32_value, take_digits, base32_digits, decode_base32_chars,
}

abbrev or_none : Option ℕ → ℕ
or_none none = 99
or_none (some v) = v

some_of : (o : Option ℕ) (v : ℕ) → or_none o ≡ v → v < 32 → o ≡ some v
some_of none v e h = absurd (omega arith)
some_of (some w) v e h = ap some e

base32_value-char : (v : ℕ) → v < 32 → base32_value (base32_char v) ≡ some v
unfolding every_below base32_value char_at
base32_value-char v h =
    some_of (base32_value (base32_char v)) v
      (every_below→eq 32 (λ i. or_none (base32_value (base32_char i))) (λ i. i) v refl h) h

-- The buffer after a digit.
abbrev pub push : (buffer v : ℕ) → ℕ
push buffer v = buffer % 2 ^ 27 * 32 + v

push_lem : (buffer v : ℕ) → v < 32 → bit_or (buffer * 2 ^ 5 % 2 ^ 32) v ≡ push buffer v
push_lem buffer v h =
    let e : buffer * 2 ^ 5 % 2 ^ 32 ≡ buffer % 2 ^ 27 * 2 ^ 5 = omega arith in
    ap (λ x. bit_or x v) e ∙ or_low 5 (buffer % 2 ^ 27) v (omega arith)

pub decode_more :
    (v : ℕ) (chs : Text) (index buffer bits : ℕ) (out : Bytes)
    → v < 32
    → bits + 5 < 8
    → decode_base32_chars (base32_char v ∷ chs) index buffer bits out
      ≡ decode_base32_chars chs (suc index) (push buffer v) (bits + 5) out
unfolding decode_base32_chars
decode_more v chs index buffer bits out h k =
    let few : leb 8 (bits + 5) ≡ false = ground arith in
    rw (base32_value-char v h, few, push_lem buffer v h) refl

pub decode_byte :
    (v : ℕ) (chs : Text) (index buffer bits left : ℕ) (out : Bytes)
    → v < 32
    → bits + 5 ≡ 8 + left
    → decode_base32_chars (base32_char v ∷ chs) index buffer bits out
      ≡ decode_base32_chars chs
          (suc index)
          (push buffer v)
          left
          (out ++ (push buffer v / 2 ^ left % 256 ∷ []))
unfolding decode_base32_chars
decode_byte v chs index buffer bits left out h k =
    let enough : leb 8 (bits + 5) ≡ true = ground arith in
    let rest : bits + 5 - 8 ≡ left = omega arith in
    rw
      (
        base32_value-char v h,
        enough,
        push_lem buffer v h,
        rest,
        and_byte (push buffer v / 2 ^ left),
      )
      refl

-- The buffer after a byte.
abbrev pub fill : (buffer c : ℕ) → ℕ
fill buffer c = buffer % 256 * 256 + c

fill_lem : (buffer c : ℕ) → c < 256 → bit_or (buffer * 2 ^ 8 % 2 ^ 16) c ≡ fill buffer c
fill_lem buffer c h =
    let e : buffer * 2 ^ 8 % 2 ^ 16 ≡ buffer % 256 * 2 ^ 8 = omega arith in
    ap (λ x. bit_or x c) e ∙ or_low 8 (buffer % 256) c (omega arith)

-- The digits that a byte completes, by the number of bits that were left over.
pub digits_zero :
    (c : ℕ) (cs : Bytes) (buffer : ℕ)
    → c < 256
    → base32_digits (c ∷ cs) buffer 0 ≡ fill buffer c / 8 % 32 ∷ base32_digits cs (fill buffer c) 3
unfolding base32_digits take_digits
digits_zero c cs buffer h = rw (fill_lem buffer c h, and_five (fill buffer c / 2 ^ 3)) refl

pub digits_one :
    (c : ℕ) (cs : Bytes) (buffer : ℕ)
    → c < 256
    → base32_digits (c ∷ cs) buffer 1 ≡ fill buffer c / 16 % 32 ∷ base32_digits cs (fill buffer c) 4
unfolding base32_digits take_digits
digits_one c cs buffer h = rw (fill_lem buffer c h, and_five (fill buffer c / 2 ^ 4)) refl

pub digits_two :
    (c : ℕ) (cs : Bytes) (buffer : ℕ)
    → c < 256
    → base32_digits (c ∷ cs) buffer 2
      ≡ fill buffer c / 32 % 32 ∷ fill buffer c / 1 % 32 ∷ base32_digits cs (fill buffer c) 0
unfolding base32_digits take_digits
digits_two c cs buffer h =
    rw (fill_lem buffer c h, and_five (fill buffer c / 2 ^ 5), and_five (fill buffer c / 2 ^ 0))
      refl

pub digits_three :
    (c : ℕ) (cs : Bytes) (buffer : ℕ)
    → c < 256
    → base32_digits (c ∷ cs) buffer 3
      ≡ fill buffer c / 64 % 32 ∷ fill buffer c / 2 % 32 ∷ base32_digits cs (fill buffer c) 1
unfolding base32_digits take_digits
digits_three c cs buffer h =
    rw (fill_lem buffer c h, and_five (fill buffer c / 2 ^ 6), and_five (fill buffer c / 2 ^ 1))
      refl

pub digits_four :
    (c : ℕ) (cs : Bytes) (buffer : ℕ)
    → c < 256
    → base32_digits (c ∷ cs) buffer 4
      ≡ fill buffer c / 128 % 32 ∷ fill buffer c / 4 % 32 ∷ base32_digits cs (fill buffer c) 2
unfolding base32_digits take_digits
digits_four c cs buffer h =
    rw (fill_lem buffer c h, and_five (fill buffer c / 2 ^ 7), and_five (fill buffer c / 2 ^ 2))
      refl
