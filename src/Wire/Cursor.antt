-- ===== src/Wire/Cursor.antt =====
-- The position in the input as a cursor: what the readers do at the bytes that lie before it.
use minip2p.Prelude.{
  ℕ, zero, suc, ◌+◌, ◌-◌, ◌/◌, ◌%◌, ◌≡◌, refl, sym, ◌∙◌, ap, false, [], ◌∷◌, ◌++◌, arith, length,
  length-append, ◌⊎◌, drop, take-length, drop-length, some, none, ltb, leb,
}
use minip2p.Prelude.Bits.{IsU64, and_seven}
use minip2p.Prelude.Result.{ok}
use minip2p.Varint.{Bytes}
use minip2p.Varint.Encode.{uvarint, length-uvarint, uvarint_len_pos}
use minip2p.Varint.RoundTrip.{read_uvarint-uvarint}
use minip2p.Wire.{WireError, read_varint_value, read_tag, read_len_delimited, skip_unknown_field}

-- `rest` is what lies at and after `idx`.
pub record At (input : Bytes) (idx : ℕ) (rest : Bytes) : Type 0 where
  pub here : drop idx input ≡ rest
  pub size : idx + length rest ≡ length input

pub At-start : (input : Bytes) → At input 0 input
At-start input = record { here = refl; size = omega arith }

drop-nil : (n : ℕ) → drop {A = ℕ} n [] ≡ []
drop-nil zero = refl
drop-nil (suc n) = refl

drop_add : (n m : ℕ) (xs : Bytes) → drop (n + m) xs ≡ drop m (drop n xs)
drop_add zero m xs = ap (λ (k : ℕ). drop k xs) (omega arith)
drop_add (suc n) m [] = drop-nil (suc n + m) ∙ sym (drop-nil m)
drop_add (suc n) m (x ∷ xs) =
    let e : suc n + m ≡ suc (n + m) = omega arith in
    ap (λ (k : ℕ). drop k (x ∷ xs)) e ∙ drop_add n m xs

pub At-advance :
    (input : Bytes) (idx : ℕ) (front rest : Bytes)
    → At input idx (front ++ rest)
    → At input (idx + length front) rest
At-advance input idx front rest a = record {
  here =
      drop_add idx (length front) input ∙ ap (drop (length front)) a.here ∙ drop-length front rest;
  size = omega (arith, a.size, length-append front rest);
}

pub At-next :
    (input : Bytes) (idx b : ℕ) (rest : Bytes) → At input idx (b ∷ rest) → At input (idx + 1) rest
At-next input idx b rest a = At-advance input idx (b ∷ []) rest a

module _ {E : Type 0} ⦃w : WireError E⦄ where
  pub read_varint_value-At :
      (input : Bytes) (idx value : ℕ) (rest : Bytes)
      → IsU64 value
      → At input idx (uvarint value ++ rest)
      → read_varint_value {E = E} input idx ≡ ok (value, idx + length (uvarint value))
  unfolding read_varint_value
  read_varint_value-At input idx value rest h a =
      rw (a.here, read_uvarint-uvarint value rest h, length-uvarint value)

  pub read_tag-At :
      (input : Bytes) (idx tag : ℕ) (rest : Bytes)
      → IsU64 tag
      → At input idx (uvarint tag ++ rest)
      → read_tag {E = E} input idx ≡ ok (some (tag / 8, tag % 8), idx + length (uvarint tag))
  unfolding read_tag
  read_tag-At input idx tag rest h a =
      let inside : leb (length input) idx ≡ false = ground (
        arith,
        a.size,
        length-append (uvarint tag) rest,
        length-uvarint tag,
        uvarint_len_pos tag,
      ) in
      let w : tag % 8 % 256 ≡ tag % 8 = omega arith in
      rw (inside, read_varint_value-At input idx tag rest h a, and_seven tag, w)

  pub read_tag_end :
      (input : Bytes) (idx : ℕ) → At input idx [] → read_tag {E = E} input idx ≡ ok (none, idx)
  unfolding read_tag
  read_tag_end input idx a = ground (arith, a.size)

  pub read_len_delimited-At :
      (input : Bytes) (idx : ℕ) (payload rest : Bytes)
      → IsU64 (length payload)
      → At input idx (uvarint (length payload) ++ (payload ++ rest))
      → read_len_delimited {E = E} input idx
        ≡ ok (payload, idx + length (uvarint (length payload)) + length payload)
  unfolding read_len_delimited
  read_len_delimited-At input idx payload rest h a =
      let n = length payload in
      let b = At-advance input idx (uvarint n) (payload ++ rest) a in
      let enough : ltb (length input - (idx + length (uvarint n))) n ≡ false =
        ground (arith, b.size, length-append payload rest) in
      rw (
        read_varint_value-At input idx n (payload ++ rest) h a,
        enough,
        b.here,
        take-length payload rest,
      )

  pub skip_unknown_field_len :
      (input : Bytes) (idx : ℕ) (payload rest : Bytes)
      → IsU64 (length payload)
      → At input idx (uvarint (length payload) ++ (payload ++ rest))
      → skip_unknown_field {E = E} input idx 2
        ≡ ok (idx + length (uvarint (length payload)) + length payload)
  unfolding skip_unknown_field
  skip_unknown_field_len input idx payload rest h a =
      let n = length payload in
      let b = At-advance input idx (uvarint n) (payload ++ rest) a in
      let enough : ltb (length input - (idx + length (uvarint n))) n ≡ false =
        ground (arith, b.size, length-append payload rest) in
      rw (read_varint_value-At input idx n (payload ++ rest) h a, enough)

  pub skip_unknown_field_varint :
      (input : Bytes) (idx value : ℕ) (rest : Bytes)
      → IsU64 value
      → At input idx (uvarint value ++ rest)
      → skip_unknown_field {E = E} input idx 0 ≡ ok (idx + length (uvarint value))
  unfolding skip_unknown_field
  skip_unknown_field_varint input idx value rest h a =
      rw (read_varint_value-At input idx value rest h a)

  pub skip_unknown_field_fixed :
      (input : Bytes) (idx wire_type : ℕ) (payload rest : Bytes)
      → (wire_type ≡ 5) × (length payload ≡ 4) ⊎ (wire_type ≡ 1) × (length payload ≡ 8)
      → At input idx (payload ++ rest)
      → skip_unknown_field {E = E} input idx wire_type ≡ ok (idx + length payload)
  unfolding skip_unknown_field
  skip_unknown_field_fixed input idx wire_type payload rest h a =
      ground (arith, a.size, length-append payload rest)
