-- ===== src/Wire.antt =====
-- The protobuf helpers of crates/relay/src/message.rs, over the error type of the crate that
-- decodes. `&mut idx` is passed and returned; a `usize` has 64 bits. crates/dcutr/src/message.rs
-- has the same helpers inline.
pub mod Cursor
pub mod Loop
pub mod Fields
pub mod Encode
use Prim.Native.Nat.{bit_and, bit_or}
use minip2p.Prelude.{
  ℕ, zero, suc, ◌+◌, ◌-◌, ◌*◌, ◌/◌, ◌%◌, List, [], ◌∷◌, ◌++◌, Option, none, some, ltb, leb, ◌==◌,
  if◌then◌else◌, length, take, drop,
}
use minip2p.Prelude.Result.{Result, ok, err, ◌>>=◌, map_err}
use minip2p.Varint.{Bytes, VarintError, read_uvarint, write_uvarint}

-- The errors that every decoder has.
pub record WireError (E : Type 0) : Type 0 where
  pub varint : VarintError → E
  pub field_overflow : (offset len remaining : ℕ) → E
  pub unsupported_wire_type : (wire_type offset : ℕ) → E

abbrev pub wire_varint : ℕ
wire_varint = 0

abbrev pub wire_i64 : ℕ
wire_i64 = 1

abbrev pub wire_len : ℕ
wire_len = 2

abbrev pub wire_i32 : ℕ
wire_i32 = 5

-- `(field << 3) | wire_type`, on bytes.
abbrev pub tag_byte : ℕ → ℕ → ℕ
tag_byte field wire_type = bit_or (field * 8 % 256) wire_type

unfoldable pub encode_varint_field : Bytes → (tag value : ℕ) → Bytes
encode_varint_field out tag value = write_uvarint value (out ++ (tag ∷ []))

unfoldable pub encode_bytes_field : Bytes → ℕ → Bytes → Bytes
encode_bytes_field out tag payload = write_uvarint (length payload) (out ++ (tag ∷ [])) ++ payload

abbrev pub encode_nested_field : Bytes → ℕ → Bytes → Bytes
encode_nested_field = encode_bytes_field

module _ {E : Type 0} ⦃w : WireError E⦄ where
  -- `read_uvarint(&input[*idx..])?` with `*idx += used`.
  unfoldable pub read_varint_value : Bytes → ℕ → Result E (ℕ × ℕ)
  read_varint_value input idx = do
    (value, used) ← map_err w.varint (read_uvarint (drop idx input))
    ok (value, idx + used)

  unfoldable pub read_tag : Bytes → ℕ → Result E (Option (ℕ × ℕ) × ℕ)
  read_tag input idx = if leb (length input) idx then ok (none, idx) else do
    (tag_value, idx') ← read_varint_value input idx
    let wire_type = bit_and tag_value 0x07 % 256
    let field_number = tag_value / 8
    ok (some (field_number, wire_type), idx')

  unfoldable pub read_len_delimited : Bytes → ℕ → Result E (Bytes × ℕ)
  read_len_delimited input idx = do
    (len, idx') ← read_varint_value input idx
    let remaining = length input - idx'
    (if ltb remaining len
        then err (w.field_overflow idx' len remaining)
        else ok (take len (drop idx' input), idx' + len))

  skip_fixed : Bytes → (idx size : ℕ) → Result E ℕ
  skip_fixed input idx size =
      if ltb (length input) (idx + size)
      then err (w.field_overflow idx size (length input - idx))
      else ok (idx + size)

  skip_len : Bytes → ℕ → Result E ℕ
  skip_len input idx = do
    (len, idx') ← read_varint_value input idx
    let remaining = length input - idx'
    if ltb remaining len then err (w.field_overflow idx' len remaining) else ok (idx' + len)

  skip_varint : Bytes → ℕ → Result E ℕ
  skip_varint input idx = do (value, idx') ← read_varint_value input idx; ok idx'

  unfoldable pub skip_unknown_field : Bytes → (idx wire_type : ℕ) → Result E ℕ
  unfolding skip_fixed skip_len skip_varint
  skip_unknown_field input idx wire_type =
      if wire_type == wire_varint
      then skip_varint input idx
      else if wire_type == wire_len
      then skip_len input idx
      else if wire_type == wire_i32
      then skip_fixed input idx 4
      else if wire_type == wire_i64
      then skip_fixed input idx 8
      else err (w.unsupported_wire_type wire_type idx)

  -- `while let Some((field, wire_type)) = read_tag(input, &mut idx)? { … }`, where `step` is the
  -- `match` on the tag. `none`: the fuel ran out.
  pub run_fields {ℓ} :
      {M : Type ℓ}
      → (Bytes → M → (field wire_type idx : ℕ) → Result E (M × ℕ))
      → (fuel : ℕ) → Bytes
      → ℕ
      → M
      → Option (Result E M)
  run_fields step zero input idx msg = none
  run_fields step (suc fuel) input idx msg = elim (read_tag input idx) [
    | err e ↦ some (err e)
    | ok (none, _) ↦ some (ok msg)
    | ok (some (field, wire_type), idx') ↦ elim (step input msg field wire_type idx') [
      | err e ↦ some (err e)
      | ok (msg', idx'') ↦ run_fields step fuel input idx'' msg'
    ]
  ]

  -- Every round takes a byte at least, so this fuel is enough (`decode_fields_total`).
  unfoldable pub decode_fields {ℓ} :
      {M : Type ℓ}
      → (Bytes → M → (field wire_type idx : ℕ) → Result E (M × ℕ))
      → Bytes
      → M
      → Result E M
  unfolding run_fields
  decode_fields step input msg = elim (run_fields step (suc (length input)) input 0 msg) [
    | some r ↦ r
    | none ↦ ok msg
  ]
