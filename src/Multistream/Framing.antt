-- ===== src/Multistream/Framing.antt =====
-- crates/multistream-select/src/lib.rs: the framing of protocol lines.
use minip2p.Prelude.{
  ℕ, ◌+◌, [], ◌∷◌, ◌++◌, Option, none, some, ltb, ◌==◌, if◌then◌else◌, length, take, drop,
}
use minip2p.Prelude.Result.{Result, ok, err}
use minip2p.Varint.{
  Bytes, VarintError, buffer_too_short, overflow, non_canonical, read_uvarint, write_uvarint,
}
use minip2p.Multistream.Utf8.{is_utf8}

abbrev pub max_message_len : ℕ
max_message_len = 1024

pub data MultistreamError : Type 0 where
  message_too_long : (len : ℕ) → MultistreamError
  invalid_varint : VarintError → MultistreamError
  non_utf8 missing_newline empty_protocol : MultistreamError
  unexpected_header : (actual : Bytes) → MultistreamError
  unexpected_protocol_response : (actual : Bytes) → MultistreamError

unfoldable pub encode_message : Bytes → Bytes
encode_message protocol = (write_uvarint (length protocol + 1) [] ++ protocol) ++ (10 ∷ [])

pub data DecodeResult : Type 0 where
  complete : (payload : Bytes) (consumed : ℕ) → DecodeResult
  incomplete : DecodeResult
  error : MultistreamError → DecodeResult

-- `msg_bytes[..msg_bytes.len() - 1]` and `msg_bytes.last()`.
unfoldable pub split_last : Bytes → Option (Bytes × ℕ)
split_last [] = none
split_last (b ∷ bs) = elim (split_last bs) [
  | none ↦ some ([], b)
  | some (front, last) ↦ some (b ∷ front, last)
]

decode_line : Bytes → ℕ → DecodeResult
decode_line [] total = error empty_protocol
decode_line (b ∷ bs) total = complete (b ∷ bs) total

unfoldable pub decode_body : Option (Bytes × ℕ) → ℕ → DecodeResult
unfolding decode_line
decode_body none total = error missing_newline
decode_body (some (payload, last)) total =
    if last == 10
    then (if is_utf8 payload then decode_line payload total else error non_utf8)
    else error missing_newline

unfoldable pub decode_sized : Bytes → (msg_len varint_bytes : ℕ) → DecodeResult
decode_sized buf msg_len varint_bytes =
    let total = varint_bytes + msg_len in
    if ltb max_message_len msg_len
    then error (message_too_long msg_len)
    else if ltb (length buf) total
    then incomplete
    else decode_body (split_last (take msg_len (drop varint_bytes buf))) total

unfoldable pub decode_prefix : Bytes → Result VarintError (ℕ × ℕ) → DecodeResult
decode_prefix buf (ok (msg_len, varint_bytes)) = decode_sized buf msg_len varint_bytes
decode_prefix buf (err buffer_too_short) = incomplete
decode_prefix buf (err overflow) = error (invalid_varint overflow)
decode_prefix buf (err non_canonical) = error (invalid_varint non_canonical)

unfoldable pub decode_message : Bytes → DecodeResult
unfolding decode_prefix decode_sized decode_body split_last
decode_message [] = incomplete
decode_message (b ∷ bs) = decode_prefix (b ∷ bs) (read_uvarint (b ∷ bs))
