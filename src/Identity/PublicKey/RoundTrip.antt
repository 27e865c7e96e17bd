-- ===== src/Identity/PublicKey/RoundTrip.antt =====
-- The protobuf form of a public key is read back.
use minip2p.Prelude.{
  ℕ, suc, ◌+◌, ◌%◌, ◌^◌, ◌≤◌, ◌<◌, ◌≡◌, refl, sym, ap, ◌∙◌, arith, true, [], ◌∷◌, ◌++◌, length,
  length-append, drop, drop-length, ◌==◌,
}
use minip2p.Prelude.Result.{ok}
use minip2p.Varint.{Bytes, read_uvarint, write_uvarint}
use minip2p.Varint.Encode.{uvarint, length-uvarint, uvarint_len_le, write_uvarint-uvarint}
use minip2p.Varint.RoundTrip.{read_uvarint-uvarint}
use minip2p.Identity.PublicKey.{
  KeyType, rsa, ed25519, secp256k1, ecdsa, PublicKey, key_type_to_u64, try_from, encode_protobuf,
  check_tag, decode_from, decode_protobuf,
}

one_byte :
    (k : KeyType) (rest : Bytes)
    → read_uvarint (key_type_to_u64 k ∷ rest) ≡ ok (key_type_to_u64 k, 1)
unfolding read_uvarint key_type_to_u64
one_byte rsa rest = refl
one_byte ed25519 rest = refl
one_byte secp256k1 rest = refl
one_byte ecdsa rest = refl

try_from-key_type_to_u64 : (k : KeyType) → try_from (key_type_to_u64 k) ≡ ok k
unfolding try_from key_type_to_u64
try_from-key_type_to_u64 rsa = refl
try_from-key_type_to_u64 ed25519 = refl
try_from-key_type_to_u64 secp256k1 = refl
try_from-key_type_to_u64 ecdsa = refl

type_bytes :
    (k : KeyType) → write_uvarint (key_type_to_u64 k) (0x08 ∷ []) ≡ 0x08 ∷ key_type_to_u64 k ∷ []
unfolding write_uvarint key_type_to_u64
type_bytes rsa = refl
type_bytes ed25519 = refl
type_bytes secp256k1 = refl
type_bytes ecdsa = refl

abbrev written : KeyType → Bytes → Bytes
written k body = 0x08 ∷ key_type_to_u64 k ∷ 0x12 ∷ (uvarint (length body) ++ body)

encode_protobuf-written :
    (k : KeyType) (body : Bytes)
    → encode_protobuf (record { key_type = k; key_data = body }) ≡ written k body
unfolding encode_protobuf
encode_protobuf-written k body = rw (type_bytes k, write_uvarint-uvarint) refl

behind :
    (k : KeyType) (body : Bytes)
    → drop (1 + 1 + 1 + length (uvarint (length body))) (written k body) ≡ body
behind k body =
    let u = uvarint (length body) in
    let n : 1 + 1 + 1 + length u ≡ suc (suc (suc (length u))) = omega arith in
    ap (λ (i : ℕ). drop i (written k body)) n ∙ drop-length u body

-- `decode_protobuf` reads back every key that `encode_protobuf` wrote, when its bytes lie in memory.
pub decode_protobuf-encode_protobuf :
    (key : PublicKey)
    → length key.key_data < 2 ^ 63
    → decode_protobuf (encode_protobuf key) ≡ ok key
unfolding decode_protobuf decode_from check_tag
decode_protobuf-encode_protobuf key h =
    let k = key.key_type in
    let body = key.key_data in
    let u = uvarint (length body) in
    let len = read_uvarint-uvarint (length body) body (omega arith) in
    let n : length (written k body) ≡ 1 + 1 + 1 + length u + length body =
      omega (arith, length-append u body) in
    let small : length u ≤ 10 =
      omega (arith, length-uvarint (length body), uvarint_len_le 9 (length body) (omega arith)) in
    let total : (1 + 1 + 1 + length u + length body) % 2 ^ 64 ≡ 1 + 1 + 1 + length u + length body =
      omega arith in
    let same : (1 + 1 + 1 + length u + length body == 1 + 1 + 1 + length u + length body) ≡ true =
      ground arith in
    rw (encode_protobuf-written k body) (
      rw
        (
          one_byte k (0x12 ∷ (u ++ body)),
          try_from-key_type_to_u64 k,
          len,
          sym (length-uvarint (length body)),
          n,
          total,
          same,
          behind k body,
        )
        refl)
