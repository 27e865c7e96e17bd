-- ===== src/Identity/Tests.antt =====
-- The theorems on concrete texts.
use minip2p.Prelude.{◌≡◌, refl, arith, [], ◌∷◌}
use minip2p.Prelude.Result.{ok}
use minip2p.Varint.{Bytes}
use minip2p.Identity.PeerId.{PeerId, validate_multihash}
use minip2p.Identity.PeerId
use minip2p.Identity.Sample.{sample_hash, sample-IsLawful, alice_id}
use minip2p.Identity.Base58.{
  encode_base58, decode_base58, leading, ones, encode_digits, push_digit, mul_add, carry_digits,
  char_at, base58_value, position_from, decode_text, decode_chars,
}
use minip2p.Identity.Base58.RoundTrip.{decode_base58-encode_base58}
use minip2p.Identity.Text.{from_str, to_string, from_cid, to_cid_base32}
use minip2p.Varint.{read_uvarint}
use minip2p.Identity.PublicKey.{
  PublicKey, ed25519, encode_protobuf, decode_protobuf, decode_from, check_tag, try_from,
}
use minip2p.Identity.PublicKey.Sound.{decode_protobuf_sound}
use minip2p.Identity.Text.Laws.{HasBytes, from_str-to_string, from_cid-to_cid_base32}

-- Two leading zeros, and the bytes of `Hi`.
encode_hi : encode_base58 (0 ∷ 0 ∷ 0x48 ∷ 0x69 ∷ []) ≡ 0x31 ∷ 0x31 ∷ 0x36 ∷ 0x57 ∷ 0x63 ∷ []
unfolding encode_base58 leading ones encode_digits push_digit mul_add carry_digits char_at
encode_hi = refl

decode_base58-encode_base58_example :
    decode_base58 (encode_base58 (0 ∷ 0 ∷ 0x48 ∷ 0x69 ∷ [])) ≡ ok (0 ∷ 0 ∷ 0x48 ∷ 0x69 ∷ [])
decode_base58-encode_base58_example =
    decode_base58-encode_base58 0 (0 ∷ 0x48 ∷ 0x69 ∷ [])
      (omega arith, (omega arith, (omega arith, (omega arith, tt))))

-- A character of another alphabet whose code point ends like that of a digit: `ı` is read as `1`.
dotless_i : decode_base58 (0x131 ∷ []) ≡ ok (0 ∷ [])
unfolding decode_base58 decode_text decode_chars leading ones base58_value position_from push_digit
    mul_add carry_digits
dotless_i = refl

to_bytes-alice : PeerId.to_bytes alice_id ≡ 0 ∷ []
unfolding PeerId.to_bytes
to_bytes-alice = refl

abbrev alice_bytes : HasBytes alice_id
alice_bytes = record { first = 0; rest = []; same = to_bytes-alice; bytes = (omega arith, tt) }

from_str-to_string_example : from_str (to_string alice_id) ≡ ok alice_id
unfolding validate_multihash
from_str-to_string_example = from_str-to_string sample-IsLawful alice_id refl alice_bytes refl

from_cid-to_cid_base32_example : from_cid (to_cid_base32 alice_id) ≡ ok alice_id
unfolding validate_multihash PeerId.to_bytes
from_cid-to_cid_base32_example =
    from_cid-to_cid_base32 sample-IsLawful alice_id refl (omega arith, tt)

-- A key of two bytes.
abbrev short_key : PublicKey
short_key = record { key_type = ed25519; key_data = 7 ∷ 8 ∷ [] }

abbrev short_key_bytes : Bytes
short_key_bytes = 0x08 ∷ 1 ∷ 0x12 ∷ 2 ∷ 7 ∷ 8 ∷ []

decode_short : decode_protobuf short_key_bytes ≡ ok short_key
unfolding decode_protobuf decode_from check_tag try_from read_uvarint
decode_short = refl

decode_protobuf_sound_example : short_key_bytes ≡ encode_protobuf short_key
decode_protobuf_sound_example =
    decode_protobuf_sound short_key_bytes short_key
      (omega arith, (omega arith, (omega arith, (omega arith, (omega arith, (omega arith, tt))))))
      (omega arith) decode_short
