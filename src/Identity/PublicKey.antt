-- ===== src/Identity/PublicKey.antt =====
-- crates/identity/src/key.rs: `PublicKey`, its protobuf form and the checks of `verify`. Ed25519 itself is a
-- third-party crate.
pub mod RoundTrip
pub mod Sound
use minip2p.Prelude.{
  ℕ, ◌+◌, ◌%◌, ◌^◌, Bool, true, false, List, [], ◌∷◌, ◌++◌, Option, none, some, ◌==◌, if◌then◌else◌,
  length, drop,
}
use minip2p.Prelude.Result.{Result, ok, err, ◌>>=◌, map_err}
use minip2p.Identity.PeerId.{Multihash, PeerId, from_public_key_protobuf}
use minip2p.Varint.{Bytes, VarintError, read_uvarint, write_uvarint}

pub data KeyType : Type 0 where
  rsa ed25519 secp256k1 ecdsa : KeyType

-- `self.key_type as u64`
unfoldable pub key_type_to_u64 : KeyType → ℕ
key_type_to_u64 rsa = 0
key_type_to_u64 ed25519 = 1
key_type_to_u64 secp256k1 = 2
key_type_to_u64 ecdsa = 3

-- `LengthOverflow` is for a `usize` of fewer than 64 bits.
pub data PublicKeyError : Type 0 where
  empty_input : PublicKeyError
  invalid_field_tag : (expected : ℕ) (found : Option ℕ) → PublicKeyError
  varint : VarintError → PublicKeyError
  unknown_key_type : (value : ℕ) → PublicKeyError
  length_overflow : PublicKeyError
  invalid_length : (expected_total actual_total : ℕ) → PublicKeyError

unfoldable pub try_from : ℕ → Result PublicKeyError KeyType
try_from value =
    if value == 0
    then ok rsa
    else if value == 1
    then ok ed25519
    else if value == 2
    then ok secp256k1
    else if value == 3
    then ok ecdsa
    else err (unknown_key_type value)

pub record PublicKey : Type 0 where
  pub key_type : KeyType
  pub key_data : Bytes

unfoldable pub encode_protobuf : PublicKey → Bytes
encode_protobuf key =
    let out = write_uvarint (key_type_to_u64 key.key_type) (0x08 ∷ []) in
    write_uvarint (length key.key_data) (out ++ (0x12 ∷ [])) ++ key.key_data

-- `input.get(idx).copied()`
abbrev pub head_of : Bytes → Option ℕ
head_of [] = none
head_of (b ∷ bs) = some b

-- `if input.get(idx).copied() != Some(expected) { … }`
unfoldable pub check_tag : (expected : ℕ) → Option ℕ → Result PublicKeyError (Unit {0})
check_tag expected none = err (invalid_field_tag expected none)
check_tag expected (some b) =
    if b == expected then ok tt else err (invalid_field_tag expected (some b))

-- The sum of position and length wraps as in a release build; a debug build panics where it does not fit.
unfoldable pub decode_from : Bytes → Result PublicKeyError PublicKey
decode_from input = do
  first ← check_tag 0x08 (head_of input)
  (key_type_raw, used) ← map_err varint (read_uvarint (drop 1 input))
  key_type ← try_from key_type_raw
  second ← check_tag 0x12 (head_of (drop (1 + used) input))
  (data_len, more) ← map_err varint (read_uvarint (drop (1 + used + 1) input))
  let idx = 1 + used + 1 + more
  let total = (idx + data_len) % 2 ^ 64
  (if total == length input
      then ok (record { key_type = key_type; key_data = drop idx input })
      else err (invalid_length total (length input)))

unfoldable pub decode_protobuf : Bytes → Result PublicKeyError PublicKey
decode_protobuf [] = err empty_input
decode_protobuf (b ∷ bs) = decode_from (b ∷ bs)

pub data VerifyError : Type 0 where
  unsupported_key_type : KeyType → VerifyError
  invalid_ed25519_public_key_length : (actual : ℕ) → VerifyError
  invalid_ed25519_public_key : VerifyError
  invalid_signature : VerifyError

-- The third-party crate: `VerifyingKey::from_bytes` and `verify_strict`, by the key, the message and the
-- signature.
pub record Ed25519 (V : Type 0) : Type 0 where
  pub from_bytes : Bytes → Option V
  pub verify_strict : V → (message signature : Bytes) → Bool

module _ (V : Type 0) ⦃c : Ed25519 V⦄ where
  abbrev with_key : Option V → (message signature : Bytes) → Result VerifyError (Unit {0})
  with_key none message signature = err invalid_ed25519_public_key
  with_key (some key) message signature =
      if c.verify_strict key message signature then ok tt else err invalid_signature

  abbrev by_type : KeyType → Bytes → (message signature : Bytes) → Result VerifyError (Unit {0})
  by_type ed25519 bytes message signature =
      if length bytes == 32
      then with_key (c.from_bytes bytes) message signature
      else err (invalid_ed25519_public_key_length (length bytes))
  by_type other bytes message signature = err (unsupported_key_type other)

  unfoldable pub verify : PublicKey → (message signature : Bytes) → Result VerifyError (Unit {0})
  verify key message signature = by_type key.key_type key.key_data message signature

-- `PeerId::from_public_key`; `sha256` is the third-party hash, and `none` the panic of a hash that does not
-- fit.
unfoldable pub from_public_key :
    {H : Type 0} ⦃m : Multihash H⦄ (sha256 : Bytes → Bytes) → PublicKey → Option (PeerId H)
from_public_key sha256 public_key = from_public_key_protobuf sha256 (encode_protobuf public_key)
