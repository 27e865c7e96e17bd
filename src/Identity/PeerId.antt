-- ===== src/Identity/PeerId.antt =====
-- crates/identity/src/peer_id.rs: `PeerId` in its binary form. Multihashes are the third-party
-- crate multihash: a type with operations, whose laws are named hypotheses.
use Prim.Native.String.{String}
use minip2p.Prelude.{
  ℕ, ◌≡◌, refl, true, Bool, not, ◌&&◌, ◌==◌, leb, if◌then◌else◌, Option, none, some, length,
}
use minip2p.Prelude.Bits.{IsU64}
use minip2p.Prelude.Result.{Result, ok, err, ◌>>=◌, map_err}
use minip2p.Varint.{Bytes, VarintError}

abbrev pub sha256_multihash_code : ℕ
sha256_multihash_code = 0x12

abbrev pub identity_multihash_code : ℕ
identity_multihash_code = 0

abbrev pub max_inline_key_length : ℕ
max_inline_key_length = 42

-- `Multihash<64>`: `from_bytes` fails with a text, `wrap` on a digest that is too long.
pub record Multihash (H : Type 0) : Type 0 where
  pub code : H → ℕ
  pub digest : H → Bytes
  pub to_bytes : H → Bytes
  pub from_bytes : Bytes → Result String H
  pub wrap : ℕ → Bytes → Result String H
  pub same : H → H → Bool

-- What the code relies on: the binary form is read back, it lies in memory, equality is equality,
-- and a wrapped digest is the digest.
pub record IsLawful {H : Type 0} (m : Multihash H) : Type 0 where
  pub from_bytes-to_bytes : (h : H) → m.from_bytes (m.to_bytes h) ≡ ok h
  pub to_bytes_len : (h : H) → IsU64 (length (m.to_bytes h))
  pub same_refl : (h : H) → m.same h h ≡ true
  pub same→eq : (a b : H) → m.same a b ≡ true → a ≡ b

pub data PeerIdError : Type 0 where
  empty_input : PeerIdError
  unsupported_multibase : (prefix : ℕ) → PeerIdError
  unsupported_cid_version : (version : ℕ) → PeerIdError
  unsupported_multicodec : (codec : ℕ) → PeerIdError
  invalid_sha256_digest_length : (actual : ℕ) → PeerIdError
  invalid_base58_character : (character index : ℕ) → PeerIdError
  invalid_base32_character : (character index : ℕ) → PeerIdError
  invalid_cid_version_varint : VarintError → PeerIdError
  invalid_cid_multicodec_varint : VarintError → PeerIdError
  invalid_multihash : String → PeerIdError

pub record PeerId (H : Type 0) : Type 0 where
  pub multihash : H

module _ {H : Type 0} ⦃m : Multihash H⦄ where
  unfoldable pub validate_multihash : H → Result PeerIdError (Unit {0})
  validate_multihash h =
      let digest_len = length (m.digest h) in
      if m.code h == sha256_multihash_code && not (digest_len == 32)
      then err (invalid_sha256_digest_length digest_len)
      else ok tt

  unfoldable pub from_multihash : H → Result PeerIdError (PeerId H)
  unfolding validate_multihash
  from_multihash h = do _ ← validate_multihash h; ok (record { multihash = h })

  unfoldable pub from_bytes : Bytes → Result PeerIdError (PeerId H)
  unfolding from_multihash
  from_bytes bytes = do
    parsed ← map_err invalid_multihash (m.from_bytes bytes)
    from_multihash parsed

  -- `none`: the `expect` of the source panics.
  unfoldable pub build_multihash : ℕ → Bytes → Option H
  build_multihash c digest = elim (m.wrap c digest) [ ok h ↦ some h | err _ ↦ none ]

  abbrev pub to_peer_id : Option H → Option (PeerId H)
  to_peer_id none = none
  to_peer_id (some h) = some (record { multihash = h })

  -- `sha256` is `Sha256::digest` of the third-party crate sha2.
  unfoldable pub from_public_key_protobuf : (sha256 : Bytes → Bytes) → Bytes → Option (PeerId H)
  unfolding build_multihash
  from_public_key_protobuf sha256 encoded_public_key = to_peer_id (
      if leb (length encoded_public_key) max_inline_key_length
      then build_multihash identity_multihash_code encoded_public_key
      else build_multihash sha256_multihash_code (sha256 encoded_public_key))

  unfoldable pub to_bytes : PeerId H → Bytes
  to_bytes p = m.to_bytes p.multihash

  -- `==` on peer ids, derived.
  unfoldable pub same : PeerId H → PeerId H → Bool
  same a b = m.same a.multihash b.multihash

  -- What every constructor of a peer id has checked.
  abbrev pub IsPeerId : PeerId H → Type 0
  IsPeerId p = validate_multihash p.multihash ≡ ok tt

  pub peer_id-from_bytes-to_bytes :
      (l : IsLawful m) (p : PeerId H) → IsPeerId p → from_bytes (to_bytes p) ≡ ok p
  unfolding from_bytes to_bytes
  peer_id-from_bytes-to_bytes l p v = rw (l.from_bytes-to_bytes p.multihash, v) refl
