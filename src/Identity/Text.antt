-- ===== src/Identity/Text.antt =====
-- crates/identity/src/peer_id.rs: the text forms of a peer id. A char is the number of its code point.
pub mod Laws
use Prim.Native.Nat.{bit_and, bit_or}
use minip2p.Prelude.{
  ℕ, zero, suc, ◌+◌, ◌-◌, ◌*◌, ◌/◌, ◌%◌, ◌^◌, Bool, true, false, ◌||◌, ◌&&◌, List, [], ◌∷◌, ◌++◌,
  Option, none, some, ◌==◌, leb, ltb, if◌then◌else◌, drop,
}
use minip2p.Prelude.Result.{Result, ok, err, ◌>>=◌, ok_or, map_err}
use minip2p.Varint.{Bytes, read_uvarint, write_uvarint}
use minip2p.Identity.PeerId
use minip2p.Identity.PeerId.{
  Multihash, PeerId, PeerIdError, empty_input, unsupported_multibase, unsupported_cid_version,
  unsupported_multicodec, invalid_base32_character, invalid_cid_version_varint,
  invalid_cid_multicodec_varint,
}
use minip2p.Identity.Base32.{encode_base32_nopad_lower, decode_base32_nopad}
use minip2p.Identity.Base58.{Text, encode_base58, decode_base58}

abbrev pub libp2p_key_multicodec : ℕ
libp2p_key_multicodec = 0x72

-- The `match` on the multibase prefix.
unfoldable pub decode_multibase : (prefix : ℕ) → Text → Result PeerIdError Bytes
decode_multibase prefix payload =
    if prefix == 0x62 || prefix == 0x42
    then decode_base32_nopad payload
    else if prefix == 0x7a
    then decode_base58 payload
    else err (unsupported_multibase prefix)

-- The multihash behind the version and the codec of a CID.
unfoldable pub cid_multihash : Bytes → Result PeerIdError Bytes
cid_multihash cid_bytes = do
  (version, version_len) ← map_err invalid_cid_version_varint (read_uvarint cid_bytes)
  (if version == 1
      then (do
        (codec, codec_len) ←
            map_err invalid_cid_multicodec_varint (read_uvarint (drop version_len cid_bytes))
        (if codec == libp2p_key_multicodec
            then ok (drop (version_len + codec_len) cid_bytes)
            else err (unsupported_multicodec codec)))
      else err (unsupported_cid_version version))

-- `s.starts_with('1') || s.starts_with("Qm")`
abbrev pub is_legacy : Text → Bool
is_legacy [] = false
is_legacy (a ∷ []) = a == 0x31
is_legacy (a ∷ b ∷ cs) = a == 0x31 || a == 0x51 && b == 0x6d

module _ {H : Type 0} ⦃m : Multihash H⦄ where
  unfoldable pub to_base58 : PeerId H → Text
  to_base58 p = encode_base58 (PeerId.to_bytes p)

  -- The bytes of the CIDv1.
  unfoldable pub cid_bytes : PeerId H → Bytes
  cid_bytes p = write_uvarint libp2p_key_multicodec (write_uvarint 1 []) ++ PeerId.to_bytes p

  unfoldable pub to_cid_base32 : PeerId H → Text
  to_cid_base32 p = 0x62 ∷ encode_base32_nopad_lower (cid_bytes p)

  unfoldable pub from_base58 : Text → Result PeerIdError (PeerId H)
  from_base58 input = do multihash ← decode_base58 input; PeerId.from_bytes multihash

  unfoldable pub from_cid : Text → Result PeerIdError (PeerId H)
  from_cid [] = err empty_input
  from_cid (prefix ∷ payload) = do
    cid_bytes ← decode_multibase prefix payload
    multihash ← cid_multihash cid_bytes
    PeerId.from_bytes multihash

  -- `Display`
  unfoldable pub to_string : PeerId H → Text
  unfolding to_base58
  to_string p = to_base58 p

  -- `FromStr`
  unfoldable pub from_str : Text → Result PeerIdError (PeerId H)
  from_str s = if is_legacy s then from_base58 s else from_cid s
