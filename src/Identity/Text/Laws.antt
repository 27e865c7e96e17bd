-- ===== src/Identity/Text/Laws.antt =====
-- Reading the text forms of a peer id back.
use minip2p.Prelude.{ℕ, ◌≡◌, refl, sym, ap, ◌∙◌, arith, true, [], ◌∷◌, All}
use minip2p.Prelude.Bits.{IsByte}
use minip2p.Prelude.Result.{ok}
use minip2p.Varint.{Bytes, read_uvarint, write_uvarint}
use minip2p.Identity.PeerId
use minip2p.Identity.PeerId.{Multihash, IsLawful, PeerId, IsPeerId, peer_id-from_bytes-to_bytes}
use minip2p.Identity.Base58.{Text, one, ones, leading, encode_base58}
use minip2p.Identity.Base32.RoundTrip.{decode_base32-encode_base32}
use minip2p.Identity.Base58.RoundTrip.{decode_base58-encode_base58}
use minip2p.Identity.Text.{
  to_base58, from_base58, from_cid, cid_bytes, to_cid_base32, decode_multibase, cid_multihash,
  to_string, is_legacy, from_str,
}

-- The binary form is a list of bytes, one at least.
pub record HasBytes {H : Type 0} ⦃m : Multihash H⦄ (p : PeerId H) : Type 0 where
  pub first : ℕ
  pub rest : Bytes
  pub same : PeerId.to_bytes p ≡ first ∷ rest
  pub bytes : All IsByte (first ∷ rest)

encode_zero : (rest : Bytes) → (cs : Text) × (encode_base58 (0 ∷ rest) ≡ one ∷ cs)
unfolding encode_base58 leading ones
encode_zero rest = (_, refl)

legacy_one : (cs : Text) → is_legacy (one ∷ cs) ≡ true
legacy_one [] = refl
legacy_one (c ∷ cs) = refl

-- The CIDv1 of a multihash.
abbrev pub cid_of : Bytes → Bytes
cid_of multihash = 1 ∷ 0x72 ∷ multihash

cid_multihash-cid_of : (multihash : Bytes) → cid_multihash (cid_of multihash) ≡ ok multihash
unfolding cid_multihash read_uvarint
cid_multihash-cid_of multihash = refl

module _ {H : Type 0} ⦃m : Multihash H⦄ where
  -- `from_base58` reads back the text of every peer id, when multihashes are read back and are lists of
  -- bytes, one at least.
  pub from_base58-to_base58 :
      (l : IsLawful m) (p : PeerId H) → IsPeerId p → HasBytes p → from_base58 (to_base58 p) ≡ ok p
  unfolding from_base58 to_base58
  from_base58-to_base58 l p v h =
      let read = decode_base58-encode_base58 h.first h.rest h.bytes in
      rw (h.same, read) (ap PeerId.from_bytes (sym h.same) ∙ peer_id-from_bytes-to_bytes l p v)

  -- A peer id whose multihash begins with the code of the identity hash is read back from its printed
  -- form.
  pub from_str-to_string :
      (l : IsLawful m) (p : PeerId H)
      → IsPeerId p
      → (h : HasBytes p) → h.first ≡ 0
      → from_str (to_string p) ≡ ok p
  unfolding from_str to_string to_base58
  from_str-to_string l p v h z =
      let text = ap encode_base58 (h.same ∙ ap (λ b. b ∷ h.rest) z) in
      let (cs, e) = encode_zero h.rest in
      rw (text ∙ e, legacy_one cs) (ap from_base58 (sym (text ∙ e)) ∙ from_base58-to_base58 l p v h)

  -- `from_cid` reads the base58btc form (prefix z) of the CID of every peer id.
  pub from_cid-base58 :
      (l : IsLawful m) (p : PeerId H)
      → IsPeerId p
      → All IsByte (PeerId.to_bytes p)
      → from_cid (0x7a ∷ encode_base58 (cid_of (PeerId.to_bytes p))) ≡ ok p
  unfolding from_cid decode_multibase
  from_cid-base58 l p v b =
      let read =
        decode_base58-encode_base58 1 (0x72 ∷ PeerId.to_bytes p) (omega arith, (omega arith, b)) in
      rw (read, cid_multihash-cid_of (PeerId.to_bytes p)) (peer_id-from_bytes-to_bytes l p v)

  cid_bytes_lem : (p : PeerId H) → cid_bytes p ≡ cid_of (PeerId.to_bytes p)
  unfolding cid_bytes write_uvarint
  cid_bytes_lem p = refl

  -- `from_cid` reads back the base32 CID of every peer id, when multihashes are read back and are lists of
  -- bytes.
  pub from_cid-to_cid_base32 :
      (l : IsLawful m) (p : PeerId H)
      → IsPeerId p
      → All IsByte (PeerId.to_bytes p)
      → from_cid (to_cid_base32 p) ≡ ok p
  unfolding from_cid to_cid_base32 decode_multibase
  from_cid-to_cid_base32 l p v b =
      let read =
        decode_base32-encode_base32 (cid_of (PeerId.to_bytes p)) (omega arith, (omega arith, b)) in
      rw (cid_bytes_lem p, read, cid_multihash-cid_of (PeerId.to_bytes p))
        (peer_id-from_bytes-to_bytes l p v)
