-- ===== src/Identity/PublicKey/Sound.antt =====
-- `decode_protobuf` accepts what `encode_protobuf` writes, and nothing else.
use minip2p.Prelude.{
  ℕ, suc, ◌+◌, ◌%◌, ◌^◌, ◌<◌, ◌≡◌, refl, sym, ap, ◌∙◌, arith, [], ◌∷◌, ◌++◌, length, length-append,
  drop, inl, inr, All, append_assoc,
}
use mathlib.Core.Path.{subst}
use minip2p.Prelude.Bits.{IsByte}
use minip2p.Prelude.Result.{ok, Result-cases}
use minip2p.Varint.{Bytes, read_uvarint}
use minip2p.Varint.Encode.{uvarint, length-uvarint, uvarint_len_le, write_uvarint-uvarint}
use minip2p.Varint.Canonical.{read_uvarint_canonical}
use minip2p.Identity.PublicKey.{
  KeyType, PublicKey, key_type_to_u64, try_from, encode_protobuf, head_of, check_tag, decode_from,
  decode_protobuf,
}

try_from_ok : (value : ℕ) (k : KeyType) → try_from value ≡ ok k → value ≡ key_type_to_u64 k
unfolding try_from key_type_to_u64
try_from_ok value k e = ground arith

-- What the answers of the two reads say of an accepted key.
record Accepted (input rest : Bytes) (key : PublicKey) (raw used len more : ℕ) : Type 0 where
  type_eq : try_from raw ≡ ok key.key_type
  tag : check_tag 0x12 (head_of (drop (1 + used) input)) ≡ ok tt
  data_eq : drop (1 + used + 1 + more) input ≡ key.key_data
  total : (1 + used + 1 + more + len) % 2 ^ 64 ≡ length input

accepted :
    (b : ℕ) (rest : Bytes) (key : PublicKey) (raw used len more : ℕ)
    → decode_from (b ∷ rest) ≡ ok key
    → read_uvarint rest ≡ ok (raw, used)
    → read_uvarint (drop (1 + used + 1) (b ∷ rest)) ≡ ok (len, more)
    → Accepted (b ∷ rest) rest key raw used len more × (b ≡ 0x08)
unfolding decode_from check_tag
accepted b rest key raw used len more e r s = ground arith

-- An accepted key was read from both numbers.
reads :
    (b : ℕ) (rest : Bytes) (key : PublicKey)
    → decode_from (b ∷ rest) ≡ ok key
    → (raw : ℕ) × (used : ℕ) × (len : ℕ) × (more : ℕ) × (read_uvarint rest ≡ ok (raw, used))
      × (read_uvarint (drop (1 + used + 1) (b ∷ rest)) ≡ ok (len, more))
unfolding decode_from check_tag
reads b rest key e = elim (Result-cases (read_uvarint rest)) [
  | inr (x, r) ↦ ground (arith, r)
  | inl ((raw, used), r) ↦ elim (Result-cases (read_uvarint (drop (1 + used + 1) (b ∷ rest)))) [
    | inr (x, s) ↦ ground (arith, r, s)
    | inl ((len, more), s) ↦ (raw, used, len, more, r, s)
  ]
]

drop_more :
    (n m b : ℕ) (front rest : Bytes)
    → length front ≡ n
    → drop (1 + n + m) (b ∷ (front ++ rest)) ≡ drop m rest
drop_more n m b [] rest e =
    let i : 1 + n + m ≡ suc m = omega arith in ap (λ (j : ℕ). drop j (b ∷ rest)) i
drop_more n m b (x ∷ front) rest e =
    let i : 1 + n + m ≡ suc (1 + length front + m) = omega arith in
    ap (λ (j : ℕ). drop j (b ∷ x ∷ (front ++ rest))) i
    ∙ drop_more (length front) m x front rest refl

behind_type :
    (b used raw m : ℕ) (rest rest1 : Bytes)
    → rest ≡ uvarint raw ++ rest1
    → length (uvarint raw) ≡ used
    → drop (1 + used + m) (b ∷ rest) ≡ drop m rest1
behind_type b used raw m rest rest1 e n =
    ap (λ t. drop (1 + used + m) (b ∷ t)) e ∙ drop_more used m b (uvarint raw) rest1 n

tag_head :
    (bs : Bytes) (x : ℕ) → check_tag x (head_of bs) ≡ ok tt → (rest : Bytes) × (bs ≡ x ∷ rest)
unfolding check_tag
tag_head [] x e = cc
tag_head (b ∷ bs) x e = let s : b ≡ x = ground arith in (bs, ap (λ y. y ∷ bs) s)

All-tail : (xs ys : Bytes) → All IsByte (xs ++ ys) → All IsByte ys
All-tail [] ys h = h
All-tail (x ∷ xs) ys h = All-tail xs ys h.1

encode_lem :
    (key : PublicKey)
    → encode_protobuf key
      ≡ 0x08
        ∷ (uvarint (key_type_to_u64 key.key_type)
            ++ (0x12 ∷ (uvarint (length key.key_data) ++ key.key_data)))
unfolding encode_protobuf
encode_lem key = rw (write_uvarint-uvarint, write_uvarint-uvarint) (simp append_assoc)

assemble :
    (b raw len : ℕ) (rest rest1 rest2 rest3 : Bytes) (key : PublicKey)
    → b ≡ 0x08
    → rest ≡ uvarint raw ++ rest1
    → rest1 ≡ 0x12 ∷ rest2
    → rest2 ≡ uvarint len ++ rest3
    → rest3 ≡ key.key_data
    → raw ≡ key_type_to_u64 key.key_type
    → len ≡ length rest3
    → b ∷ rest ≡ encode_protobuf key
assemble b raw len rest rest1 rest2 rest3 key eb e1 e2 e3 ed et el =
    rw (encode_lem key, eb, e1, e2, e3, el, ed, et) refl

-- What `decode_protobuf` accepts, on a list of bytes that lies in memory, is exactly what `encode_protobuf`
-- writes for the key that is returned: a key has one protobuf form.
pub decode_protobuf_sound :
    (input : Bytes) (key : PublicKey)
    → All IsByte input
    → length input < 2 ^ 63
    → decode_protobuf input ≡ ok key
    → input ≡ encode_protobuf key
unfolding decode_protobuf
decode_protobuf_sound [] key h l e = cc
decode_protobuf_sound (b ∷ rest) key h l e =
    let (raw, used, len, more, r, s) = reads b rest key e in
    let (a, b8) = accepted b rest key raw used len more e r s in
    let (hv, n, rest1, w1) = read_uvarint_canonical rest raw used h.1 r in
    let e1 : rest ≡ uvarint raw ++ rest1 =
      w1 ∙ ap (λ f. f ++ rest1) (write_uvarint-uvarint raw []) in
    let n1 : length (uvarint raw) ≡ used = omega (arith, length-uvarint raw) in
    let i1 : 1 + used ≡ 1 + used + 0 = omega arith in
    let at1 : drop (1 + used) (b ∷ rest) ≡ rest1 =
      ap (λ (i : ℕ). drop i (b ∷ rest)) i1 ∙ behind_type b used raw 0 rest rest1 e1 n1 in
    let (rest2, e2) =
      tag_head rest1 0x12 (ap (λ t. check_tag 0x12 (head_of t)) (sym at1) ∙ a.tag) in
    let at2 : drop (1 + used + 1) (b ∷ rest) ≡ rest2 =
      behind_type b used raw 1 rest rest1 e1 n1 ∙ ap (drop 1) e2 in
    let bytes1 = All-tail (uvarint raw) rest1 (subst (All IsByte) e1 h.1) in
    let bytes2 = (subst (All IsByte) e2 bytes1).1 in
    let (hv2, n2, rest3, w2) =
      read_uvarint_canonical rest2 len more bytes2 (ap read_uvarint (sym at2) ∙ s) in
    let e3 : rest2 ≡ uvarint len ++ rest3 =
      w2 ∙ ap (λ f. f ++ rest3) (write_uvarint-uvarint len []) in
    let n3 : length (uvarint len) ≡ more = omega (arith, length-uvarint len) in
    let i2 : 1 + used + 1 + more ≡ 1 + used + (1 + more + 0) = omega arith in
    let at3 : drop (1 + used + 1 + more) (b ∷ rest) ≡ rest3 =
      ap (λ (i : ℕ). drop i (b ∷ rest)) i2
      ∙ behind_type b used raw (1 + more + 0) rest rest1 e1 n1
      ∙ ap (drop (1 + more + 0)) (e2 ∙ ap (◌∷◌ 0x12) e3)
      ∙ drop_more more 0 0x12 (uvarint len) rest3 n3 in
    let size : length (b ∷ rest) ≡ 1 + used + 1 + more + length rest3 = omega (
      arith,
      ap length e1,
      length-append (uvarint raw) rest1,
      ap length e2,
      ap length e3,
      length-append (uvarint len) rest3,
    ) in
    assemble b raw len rest rest1 rest2 rest3 key b8 e1 e2 e3 (sym at3 ∙ a.data_eq)
      (try_from_ok raw key.key_type a.type_eq)
      (omega (
        arith,
        a.total,
        size,
        uvarint_len_le 9 raw (omega arith),
        uvarint_len_le 9 len (omega arith),
      ))
