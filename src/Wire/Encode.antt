-- ===== src/Wire/Encode.antt =====
-- What the encoders append, as fields.
use mathlib.Core.List.{foldl}
use minip2p.Prelude.{
  ℕ, ◌+◌, ◌*◌, ◌<◌, ◌≡◌, refl, sym, ◌∙◌, ap, List, [], ◌∷◌, ◌++◌, append_assoc, append-nil, arith,
  length, length-append, inl, inr, All, map, Option, none, some, if_some,
}
use minip2p.Prelude.Bits.{IsU64}
use mathlib.Core.Path.{subst}
use minip2p.Prelude.Result.{Result, ok}
use minip2p.Varint.{Bytes}
use minip2p.Varint.Encode.{uvarint, uvarint_small, write_uvarint-uvarint}
use minip2p.Wire.{
  WireError, read_len_delimited, skip_unknown_field, encode_varint_field, encode_bytes_field,
}
use minip2p.Wire.Cursor.{
  At, read_len_delimited-At, skip_unknown_field_len, skip_unknown_field_varint,
  skip_unknown_field_fixed,
}
use minip2p.Wire.Fields.{
  Field, varint_field, len_field, i32_field, i64_field, field_bytes, message_bytes, body_of,
  wire_of, IsField, IsSound, Takes, Folds, stop, more,
}

pub encode_bytes_field_lem :
    (out : Bytes) (n : ℕ) (payload : Bytes)
    → n < 15
    → encode_bytes_field out (n * 8 + 2) payload ≡ out ++ field_bytes (len_field n payload)
unfolding encode_bytes_field
encode_bytes_field_lem out n payload h =
    rw (write_uvarint-uvarint, uvarint_small (n * 8 + 2) (omega arith)) (simp append_assoc)

pub encode_varint_field_lem :
    (out : Bytes) (n value : ℕ)
    → n < 15
    → encode_varint_field out (n * 8 + 0) value ≡ out ++ field_bytes (varint_field n value)
unfolding encode_varint_field
encode_varint_field_lem out n value h =
    rw (write_uvarint-uvarint, uvarint_small (n * 8 + 0) (omega arith)) (simp append_assoc)

-- `for addr in &self.addrs { encode_bytes_field(…) }`.
pub encode_repeated_lem :
    (n : ℕ) (items : List Bytes) (out : Bytes)
    → n < 15
    → foldl (λ out addr. encode_bytes_field out (n * 8 + 2) addr) out items
      ≡ out ++ message_bytes (map (len_field n) items)
encode_repeated_lem n [] out h = sym (append-nil out)
encode_repeated_lem n (x ∷ xs) out h =
    encode_repeated_lem n xs (encode_bytes_field out (n * 8 + 2) x) h
    ∙ rw (encode_bytes_field_lem out n x h) (append_assoc out (field_bytes (len_field n x)) _)

pub IsSound-repeated : (n : ℕ) (items : List Bytes) → n < 15 → All IsSound (map (len_field n) items)
IsSound-repeated n [] h = tt
IsSound-repeated n (x ∷ xs) h = ((omega arith, tt), IsSound-repeated n xs h)

module _ {E : Type 0} ⦃w : WireError E⦄ where
  -- The readers at the body of a field.
  pub read_len_delimited_body :
      (input : Bytes) (idx : ℕ) (payload rest : Bytes)
      → IsU64 (length payload)
      → At input idx ((uvarint (length payload) ++ payload) ++ rest)
      → read_len_delimited {E = E} input idx
        ≡ ok (payload, idx + length (uvarint (length payload) ++ payload))
  read_len_delimited_body input idx payload rest h a =
      let n = uvarint (length payload) in
      read_len_delimited-At input idx payload rest h (rw (append_assoc n payload rest) at a)
      ∙ ap (λ (k : ℕ). ok (payload, k)) (omega (arith, length-append n payload))

  -- Any field whatever can be skipped.
  pub skip_unknown_field_body :
      (input : Bytes) (idx : ℕ) (f : Field) (rest : Bytes)
      → IsField f
      → At input idx (body_of f ++ rest)
      → skip_unknown_field {E = E} input idx (wire_of f) ≡ ok (idx + length (body_of f))
  skip_unknown_field_body input idx (varint_field n v) rest h a =
      skip_unknown_field_varint input idx v rest h.1 a
  skip_unknown_field_body input idx (len_field n payload) rest h a =
      let k = uvarint (length payload) in
      skip_unknown_field_len input idx payload rest h.1 (rw (append_assoc k payload rest) at a)
      ∙ ap ok (omega (arith, length-append k payload))
  skip_unknown_field_body input idx (i32_field n payload) rest h a =
      skip_unknown_field_fixed input idx 5 payload rest (inl (refl, h.1)) a
  skip_unknown_field_body input idx (i64_field n payload) rest h a =
      skip_unknown_field_fixed input idx 1 payload rest (inr (refl, h.1)) a

-- An optional field.
abbrev pub opt_field {ℓ} : {A : Type ℓ} → (A → Field) → Option A → List Field
opt_field f none = []
opt_field f (some x) = f x ∷ []

pub encode_opt_bytes_lem :
    (n : ℕ) (o : Option Bytes) (out : Bytes)
    → n < 15
    → if_some o (λ d. encode_bytes_field out (n * 8 + 2) d) out
      ≡ out ++ message_bytes (opt_field (len_field n) o)
encode_opt_bytes_lem n none out h = sym (append-nil out)
encode_opt_bytes_lem n (some d) out h =
    encode_bytes_field_lem out n d h
    ∙ ap (λ (x : Bytes). out ++ x) (sym (append-nil (field_bytes (len_field n d))))

pub encode_opt_varint_lem :
    (n : ℕ) (o : Option ℕ) (out : Bytes)
    → n < 15
    → if_some o (λ v. encode_varint_field out (n * 8 + 0) v) out
      ≡ out ++ message_bytes (opt_field (varint_field n) o)
encode_opt_varint_lem n none out h = sym (append-nil out)
encode_opt_varint_lem n (some v) out h =
    encode_varint_field_lem out n v h
    ∙ ap (λ (x : Bytes). out ++ x) (sym (append-nil (field_bytes (varint_field n v))))

-- A statement about the value that is there.
abbrev pub OnSome {ℓ κ} : {A : Type ℓ} → (A → Type κ) → Option A → Type κ
OnSome P none = Unit
OnSome P (some x) = P x

pub IsSound-opt_len : (n : ℕ) (o : Option Bytes) → n < 15 → All IsSound (opt_field (len_field n) o)
IsSound-opt_len n none h = tt
IsSound-opt_len n (some d) h = ((omega arith, tt), tt)

pub IsSound-opt_varint :
    (n : ℕ) (o : Option ℕ) → n < 15 → OnSome IsU64 o → All IsSound (opt_field (varint_field n) o)
IsSound-opt_varint n none h u = tt
IsSound-opt_varint n (some v) h u = ((omega arith, u), tt)

module _ {ℓ κ} {E : Type 0} ⦃w : WireError E⦄ {M : Type ℓ} {A : Type κ}
    (step : Bytes → M → (field wire_type idx : ℕ) → Result E (M × ℕ)) where
  -- An optional field fills the slot that `put` names.
  pub Folds-opt :
      (f : A → Field) (put : Option A → M) (o : Option A)
      → All IsField (opt_field f o)
      → ((x : A) → o ≡ some x → IsField (f x) → Takes step (f x) (put none) (put (some x)))
      → Folds step (opt_field f o) (put none) (put o)
  Folds-opt f put none h t = stop
  Folds-opt f put (some x) h t = more (t x refl h.0) stop

module _ {ℓ} {A : Type ℓ} where
  -- Optional fields whose values are encoded by `f`.
  pub encode_opt_nested_lem :
      (f : A → Bytes) (n : ℕ) (o : Option A) (out : Bytes)
      → n < 15
      → if_some o (λ x. encode_bytes_field out (n * 8 + 2) (f x)) out
        ≡ out ++ message_bytes (opt_field (λ x. len_field n (f x)) o)
  encode_opt_nested_lem f n none out h = sym (append-nil out)
  encode_opt_nested_lem f n (some x) out h =
      encode_bytes_field_lem out n (f x) h
      ∙ ap (λ (y : Bytes). out ++ y) (sym (append-nil (field_bytes (len_field n (f x)))))

  pub encode_opt_number_lem :
      (f : A → ℕ) (n : ℕ) (o : Option A) (out : Bytes)
      → n < 15
      → if_some o (λ x. encode_varint_field out (n * 8 + 0) (f x)) out
        ≡ out ++ message_bytes (opt_field (λ x. varint_field n (f x)) o)
  encode_opt_number_lem f n none out h = sym (append-nil out)
  encode_opt_number_lem f n (some x) out h =
      encode_varint_field_lem out n (f x) h
      ∙ ap (λ (y : Bytes). out ++ y) (sym (append-nil (field_bytes (varint_field n (f x)))))

  pub IsSound-opt :
      (f : A → Field) (o : Option A) → ((x : A) → IsSound (f x)) → All IsSound (opt_field f o)
  IsSound-opt f none h = tt
  IsSound-opt f (some x) h = (h x, tt)

pub OnSome_at {ℓ κ} :
    {A : Type ℓ} (P : A → Type κ) (o : Option A) (x : A) → OnSome P o → o ≡ some x → P x
OnSome_at P none x h e = cc
OnSome_at P (some y) x h e = let e' : y ≡ x = cc in subst P e' h

module _ {ℓ κ} {E : Type 0} ⦃w : WireError E⦄ {M : Type ℓ}
    (step : Bytes → M → (field wire_type idx : ℕ) → Result E (M × ℕ)) where
  -- Fields that the `match` leaves alone leave the message alone.
  pub Folds-same :
      (P : Field → Type κ) (fs : List Field) (msg : M)
      → ((f : Field) → P f → IsField f → Takes step f msg msg)
      → All P fs
      → All IsField fs
      → Folds step fs msg msg
  Folds-same P [] msg t p h = stop
  Folds-same P (f ∷ fs) msg t p h = more (t f p.0 h.0) (Folds-same P fs msg t p.1 h.1)
