-- ===== src/Wire/Fields.antt =====
-- A message as a list of fields, and how `decode_fields` reads it.
use minip2p.Prelude.{
  ℕ, zero, suc, ◌+◌, ◌*◌, ◌/◌, ◌%◌, ◌^◌, ◌≤◌, ◌<◌, ◌≡◌, refl, ◌∙◌, List, [], ◌∷◌, ◌++◌,
  append_assoc, arith, length, length-append, All, some,
}
use minip2p.Prelude.Bits.{IsU64}
use minip2p.Prelude.Result.{Result, ok}
use minip2p.Varint.{Bytes}
use minip2p.Varint.Encode.{uvarint, length-uvarint, uvarint_len_pos}
use minip2p.Wire.{WireError, run_fields, decode_fields}
use minip2p.Wire.Cursor.{At, At-start, At-advance, read_tag-At, read_tag_end}
use minip2p.Wire.Loop.{run_fields_end, run_fields_next}

pub data Field : Type 0 where
  varint_field : (number value : ℕ) → Field
  len_field : (number : ℕ) → Bytes → Field
  i32_field : (number : ℕ) → Bytes → Field
  i64_field : (number : ℕ) → Bytes → Field

abbrev pub number_of : Field → ℕ
number_of (varint_field n v) = n
number_of (len_field n b) = n
number_of (i32_field n b) = n
number_of (i64_field n b) = n

abbrev pub wire_of : Field → ℕ
wire_of (varint_field n v) = 0
wire_of (len_field n b) = 2
wire_of (i32_field n b) = 5
wire_of (i64_field n b) = 1

-- The bytes behind the tag.
abbrev pub body_of : Field → Bytes
body_of (varint_field n v) = uvarint v
body_of (len_field n b) = uvarint (length b) ++ b
body_of (i32_field n b) = b
body_of (i64_field n b) = b

-- The values that the wire can carry.
abbrev pub IsField : Field → Type 0
IsField (varint_field n v) = (n * 8 + 7 < 2 ^ 64) × IsU64 v
IsField (len_field n b) = (n * 8 + 7 < 2 ^ 64) × IsU64 (length b)
IsField (i32_field n b) = (n * 8 + 7 < 2 ^ 64) × (length b ≡ 4)
IsField (i64_field n b) = (n * 8 + 7 < 2 ^ 64) × (length b ≡ 8)

abbrev pub field_bytes : Field → Bytes
field_bytes f = uvarint (number_of f * 8 + wire_of f) ++ body_of f

abbrev pub message_bytes : List Field → Bytes
message_bytes [] = []
message_bytes (f ∷ fs) = field_bytes f ++ message_bytes fs

pub message_bytes-append :
    (fs gs : List Field) → message_bytes (fs ++ gs) ≡ message_bytes fs ++ message_bytes gs
message_bytes-append [] gs = refl
message_bytes-append (f ∷ fs) gs = simp (message_bytes-append fs gs, append_assoc)

pub wire_of_lt : (f : Field) → (wire_of f < 8)
wire_of_lt (varint_field n v) = omega arith
wire_of_lt (len_field n v) = omega arith
wire_of_lt (i32_field n v) = omega arith
wire_of_lt (i64_field n v) = omega arith

pub IsField-tag : (f : Field) → IsField f → IsU64 (number_of f * 8 + wire_of f)
IsField-tag (varint_field n v) h = omega arith
IsField-tag (len_field n v) h = omega arith
IsField-tag (i32_field n v) h = omega arith
IsField-tag (i64_field n v) h = omega arith

module _ {ℓ} {E : Type 0} ⦃w : WireError E⦄ {M : Type ℓ}
    (step : Bytes → M → (field wire_type idx : ℕ) → Result E (M × ℕ)) where
  -- The `match` takes `msg` to `msg'` at the field, wherever the field stands.
  abbrev pub Takes : Field → M → M → Type ℓ
  Takes f msg msg' =
      (input : Bytes) (idx : ℕ) (rest : Bytes)
      → At input idx (body_of f ++ rest)
      → step input msg (number_of f) (wire_of f) idx ≡ ok (msg', idx + length (body_of f))

  pub data Folds : List Field → M → M → Type ℓ where
    stop : {msg : M} → Folds [] msg msg
    more :
        {f : Field} {fs : List Field} {msg msg' msg'' : M}
        → Takes f msg msg'
        → Folds fs msg' msg''
        → Folds (f ∷ fs) msg msg''

  pub Folds-append :
      {fs gs : List Field} {msg msg' msg'' : M}
      → Folds fs msg msg'
      → Folds gs msg' msg''
      → Folds (fs ++ gs) msg msg''
  Folds-append stop t = t
  Folds-append (more a r) t = more a (Folds-append r t)

  run_fields-Folds :
      (fuel : ℕ) (input : Bytes) (idx : ℕ) {fs : List Field} {msg msg' : M}
      → All IsField fs
      → Folds fs msg msg'
      → At input idx (message_bytes fs)
      → length (message_bytes fs) < fuel
      → run_fields step fuel input idx msg ≡ some (ok msg')
  run_fields-Folds zero input idx h t a n = absurd (omega arith)
  run_fields-Folds (suc fuel) input idx {msg = msg} h stop a n =
      run_fields_end step fuel input idx idx msg (read_tag_end input idx a)
  run_fields-Folds (suc fuel) input idx h (more {f} {fs} {msg} {msg'} t r) a n =
      let tag = number_of f * 8 + wire_of f in
      let body = body_of f ++ message_bytes fs in
      let a0 = rw (append_assoc (uvarint tag) (body_of f) (message_bytes fs)) at a in
      let a1 = At-advance input idx (uvarint tag) body a0 in
      let a2 = At-advance input (idx + length (uvarint tag)) (body_of f) (message_bytes fs) a1 in
      let number : tag / 8 ≡ number_of f = omega (arith, wire_of_lt f) in
      let wire : tag % 8 ≡ wire_of f = omega (arith, wire_of_lt f) in
      let read =
        rw (number, wire) at (read_tag-At {E = E} input idx tag body (IsField-tag f h.0) a0) in
      run_fields_next step fuel input idx (number_of f) (wire_of f) (idx + length (uvarint tag)) msg
        msg' _ read (t input _ (message_bytes fs) a1)
      ∙ run_fields-Folds fuel input _ h.1 r a2 (
          omega (
            arith,
            length-append (field_bytes f) (message_bytes fs),
            length-append (uvarint tag) (body_of f),
            length-uvarint tag,
            uvarint_len_pos tag,
          ))

  -- A message is read field by field.
  pub decode_fields-Folds :
      {fs : List Field} {msg msg' : M}
      → All IsField fs
      → Folds fs msg msg'
      → decode_fields step (message_bytes fs) msg ≡ ok msg'
  unfolding decode_fields
  decode_fields-Folds {fs} h r = rw (
    run_fields-Folds (suc (length (message_bytes fs))) (message_bytes fs) 0 h r (At-start _)
        (omega arith),
    decode_fields,
  )

-- The numbers of a field; the length of a message bounds the lengths of its parts.
abbrev pub IsSound : Field → Type 0
IsSound (varint_field n v) = (n * 8 + 7 < 2 ^ 64) × IsU64 v
IsSound (len_field n b) = (n * 8 + 7 < 2 ^ 64) × Unit {0}
IsSound (i32_field n b) = (n * 8 + 7 < 2 ^ 64) × (length b ≡ 4)
IsSound (i64_field n b) = (n * 8 + 7 < 2 ^ 64) × (length b ≡ 8)

length-body_of-le :
    (f : Field) (fs : List Field) → length (body_of f) ≤ length (message_bytes (f ∷ fs))
length-body_of-le f fs = omega (
  arith,
  length-append (field_bytes f) (message_bytes fs),
  length-append (uvarint (number_of f * 8 + wire_of f)) (body_of f),
)

IsField-of_sound : (f : Field) → IsSound f → IsU64 (length (body_of f)) → IsField f
IsField-of_sound (varint_field n v) h l = h
IsField-of_sound (len_field n b) h l = (h.0, omega (arith, length-append (uvarint (length b)) b))
IsField-of_sound (i32_field n b) h l = h
IsField-of_sound (i64_field n b) h l = h

pub IsField-All :
    (fs : List Field) → All IsSound fs → IsU64 (length (message_bytes fs)) → All IsField fs
IsField-All [] h l = tt
IsField-All (f ∷ fs) h l = (
  IsField-of_sound f h.0 (omega (arith, length-body_of-le f fs)),
  IsField-All fs h.1 (omega (arith, length-append (field_bytes f) (message_bytes fs))),
)

pub All-IsField_split :
    (fs gs : List Field) → All IsField (fs ++ gs) → All IsField fs × All IsField gs
All-IsField_split [] gs h = (tt, h)
All-IsField_split (f ∷ fs) gs h = let (a, b) = All-IsField_split fs gs h.1 in ((h.0, a), b)
