-- ===== src/Autonat/Reader.antt =====
-- crates/autonat/src/lib.rs: the reader of tags, which refuses field number 0, and the loop of its
-- decoders. The other readers are those of Wire.
use minip2p.Prelude.{
  ℕ, zero, suc, ◌+◌, ◌*◌, ◌/◌, ◌%◌, ◌≤◌, ◌<◌, ◌≡◌, ◌≢◌, refl, ap, ◌∙◌, List, [], ◌∷◌, ◌++◌, map,
  append_assoc, Option, none, some, ◌==◌, if◌then◌else◌, length, length-append, All, arith, inl,
  inr, false,
}
use minip2p.Prelude.Result.{Result, ok, err, ◌>>=◌, Result-cases}
use minip2p.Varint.{Bytes}
use minip2p.Varint.Encode.{uvarint, length-uvarint, uvarint_len_pos}
use minip2p.Wire
use minip2p.Wire.{WireError, read_varint_value, read_len_delimited, wire_len, wire_varint}
use minip2p.Wire.Cursor.{At, At-advance, At-start, read_tag-At, read_tag_end}
use minip2p.Wire.Encode.{opt_field}
use minip2p.Wire.Loop.{Advances, moves, read_tag_advances}
use minip2p.Wire.Fields.{
  Field, len_field, field_bytes, body_of, message_bytes, number_of, wire_of, IsField, Takes, Folds,
  stop, more, wire_of_lt, IsField-tag,
}
use minip2p.Autonat.Types.{AutoNatError, autonat_wire_error, unsupported_wire_type}

abbrev checked : ℕ → Option (ℕ × ℕ) × ℕ → Result AutoNatError (Option (ℕ × ℕ) × ℕ)
checked offset (none, idx) = ok (none, idx)
checked offset (some (field_number, wire_type), idx) =
    if field_number == 0
    then err (unsupported_wire_type wire_type offset)
    else ok (some (field_number, wire_type), idx)

unfoldable pub read_tag : Bytes → ℕ → Result AutoNatError (Option (ℕ × ℕ) × ℕ)
read_tag input idx = Wire.read_tag input idx >>= checked idx

-- The last arms of every `match` on a tag: a field that is not known.
unfoldable pub skip_field : Bytes → (idx wire_type : ℕ) → Result AutoNatError ℕ
skip_field input idx wire_type =
    if wire_type == wire_len
    then (do (value, idx') ← read_len_delimited input idx; ok idx')
    else if wire_type == wire_varint
    then (do (value, idx') ← read_varint_value input idx; ok idx')
    else err (unsupported_wire_type wire_type idx)

module _ {M : Type 0}
    (step : Bytes → M → (field wire_type idx : ℕ) → Result AutoNatError (M × ℕ)) where
  -- `while let Some((field, wire)) = read_tag(input, &mut idx)? { … }`; `none`: the fuel ran out.
  unfoldable pub run_fields : (fuel : ℕ) → Bytes → ℕ → M → Option (Result AutoNatError M)
  run_fields zero input idx msg = none
  run_fields (suc fuel) input idx msg = elim (read_tag input idx) [
    | err e ↦ some (err e)
    | ok (none, _) ↦ some (ok msg)
    | ok (some (field, wire_type), idx') ↦ elim (step input msg field wire_type idx') [
      | err e ↦ some (err e)
      | ok (msg', idx'') ↦ run_fields fuel input idx'' msg'
    ]
  ]

  -- Every round takes a byte at least, so this fuel is enough.
  unfoldable pub decode_fields : Bytes → M → Result AutoNatError M
  unfolding run_fields
  decode_fields input msg = elim (run_fields (suc (length input)) input 0 msg) [
    | some r ↦ r
    | none ↦ ok msg
  ]

-- A field whose number is not zero.
abbrev pub IsNumbered : Field → Type 0
IsNumbered f = (number_of f ≡ 0) → ⊥

module _ {M : Type 0}
    (step : Bytes → M → (field wire_type idx : ℕ) → Result AutoNatError (M × ℕ)) where
  run_end :
      (fuel : ℕ) (input : Bytes) (idx : ℕ) (msg : M)
      → At input idx []
      → run_fields step (suc fuel) input idx msg ≡ some (ok msg)
  unfolding run_fields read_tag
  run_end fuel input idx msg a = rw (read_tag_end {E = AutoNatError} input idx a, run_fields) refl

  run_next :
      (fuel : ℕ) (input : Bytes) (idx : ℕ) (f : Field) (rest : Bytes) (msg msg' : M)
      → IsField f
      → IsNumbered f
      → At input idx (field_bytes f ++ rest)
      → Takes step f msg msg'
      → run_fields step (suc fuel) input idx msg
        ≡ run_fields step fuel input (idx + length (field_bytes f)) msg'
  unfolding run_fields read_tag
  run_next fuel input idx f rest msg msg' h k a t =
      let tag = number_of f * 8 + wire_of f in
      let body = body_of f ++ rest in
      let a0 = rw (append_assoc (uvarint tag) (body_of f) rest) at a in
      let a1 = At-advance input idx (uvarint tag) body a0 in
      let number : tag / 8 ≡ number_of f = omega (arith, wire_of_lt f) in
      let wire : tag % 8 ≡ wire_of f = omega (arith, wire_of_lt f) in
      let read =
        rw (number, wire) at
          (read_tag-At {E = AutoNatError} input idx tag body (IsField-tag f h) a0) in
      let known : (number_of f == 0) ≡ false = ground (arith, k) in
      rw (read, known, t input (idx + length (uvarint tag)) rest a1, run_fields)
        (ap (λ (i : ℕ). run_fields step fuel input i msg')
          (omega (arith, length-append (uvarint tag) (body_of f))))

  run_fields-Folds :
      (fuel : ℕ) (input : Bytes) (idx : ℕ) {fs : List Field} {msg msg' : M}
      → All IsField fs
      → All IsNumbered fs
      → Folds step fs msg msg'
      → At input idx (message_bytes fs)
      → length (message_bytes fs) < fuel
      → run_fields step fuel input idx msg ≡ some (ok msg')
  run_fields-Folds zero input idx h k t a n = absurd (omega arith)
  run_fields-Folds (suc fuel) input idx {msg = msg} h k stop a n = run_end fuel input idx msg a
  run_fields-Folds (suc fuel) input idx h k (more {f} {fs} {msg} {msg'} t r) a n =
      let tag = number_of f * 8 + wire_of f in
      run_next fuel input idx f (message_bytes fs) msg msg' h.0 k.0 a t
      ∙ run_fields-Folds fuel input _ h.1 k.1 r
          (At-advance input idx (field_bytes f) (message_bytes fs) a)
          (omega (
            arith,
            length-append (field_bytes f) (message_bytes fs),
            length-append (uvarint tag) (body_of f),
            length-uvarint tag,
            uvarint_len_pos tag,
          ))

  -- A message is read field by field.
  pub decode_fields-Folds :
      {fs : List Field} {msg msg' : M}
      → All IsField fs
      → All IsNumbered fs
      → Folds step fs msg msg'
      → decode_fields step (message_bytes fs) msg ≡ ok msg'
  unfolding decode_fields
  decode_fields-Folds {fs} h k r = rw (
    run_fields-Folds (suc (length (message_bytes fs))) (message_bytes fs) 0 h k r (At-start _)
        (omega arith),
    decode_fields,
  )

pub IsNumbered-repeated :
    (n : ℕ) (items : List Bytes) → n ≢ 0 → All IsNumbered (map (len_field n) items)
IsNumbered-repeated n [] h = tt
IsNumbered-repeated n (x ∷ xs) h = (h, IsNumbered-repeated n xs h)

pub IsNumbered-opt {ℓ} :
    {A : Type ℓ} (f : A → Field) (o : Option A)
    → ((x : A) → IsNumbered (f x))
    → All IsNumbered (opt_field f o)
IsNumbered-opt f none h = tt
IsNumbered-opt f (some x) h = (h x, tt)

read_tag_moves :
    (input : Bytes) (idx field wire_type idx' : ℕ)
    → read_tag input idx ≡ ok (some (field, wire_type), idx')
    → (idx < idx') × (idx < length input)
unfolding read_tag
read_tag_moves input idx field wire_type idx' e =
    elim (Result-cases (Wire.read_tag {E = AutoNatError} input idx)) [
      | inr (x, r) ↦ cc (r, e)
      | inl ((none, k), r) ↦ cc (rw r at e)
      | inl ((some (f, t), k), r) ↦
          ground (arith, r, e, read_tag_advances {E = AutoNatError} input idx f t k r)
    ]

pub skip_field_moves :
    (input : Bytes) (idx wire_type idx' : ℕ) → skip_field input idx wire_type ≡ ok idx' → idx ≤ idx'
unfolding skip_field
skip_field_moves input idx wire_type idx' e = grind (arith, moves)

module _ {M : Type 0}
    (step : Bytes → M → (field wire_type idx : ℕ) → Result AutoNatError (M × ℕ)) where
  run_fields_total :
      (fuel : ℕ) (input : Bytes) (idx : ℕ) (msg : M)
      → Advances step
      → 0 < fuel
      → length input < fuel + idx
      → run_fields step fuel input idx msg ≢ none
  unfolding run_fields
  run_fields_total zero input idx msg adv p h = absurd (omega arith)
  run_fields_total (suc fuel) input idx msg adv p h = elim (Result-cases (read_tag input idx)) [
    | inr (x, r) ↦ rw (r, run_fields) (λ e. cc)
    | inl ((none, idx'), r) ↦ rw (r, run_fields) (λ e. cc)
    | inl ((some (field, wire_type), idx'), r) ↦
        elim (Result-cases (step input msg field wire_type idx')) [
          | inr (x, s) ↦ rw (r, s, run_fields) (λ e. cc)
          | inl ((msg', idx''), s) ↦
              let t = read_tag_moves input idx field wire_type idx' r in
              let a = adv input msg field wire_type idx' msg' idx'' s in
              rw (r, s, run_fields)
                (run_fields_total fuel input idx'' msg' adv (omega arith) (omega arith))
        ]
  ]

  -- The loop of `decode_fields` ends on every input, if the `match` on the tag never moves back.
  pub decode_fields_total :
      (input : Bytes) (msg : M)
      → Advances step
      → run_fields step (suc (length input)) input 0 msg ≢ none
  decode_fields_total input msg adv =
      run_fields_total (suc (length input)) input 0 msg adv (omega arith) (omega arith)
