-- ===== src/Wire/Loop.antt =====
-- The field loop ends: each round passes the tag's bytes.
use minip2p.Prelude.{
  ℕ, zero, suc, ◌+◌, ◌≤◌, ◌<◌, ◌≡◌, ◌≢◌, arith, length, inl, inr, drop, some, none,
}
use minip2p.Prelude.Result.{Result, ok, Result-cases}
use minip2p.Varint.{Bytes, read_uvarint}
use minip2p.Varint.Stream.{read_uvarint_used}
use minip2p.Wire.{
  WireError, read_varint_value, read_tag, read_len_delimited, skip_unknown_field, run_fields,
}

module _ {E : Type 0} ⦃w : WireError E⦄ where
  pub read_varint_value_advances :
      (input : Bytes) (idx value idx' : ℕ)
      → read_varint_value {E = E} input idx ≡ ok (value, idx')
      → idx < idx'
  unfolding read_varint_value
  read_varint_value_advances input idx value idx' e =
      elim (Result-cases (read_uvarint (drop idx input))) [
        | inl ((v, used), r) ↦ ground (arith, r, read_uvarint_used (drop idx input) v used r)
        | inr (x, r) ↦ cc (r, e)
      ]

  pub read_tag_advances :
      (input : Bytes) (idx field wire_type idx' : ℕ)
      → read_tag {E = E} input idx ≡ ok (some (field, wire_type), idx')
      → (idx < idx') × (idx < length input)
  unfolding read_tag
  read_tag_advances input idx field wire_type idx' e =
      elim (Result-cases (read_varint_value {E = E} input idx)) [
        | inl ((v, k), r) ↦ ground (arith, r, read_varint_value_advances input idx v k r)
        | inr (x, r) ↦ ground (arith, r)
      ]

  pub read_len_delimited_advances :
      (input : Bytes) (idx : ℕ) (payload : Bytes) (idx' : ℕ)
      → read_len_delimited {E = E} input idx ≡ ok (payload, idx')
      → idx ≤ idx'
  unfolding read_len_delimited
  read_len_delimited_advances input idx payload idx' e =
      elim (Result-cases (read_varint_value {E = E} input idx)) [
        | inl ((v, k), r) ↦ ground (arith, r, read_varint_value_advances input idx v k r)
        | inr (x, r) ↦ ground (arith, r)
      ]

  pub skip_unknown_field_advances :
      (input : Bytes) (idx wire_type idx' : ℕ)
      → skip_unknown_field {E = E} input idx wire_type ≡ ok idx'
      → idx ≤ idx'
  unfolding skip_unknown_field
  skip_unknown_field_advances input idx wire_type idx' e =
      elim (Result-cases (read_varint_value {E = E} input idx)) [
        | inl ((v, k), r) ↦ ground (arith, r, read_varint_value_advances input idx v k r)
        | inr (x, r) ↦ ground (arith, r)
      ]

  -- A `match` on the tag never moves the position back.
  abbrev pub Advances {ℓ} :
      {M : Type ℓ} → (Bytes → M → (field wire_type idx : ℕ) → Result E (M × ℕ)) → Type ℓ
  Advances {M} step =
      (input : Bytes) (msg : M) (field wire_type idx : ℕ) (msg' : M) (idx' : ℕ)
      → step input msg field wire_type idx ≡ ok (msg', idx')
      → idx ≤ idx'

  module _ {ℓ} {M : Type ℓ} (step : Bytes → M → (field wire_type idx : ℕ) → Result E (M × ℕ)) where
    -- What one round of the loop does, by the answers of `read_tag` and of the `match`.
    pub run_fields_end :
        (fuel : ℕ) (input : Bytes) (idx idx' : ℕ) (msg : M)
        → read_tag {E = E} input idx ≡ ok (none, idx')
        → run_fields step (suc fuel) input idx msg ≡ some (ok msg)
    unfolding run_fields
    run_fields_end fuel input idx idx' msg e = rw (e, run_fields)

    pub run_fields_next :
        (fuel : ℕ) (input : Bytes) (idx field wire_type idx' : ℕ) (msg msg' : M) (idx'' : ℕ)
        → read_tag {E = E} input idx ≡ ok (some (field, wire_type), idx')
        → step input msg field wire_type idx' ≡ ok (msg', idx'')
        → run_fields step (suc fuel) input idx msg ≡ run_fields step fuel input idx'' msg'
    unfolding run_fields
    run_fields_next fuel input idx field wire_type idx' msg msg' idx'' e s = rw (e, s, run_fields)

    run_fields_total :
        (fuel : ℕ) (input : Bytes) (idx : ℕ) (msg : M)
        → Advances step
        → 0 < fuel
        → length input < fuel + idx
        → run_fields step fuel input idx msg ≢ none
    unfolding run_fields
    run_fields_total zero input idx msg adv p h = absurd (omega arith)
    run_fields_total (suc fuel) input idx msg adv p h =
        elim (Result-cases (read_tag {E = E} input idx)) [
          | inr (x, r) ↦ rw (r, run_fields) (λ e. cc)
          | inl ((none, idx'), r) ↦ rw (r, run_fields) (λ e. cc)
          | inl ((some (field, wire_type), idx'), r) ↦
              elim (Result-cases (step input msg field wire_type idx')) [
                | inr (x, s) ↦ rw (r, s, run_fields) (λ e. cc)
                | inl ((msg', idx''), s) ↦
                    let t = read_tag_advances input idx field wire_type idx' r in
                    let a = adv input msg field wire_type idx' msg' idx'' s in
                    rw (r, s, run_fields)
                      (run_fields_total fuel input idx'' msg' adv (omega arith) (omega arith))
              ]
        ]

    -- The loop of `decode_fields` ends on every input, if the `match` on the tag never moves back.
    pub decode_fields_total :
        (input : Bytes) (msg : M)
        → Advances step
        → run_fields step (suc (length input)) input 0 msg ≢ none
    decode_fields_total input msg adv =
        run_fields_total (suc (length input)) input 0 msg adv (omega arith) (omega arith)

  -- The same, of the answer as one value.
  pub read_varint_value_moves :
      (input : Bytes) (idx : ℕ) (p : ℕ × ℕ) → read_varint_value {E = E} input idx ≡ ok p → idx ≤ p.1
  read_varint_value_moves input idx (v, k) e =
      omega (arith, read_varint_value_advances input idx v k e)

  pub read_len_delimited_moves :
      (input : Bytes) (idx : ℕ) (p : Bytes × ℕ)
      → read_len_delimited {E = E} input idx ≡ ok p
      → idx ≤ p.1
  read_len_delimited_moves input idx (v, k) e = read_len_delimited_advances input idx v k e

pub ruleset moves = (read_varint_value_moves, read_len_delimited_moves, skip_unknown_field_advances)
