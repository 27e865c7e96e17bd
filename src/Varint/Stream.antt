-- ===== src/Varint/Stream.antt =====
-- `read_uvarint` on a growing buffer: an answer other than "buffer too short" is final.
use Prim.Native.Nat.{bit_and, bit_or}
use minip2p.Prelude.{
  ℕ, ◌+◌, ◌*◌, ◌%◌, ◌^◌, ◌≤◌, ◌<◌, ◌≡◌, ◌≢◌, refl, sym, ◌∙◌, ap, [], ◌∷◌, ◌++◌, append-nil, arith,
  length, length-append, ◌⊎◌, inl, inr,
}
use minip2p.Prelude.Bits.{IsU64}
use minip2p.Prelude.Result.{Result, ok, err}
use minip2p.Varint.{
  Bytes, VarintError, overflow, non_canonical, buffer_too_short, uvarint_len, write_uvarint,
  read_loop, read_uvarint,
}
use minip2p.Varint.Encode.{uvarint, length-uvarint, write_uvarint-uvarint}
use minip2p.Varint.RoundTrip.{read_uvarint-uvarint}

read_loop-append :
    (bs more : Bytes) (idx value shift : ℕ)
    → read_loop bs idx value shift ≢ err buffer_too_short
    → read_loop (bs ++ more) idx value shift ≡ read_loop bs idx value shift
unfolding read_loop
read_loop-append [] more idx value shift h = absurd (h refl)
read_loop-append (b ∷ bs) more idx value shift h = ground (
  arith,
  read_loop-append bs more (idx + 1) (bit_or value (bit_and b 0x7f * 2 ^ shift % 2 ^ 64))
      (shift + 7),
)

-- Bytes behind the buffer do not change an answer other than `buffer_too_short`.
pub read_uvarint-append :
    (input more : Bytes)
    → read_uvarint input ≢ err buffer_too_short
    → read_uvarint (input ++ more) ≡ read_uvarint input
unfolding read_uvarint
read_uvarint-append input more = read_loop-append input more 0 0 0

read_loop_used :
    (bs : Bytes) (idx value shift v used : ℕ)
    → read_loop bs idx value shift ≡ ok (v, used)
    → (idx < used) × (used ≤ idx + length bs)
unfolding read_loop
read_loop_used [] idx value shift v used e = cc
read_loop_used (b ∷ bs) idx value shift v used e = ground (
  arith,
  read_loop_used bs (idx + 1) (bit_or value (bit_and b 0x7f * 2 ^ shift % 2 ^ 64)) (shift + 7) v
      used,
)

-- The bytes reported as used are there, and at least one.
pub read_uvarint_used :
    (input : Bytes) (value used : ℕ)
    → read_uvarint input ≡ ok (value, used)
    → (0 < used) × (used ≤ length input)
unfolding read_uvarint
read_uvarint_used input value used e = omega (arith, read_loop_used input 0 0 0 value used e)

pub too_short_cases :
    (r : Result VarintError (ℕ × ℕ)) → (r ≡ err buffer_too_short) ⊎ (r ≢ err buffer_too_short)
too_short_cases (ok p) = inr (λ e. cc)
too_short_cases (err buffer_too_short) = inl refl
too_short_cases (err overflow) = inr (λ e. cc)
too_short_cases (err non_canonical) = inr (λ e. cc)

-- On every proper prefix of a written number `read_uvarint` answers `buffer_too_short`, so that a
-- receiver waits for the missing bytes.
pub read_uvarint_cut :
    (value x : ℕ) (front back : Bytes)
    → IsU64 value
    → write_uvarint value [] ≡ front ++ (x ∷ back)
    → read_uvarint front ≡ err buffer_too_short
read_uvarint_cut value x front back h e = elim (too_short_cases (read_uvarint front)) [
  | inl short ↦ short
  | inr other ↦
      let whole : uvarint value ++ [] ≡ front ++ (x ∷ back) =
        append-nil (uvarint value) ∙ sym (write_uvarint-uvarint value []) ∙ e in
      let full = sym (ap read_uvarint whole) ∙ read_uvarint-uvarint value [] h in
      let seen = sym (read_uvarint-append front (x ∷ back) other) ∙ full in
      absurd (
        omega (
          arith,
          read_uvarint_used front value (uvarint_len value) seen,
          length-uvarint value,
          ap length (sym (write_uvarint-uvarint value []) ∙ e),
          length-append front (x ∷ back),
        ))
]
