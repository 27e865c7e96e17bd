-- ===== src/Varint/Decode.antt =====
-- One round of `read_uvarint`'s loop, in plain arithmetic.
use Prim.Native.Nat.{bit_or}
use native.Mathlib.Decide.{ℕ_discrete}
use native.Mathlib.Nat.{pow-le-pow_right}
use native.Mathlib.Numerals.{towards_suc}
use minip2p.Prelude.{ℕ, ◌+◌, ◌*◌, ◌%◌, ◌^◌, ◌≤◌, ◌<◌, ◌≡◌, ◌≢◌, ◌∷◌, arith, ◌==◌, if◌then◌else◌}
use minip2p.Prelude.Bits.{IsByte, and_low, and_top, or_shifted}
use minip2p.Prelude.Result.{ok, err}
use minip2p.Varint.{Bytes, overflow, non_canonical, uvarint_len, read_loop}

pub shift_seven : (s : ℕ) → 2 ^ (s + 7) ≡ 128 * 2 ^ s
shift_seven s = simp towards_suc (omega arith)

-- The state of the loop before the byte at `idx`.
pub record Before (idx value shift : ℕ) : Type 0 where
  pub shift_eq : shift ≡ 7 * idx
  pub idx_le : idx ≤ 9
  pub value_lt : value < 2 ^ shift

-- At position 9 only one bit is left.
abbrev pub Fits : ℕ → ℕ → Type 0
Fits idx b = idx ≡ 9 → b ≤ 1

room : (idx shift : ℕ) → shift ≡ 7 * idx → idx ≤ 8 → 2 ^ shift ≤ 2 ^ 56
room idx shift e h = pow-le-pow_right {n = 2} (omega arith) {j = 56} (omega arith)

times_le : (low bound p : ℕ) → low ≤ bound → low * p ≤ bound * p
times_le low bound p h = grind arith

-- The value after a byte fits 64 bits, and before the last position one group less.
pub total_lt :
    (idx value shift low : ℕ)
    → Before idx value shift
    → low < 128
    → Fits idx low
    → value + low * 2 ^ shift < 2 ^ 64
total_lt idx value shift low b hl hf = elim (ℕ_discrete idx 9) [
  | yes e ↦
      let s : shift ≡ 63 = omega arith in
      let v : value < 2 ^ 63 = rw s at b.value_lt in rw s (omega (arith, hf e))
  | no n ↦
      omega
        (arith, times_le low 127 (2 ^ shift) (omega arith), room idx shift b.shift_eq (omega arith))
]

pub Before_next :
    (idx value shift low : ℕ)
    → Before idx value shift
    → low < 128
    → idx ≢ 9
    → Before (idx + 1) (value + low * 2 ^ shift) (shift + 7)
Before_next idx value shift low b hl n = record {
  shift_eq = omega arith;
  idx_le = omega arith;
  value_lt = omega (arith, times_le low 127 (2 ^ shift) (omega arith), shift_seven shift);
}

-- `value |= low << shift`, in 64 bits.
pub or_group :
    (idx value shift low : ℕ)
    → Before idx value shift
    → low < 128
    → Fits idx low
    → bit_or value (low * 2 ^ shift % 2 ^ 64) ≡ value + low * 2 ^ shift
or_group idx value shift low b hl hf =
    let small : low * 2 ^ shift % 2 ^ 64 ≡ low * 2 ^ shift =
      omega (arith, total_lt idx value shift low b hl hf) in
    rw small (or_shifted shift value low b.value_lt)

-- A byte below 128 ends the number, if the encoding is minimal.
pub read_last :
    (idx value shift low : ℕ) (rest : Bytes)
    → Before idx value shift
    → low < 128
    → Fits idx low
    → read_loop (low ∷ rest) idx value shift ≡ (
        if idx + 1 == uvarint_len (value + low * 2 ^ shift)
        then ok (value + low * 2 ^ shift, idx + 1)
        else err non_canonical)
unfolding read_loop
read_last idx value shift low rest b hl hf =
    ground (arith, and_low low, and_top low (omega arith), or_group idx value shift low b hl hf, hf)

-- A byte with the top bit set, over the group `low`.
pub read_more :
    (idx value shift low : ℕ) (rest : Bytes)
    → Before idx value shift
    → low < 128
    → idx ≢ 9
    → read_loop ((low + 128) ∷ rest) idx value shift
      ≡ read_loop rest (idx + 1) (value + low * 2 ^ shift) (shift + 7)
unfolding read_loop
read_more idx value shift low rest b hl n = ground (
  arith,
  and_low (low + 128),
  and_top (low + 128) (omega arith),
  or_group idx value shift low b hl (λ e. absurd (n e)),
)

-- At position 9 any other byte overflows.
pub read_overflow :
    (byte value shift : ℕ) (rest : Bytes)
    → IsByte byte
    → 1 < byte
    → read_loop (byte ∷ rest) 9 value shift ≡ err overflow
unfolding read_loop
read_overflow byte value shift rest h n = ground (arith, and_top byte h)
