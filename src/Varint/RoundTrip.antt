-- ===== src/Varint/RoundTrip.antt =====
-- `read_uvarint` after `write_uvarint`, and on a cut encoding.
use minip2p.Prelude.{
  ℕ, zero, suc, ◌+◌, ◌*◌, ◌/◌, ◌%◌, ◌^◌, ◌≤◌, ◌<◌, ◌≡◌, ◌≢◌, refl, ◌∙◌, ap, [], ◌++◌, arith, ◌⊎◌,
  inl, inr,
}
use minip2p.Prelude.Bits.{IsU64}
use minip2p.Prelude.Result.{ok}
use minip2p.Varint.{Bytes, uvarint_len, write_uvarint, read_loop, read_uvarint}
use minip2p.Varint.Encode.{
  uvarint, uvarint_small, uvarint_big, uvarint_len_small, uvarint_len_big, write_uvarint-uvarint,
}
use minip2p.Varint.Decode.{Before, Before_next, Fits, shift_seven, read_last, read_more}
use mathlib.Core.Path.{ap₂}
use native.Mathlib.Nat.{pow-suc, one-le-pow}
use native.Mathlib.Decide.{dec_lt}

group_shift : (w s : ℕ) → w * 2 ^ s ≡ w % 128 * 2 ^ s + w / 128 * 2 ^ (s + 7)
group_shift w s =
    let w' : w ≡ w % 128 + w / 128 * 128 = omega arith in
    omega (arith, ap (λ (t : ℕ). t * 2 ^ s) w', ap (λ (t : ℕ). w / 128 * t) (shift_seven s))

pow_seven : (idx : ℕ) → 2 ^ (7 * idx) ≡ 128 ^ idx
pow_seven zero = refl
pow_seven (suc idx) =
    let e : 7 * suc idx ≡ 7 * idx + 7 = omega arith in
    rw e (omega (arith, shift_seven (7 * idx), pow_seven idx, pow-suc 128 idx))

drop_group : (idx value w : ℕ) → (value + w * 128 ^ suc idx) / 128 ≡ value / 128 + w * 128 ^ idx
drop_group idx value w =
    let e : w * 128 ^ suc idx ≡ 128 * (w * 128 ^ idx) =
      omega (arith, ap (λ (t : ℕ). w * t) (pow-suc 128 idx)) in
    omega arith

at_least_group : (idx value w : ℕ) → 1 ≤ w → 127 < value + w * 128 ^ suc idx
at_least_group idx value w h =
    let e : w * 128 ^ suc idx ≡ 128 * (w * 128 ^ idx) =
      omega (arith, ap (λ (t : ℕ). w * t) (pow-suc 128 idx)) in
    let p : 1 ≤ w * 128 ^ idx = grind (arith, one-le-pow idx 128 (omega arith)) in omega arith

-- Seven bits more below a number lengthen its encoding by one byte.
uvarint_len_shifted :
    (idx value w : ℕ)
    → value < 128 ^ idx
    → (idx ≡ 0) ⊎ (1 ≤ w)
    → uvarint_len (value + w * 128 ^ idx) ≡ idx + uvarint_len w
uvarint_len_shifted zero value w h p =
    let e : value + w * 128 ^ 0 ≡ w = omega arith in ap uvarint_len e ∙ omega arith
uvarint_len_shifted (suc idx) value w h (inl p) = absurd (omega arith)
uvarint_len_shifted (suc idx) value w h (inr p) =
    uvarint_len_big _ (at_least_group idx value w p)
    ∙ ap (λ (t : ℕ). uvarint_len t + 1) (drop_group idx value w)
    ∙ omega
        (arith, uvarint_len_shifted idx (value / 128) w (omega (arith, pow-suc 128 idx)) (inr p))

len_at :
    (idx value shift w : ℕ)
    → Before idx value shift
    → (idx ≡ 0) ⊎ (1 ≤ w)
    → uvarint_len (value + w * 2 ^ shift) ≡ idx + uvarint_len w
len_at idx value shift w b p =
    let e : 2 ^ shift ≡ 128 ^ idx = ap (λ (t : ℕ). 2 ^ t) b.shift_eq ∙ pow_seven idx in
    rw e (uvarint_len_shifted idx value w (omega (arith, b.value_lt)) p)

Fits-last :
    (idx value shift w : ℕ) → Before idx value shift → value + w * 2 ^ shift < 2 ^ 64 → Fits idx w
Fits-last idx value shift w b fits e =
    let s : shift ≡ 63 = omega (arith, b.shift_eq) in
    let f : value + w * 2 ^ 63 < 2 ^ 64 = rw s at fits in omega arith

module _ (idx value shift w : ℕ) (rest : Bytes) (b : Before idx value shift) where
  read_small :
      w < 128
      → (idx ≡ 0) ⊎ (1 ≤ w)
      → value + w * 2 ^ shift < 2 ^ 64
      → read_loop (uvarint w ++ rest) idx value shift
        ≡ ok (value + w * 2 ^ shift, idx + uvarint_len w)
  read_small small start fits = rw (uvarint_small w small) (
      read_last idx value shift w rest b small (Fits-last idx value shift w b fits)
      ∙ ground (arith, len_at idx value shift w b start, uvarint_len_small w small))

  read_group :
      127 < w
      → idx ≢ 9
      → read_loop (uvarint w ++ rest) idx value shift
        ≡ read_loop (uvarint (w / 128) ++ rest) (idx + 1) (value + w % 128 * 2 ^ shift) (shift + 7)
  read_group big n =
      rw (uvarint_big w big)
        (read_more idx value shift (w % 128) (uvarint (w / 128) ++ rest) b (omega arith) n)

-- `w` is what is still to be read, and `k` the positions that are left.
pub read_loop-uvarint :
    (k idx value shift w : ℕ) (rest : Bytes)
    → Before idx value shift
    → idx + k ≡ 9
    → (idx ≡ 0) ⊎ (1 ≤ w)
    → value + w * 2 ^ shift < 2 ^ 64
    → read_loop (uvarint w ++ rest) idx value shift
      ≡ ok (value + w * 2 ^ shift, idx + uvarint_len w)
read_loop-uvarint zero idx value shift w rest b left start fits =
    read_small idx value shift w rest b
      (omega (arith, Fits-last idx value shift w b fits (omega arith))) start fits
read_loop-uvarint (suc k) idx value shift w rest b left start fits = elim (dec_lt 127 w) [
  | no small ↦ read_small idx value shift w rest b (omega arith) start fits
  | yes big ↦
      let n : idx ≢ 9 = omega arith in
      let value' = value + w % 128 * 2 ^ shift in
      let total : value' + w / 128 * 2 ^ (shift + 7) ≡ value + w * 2 ^ shift =
        omega (arith, group_shift w shift) in
      let ih =
        read_loop-uvarint k (idx + 1) value' (shift + 7) (w / 128) rest
          (Before_next idx value shift (w % 128) b (omega arith) n) (omega arith)
          (inr (omega arith)) (omega arith) in
      read_group idx value shift w rest b big n
      ∙ ih
      ∙ ap₂ (λ (x y : ℕ). ok (x, y)) total (omega (arith, uvarint_len_big w big))
]

abbrev pub start : Before 0 0 0
start = record { shift_eq = refl; idx_le = omega arith; value_lt = omega arith }

pub read_uvarint-uvarint :
    (w : ℕ) (rest : Bytes) → IsU64 w → read_uvarint (uvarint w ++ rest) ≡ ok (w, uvarint_len w)
unfolding read_uvarint
read_uvarint-uvarint w rest h =
    read_loop-uvarint 9 0 0 0 w rest start refl (inl refl) (omega arith)
    ∙ ap₂ (λ (x y : ℕ). ok (x, y)) (omega arith) (omega arith)

-- `read_uvarint` reads back every 64-bit number that `write_uvarint` wrote, and reports
-- `uvarint_len` bytes as used, whatever bytes follow.
pub read_uvarint-write_uvarint :
    (value : ℕ) (rest : Bytes)
    → IsU64 value
    → read_uvarint (write_uvarint value [] ++ rest) ≡ ok (value, uvarint_len value)
read_uvarint-write_uvarint value rest h =
    rw (write_uvarint-uvarint value []) (read_uvarint-uvarint value rest h)
