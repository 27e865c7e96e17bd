-- ===== src/Varint/Encode.antt =====
-- What `write_uvarint` writes, in plain arithmetic, and its length.
use mathlib.Core.WellFounded.{Acc}
use minip2p.Prelude.{
  ℕ, zero, suc, ◌+◌, ◌-◌, ◌/◌, ◌%◌, ◌^◌, ◌≤◌, ◌<◌, ◌≡◌, [], ◌∷◌, ◌++◌, append_assoc, arith, length,
  length-append,
}
use native.Mathlib.Decide.{dec_lt}
use native.Mathlib.Nat.{pow-suc}
use minip2p.Prelude.Bits.{and_low, or_top}
use minip2p.Prelude.Order.{lt_wf}
use minip2p.Varint.{Bytes, len_loop, uvarint_len, write_loop, write_uvarint}

-- `n` groups of seven bits with the top bit set, lowest first, and what is left of `w` behind them.
unfoldable pub groups : ℕ → ℕ → Bytes
groups zero w = w ∷ []
groups (suc n) w = (w % 128 + 128) ∷ groups n (w / 128)

-- The number of groups before the last one.
unfoldable pub inner_groups : ℕ → ℕ
unfolding uvarint_len
inner_groups w = uvarint_len w - 1

-- `write_uvarint` onto an empty buffer.
unfoldable pub uvarint : ℕ → Bytes
uvarint w = groups (inner_groups w) w

-- The count at the start is added to the result, whatever the proofs of termination.
len_loop_suc :
    (value len : ℕ) (v w : Acc ◌<◌ value) → len_loop value (len + 1) v ≡ len_loop value len w + 1
unfolding len_loop
len_loop_suc value len (Acc.intro _ f) (Acc.intro _ g) =
    grind
      (arith, λ (p q : value / 128 < value). len_loop_suc (value / 128) (len + 1) (f _ p) (g _ q))

len_loop_small : (value len : ℕ) (v : Acc ◌<◌ value) → value < 128 → len_loop value len v ≡ len
unfolding len_loop
len_loop_small value len (Acc.intro _ f) h = grind arith

len_loop_big :
    (value len : ℕ) (v : Acc ◌<◌ value) (w : Acc ◌<◌ (value / 128))
    → 127 < value
    → len_loop value len v ≡ len_loop (value / 128) len w + 1
unfolding len_loop
len_loop_big value len (Acc.intro _ f) w h =
    grind (arith, λ (p : value / 128 < value). len_loop_suc (value / 128) len (f _ p) w)

pub uvarint_len_small : (w : ℕ) → w < 128 → uvarint_len w ≡ 1
unfolding uvarint_len
uvarint_len_small w h = len_loop_small w 1 (lt_wf.apply w) h

pub uvarint_len_big : (w : ℕ) → 127 < w → uvarint_len w ≡ uvarint_len (w / 128) + 1
unfolding uvarint_len
uvarint_len_big w h = len_loop_big w 1 (lt_wf.apply w) (lt_wf.apply (w / 128)) h

len_loop_pos : (value len : ℕ) (v : Acc ◌<◌ value) → len ≤ len_loop value len v
unfolding len_loop
len_loop_pos value len (Acc.intro _ f) =
    grind (arith, λ (p : value / 128 < value). len_loop_pos (value / 128) (len + 1) (f _ p))

pub uvarint_len_pos : (w : ℕ) → 1 ≤ uvarint_len w
unfolding uvarint_len
uvarint_len_pos w = len_loop_pos w 1 (lt_wf.apply w)

pub uvarint_small : (w : ℕ) → w < 128 → uvarint w ≡ w ∷ []
unfolding uvarint inner_groups groups
uvarint_small w h = rw (uvarint_len_small w h)

pub uvarint_big : (w : ℕ) → 127 < w → uvarint w ≡ (w % 128 + 128) ∷ uvarint (w / 128)
unfolding uvarint inner_groups groups
uvarint_big w h =
    let e : uvarint_len w - 1 ≡ suc (uvarint_len (w / 128) - 1) =
      omega (arith, uvarint_len_big w h, uvarint_len_pos (w / 128)) in
    rw e

-- The loop appends the encoding, whatever the proof that it terminates.
write_loop-uvarint :
    (value : ℕ) (out : Bytes) (v : Acc ◌<◌ value) → write_loop value out v ≡ out ++ uvarint value
unfolding write_loop
write_loop-uvarint value out (Acc.intro _ f) =
    let low : Bytes = (value % 128 + 128) ∷ [] in
    grind (
      arith,
      and_low value,
      or_top (value % 128),
      uvarint_small value,
      uvarint_big value,
      λ (p : value / 128 < value). write_loop-uvarint (value / 128) (out ++ low) (f _ p),
      append_assoc out low (uvarint (value / 128)),
    )

pub write_uvarint-uvarint :
    (value : ℕ) (out : Bytes) → write_uvarint value out ≡ out ++ uvarint value
unfolding write_uvarint
write_uvarint-uvarint value out = write_loop-uvarint value out (lt_wf.apply value)

length-groups : (n w : ℕ) → length (groups n w) ≡ n + 1
unfolding groups
length-groups zero w = omega arith
length-groups (suc n) w = omega (arith, length-groups n (w / 128))

pub length-uvarint : (w : ℕ) → length (uvarint w) ≡ uvarint_len w
unfolding uvarint inner_groups
length-uvarint w = omega (arith, length-groups (uvarint_len w - 1) w, uvarint_len_pos w)

-- `uvarint_len` is the number of bytes that `write_uvarint` appends, and at least one.
pub length-write_uvarint :
    (value : ℕ) (out : Bytes)
    → (length (write_uvarint value out) ≡ length out + uvarint_len value) × (1 ≤ uvarint_len value)
length-write_uvarint value out =
    rw (write_uvarint-uvarint value out) (
      omega (arith, length-append out (uvarint value), length-uvarint value),
      uvarint_len_pos value,
    )

-- A number below 128 ^ k takes `k` bytes at most, so a 64-bit number takes ten.
pub uvarint_len_le : (k w : ℕ) → w < 128 ^ suc k → uvarint_len w ≤ suc k
uvarint_len_le zero w h = omega (arith, uvarint_len_small w h)
uvarint_len_le (suc k) w h = elim (dec_lt 127 w) [
  | yes big ↦ omega (
    arith,
    uvarint_len_big w big,
    uvarint_len_le k (w / 128) (omega (arith, pow-suc 128 (suc k))),
  )
  | no small ↦ omega (arith, uvarint_len_small w (omega arith))
]
