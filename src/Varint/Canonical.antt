-- ===== src/Varint/Canonical.antt =====
-- What `read_uvarint` accepts, and what it says of cut input.
use minip2p.Prelude.{
  ℕ, suc, ◌+◌, ◌-◌, ◌*◌, ◌/◌, ◌%◌, ◌^◌, ◌<◌, ◌≡◌, ◌≢◌, refl, sym, ◌∙◌, ap, [], ◌∷◌, ◌++◌, arith,
  All,
}
use minip2p.Prelude.Bits.{IsByte, IsU64}
use minip2p.Prelude.Result.{ok}
use minip2p.Varint.{Bytes, uvarint_len, write_uvarint, read_loop, read_uvarint}
use minip2p.Varint.Encode.{uvarint, groups, inner_groups, write_uvarint-uvarint}
use minip2p.Varint.Decode.{
  Before, Before_next, Fits, total_lt, shift_seven, read_last, read_more, read_overflow,
}
use minip2p.Varint.RoundTrip.{start}
use mathlib.Core.Path.{ap₂, subst}
use native.Mathlib.Decide.{dec_lt}

-- A successful run of the loop: the bytes taken are the groups of the number added to `value`.
record Took (bs : Bytes) (idx value shift v used : ℕ) : Type 0 where
  inner : ℕ
  w : ℕ
  rest : Bytes
  value_eq : v ≡ value + w * 2 ^ shift
  used_eq : used ≡ idx + inner + 1
  bytes_eq : bs ≡ groups inner w ++ rest
  minimal : used ≡ uvarint_len v
  fits : v < 2 ^ 64

module _ (idx value shift low : ℕ) (rest : Bytes) (b : Before idx value shift)
    (hl : low < 128) where
  Took-last :
      (v used : ℕ)
      → Fits idx low
      → read_loop (low ∷ rest) idx value shift ≡ ok (v, used)
      → Took (low ∷ rest) idx value shift v used
  unfolding groups
  Took-last v used hf e =
      let e' = sym (read_last idx value shift low rest b hl hf) ∙ e in
      record {
        inner = 0;
        w = low;
        rest = rest;
        value_eq = ground arith;
        used_eq = ground arith;
        bytes_eq = refl;
        minimal = ground arith;
        fits = ground (arith, total_lt idx value shift low b hl hf);
      }

  Took-more :
      (v used : ℕ)
      → Took rest (idx + 1) (value + low * 2 ^ shift) (shift + 7) v used
      → Took ((low + 128) ∷ rest) idx value shift v used
  unfolding groups
  Took-more v used t =
      let d : (low + t.w * 128) / 128 ≡ t.w = omega arith in
      let m : (low + t.w * 128) % 128 ≡ low = omega arith in
      record {
        inner = suc t.inner;
        w = low + t.w * 128;
        rest = t.rest;
        value_eq = omega (arith, t.value_eq, ap (λ (x : ℕ). t.w * x) (shift_seven shift));
        used_eq = omega (arith, t.used_eq);
        bytes_eq = rw (d, m) (ap (◌∷◌ (low + 128)) t.bytes_eq);
        minimal = t.minimal;
        fits = t.fits;
      }

-- A byte that the loop gets past fits at its position.
Fits-of_ok :
    (byte : ℕ) (rest : Bytes) (idx value shift v used : ℕ)
    → IsByte byte
    → read_loop (byte ∷ rest) idx value shift ≡ ok (v, used)
    → Fits idx byte
Fits-of_ok byte rest idx value shift v used h e nine = elim (dec_lt 1 byte) [
  | yes wide ↦
      let e' : read_loop (byte ∷ rest) 9 value shift ≡ ok (v, used) = rw nine at e in
      cc (read_overflow byte value shift rest h wide)
  | no narrow ↦ omega arith
]

read_loop-Took :
    (bs : Bytes) (idx value shift v used : ℕ)
    → Before idx value shift
    → All IsByte bs
    → read_loop bs idx value shift ≡ ok (v, used)
    → Took bs idx value shift v used
read_loop-Took [] idx value shift v used b h e = unfold read_loop in cc
read_loop-Took (byte ∷ rest) idx value shift v used b h e = elim (dec_lt byte 128) [
  | yes small ↦ Took-last idx value shift byte rest b small v used fit e
  | no big ↦
      let low = byte - 128 in
      let split : low + 128 ≡ byte = omega arith in
      let hl : low < 128 = omega arith in
      let n : idx ≢ 9 = λ nine. absurd (omega (arith, fit nine)) in
      let e' : read_loop ((low + 128) ∷ rest) idx value shift ≡ ok (v, used) =
        ap (λ (x : ℕ). read_loop (x ∷ rest) idx value shift) split ∙ e in
      let ih =
        read_loop-Took rest (idx + 1) (value + low * 2 ^ shift) (shift + 7) v used
          (Before_next idx value shift low b hl n) h.1
          (sym (read_more idx value shift low rest b hl n) ∙ e') in
      subst (λ (x : ℕ). Took (x ∷ rest) idx value shift v used) split
        (Took-more idx value shift low rest b hl v used ih)
]
  where
    fit : Fits idx byte
    fit = Fits-of_ok byte rest idx value shift v used h.0 e

-- `read_uvarint` accepts nothing but what `write_uvarint` writes: when it answers `value` and
-- `used` on a list of bytes, the number fits 64 bits and the input begins with the `used` bytes
-- that `write_uvarint` writes for it.
pub read_uvarint_canonical :
    (input : Bytes) (value used : ℕ)
    → All IsByte input
    → read_uvarint input ≡ ok (value, used)
    → IsU64 value
      × (used ≡ uvarint_len value)
      × (rest : Bytes) × (input ≡ write_uvarint value [] ++ rest)
unfolding read_uvarint uvarint inner_groups
read_uvarint_canonical input value used h e =
    let t = read_loop-Took input 0 0 0 value used start h e in
    let w : t.w ≡ value = omega (arith, t.value_eq) in
    let n : t.inner ≡ uvarint_len value - 1 = omega (arith, t.used_eq, t.minimal) in
    (
      t.fits,
      t.minimal,
      t.rest,
      t.bytes_eq
          ∙ ap (λ (x : Bytes). x ++ t.rest) (ap₂ groups n w ∙ sym (write_uvarint-uvarint value [])),
    )
