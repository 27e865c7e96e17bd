-- ===== src/Varint.antt =====
-- crates/identity/src/peer_id.rs: unsigned varints (`uvarint_len`, `write_uvarint`, `read_uvarint`).
pub mod Encode
pub mod Decode
pub mod RoundTrip
pub mod Canonical
pub mod Stream
mod Tests
use Prim.Native.Nat.{bit_and, bit_or}
use mathlib.Core.Logic.{dite}
use mathlib.Core.WellFounded.{Acc}
use native.Mathlib.Decide.{dec_lt}
use minip2p.Prelude.{
  ℕ, ◌+◌, ◌*◌, ◌/◌, ◌%◌, ◌^◌, ◌≤◌, ◌<◌, not, ◌&&◌, ◌||◌, List, [], ◌∷◌, ◌++◌, arith, ltb, leb, ◌==◌,
  if◌then◌else◌,
}
use minip2p.Prelude.Order.{lt_wf}
use minip2p.Prelude.Result.{Result, ok, err}

abbrev pub Bytes : Type 0
Bytes = List ℕ

pub data VarintError : Type 0 where
  buffer_too_short overflow non_canonical : VarintError

pub len_loop : (value len : ℕ) → Acc ◌<◌ value → ℕ
len_loop value len (Acc.intro _ smaller) =
    dite (dec_lt 127 value)
      (λ more. len_loop (value / 128) (len + 1) (smaller (value / 128) (omega arith))) (λ _. len)

unfoldable pub uvarint_len : ℕ → ℕ
unfolding len_loop lt_wf dec_lt
uvarint_len value = len_loop value 1 (lt_wf.apply value)

-- `byte |= 0x80` while the shifted value is not zero.
pub write_loop : (value : ℕ) → Bytes → Acc ◌<◌ value → Bytes
write_loop value out (Acc.intro _ smaller) =
    let byte = bit_and value 0x7f % 256 in
    dite (dec_lt 0 (value / 128))
      (λ more.
        write_loop (value / 128) (out ++ (bit_or byte 0x80 ∷ []))
          (smaller (value / 128) (omega arith)))
      (λ _. out ++ (byte ∷ []))

unfoldable pub write_uvarint : ℕ → Bytes → Bytes
unfolding write_loop lt_wf dec_lt
write_uvarint value out = write_loop value out (lt_wf.apply value)

-- `input` is what the loop has not reached, `idx` the position of its first byte.
pub read_loop : Bytes → (idx value shift : ℕ) → Result VarintError (ℕ × ℕ)
read_loop [] idx value shift = err buffer_too_short
read_loop (byte ∷ rest) idx value shift =
    let low = bit_and byte 0x7f in
    let value' = bit_or value (low * 2 ^ shift % 2 ^ 64) in
    let more = read_loop rest (idx + 1) value' (shift + 7) in
    if leb 10 idx
    then err overflow
    else if idx == 9 && (not (bit_and byte 0x80 == 0) || ltb 1 byte)
    then err overflow
    else if bit_and byte 0x80 == 0
    then (if not (idx + 1 == uvarint_len value') then err non_canonical else ok (value', idx + 1))
    else more

unfoldable pub read_uvarint : Bytes → Result VarintError (ℕ × ℕ)
unfolding read_loop uvarint_len
read_uvarint input = read_loop input 0 0 0
