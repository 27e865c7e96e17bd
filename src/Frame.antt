-- ===== src/Frame.antt =====
-- Length-prefixed frames: `decode_frame` and `encode_frame` of crates/relay/src/message.rs; the
-- copies in crates/dcutr/src/message.rs have the same text.
pub mod Laws
pub mod Stream
mod Tests
use minip2p.Prelude.{
  ℕ, ◌+◌, ◌-◌, ◌%◌, ◌^◌, List, [], ◌∷◌, ◌++◌, ltb, if◌then◌else◌, length, take, drop,
}
use minip2p.Prelude.Result.{Result, ok, err}
use minip2p.Varint.{
  Bytes, VarintError, buffer_too_short, overflow, non_canonical, read_uvarint, write_uvarint,
}

-- `panicked` is no Rust value: the slice `input[used..total]` has its end before its start.
pub data FrameDecode : Type 0 where
  complete : (payload : Bytes) (consumed : ℕ) → FrameDecode
  incomplete : FrameDecode
  error : VarintError → FrameDecode
  panicked : FrameDecode

-- `total` is computed in 64 bits, wrapping as a release build does.
pub frame_at : Bytes → (len used : ℕ) → FrameDecode
frame_at input len used =
    let total = (used + len) % 2 ^ 64 in
    if ltb (length input) total
    then incomplete
    else if ltb total used
    then panicked
    else complete (take (total - used) (drop used input)) total

pub frame_of : Bytes → Result VarintError (ℕ × ℕ) → FrameDecode
frame_of input (err buffer_too_short) = incomplete
frame_of input (err overflow) = error overflow
frame_of input (err non_canonical) = error non_canonical
frame_of input (ok (len, used)) = frame_at input len used

unfoldable pub decode_frame : Bytes → FrameDecode
unfolding frame_of frame_at
decode_frame [] = incomplete
decode_frame (b ∷ bs) = frame_of (b ∷ bs) (read_uvarint (b ∷ bs))

unfoldable pub encode_frame : Bytes → Bytes
encode_frame payload = write_uvarint (length payload) [] ++ payload
