-- ===== src/Autonat/Frame.antt =====
-- crates/autonat/src/lib.rs: `decode_frame`, `encode_frame` and the size limit.
pub mod Laws
use minip2p.Prelude.{ℕ, ◌+◌, ◌-◌, ◌^◌, List, [], ◌∷◌, ◌++◌, ltb, if◌then◌else◌, length, take, drop}
use minip2p.Prelude.Result.{Result, ok, err}
use minip2p.Varint.{Bytes, VarintError, buffer_too_short, overflow, non_canonical, read_uvarint}
use minip2p.Frame
use minip2p.Autonat.Types.{AutoNatError, message_too_large, max_message_size}

pub data FrameDecode : Type 0 where
  complete : (payload : Bytes) (consumed : ℕ) → FrameDecode
  incomplete : FrameDecode
  too_large : (len : ℕ) → FrameDecode
  error : VarintError → FrameDecode

-- The function of the relay crate has the same text.
abbrev pub encode_frame : Bytes → Bytes
encode_frame payload = Frame.encode_frame payload

-- `used.saturating_add(len)`, in 64 bits.
abbrev pub saturating_add : ℕ → ℕ → ℕ
saturating_add used len = if ltb (2 ^ 64 - 1) (used + len) then 2 ^ 64 - 1 else used + len

unfoldable pub frame_at : Bytes → (len used : ℕ) → FrameDecode
frame_at input len used =
    if ltb max_message_size len
    then too_large len
    else (let end = saturating_add used len in
        if ltb (length input) end
        then incomplete
        else complete (take (end - used) (drop used input)) end)

unfoldable pub frame_of : Bytes → Result VarintError (ℕ × ℕ) → FrameDecode
frame_of input (err buffer_too_short) = incomplete
frame_of input (err overflow) = error overflow
frame_of input (err non_canonical) = error non_canonical
frame_of input (ok (len, used)) = frame_at input len used

unfoldable pub decode_frame : Bytes → FrameDecode
decode_frame input = frame_of input (read_uvarint input)

unfoldable pub enforce_max_size : Bytes → Result AutoNatError (Unit {0})
enforce_max_size buf =
    if ltb max_message_size (length buf) then err (message_too_large (length buf)) else ok tt
