-- ===== src/Identity/Base32.antt =====
-- crates/identity/src/peer_id.rs: base32 without padding. A char is the number of its code point.
pub mod Digits
pub mod RoundTrip
use Prim.Native.Nat.{bit_and, bit_or}
use minip2p.Prelude.{
  ℕ, zero, suc, ◌+◌, ◌-◌, ◌*◌, ◌/◌, ◌%◌, ◌^◌, Bool, true, false, ◌&&◌, List, [], ◌∷◌, ◌++◌, map,
  Option, none, some, leb, ltb, if◌then◌else◌,
}
use minip2p.Prelude.Result.{Result, ok, err, ◌>>=◌, ok_or}
use minip2p.Varint.{Bytes}
use minip2p.Identity.PeerId.{PeerIdError, invalid_base32_character}
use minip2p.Identity.Base58.{Text, char_at}

-- `BASE32_ALPHABET_LOWER`
abbrev pub base32_alphabet : List ℕ
base32_alphabet =
    0x61 ∷ 0x62 ∷ 0x63 ∷ 0x64 ∷ 0x65 ∷ 0x66 ∷ 0x67 ∷ 0x68 ∷ 0x69 ∷ 0x6a ∷ 0x6b ∷ 0x6c ∷ 0x6d ∷ 0x6e
    ∷ 0x6f ∷ 0x70 ∷ 0x71 ∷ 0x72 ∷ 0x73 ∷ 0x74 ∷ 0x75 ∷ 0x76 ∷ 0x77 ∷ 0x78 ∷ 0x79 ∷ 0x7a ∷ 0x32
    ∷ 0x33 ∷ 0x34 ∷ 0x35 ∷ 0x36 ∷ 0x37 ∷ []

abbrev pub base32_char : ℕ → ℕ
base32_char d = char_at base32_alphabet d

-- `while bits >= 5 { … }`: what is pushed, and the bits that are left. A round takes bits, so that their
-- number is enough fuel.
unfoldable pub take_digits : (fuel buffer bits : ℕ) → List ℕ × ℕ
take_digits zero buffer bits = ([], bits)
take_digits (suc fuel) buffer bits =
    let (ds, left) = take_digits fuel buffer (bits - 5) in
    if leb 5 bits then (bit_and (buffer / 2 ^ (bits - 5)) 0x1f ∷ ds, left) else ([], bits)

-- The loop over the bytes, and the digit for the bits that remain; `buffer` has 16 bits.
unfoldable pub base32_digits : Bytes → (buffer bits : ℕ) → List ℕ
base32_digits [] buffer bits =
    if ltb 0 bits then bit_and (buffer * 2 ^ (5 - bits) % 2 ^ 16) 0x1f ∷ [] else []
base32_digits (byte ∷ input) buffer bits =
    let buffer' = bit_or (buffer * 2 ^ 8 % 2 ^ 16) byte in
    let (ds, left) = take_digits (bits + 8) buffer' (bits + 8) in
    ds ++ base32_digits input buffer' left

unfoldable pub encode_base32_nopad_lower : Bytes → Text
encode_base32_nopad_lower input = map base32_char (base32_digits input 0 0)

-- `to_ascii_lowercase`
abbrev pub to_ascii_lowercase : ℕ → ℕ
to_ascii_lowercase c = if leb 0x41 c && leb c 0x5a then c + 32 else c

unfoldable pub base32_value : ℕ → Option ℕ
base32_value c =
    let lower = to_ascii_lowercase c in
    if leb 0x61 lower && leb lower 0x7a
    then some (lower - 0x61)
    else if leb 0x32 lower && leb lower 0x37
    then some (26 + (lower - 0x32))
    else none

-- One round of the loop: `buffer` has 32 bits, and at most one byte is complete, since fewer than 8 bits
-- are left over from the round before.
unfoldable pub decode_base32_chars :
    Text → (index buffer bits : ℕ) → Bytes → Result PeerIdError Bytes
decode_base32_chars [] index buffer bits out = ok out
decode_base32_chars (ch ∷ chs) index buffer bits out = do
  value ← ok_or (base32_value ch) (invalid_base32_character ch index)
  let buffer' = bit_or (buffer * 2 ^ 5 % 2 ^ 32) value
  let bits' = bits + 5
  (if leb 8 bits'
      then decode_base32_chars chs (suc index) buffer' (bits' - 8)
          (out ++ (bit_and (buffer' / 2 ^ (bits' - 8)) 0xff ∷ []))
      else decode_base32_chars chs (suc index) buffer' bits' out)

unfoldable pub decode_base32_nopad : Text → Result PeerIdError Bytes
decode_base32_nopad input = decode_base32_chars input 0 0 0 []
