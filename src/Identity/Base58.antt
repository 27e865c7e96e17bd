-- ===== src/Identity/Base58.antt =====
-- crates/identity/src/peer_id.rs: base58btc. A `&str` is the list of its chars, a char the number of its
-- code point. The digits are bytes and the carries stay below 2 ^ 16, so that no sum of the loops wraps.
pub mod Positional
pub mod Horner
pub mod Alphabet
pub mod Loops
pub mod Leading
pub mod RoundTrip
use mathlib.Core.List.{foldl, reverse}
use minip2p.Prelude.{
  ℕ, zero, suc, ◌+◌, ◌*◌, ◌/◌, ◌%◌, Bool, true, false, List, [], ◌∷◌, ◌++◌, map, Option, none, some,
  ◌==◌, if◌then◌else◌,
}
use minip2p.Prelude.Result.{Result, ok, err, ◌>>=◌, ok_or}
use minip2p.Varint.{Bytes}
use minip2p.Identity.PeerId.{PeerIdError, empty_input, invalid_base58_character}

abbrev pub Text : Type 0
Text = List ℕ

-- `BASE58_ALPHABET`
abbrev pub base58_alphabet : List ℕ
base58_alphabet =
    0x31 ∷ 0x32 ∷ 0x33 ∷ 0x34 ∷ 0x35 ∷ 0x36 ∷ 0x37 ∷ 0x38 ∷ 0x39 ∷ 0x41 ∷ 0x42 ∷ 0x43 ∷ 0x44 ∷ 0x45
    ∷ 0x46 ∷ 0x47 ∷ 0x48 ∷ 0x4a ∷ 0x4b ∷ 0x4c ∷ 0x4d ∷ 0x4e ∷ 0x50 ∷ 0x51 ∷ 0x52 ∷ 0x53 ∷ 0x54
    ∷ 0x55 ∷ 0x56 ∷ 0x57 ∷ 0x58 ∷ 0x59 ∷ 0x5a ∷ 0x61 ∷ 0x62 ∷ 0x63 ∷ 0x64 ∷ 0x65 ∷ 0x66 ∷ 0x67
    ∷ 0x68 ∷ 0x69 ∷ 0x6a ∷ 0x6b ∷ 0x6d ∷ 0x6e ∷ 0x6f ∷ 0x70 ∷ 0x71 ∷ 0x72 ∷ 0x73 ∷ 0x74 ∷ 0x75
    ∷ 0x76 ∷ 0x77 ∷ 0x78 ∷ 0x79 ∷ 0x7a ∷ []

-- The character `1`.
abbrev pub one : ℕ
one = 0x31

-- `BASE58_ALPHABET[digit as usize] as char`; a digit is below 58.
unfoldable pub char_at : List ℕ → ℕ → ℕ
char_at [] d = 0
char_at (c ∷ cs) zero = c
char_at (c ∷ cs) (suc d) = char_at cs d

abbrev pub base58_char : ℕ → ℕ
base58_char d = char_at base58_alphabet d

-- `position(|v| *v == …)`, from `idx` on.
unfoldable pub position_from : List ℕ → (c idx : ℕ) → Option ℕ
position_from [] c idx = none
position_from (v ∷ vs) c idx = if v == c then some idx else position_from vs c (suc idx)

-- `c as u8` keeps the lowest byte of the code point.
unfoldable pub base58_value : ℕ → Option ℕ
base58_value c = position_from base58_alphabet (c % 256) 0

-- `for digit in &mut digits { … }`, from base `mult` to base `base`; the carry that is left.
unfoldable pub mul_add : (base mult : ℕ) → List ℕ → (carry : ℕ) → List ℕ × ℕ
mul_add base mult [] carry = ([], carry)
mul_add base mult (d ∷ ds) carry =
    let value = d * mult + carry in
    let (ds', carry') = mul_add base mult ds (value / base) in (value % base ∷ ds', carry')

-- `while carry > 0 { … }`: what is pushed. Each round makes the carry smaller, so that the carry is enough
-- fuel.
unfoldable pub carry_digits : (base fuel carry : ℕ) → List ℕ
carry_digits base zero carry = []
carry_digits base (suc fuel) zero = []
carry_digits base (suc fuel) (suc c) = suc c % base ∷ carry_digits base fuel (suc c / base)

-- The two loops.
unfoldable pub push_digit : (base mult : ℕ) → List ℕ → ℕ → List ℕ
push_digit base mult ds value =
    let (ds', carry) = mul_add base mult ds value in ds' ++ carry_digits base carry carry

-- `if digits.is_empty() { digits.push(0); }`
abbrev pub or_zero : List ℕ → List ℕ
or_zero [] = 0 ∷ []
or_zero (d ∷ ds) = d ∷ ds

-- `take_while(|x| x == …).count()`, and what is behind those.
unfoldable pub leading : ℕ → List ℕ → ℕ × List ℕ
leading x [] = (0, [])
leading x (y ∷ ys) = let (n, rest) = leading x ys in if y == x then (suc n, rest) else (0, y ∷ ys)

unfoldable pub ones : ℕ → ℕ → List ℕ
ones x zero = []
ones x (suc n) = x ∷ ones x n

-- The loop over the bytes.
unfoldable pub encode_digits : List ℕ → Bytes → List ℕ
encode_digits digits input = foldl (λ ds byte. or_zero (push_digit 58 256 ds byte)) digits input

unfoldable pub encode_base58 : Bytes → Text
encode_base58 input =
    let (leading_zeros, rest) = leading 0 input in
    ones one leading_zeros ++ map base58_char (reverse (encode_digits [] rest))

-- The loop over the characters.
unfoldable pub decode_chars : Text → (index : ℕ) → Bytes → Result PeerIdError Bytes
decode_chars [] index bytes = ok bytes
decode_chars (ch ∷ chs) index bytes = do
  value ← ok_or (base58_value ch) (invalid_base58_character ch index)
  decode_chars chs (suc index) (push_digit 256 58 (or_zero bytes) value)

unfoldable pub decode_text : Text → Result PeerIdError Bytes
decode_text text =
    let (leading_zeros, rest) = leading one text in
    do bytes ← decode_chars rest leading_zeros []; ok (ones 0 leading_zeros ++ reverse bytes)

unfoldable pub decode_base58 : Text → Result PeerIdError Bytes
decode_base58 [] = err empty_input
decode_base58 (c ∷ cs) = decode_text (c ∷ cs)
