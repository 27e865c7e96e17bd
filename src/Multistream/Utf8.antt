-- ===== src/Multistream/Utf8.antt =====
-- `core::str::from_utf8`: which bytes are a text, and equality of texts.
use minip2p.Prelude.{
  ℕ, zero, suc, ◌≡◌, arith, refl, Bool, true, false, ◌&&◌, ◌==◌, ltb, leb, if◌then◌else◌, [], ◌∷◌,
}
use minip2p.Varint.{Bytes}

-- The continuation bytes that a first byte asks for, and the range of the next one.
pub record Need : Type 0 where
  pub count : ℕ
  pub low : ℕ
  pub high : ℕ

abbrev pub first_needs : ℕ → Need
first_needs b =
    if b == 0xe0
    then record { count = 2; low = 0xa0; high = 0xbf }
    else if b == 0xed
    then record { count = 2; low = 0x80; high = 0x9f }
    else if b == 0xf0
    then record { count = 3; low = 0x90; high = 0xbf }
    else if b == 0xf4
    then record { count = 3; low = 0x80; high = 0x8f }
    else if ltb b 0xe0
    then record { count = 1; low = 0x80; high = 0xbf }
    else if ltb b 0xf0
    then record { count = 2; low = 0x80; high = 0xbf }
    else record { count = 3; low = 0x80; high = 0xbf }

unfoldable pub utf8_from : Bytes → (count low high : ℕ) → Bool
utf8_from [] zero low high = true
utf8_from [] (suc n) low high = false
utf8_from (b ∷ ys) zero low high =
    let need = first_needs b in
    let more = utf8_from ys need.count need.low need.high in
    let plain = utf8_from ys 0 0 0 in
    if ltb b 0x80 then plain else if ltb b 0xc2 then false else if ltb 0xf4 b then false else more
utf8_from (b ∷ ys) (suc n) low high =
    let more = utf8_from ys n 0x80 0xbf in if leb low b && leb b high then more else false

unfoldable pub is_utf8 : Bytes → Bool
unfolding utf8_from
is_utf8 ys = utf8_from ys 0 0 0

unfoldable pub bytes_eq : Bytes → Bytes → Bool
bytes_eq [] [] = true
bytes_eq [] (b ∷ ys) = false
bytes_eq (a ∷ xs) [] = false
bytes_eq (a ∷ xs) (b ∷ ys) = a == b && bytes_eq xs ys

pub bytes_eq_refl : (a : Bytes) → bytes_eq a a ≡ true
unfolding bytes_eq
bytes_eq_refl [] = refl
bytes_eq_refl (a ∷ xs) = ground (arith, bytes_eq_refl xs)

pub bytes_eq→eq : (a b : Bytes) → bytes_eq a b ≡ true → a ≡ b
unfolding bytes_eq
bytes_eq→eq [] [] h = refl
bytes_eq→eq [] (b ∷ ys) h = cc
bytes_eq→eq (a ∷ xs) [] h = cc
bytes_eq→eq (a ∷ xs) (b ∷ ys) h = ground (arith, bytes_eq→eq xs ys)
