-- ===== src/Prelude/Bits.antt =====
-- Masks and shifts on machine words, as arithmetic.
use Prim.Native.Nat.{
  ℕ, zero, suc, ◌+◌, ◌*◌, ◌/◌, ◌%◌, ◌^◌, ◌≤◌, ◌<◌, min, max, bit_and, bit_or, digits,
  bit_and-bitwise, bit_or-bitwise,
}
use mathlib.Core.Path.{◌≡◌, refl, ap}
use mathlib.Core.Bool.{Bool, true, ◌&&◌}
use native.Mathlib.Omega.{arith}
use native.Mathlib.Nat.{pow-suc}
use minip2p.Prelude.Tests.{◌==◌}

abbrev pub IsByte : ℕ → Type 0
IsByte b = b < 256

abbrev pub IsU32 : ℕ → Type 0
IsU32 v = v < 2 ^ 32

abbrev pub IsU64 : ℕ → Type 0
IsU64 v = v < 2 ^ 64

unfoldable pub every_below : ℕ → (ℕ → Bool) → Bool
every_below zero p = true
every_below (suc n) p = p n && every_below n p

pub every_below→eq :
    (n : ℕ) (f g : ℕ → ℕ) (x : ℕ) → every_below n (λ i. f i == g i) ≡ true → x < n → f x ≡ g x
unfolding every_below
every_below→eq zero f g x h lt = absurd (omega arith)
every_below→eq (suc n) f g x h lt = ground (arith, every_below→eq n f g x)

-- `b & 0x80` and `b | 0x80` on one byte: tables, checked by evaluation.
pub and_top : (b : ℕ) → b < 256 → bit_and b 0x80 ≡ b / 128 * 128
unfolding every_below
and_top b h = every_below→eq 256 (λ i. bit_and i 0x80) (λ i. i / 128 * 128) b refl h

pub or_top : (b : ℕ) → b < 128 → bit_or b 0x80 ≡ b + 128
unfolding every_below
or_top b h = every_below→eq 128 (λ i. bit_or i 0x80) (λ i. i + 128) b refl h

-- The native operations are recursions over binary digits with fuel; a number is fuel enough for
-- itself.
digits_enough :
    (z : ℕ → ℕ) (f : ℕ → ℕ → ℕ) (n m a b : ℕ) → a ≤ n → a ≤ m → digits z f n a b ≡ digits z f m a b
digits_enough z f zero zero a b p q = refl
digits_enough z f zero (suc m) zero b p q = refl
digits_enough z f zero (suc m) (suc a) b p q = absurd (omega arith)
digits_enough z f (suc n) zero zero b p q = refl
digits_enough z f (suc n) zero (suc a) b p q = absurd (omega arith)
digits_enough z f (suc n) (suc m) zero b p q = refl
digits_enough z f (suc n) (suc m) (suc a) b p q =
    omega (arith, digits_enough z f n m (suc a / 2) (b / 2) (omega arith) (omega arith))

or_halves : (a b : ℕ) → bit_or a b ≡ bit_or (a / 2) (b / 2) * 2 + max (a % 2) (b % 2)
or_halves zero b = omega (arith, bit_or-bitwise 0 b, bit_or-bitwise 0 (b / 2))
or_halves (suc a) b = omega (
  arith,
  bit_or-bitwise (suc a) b,
  bit_or-bitwise (suc a / 2) (b / 2),
  digits_enough (λ y. y) max a (suc a / 2) (suc a / 2) (b / 2) (omega arith) (omega arith),
)

and_halves : (a b : ℕ) → bit_and a b ≡ bit_and (a / 2) (b / 2) * 2 + min (a % 2) (b % 2)
and_halves zero b = omega (arith, bit_and-bitwise 0 b, bit_and-bitwise 0 (b / 2))
and_halves (suc a) b = omega (
  arith,
  bit_and-bitwise (suc a) b,
  bit_and-bitwise (suc a / 2) (b / 2),
  digits_enough (λ y. 0) min a (suc a / 2) (suc a / 2) (b / 2) (omega arith) (omega arith),
)

and_zero_upto : (n a : ℕ) → a ≤ n → bit_and a 0 ≡ 0
and_zero_upto n zero h = refl
and_zero_upto zero (suc a) h = absurd (omega arith)
and_zero_upto (suc n) (suc a) h =
    omega (arith, and_halves (suc a) 0, and_zero_upto n (suc a / 2) (omega arith))

and_zero : (a : ℕ) → bit_and a 0 ≡ 0
and_zero a = and_zero_upto a a (omega arith)

-- `a & 0x07` and `a & 0x7f` on a word of any width.
pub and_seven : (a : ℕ) → bit_and a 0x07 ≡ a % 8
and_seven a = omega (
  arith,
  and_halves a 7,
  and_halves (a / 2) 3,
  and_halves (a / 2 / 2) 1,
  and_zero (a / 2 / 2 / 2),
)

pub and_low : (a : ℕ) → bit_and a 0x7f ≡ a % 128
and_low a = omega (
  arith,
  and_halves a 127,
  and_halves (a / 2) 63,
  and_halves (a / 2 / 2) 31,
  and_halves (a / 2 / 2 / 2) 15,
  and_seven (a / 2 / 2 / 2 / 2),
)

double_shift : (h s : ℕ) → h * 2 ^ suc s ≡ 2 * (h * 2 ^ s)
double_shift h s = omega (arith, ap (λ (t : ℕ). h * t) (pow-suc 2 s))

-- `low | (high << s)` is a sum where `low` fits `s` bits.
pub or_shifted : (s low high : ℕ) → low < 2 ^ s → bit_or low (high * 2 ^ s) ≡ low + high * 2 ^ s
or_shifted zero zero high h = omega (arith, bit_or-bitwise 0 (high * 1))
or_shifted zero (suc low) high h = absurd (omega arith)
or_shifted (suc s) low high h = ground (
  arith,
  or_halves low (high * 2 ^ suc s),
  double_shift high s,
  pow-suc 2 s,
  or_shifted s (low / 2) high (omega (arith, pow-suc 2 s)),
)

pub and_five : (a : ℕ) → bit_and a 0x1f ≡ a % 32
and_five a = omega (arith, and_halves a 31, and_halves (a / 2) 15, and_seven (a / 2 / 2))

pub and_byte : (a : ℕ) → bit_and a 0xff ≡ a % 256
and_byte a = omega (arith, and_halves a 255, and_low (a / 2))

or_none_upto : (n a : ℕ) → a ≤ n → bit_or a 0 ≡ a
or_none_upto n zero h = omega (arith, bit_or-bitwise 0 0)
or_none_upto zero (suc a) h = absurd (omega arith)
or_none_upto (suc n) (suc a) h =
    ground (arith, or_halves (suc a) 0, or_none_upto n (suc a / 2) (omega arith))

-- `(high << s) | low` is a sum where `low` fits `s` bits.
pub or_low : (s high low : ℕ) → low < 2 ^ s → bit_or (high * 2 ^ s) low ≡ high * 2 ^ s + low
or_low zero high zero h = omega (arith, or_none_upto (high * 1) (high * 1) (omega arith))
or_low zero high (suc low) h = absurd (omega arith)
or_low (suc s) high low h = ground (
  arith,
  or_halves (high * 2 ^ suc s) low,
  double_shift high s,
  pow-suc 2 s,
  or_low s high (low / 2) (omega (arith, pow-suc 2 s)),
)
