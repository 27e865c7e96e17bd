-- ===== src/Identity/Base58/Alphabet.antt =====
-- The alphabet of base58btc, digit by digit.
use minip2p.Prelude.{
  ℕ, zero, suc, ◌+◌, ◌≤◌, ◌<◌, ◌≡◌, ◌≢◌, refl, sym, ap, ◌∙◌, arith, Bool, true, false, ◌&&◌, ◌==◌,
  Option, none, some, inl, inr, Bool-cases,
}
use minip2p.Identity.Base58.{one, char_at, base58_char, position_from, base58_value}

-- The alphabet, digit by digit.
abbrev is_digit : Option ℕ → ℕ → Bool
is_digit none d = false
is_digit (some v) d = v == d

round_trips : (count d : ℕ) → Bool
round_trips zero d = true
round_trips (suc n) d = is_digit (base58_value (base58_char d)) d && round_trips n (suc d)

all_digits : round_trips 58 0 ≡ true
unfolding round_trips base58_value position_from char_at
all_digits = refl

is_digit_eq : (o : Option ℕ) (d : ℕ) → is_digit o d ≡ true → o ≡ some d
is_digit_eq none d h = cc
is_digit_eq (some v) d h = ap some (ground arith)

round_trips_at :
    (count d k : ℕ)
    → round_trips count d ≡ true
    → d ≤ k
    → k < count + d
    → base58_value (base58_char k) ≡ some k
unfolding round_trips
round_trips_at zero d k h a b = absurd (omega arith)
round_trips_at (suc n) d k h a b = elim (Bool-cases (is_digit (base58_value (base58_char d)) d)) [
  | inr p ↦ cc (rw p at h)
  | inl p ↦ elim (Bool-cases (d == k)) [
    | inl e ↦
        let same : d ≡ k = ground arith in
        ap (λ n. base58_value (base58_char n)) (sym same)
        ∙ is_digit_eq (base58_value (base58_char d)) d p
        ∙ ap some same
    | inr e ↦
        let less : suc d ≤ k = ground arith in
        round_trips_at n (suc d) k (rw p at h) less (omega arith)
  ]
]

pub base58_value-char : (d : ℕ) → d < 58 → base58_value (base58_char d) ≡ some d
base58_value-char d h = round_trips_at 58 0 d all_digits (omega arith) (omega arith)

-- Only the digit 0 has the character `1`.
pub char_not_one : (d : ℕ) → d < 58 → d ≢ 0 → base58_char d ≢ one
unfolding base58_value position_from
char_not_one d h n e =
    let zero_value : base58_value one ≡ some 0 = refl in
    let other = ap base58_value (sym e) ∙ base58_value-char d h in
    n (some_eq 0 d (sym zero_value ∙ other))
  where
    some_eq : (a b : ℕ) → some a ≡ some b → b ≡ a
    some_eq a b e = cc
