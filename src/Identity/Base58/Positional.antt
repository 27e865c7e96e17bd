-- ===== src/Identity/Base58/Positional.antt =====
-- Numbers as lists of digits, the lowest one first, and what one round of the loops does to them.
use minip2p.Prelude.{
  ℕ, zero, suc, ◌+◌, ◌*◌, ◌/◌, ◌%◌, ◌≤◌, ◌<◌, ◌≡◌, ◌≢◌, refl, sym, ap, ◌∙◌, arith, List, [], ◌∷◌,
  All,
}
use native.Mathlib.Decide.{dec_lt}
use native.Mathlib.Nat.{mul-le-mul_left, mul-le-mul_right}
use minip2p.Identity.Base58.{mul_add, carry_digits, push_digit}

unfoldable pub value_of : (base : ℕ) → List ℕ → ℕ
value_of base [] = 0
value_of base (d ∷ ds) = d + base * value_of base ds

-- The highest digit is not zero.
abbrev pub IsTight : List ℕ → Type 0
IsTight [] = Unit {0}
IsTight (d ∷ []) = d ≢ 0
IsTight (d ∷ e ∷ es) = IsTight (e ∷ es)

-- Digits of a base, without a leading zero.
abbrev pub IsNumeral : ℕ → List ℕ → Type 0
IsNumeral base ds = All (λ (d : ℕ). d < base) ds × IsTight ds

pub push_nil : (base mult value : ℕ) → push_digit base mult [] value ≡ carry_digits base value value
unfolding push_digit mul_add
push_nil base mult value = refl

pub push_cons :
    (base mult d : ℕ) (ds : List ℕ) (value : ℕ)
    → push_digit base mult (d ∷ ds) value
      ≡ (d * mult + value) % base ∷ push_digit base mult ds ((d * mult + value) / base)
unfolding push_digit mul_add
push_cons base mult d ds value = refl

division : (n b : ℕ) → 0 < b → (b * (n / b) + n % b ≡ n) × (n % b < b)
division n b h = (omega arith, omega arith)

step_value :
    (d mult c b V q r : ℕ)
    → b * q + r ≡ d * mult + c
    → r + b * (V * mult + q) ≡ (d + b * V) * mult + c
step_value d mult c b V q r e = omega (arith, e)

lowest_eq : (d e b V W : ℕ) → d < b → e < b → d + b * V ≡ e + b * W → (d ≡ e) × (V ≡ W)
lowest_eq d e b V W h k s = elim (dec_lt V W) [
  | yes less ↦ let m : b * suc V ≤ b * W = mul-le-mul_left b less in absurd (omega arith)
  | no less ↦ elim (dec_lt W V) [
    | yes more ↦ let m : b * suc W ≤ b * V = mul-le-mul_left b more in absurd (omega arith)
    | no more ↦ let same : V ≡ W = omega arith in (omega (arith, ap (◌*◌ b) same), same)
  ]
]

pub IsTight-cons : (d : ℕ) (ds : List ℕ) → IsTight ds → (ds ≡ [] → d ≢ 0) → IsTight (d ∷ ds)
IsTight-cons d [] t h = h refl
IsTight-cons d (e ∷ es) t h = t

IsTight-tail : (d : ℕ) (ds : List ℕ) → IsTight (d ∷ ds) → IsTight ds
IsTight-tail d [] t = tt
IsTight-tail d (e ∷ es) t = t

no_digits : (n b q r : ℕ) → q ≡ 0 → b * q + r ≡ n → r ≡ 0 → 0 < n → ⊥
no_digits n b q r e s z p = let m = ap (◌*◌ b) e in omega arith

module _ (base : ℕ) (big : 1 < base) where
  pub value_pos : (d : ℕ) (ds : List ℕ) → IsTight (d ∷ ds) → 0 < value_of base (d ∷ ds)
  unfolding value_of
  value_pos d [] t = omega (arith, t)
  value_pos d (e ∷ es) t = let p = value_pos e es t in grind arith

  -- A number has one numeral.
  pub numeral_unique :
      (ds es : List ℕ)
      → IsNumeral base ds
      → IsNumeral base es
      → value_of base ds ≡ value_of base es
      → ds ≡ es
  unfolding value_of
  numeral_unique [] [] h k s = refl
  numeral_unique [] (e ∷ es) h k s = absurd (omega (arith, value_pos e es k.1))
  numeral_unique (d ∷ ds) [] h k s = absurd (omega (arith, value_pos d ds h.1))
  numeral_unique (d ∷ ds) (e ∷ es) h k s =
      let (x, y) = lowest_eq d e base (value_of base ds) (value_of base es) h.0.0 k.0.0 s in
      let tails =
        numeral_unique ds es (h.0.1, IsTight-tail d ds h.1) (k.0.1, IsTight-tail e es k.1) y in
      ap (λ n. n ∷ ds) x ∙ ap (◌∷◌ e) tails

  shrinks : (n : ℕ) → 0 < n → n / base < n
  shrinks n k = grind arith

  carry_value :
      (fuel carry : ℕ) → carry ≤ fuel → value_of base (carry_digits base fuel carry) ≡ carry
  unfolding value_of carry_digits
  carry_value zero carry h = omega arith
  carry_value (suc fuel) zero h = refl
  carry_value (suc fuel) (suc c) h =
      let rest = carry_value fuel (suc c / base) (omega (arith, shrinks (suc c) (omega arith))) in
      let (q, r) = division (suc c) base (omega arith) in omega (arith, ap (◌*◌ base) rest, q)

  carry-IsNumeral : (fuel carry : ℕ) → carry ≤ fuel → IsNumeral base (carry_digits base fuel carry)
  unfolding carry_digits value_of
  carry-IsNumeral zero carry h = (tt, tt)
  carry-IsNumeral (suc fuel) zero h = (tt, tt)
  carry-IsNumeral (suc fuel) (suc c) h =
      let k : suc c / base ≤ fuel = omega (arith, shrinks (suc c) (omega arith)) in
      let (a, t) = carry-IsNumeral fuel (suc c / base) k in
      let (q, r) = division (suc c) base (omega arith) in
      let v = carry_value fuel (suc c / base) k in
      (
        (r, a),
        IsTight-cons (suc c % base) (carry_digits base fuel (suc c / base)) t (λ e z.
            no_digits (suc c) base (suc c / base) (suc c % base) (sym v ∙ ap (value_of base) e) q z
              (omega arith)),
      )

  module _ (mult : ℕ) (pos : 0 < mult) where
    lowest_zero :
        (d : ℕ) (ds : List ℕ) (value v : ℕ)
        → v ≡ d * mult + value
        → IsTight (d ∷ ds)
        → value_of base ds * mult + v / base ≡ 0
        → base * (v / base) + v % base ≡ v
        → v % base ≡ 0
        → ⊥
    unfolding value_of
    lowest_zero d [] value v e t n q z =
        let k : v / base ≡ 0 = omega arith in
        let m : 1 * mult ≤ d * mult = mul-le-mul_right mult (omega (arith, t)) in
        no_digits v base (v / base) (v % base) k q z (omega arith)
    lowest_zero d (x ∷ xs) value v e t n q z =
        let p = value_pos x xs t in
        let m : 1 * mult ≤ value_of base (x ∷ xs) * mult = mul-le-mul_right mult p in
        omega (arith, n, m)

    pub push_value :
        (ds : List ℕ) (value : ℕ)
        → value_of base (push_digit base mult ds value) ≡ value_of base ds * mult + value
    unfolding value_of
    push_value [] value =
        ap (value_of base) (push_nil base mult value)
        ∙ carry_value value value (omega arith)
        ∙ omega arith
    push_value (d ∷ ds) value =
        let v = d * mult + value in
        let (q, r) = division v base (omega arith) in
        ap (value_of base) (push_cons base mult d ds value)
        ∙ ap (λ n. v % base + base * n) (push_value ds (v / base))
        ∙ step_value d mult value base (value_of base ds) (v / base) (v % base) q

    pub push-IsNumeral :
        (ds : List ℕ) (value : ℕ)
        → IsNumeral base ds
        → IsNumeral base (push_digit base mult ds value)
    unfolding value_of
    push-IsNumeral [] value h =
        rw (push_nil base mult value) (carry-IsNumeral value value (omega arith))
    push-IsNumeral (d ∷ ds) value h =
        let v = d * mult + value in
        let (q, r) = division v base (omega arith) in
        let (a, t) = push-IsNumeral ds (v / base) (h.0.1, IsTight-tail d ds h.1) in
        let n = push_value ds (v / base) in
        rw (push_cons base mult d ds value) (
          (r, a),
          IsTight-cons (v % base) (push_digit base mult ds (v / base)) t
              (λ e z. lowest_zero d ds value v refl h.1 (sym n ∙ ap (value_of base) e) q z),
        )
