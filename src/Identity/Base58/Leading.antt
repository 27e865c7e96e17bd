-- ===== src/Identity/Base58/Leading.antt =====
-- The leading zeros of base58btc.
use mathlib.Core.List.{reverse}
use minip2p.Prelude.{
  ℕ, zero, suc, ◌≡◌, ◌≢◌, refl, ap, ◌∙◌, arith, true, false, ◌==◌, List, [], ◌∷◌, ◌++◌, inl, inr,
  Bool-cases,
}
use minip2p.Prelude.Result.{ok}
use minip2p.Varint.{Bytes}
use minip2p.Identity.Base58.{Text, one, leading, ones, decode_chars, decode_text, decode_base58}

-- A list that does not begin with `x`.
abbrev pub IsPast : ℕ → List ℕ → Type 0
IsPast x [] = Unit {0}
IsPast x (y ∷ ys) = y ≢ x

leading-ones : (x n : ℕ) (rest : List ℕ) → IsPast x rest → leading x (ones x n ++ rest) ≡ (n, rest)
unfolding leading ones
leading-ones x zero [] h = refl
leading-ones x zero (y ∷ ys) h = let e : (y == x) ≡ false = ground (arith, h) in rw e refl
leading-ones x (suc n) rest h =
    let e : (x == x) ≡ true = ground arith in rw (leading-ones x n rest h, e) refl

pub record Led (x : ℕ) (xs : List ℕ) : Type 0 where
  pub count : ℕ
  pub rest : List ℕ
  pub same : leading x xs ≡ (count, rest)
  pub split : xs ≡ ones x count ++ rest
  pub past : IsPast x rest

pub leading_split : (x : ℕ) (xs : List ℕ) → Led x xs
unfolding leading ones
leading_split x [] = record { count = 0; rest = []; same = refl; split = refl; past = tt }
leading_split x (y ∷ ys) = elim (Bool-cases (y == x)) [
  | inr e ↦ record {
    count = 0;
    rest = y ∷ ys;
    same = rw e refl;
    split = refl;
    past = (λ s. ground (arith, e, s));
  }
  | inl e ↦
      let l = leading_split x ys in
      let s : y ≡ x = ground arith in
      record {
        count = suc l.count;
        rest = l.rest;
        same = rw (e, l.same) refl;
        split = ap (◌∷◌ y) l.split ∙ ap (λ k. k ∷ (ones x l.count ++ l.rest)) s;
        past = l.past;
      }
]

pub decode-cons :
    (text : Text) (c : ℕ) (cs : Text) → text ≡ c ∷ cs → decode_base58 text ≡ decode_text text
unfolding decode_base58
decode-cons text c cs e = rw e refl

pub decode_text-ones :
    (n : ℕ) (chars : Text) (out : Bytes)
    → IsPast one chars
    → decode_chars chars n [] ≡ ok out
    → decode_text (ones one n ++ chars) ≡ ok (ones 0 n ++ reverse out)
unfolding decode_text
decode_text-ones n chars out h e = rw (leading-ones one n chars h, e) refl
