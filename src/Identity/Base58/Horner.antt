-- ===== src/Identity/Base58/Horner.antt =====
-- Digits with the highest one first: reversing a numeral, and folding over its digits.
use mathlib.Core.List.{reverse, reverse-cons}
use minip2p.Prelude.{
  ℕ, ◌+◌, ◌*◌, ◌≡◌, ◌≢◌, refl, ap, ◌∙◌, arith, List, [], ◌∷◌, ◌++◌, All, All-append,
}
use minip2p.Identity.Base58.Positional.{value_of, IsTight, IsTight-cons}

unfoldable pub horner : (base acc : ℕ) → List ℕ → ℕ
horner base acc [] = acc
horner base acc (d ∷ ds) = horner base (acc * base + d) ds

horner-append :
    (base acc : ℕ) (xs ys : List ℕ)
    → horner base acc (xs ++ ys) ≡ horner base (horner base acc xs) ys
unfolding horner
horner-append base acc [] ys = refl
horner-append base acc (x ∷ xs) ys = horner-append base (acc * base + x) xs ys

pub horner-reverse : (base : ℕ) (ds : List ℕ) → horner base 0 (reverse ds) ≡ value_of base ds
unfolding horner value_of
horner-reverse base [] = refl
horner-reverse base (d ∷ ds) =
    ap (horner base 0) (reverse-cons d ds)
    ∙ horner-append base 0 (reverse ds) (d ∷ [])
    ∙ ap (λ n. n * base + d) (horner-reverse base ds)
    ∙ omega arith

pub All-reverse {ℓ} : (P : ℕ → Type ℓ) (xs : List ℕ) → All P xs → All P (reverse xs)
All-reverse P [] h = h
All-reverse P (x ∷ xs) h =
    rw (reverse-cons x xs) (All-append P (reverse xs) (x ∷ []) (All-reverse P xs h.1) (h.0, tt))

IsTight-snoc : (xs : List ℕ) (d : ℕ) → d ≢ 0 → IsTight (xs ++ (d ∷ []))
IsTight-snoc [] d h = h
IsTight-snoc (x ∷ xs) d h =
    IsTight-cons x (xs ++ (d ∷ [])) (IsTight-snoc xs d h) (λ e. absurd (not_nil xs d e))
  where
    not_nil : (ys : List ℕ) (k : ℕ) → ys ++ (k ∷ []) ≢ []
    not_nil [] k e = cc
    not_nil (y ∷ ys) k e = cc

pub IsTight-reverse : (d : ℕ) (ds : List ℕ) → d ≢ 0 → IsTight (reverse (d ∷ ds))
IsTight-reverse d ds h = rw (reverse-cons d ds) (IsTight-snoc (reverse ds) d h)

-- The highest digit comes first.
pub reverse_first :
    (d : ℕ) (ds : List ℕ)
    → IsTight (d ∷ ds)
    → (h : ℕ) × (hs : List ℕ) × (reverse (d ∷ ds) ≡ h ∷ hs) × (h ≢ 0)
reverse_first d [] t = (d, [], refl, t)
reverse_first d (e ∷ es) t =
    let (h, hs, r, n) = reverse_first e es t in
    (h, hs ++ (d ∷ []), reverse-cons d (e ∷ es) ∙ ap (λ xs. xs ++ (d ∷ [])) r, n)
