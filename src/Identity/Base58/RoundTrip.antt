-- ===== src/Identity/Base58/RoundTrip.antt =====
-- Base58btc text reads back as the bytes that it was made of.
use mathlib.Core.List.{reverse, reverse-reverse}
use minip2p.Prelude.{
  ℕ, zero, suc, ◌<◌, ◌≡◌, ◌≢◌, refl, sym, ap, ◌∙◌, arith, List, [], ◌∷◌, ◌++◌, map, All,
}
use mathlib.Core.Path.{subst}
use minip2p.Prelude.Bits.{IsByte}
use minip2p.Prelude.Result.{ok}
use minip2p.Varint.{Bytes}
use minip2p.Identity.Base58.{
  Text, one, base58_char, ones, encode_digits, encode_base58, decode_chars, decode_base58,
}
use minip2p.Identity.Base58.Horner.{
  horner, horner-reverse, All-reverse, IsTight-reverse, reverse_first,
}
use minip2p.Identity.Base58.Positional.{value_of, IsTight, IsNumeral, numeral_unique, value_pos}
use minip2p.Identity.Base58.Alphabet.{char_not_one}
use minip2p.Identity.Base58.Loops.{encode_whole, decode_whole}
use minip2p.Identity.Base58.Leading.{IsPast, leading_split, decode-cons, decode_text-ones}

-- What the decoder makes of the characters behind the leading `1`s.
record Read (rest : Bytes) : Type 0 where
  past : IsPast one (map base58_char (reverse (encode_digits [] rest)))
  read :
      (index : ℕ)
      → decode_chars (map base58_char (reverse (encode_digits [] rest))) index []
        ≡ ok (reverse rest)

no_reverse : (x : ℕ) (xs : List ℕ) → [] ≢ reverse (x ∷ xs)
no_reverse x xs e = let back = sym (reverse-reverse (x ∷ xs)) ∙ ap reverse (sym e) in cc

reverse_pos : (x : ℕ) (xs : Bytes) → x ≢ 0 → 0 < value_of 256 (reverse (x ∷ xs))
reverse_pos x xs n = go (reverse (x ∷ xs)) refl (IsTight-reverse x xs n)
  where
    go : (ws : Bytes) → ws ≡ reverse (x ∷ xs) → IsTight ws → 0 < value_of 256 ws
    go [] e t = absurd (no_reverse x xs e)
    go (w ∷ ws) e t = value_pos 256 (omega arith) w ws t

cons_of : (ds : List ℕ) → 0 < value_of 58 ds → (d : ℕ) × (more : List ℕ) × (ds ≡ d ∷ more)
unfolding value_of
cons_of [] h = absurd (omega arith)
cons_of (d ∷ ds) h = (d, ds, refl)

Read-first :
    (x : ℕ) (xs : Bytes) (d : ℕ) (ds : List ℕ)
    → All IsByte (x ∷ xs)
    → x ≢ 0
    → IsNumeral 58 (d ∷ ds)
    → value_of 58 (d ∷ ds) ≡ horner 256 0 (x ∷ xs)
    → encode_digits [] (x ∷ xs) ≡ d ∷ ds
    → Read (x ∷ xs)
Read-first x xs d ds b n k v e =
    let (h, hs, r, top) = reverse_first d ds k.1 in
    let small = rw r at (All-reverse (λ (c : ℕ). c < 58) (d ∷ ds) k.0) in
    let target : value_of 256 (reverse (x ∷ xs)) ≡ horner 256 0 (x ∷ xs) =
      sym (horner-reverse 256 (reverse (x ∷ xs))) ∙ ap (horner 256 0) (reverse-reverse (x ∷ xs)) in
    record {
      past = rw (e, r) (char_not_one h small.0 top);
      read = λ index.
          let (out, f, m, w) = decode_whole h hs index small top in
          let same : value_of 256 out ≡ value_of 256 (reverse (x ∷ xs)) =
            w ∙ ap (horner 58 0) (sym r) ∙ horner-reverse 58 (d ∷ ds) ∙ v ∙ sym target in
          let all =
            numeral_unique 256 (omega arith) out (reverse (x ∷ xs)) m
              (All-reverse IsByte (x ∷ xs) b, IsTight-reverse x xs n) same in
          rw (e, r) (f ∙ ap ok all);
    }

Read-rest : (rest : Bytes) → All IsByte rest → IsPast 0 rest → Read rest
unfolding encode_digits decode_chars
Read-rest [] b p = record { past = tt; read = λ index. refl }
Read-rest (x ∷ xs) b p =
    let (k, v) = encode_whole x xs b p in
    let target : value_of 256 (reverse (x ∷ xs)) ≡ horner 256 0 (x ∷ xs) =
      sym (horner-reverse 256 (reverse (x ∷ xs))) ∙ ap (horner 256 0) (reverse-reverse (x ∷ xs)) in
    let (d, ds, e) =
      cons_of (encode_digits [] (x ∷ xs)) (omega (arith, v, target, reverse_pos x xs p)) in
    Read-first x xs d ds b p (rw e at k) (ap (value_of 58) (sym e) ∙ v) e

All-split : (xs ys : Bytes) → All IsByte (xs ++ ys) → All IsByte ys
All-split [] ys h = h
All-split (x ∷ xs) ys h = All-split xs ys h.1

-- The text of something is not empty.
text_cons :
    (b : ℕ) (bs : Bytes) (n : ℕ) (rest : Bytes)
    → b ∷ bs ≡ ones 0 n ++ rest
    → All IsByte rest
    → IsPast 0 rest
    → (c : ℕ) × (cs : Text) × (ones one n ++ map base58_char (reverse (encode_digits [] rest))
        ≡ c ∷ cs)
unfolding ones
text_cons b bs (suc n) rest e h p = (one, _, refl)
text_cons b bs zero [] e h p = cc
text_cons b bs zero (x ∷ xs) e h p =
    let (k, v) = encode_whole x xs h p in
    let target : value_of 256 (reverse (x ∷ xs)) ≡ horner 256 0 (x ∷ xs) =
      sym (horner-reverse 256 (reverse (x ∷ xs))) ∙ ap (horner 256 0) (reverse-reverse (x ∷ xs)) in
    let (d, ds, f) =
      cons_of (encode_digits [] (x ∷ xs)) (omega (arith, v, target, reverse_pos x xs p)) in
    let (c, cs, r, top) = reverse_first d ds (rw f at k).1 in
    (
      base58_char c,
      map base58_char cs,
      ap (λ ys. map base58_char (reverse ys)) f ∙ ap (map base58_char) r,
    )

-- `decode_base58` reads back the bytes that `encode_base58` was given, leading zeros included. There is
-- one byte at least: the text of no bytes is empty, which is refused.
pub decode_base58-encode_base58 :
    (b : ℕ) (bs : Bytes)
    → All IsByte (b ∷ bs)
    → decode_base58 (encode_base58 (b ∷ bs)) ≡ ok (b ∷ bs)
unfolding encode_base58
decode_base58-encode_base58 b bs h =
    let l = leading_split 0 (b ∷ bs) in
    let bytes = All-split (ones 0 l.count) l.rest (subst (All IsByte) l.split h) in
    let r = Read-rest l.rest bytes l.past in
    let (c, cs, e) = text_cons b bs l.count l.rest l.split bytes l.past in
    rw l.same (
      decode-cons _ c cs e
      ∙ decode_text-ones l.count _ (reverse l.rest) r.past (r.read l.count)
      ∙ rw (reverse-reverse l.rest, sym l.split) refl)
