-- ===== src/Autonat/Lossy.antt =====
-- `String::from_utf8_lossy` of the standard library: a maximal part of a sequence that is not UTF-8
-- becomes U+FFFD.
use minip2p.Prelude.{
  ℕ, zero, suc, ◌≡◌, ◌≢◌, ap, refl, ◌∙◌, arith, true, ◌&&◌, ltb, leb, if◌then◌else◌, [], ◌∷◌, ◌++◌,
  append_assoc, Bool-cases, inl, inr,
}
use minip2p.Varint.{Bytes}
use minip2p.Multistream.Utf8.{first_needs, utf8_from, is_utf8}

abbrev replacement : Bytes
replacement = 0xef ∷ 0xbf ∷ 0xbd ∷ []

-- By the first byte of a sequence: it stands alone, is no first byte, or asks for more.
abbrev by_first : ℕ → (plain bad more : Bytes) → Bytes
by_first b plain bad more =
    if ltb b 0x80 then plain else if ltb b 0xc2 then bad else if ltb 0xf4 b then bad else more

-- `part` is what has been read of a sequence that asks for `count` bytes more, the next one in a range.
lossy_from : Bytes → Bytes → (count low high : ℕ) → Bytes
lossy_from [] part zero low high = []
lossy_from [] part (suc n) low high = replacement
lossy_from (b ∷ ys) part zero low high =
    let need = first_needs b in
    let plain = b ∷ lossy_from ys [] 0 0 0 in
    let bad = replacement ++ lossy_from ys [] 0 0 0 in
    let more = lossy_from ys (b ∷ []) need.count need.low need.high in by_first b plain bad more
lossy_from (b ∷ ys) part (suc zero) low high =
    let need = first_needs b in
    let plain = b ∷ lossy_from ys [] 0 0 0 in
    let bad = replacement ++ lossy_from ys [] 0 0 0 in
    let more = lossy_from ys (b ∷ []) need.count need.low need.high in
    let whole = (part ++ (b ∷ [])) ++ lossy_from ys [] 0 0x80 0xbf in
    if leb low b && leb b high then whole else replacement ++ by_first b plain bad more
lossy_from (b ∷ ys) part (suc (suc n)) low high =
    let need = first_needs b in
    let plain = b ∷ lossy_from ys [] 0 0 0 in
    let bad = replacement ++ lossy_from ys [] 0 0 0 in
    let more = lossy_from ys (b ∷ []) need.count need.low need.high in
    let next = lossy_from ys (part ++ (b ∷ [])) (suc n) 0x80 0xbf in
    if leb low b && leb b high then next else replacement ++ by_first b plain bad more

unfoldable pub from_utf8_lossy : Bytes → Bytes
unfolding lossy_from
from_utf8_lossy text = lossy_from text [] 0 0 0

first_needs_pos : (b : ℕ) → (first_needs b).count ≢ 0
first_needs_pos b = ground arith

-- A text is left as it is; `part` is empty between two sequences.
lossy_from_utf8 :
    (ys part : Bytes) (count low high : ℕ)
    → utf8_from ys count low high ≡ true
    → (count ≡ 0 → part ≡ [])
    → lossy_from ys part count low high ≡ part ++ ys
unfolding lossy_from utf8_from
lossy_from_utf8 [] part zero low high h e = rw (e refl) refl
lossy_from_utf8 [] part (suc n) low high h e = cc
lossy_from_utf8 (b ∷ ys) part zero low high h e =
    let need = first_needs b in
    elim (Bool-cases (ltb b 0x80)) [
      | inl p ↦ rw (p, e refl) (ap (◌∷◌ b) (lossy_from_utf8 ys [] 0 0 0 (rw p at h) (λ _. refl)))
      | inr p ↦ elim (Bool-cases (ltb b 0xc2)) [
        | inl q ↦ cc (rw (p, q) at h)
        | inr q ↦ elim (Bool-cases (ltb 0xf4 b)) [
          | inl r ↦ cc (rw (p, q, r) at h)
          | inr r ↦
              rw (p, q, r, e refl)
                (lossy_from_utf8 ys (b ∷ []) need.count need.low need.high (rw (p, q, r) at h)
                  (λ z. absurd (first_needs_pos b z)))
        ]
      ]
    ]
lossy_from_utf8 (b ∷ ys) part (suc zero) low high h e =
    elim (Bool-cases (leb low b && leb b high)) [
      | inr p ↦ cc (rw p at h)
      | inl p ↦
          rw (p, lossy_from_utf8 ys [] 0 0x80 0xbf (rw p at h) (λ _. refl))
            (append_assoc part (b ∷ []) ys)
    ]
lossy_from_utf8 (b ∷ ys) part (suc (suc n)) low high h e =
    elim (Bool-cases (leb low b && leb b high)) [
      | inr p ↦ cc (rw p at h)
      | inl p ↦ rw p (
          lossy_from_utf8 ys (part ++ (b ∷ [])) (suc n) 0x80 0xbf (rw p at h)
            (λ z. absurd (omega arith))
          ∙ append_assoc part (b ∷ []) ys)
    ]

-- What is a text stays the same.
pub from_utf8_lossy_text : (text : Bytes) → is_utf8 text ≡ true → from_utf8_lossy text ≡ text
unfolding from_utf8_lossy is_utf8
from_utf8_lossy_text text h = lossy_from_utf8 text [] 0 0 0 h (λ _. refl)
