-- ===== src/Varint/Tests.antt =====
-- Runs of the varint functions, and the theorems on concrete numbers.
use minip2p.Prelude.{◌≡◌, refl, [], ◌∷◌, ◌++◌, ◌≤◌, ◌+◌, ◌-◌, ◌^◌, arith, All, length}
use minip2p.Prelude.Bits.{IsByte, IsU64}
use minip2p.Prelude.Result.{ok, err}
use minip2p.Varint.{Bytes, overflow, non_canonical, uvarint_len, write_uvarint, read_uvarint}
use minip2p.Varint.Encode.{length-write_uvarint}
use minip2p.Varint.RoundTrip.{read_uvarint-write_uvarint}
use minip2p.Varint.Canonical.{read_uvarint_canonical}

write_300 : write_uvarint 300 [] ≡ 0xac ∷ 0x02 ∷ []
unfolding write_uvarint
write_300 = refl

read_300 : read_uvarint (0xac ∷ 0x02 ∷ 7 ∷ []) ≡ ok (300, 2)
unfolding read_uvarint
read_300 = refl

read_overlong : read_uvarint (0x80 ∷ 0x00 ∷ []) ≡ err non_canonical
unfolding read_uvarint
read_overlong = refl

abbrev ones : Bytes
ones = 0xff ∷ 0xff ∷ 0xff ∷ 0xff ∷ 0xff ∷ 0xff ∷ 0xff ∷ 0xff ∷ 0xff ∷ []

read_greatest : read_uvarint (ones ++ (0x01 ∷ [])) ≡ ok (2 ^ 64 - 1, 10)
unfolding read_uvarint
read_greatest = refl

read_too_great : read_uvarint (ones ++ (0x02 ∷ [])) ≡ err overflow
unfolding read_uvarint
read_too_great = refl

length-write_uvarint_example :
    (length (write_uvarint 300 (1 ∷ [])) ≡ 1 + uvarint_len 300) × (1 ≤ uvarint_len 300)
length-write_uvarint_example = length-write_uvarint 300 (1 ∷ [])

read_uvarint-write_uvarint_example :
    read_uvarint (write_uvarint 300 [] ++ (7 ∷ [])) ≡ ok (300, uvarint_len 300)
read_uvarint-write_uvarint_example = read_uvarint-write_uvarint 300 (7 ∷ []) (omega arith)

two_bytes : All IsByte (0xac ∷ 0x02 ∷ 7 ∷ [])
two_bytes = (omega arith, (omega arith, (omega arith, tt)))

read_uvarint_canonical_example :
    IsU64 300
    × (2 ≡ uvarint_len 300)
    × (rest : Bytes) × (0xac ∷ 0x02 ∷ 7 ∷ [] ≡ write_uvarint 300 [] ++ rest)
read_uvarint_canonical_example =
    read_uvarint_canonical (0xac ∷ 0x02 ∷ 7 ∷ []) 300 2 two_bytes read_300
