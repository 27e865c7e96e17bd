-- ===== src/Identity/Sample.antt =====
-- A small instance of the parameters for the tests: two peers, whose multihashes are one byte long.
use Prim.Native.String.{String}
use minip2p.Prelude.{zero, suc, ◌≡◌, refl, ap, arith, Bool, true, false, [], ◌∷◌, length}
use minip2p.Prelude.Bits.{IsU64}
use minip2p.Prelude.Maps.{Order}
use minip2p.Prelude.Result.{Result, ok, err}
use minip2p.Varint.{Bytes}
use minip2p.Identity.PeerId.{Multihash, IsLawful, PeerId}

pub data SampleHash : Type 0 where
  alice bob : SampleHash

abbrev hash_to_bytes : SampleHash → Bytes
hash_to_bytes alice = 0 ∷ []
hash_to_bytes bob = 1 ∷ []

abbrev hash_from_bytes : Bytes → Result String SampleHash
hash_from_bytes (zero ∷ []) = ok alice
hash_from_bytes (suc zero ∷ []) = ok bob
hash_from_bytes _ = err "no sample"

abbrev same_hash : SampleHash → SampleHash → Bool
same_hash alice alice = true
same_hash bob bob = true
same_hash _ _ = false

abbrev before_hash : SampleHash → SampleHash → Bool
before_hash alice bob = true
before_hash _ _ = false

instance abbrev pub sample_hash : Multihash SampleHash
sample_hash = record {
  code = λ h. 0;
  digest = hash_to_bytes;
  to_bytes = hash_to_bytes;
  from_bytes = hash_from_bytes;
  wrap = λ c d. err "no sample";
  same = same_hash;
}

read_back : (h : SampleHash) → hash_from_bytes (hash_to_bytes h) ≡ ok h
read_back alice = refl
read_back bob = refl

one_byte : (h : SampleHash) → IsU64 (length (hash_to_bytes h))
one_byte alice = omega arith
one_byte bob = omega arith

same_hash_refl : (h : SampleHash) → same_hash h h ≡ true
same_hash_refl alice = refl
same_hash_refl bob = refl

same_hash→eq : (a b : SampleHash) → same_hash a b ≡ true → a ≡ b
same_hash→eq alice alice e = refl
same_hash→eq alice bob e = cc
same_hash→eq bob alice e = cc
same_hash→eq bob bob e = refl

pub sample-IsLawful : IsLawful sample_hash
sample-IsLawful = record {
  from_bytes-to_bytes = read_back;
  to_bytes_len = one_byte;
  same_refl = same_hash_refl;
  same→eq = same_hash→eq;
}

pub same_id_refl : (p : PeerId SampleHash) → same_hash p.multihash p.multihash ≡ true
same_id_refl p = same_hash_refl p.multihash

pub same_id→eq : (a b : PeerId SampleHash) → same_hash a.multihash b.multihash ≡ true → a ≡ b
same_id→eq a b e =
    ap (λ (h : SampleHash). record { multihash = h }) (same_hash→eq a.multihash b.multihash e)

instance abbrev pub sample_order : Order (PeerId SampleHash)
sample_order = record {
  same = λ a b. same_hash a.multihash b.multihash;
  before = λ a b. before_hash a.multihash b.multihash;
  same_refl = same_id_refl;
  same→eq = same_id→eq;
}

abbrev pub alice_id : PeerId SampleHash
alice_id = record { multihash = alice }

abbrev pub bob_id : PeerId SampleHash
bob_id = record { multihash = bob }
