-- ===== src/Identity/Signed.antt =====
-- crates/identity/src/ed25519.rs and signed.rs: the keypair, and a payload with its signature. Generating a
-- secret key from a source of random numbers is the third-party crate's.
use minip2p.Prelude.{◌≡◌, ◌≢◌, refl, true, arith, Option, some, length}
use minip2p.Prelude.Result.{Result, ok, err}
use minip2p.Varint.{Bytes}
use minip2p.Identity.PeerId.{Multihash, PeerId}
use minip2p.Identity.PublicKey.{
  PublicKey, ed25519, VerifyError, unsupported_key_type, Ed25519, verify, from_public_key,
}

-- `SigningKey`, by the bytes of the secret key: the bytes of its verifying key, and its signature.
pub record Signing : Type 0 where
  pub verifying_key : Bytes → Bytes
  pub sign : (secret_key message : Bytes) → Bytes

pub record Ed25519Keypair : Type 0 where
  pub secret_key : Bytes
  pub public_key : Bytes

unfoldable pub from_secret_key_bytes : ⦃s : Signing⦄ → Bytes → Ed25519Keypair
from_secret_key_bytes ⦃s⦄ secret_key = record {
  secret_key = secret_key;
  public_key = s.verifying_key secret_key;
}

-- `public_key`
unfoldable pub wrapped_key : Ed25519Keypair → PublicKey
wrapped_key keypair = record { key_type = ed25519; key_data = keypair.public_key }

unfoldable pub peer_id :
    {H : Type 0} ⦃m : Multihash H⦄ (sha256 : Bytes → Bytes) → Ed25519Keypair → Option (PeerId H)
peer_id sha256 keypair = from_public_key sha256 (wrapped_key keypair)

unfoldable pub sign : ⦃s : Signing⦄ → Ed25519Keypair → (message : Bytes) → Bytes
sign ⦃s⦄ keypair message = s.sign keypair.secret_key message

pub record SignedBytes : Type 0 where
  pub public_key : PublicKey
  pub payload : Bytes
  pub signature : Bytes

unfoldable pub sign_ed25519 : ⦃s : Signing⦄ → Ed25519Keypair → (payload : Bytes) → SignedBytes
sign_ed25519 keypair payload = record {
  public_key = wrapped_key keypair;
  payload = payload;
  signature = sign keypair payload;
}

unfoldable pub verify_signed :
    (V : Type 0) ⦃c : Ed25519 V⦄ → SignedBytes → Result VerifyError (Unit {0})
verify_signed V signed = verify V signed.public_key signed.payload signed.signature

-- What the third-party crate promises: a verifying key has 32 bytes, which are read back, and accepts the
-- signatures of its secret key.
pub record IsSigning (V : Type 0) (c : Ed25519 V) (s : Signing) : Type 0 where
  pub key_of : Bytes → V
  pub key_len : (secret_key : Bytes) → length (s.verifying_key secret_key) ≡ 32
  pub key_read :
      (secret_key : Bytes) → c.from_bytes (s.verifying_key secret_key) ≡ some (key_of secret_key)
  pub accepts :
      (secret_key message : Bytes)
      → c.verify_strict (key_of secret_key) message (s.sign secret_key message) ≡ true

module _ (V : Type 0) ⦃c : Ed25519 V⦄ ⦃s : Signing⦄ (l : IsSigning V c s) where
  -- What a keypair has signed is accepted.
  pub verify-sign_ed25519 :
      (secret_key payload : Bytes)
      → verify_signed V (sign_ed25519 (from_secret_key_bytes secret_key) payload) ≡ ok tt
  unfolding verify_signed sign_ed25519 from_secret_key_bytes wrapped_key sign verify
  verify-sign_ed25519 secret_key payload =
      rw (l.key_len secret_key, l.key_read secret_key, l.accepts secret_key payload) refl

-- A payload under a key of another type is refused, whatever its signature.
pub verify_signed_other :
    (V : Type 0) ⦃c : Ed25519 V⦄ (signed : SignedBytes)
    → signed.public_key.key_type ≢ ed25519
    → verify_signed V signed ≡ err (unsupported_key_type signed.public_key.key_type)
unfolding verify_signed verify
verify_signed_other V signed h = ground arith
