-- ===== src/Inbound/Encryptor.antt =====
-- apps/server/src/smtp/encrypt.ts: the encryption of a message for the public key of its recipient. The
-- primitives are parameters; the n-th nonce of an encryptor is `nonce n`.
use enclave_mail.Prelude.{ℕ, List, [], Text, codes}
use enclave_mail.Prelude.Attempt.{Attempt, returned, ◌>>=◌}

abbrev pub Bytes : Type 0
Bytes = List ℕ

-- The ephemeral key pair is drawn for each encryptor: the private key, then the public one.
pub record Cipher : Type 0 where
  pub generate_key_pair : Bytes → Bytes × Bytes
  pub compute_shared_secret : Bytes → Bytes → Attempt Bytes
  pub hkdf_sha256 : Bytes → Bytes → Bytes → ℕ → Bytes
  pub nonce : ℕ → Bytes
  pub chacha20_poly1305 : Bytes → Bytes → Bytes → Bytes
  pub hex : Bytes → Text

pub record PayloadMetadata : Type 0 where
  pub algorithm : Text
  pub ephemeral_public_key : Text
  pub nonce : Text

pub record EncryptedPayload : Type 0 where
  pub ciphertext : Bytes
  pub nonce : Bytes
  pub ephemeral_public_key : Bytes
  pub encryption_metadata : PayloadMetadata

abbrev hkdf_info : Bytes
hkdf_info = codes "enclave-inbound-v1"

abbrev encrypt_with : Cipher → Bytes → Bytes → ℕ → Bytes → EncryptedPayload
encrypt_with cipher ephemeral_public_key symmetric_key n plaintext = record {
  ciphertext = cipher.chacha20_poly1305 symmetric_key (cipher.nonce n) plaintext;
  nonce = cipher.nonce n;
  ephemeral_public_key = ephemeral_public_key;
  encryption_metadata = record {
    algorithm = codes "x25519-chacha20poly1305";
    ephemeral_public_key = cipher.hex ephemeral_public_key;
    nonce = cipher.hex (cipher.nonce n);
  };
}

unfoldable pub create_recipient_encryptor : Cipher → Bytes → Attempt (ℕ → Bytes → EncryptedPayload)
create_recipient_encryptor cipher recipient_public_key =
    let ephemeral = cipher.generate_key_pair recipient_public_key in
    cipher.compute_shared_secret ephemeral.0 recipient_public_key >>= λ secret.
    returned (encrypt_with cipher ephemeral.1 (cipher.hkdf_sha256 secret [] hkdf_info 32))

unfoldable pub encrypt_for_recipient : Cipher → Bytes → Bytes → Attempt EncryptedPayload
encrypt_for_recipient cipher plaintext recipient_public_key =
    create_recipient_encryptor cipher recipient_public_key >>= λ encrypt.
    returned (encrypt 0 plaintext)
