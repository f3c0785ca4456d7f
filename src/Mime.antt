-- ===== src/Mime.antt =====
-- apps/server/src/lib/mime-encryption.ts: message bodies and attachments encrypted at rest. The primitives
-- of Node, its encodings and the process environment are parameters; the random nonce is an argument.
pub mod RoundTrip
pub mod Sample
mod Tests
use enclave_mail.Prelude.{
  ℕ, ◌-◌, Bool, true, false, ◌&&◌, ◌||◌, not, List, [], ◌∷◌, ◌++◌, Option, none, some, Text, codes,
  nat_eq, leb, if◌then◌else◌, length, take, drop, all, trim, text_eq,
}
use enclave_mail.Prelude.Attempt.{Attempt, returned, thrown, when, ◌>>=◌}

abbrev pub Bytes : Type 0
Bytes = List ℕ

-- AES-256-GCM, which gives the ciphertext and the tag, and the encodings.
pub record Crypto : Type 0 where
  pub seal : Bytes → Bytes → Bytes → Bytes × Bytes
  pub unseal : Bytes → Bytes → Bytes → Bytes → Attempt Bytes
  pub sha256 : Bytes → Bytes
  pub utf8 : Text → Bytes
  pub from_utf8 : Bytes → Text
  pub base64 : Bytes → Text
  pub from_base64 : Text → Bytes
  pub from_hex : Text → Bytes

-- `process.env`, as far as it is read.
pub record Env : Type 0 where
  pub mime_encryption_key : Option Text
  pub node_env : Option Text

abbrev pub key_length : ℕ
key_length = 32

abbrev pub iv_length : ℕ
iv_length = 12

abbrev pub auth_tag_length : ℕ
auth_tag_length = 16

abbrev pub is_hex : ℕ → Bool
is_hex c = (leb b'0' c && leb c b'9') || (leb b'a' c && leb c b'f') || (leb b'A' c && leb c b'F')

abbrev pub valid_hex_key : Option Text → Option Text
valid_hex_key none = none
valid_hex_key (some text) =
    let key_hex = trim text in
    if nat_eq (length key_hex) 64 && all is_hex key_hex then some key_hex else none

abbrev pub in_production : Option Text → Bool
in_production none = false
in_production (some text) = text_eq text (codes "production")

abbrev key_or_fallback : Crypto → Env → Option Text → Attempt Bytes
key_or_fallback crypto env (some key_hex) = returned (crypto.from_hex key_hex)
key_or_fallback crypto env none =
    when (in_production env.node_env)
      (codes "MIME_ENCRYPTION_KEY is required in production and must be 64 hex chars (32 bytes).")
      (returned (crypto.sha256 (crypto.utf8 (codes "enclave-mail-dev-mime-encryption-key-v1"))))

unfoldable pub get_mime_encryption_key : Crypto → Env → Attempt Bytes
get_mime_encryption_key crypto env =
    key_or_fallback crypto env (valid_hex_key env.mime_encryption_key)

-- The key, and its length checked.
abbrev pub checked_key : Crypto → Env → Attempt Bytes
checked_key crypto env = get_mime_encryption_key crypto env >>= λ key.
    when (not (nat_eq (length key) key_length)) (codes "MIME encryption key must be 32 bytes.")
      (returned key)

abbrev combined : Bytes × Bytes → Bytes
combined sealed = sealed.0 ++ sealed.1

pub record EncryptedMimeBody : Type 0 where
  pub encrypted_mime_body : Text
  pub mime_body_nonce : Text

unfoldable pub encrypt_mime_body : Crypto → Env → Bytes → Text → Attempt EncryptedMimeBody
encrypt_mime_body crypto env iv mime_body = checked_key crypto env >>= λ key. returned (record {
  encrypted_mime_body = crypto.base64 (combined (crypto.seal key iv (crypto.utf8 mime_body)));
  mime_body_nonce = crypto.base64 iv;
})

pub record EncryptedBlob : Type 0 where
  pub encrypted_blob : Bytes
  pub nonce : Text

unfoldable pub encrypt_blob : Crypto → Env → Bytes → Bytes → Attempt EncryptedBlob
encrypt_blob crypto env iv content = checked_key crypto env >>= λ key.
    returned
      (record { encrypted_blob = combined (crypto.seal key iv content); nonce = crypto.base64 iv })

-- The common part of the two decryptions: the tag is the end of the payload.
abbrev pub open_at : Crypto → Bytes → Bytes → Bytes → ℕ → Attempt Bytes
open_at crypto key iv payload split_at =
    crypto.unseal key iv (drop split_at payload) (take split_at payload)

unfoldable pub open_payload : Crypto → Bytes → Bytes → Bytes → Attempt Bytes
open_payload crypto key iv payload =
    open_at crypto key iv payload (length payload - auth_tag_length)

unfoldable pub decrypt_blob : Crypto → Env → Bytes → Text → Attempt Bytes
decrypt_blob crypto env encrypted_blob nonce = checked_key crypto env >>= λ key.
    when (not (nat_eq (length (crypto.from_base64 nonce)) iv_length)) (codes "Invalid blob nonce.")
      (when (leb (length encrypted_blob) auth_tag_length) (codes "Invalid encrypted blob payload.")
        (open_payload crypto key (crypto.from_base64 nonce) encrypted_blob))

abbrev pub open_mime_body : Crypto → Bytes → Bytes → Bytes → Attempt Text
open_mime_body crypto key iv payload =
    when (not (nat_eq (length iv) iv_length)) (codes "Invalid MIME body nonce.") (
      when (leb (length payload) auth_tag_length) (codes "Invalid encrypted MIME body payload.")
        (open_payload crypto key iv payload >>= λ plain. returned (crypto.from_utf8 plain)))

unfoldable pub decrypt_mime_body : Crypto → Env → Text → Text → Attempt Text
decrypt_mime_body crypto env encrypted_mime_body mime_body_nonce = checked_key crypto env >>= λ key.
    open_mime_body crypto key (crypto.from_base64 mime_body_nonce)
      (crypto.from_base64 encrypted_mime_body)
