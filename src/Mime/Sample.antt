-- ===== src/Mime/Sample.antt =====
-- Primitives that do what is documented of them, for the tests.
use enclave_mail.Prelude.{ℕ, zero, suc, refl, [], ◌∷◌, ◌++◌, none, codes}
use enclave_mail.Prelude.Attempt.{returned}
use enclave_mail.Mime.{Bytes, Crypto, Env, EncryptedMimeBody}
use enclave_mail.Mime.RoundTrip.{IsSound}

abbrev pub zeros : ℕ → Bytes
zeros zero = []
zeros (suc n) = 0 ∷ zeros n

-- A cipher that adds a tag and changes nothing else.
abbrev pub plain_crypto : Crypto
plain_crypto = record {
  seal = λ key iv plain. (plain, zeros 16);
  unseal = λ key iv tag ciphertext. returned ciphertext;
  sha256 = λ bytes. zeros 32;
  utf8 = λ text. text;
  from_utf8 = λ bytes. bytes;
  base64 = λ bytes. bytes;
  from_base64 = λ text. text;
  from_hex = λ text. zeros 32;
}

pub plain_crypto-IsSound : IsSound plain_crypto
plain_crypto-IsSound = record {
  tag_length = λ key iv plain. refl;
  keeps_length = λ key iv plain. refl;
  unseal-seal = λ key iv plain. refl;
  from_base64-base64 = λ bytes. refl;
}

abbrev pub development : Env
development = record { mime_encryption_key = none; node_env = none }

abbrev pub hello : EncryptedMimeBody
hello = record { encrypted_mime_body = codes "hello" ++ zeros 16; mime_body_nonce = zeros 12 }
