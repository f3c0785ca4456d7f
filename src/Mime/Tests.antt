-- ===== src/Mime/Tests.antt =====
-- The theorem on lib/mime-encryption.ts at a concrete input.
use enclave_mail.Prelude.{◌≡◌, refl, codes}
use enclave_mail.Prelude.Attempt.{returned}
use enclave_mail.Mime.{get_mime_encryption_key, encrypt_mime_body, decrypt_mime_body}
use enclave_mail.Mime.RoundTrip.{decrypt_mime_body-encrypt_mime_body}
use enclave_mail.Mime.Sample.{zeros, plain_crypto, plain_crypto-IsSound, development, hello}

encrypt_hello :
    encrypt_mime_body plain_crypto development (zeros 12) (codes "hello") ≡ returned hello
unfolding encrypt_mime_body get_mime_encryption_key
encrypt_hello = refl

decrypt_mime_body-encrypt_mime_body_example :
    decrypt_mime_body plain_crypto development hello.encrypted_mime_body hello.mime_body_nonce
    ≡ returned (codes "hello")
decrypt_mime_body-encrypt_mime_body_example =
    decrypt_mime_body-encrypt_mime_body plain_crypto development plain_crypto-IsSound (zeros 12)
      (codes "hello") hello refl refl encrypt_hello
