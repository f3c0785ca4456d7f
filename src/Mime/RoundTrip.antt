-- ===== src/Mime/RoundTrip.antt =====
-- That what lib/mime-encryption.ts encrypts decrypts to what it was, unless it was empty.
use enclave_mail.Prelude.{
  ◌-◌, ◌≡◌, refl, sym, ◌∙◌, ap, Bool, true, false, not, [], ◌∷◌, ◌++◌, arith, Text, codes, nat_eq,
  leb, if◌then◌else◌, length, take, take-append, drop-append, length-append, is_empty,
}
use enclave_mail.Prelude.Attempt.{
  Attempt, returned, thrown, when, ◌>>=◌, >>=-eq-returned, returned_injective,
}
use enclave_mail.Mime.{
  Bytes, Crypto, Env, checked_key, encrypt_mime_body, decrypt_mime_body, open_payload,
  open_mime_body, open_at, EncryptedMimeBody, auth_tag_length, iv_length,
}

-- Two guards, the first of which passes.
guards :
    (wrong short : Bool) (nonce payload : Text) (opened : Attempt Text) (text : Text)
    → wrong ≡ false
    → opened ≡ returned text
    → when wrong nonce (when short payload opened)
      ≡ (if short then thrown payload else returned text)
guards true short nonce payload opened text hw ho = cc
guards false true nonce payload opened text hw ho = refl
guards false false nonce payload opened text hw ho = ho

-- What is documented of the primitives: GCM keeps the length and has a tag of 16 bytes, opening undoes
-- sealing, and base64 can be decoded.
pub record IsSound (crypto : Crypto) : Type 0 where
  pub tag_length : (key iv plain : Bytes) → length (crypto.seal key iv plain).1 ≡ 16
  pub keeps_length : (key iv plain : Bytes) → length (crypto.seal key iv plain).0 ≡ length plain
  pub unseal-seal :
      (key iv plain : Bytes)
      → crypto.unseal key iv (crypto.seal key iv plain).1 (crypto.seal key iv plain).0
        ≡ returned plain
  pub from_base64-base64 : (bytes : Bytes) → crypto.from_base64 (crypto.base64 bytes) ≡ bytes

module _ (crypto : Crypto) (env : Env) (sound : IsSound crypto) where
  split_at-sealed :
      (key iv plain : Bytes)
      → length ((crypto.seal key iv plain).0 ++ (crypto.seal key iv plain).1) - auth_tag_length
        ≡ length (crypto.seal key iv plain).0
  split_at-sealed key iv plain = omega (
    arith,
    length-append (crypto.seal key iv plain).0 (crypto.seal key iv plain).1,
    sound.tag_length key iv plain,
  )

  open_at-sealed :
      (key iv ciphertext tag plain : Bytes)
      → crypto.unseal key iv tag ciphertext ≡ returned plain
      → open_at crypto key iv (ciphertext ++ tag) (length ciphertext) ≡ returned plain
  open_at-sealed key iv ciphertext tag plain e =
      ap (λ t. crypto.unseal key iv t (take (length ciphertext) (ciphertext ++ tag)))
        (drop-append ciphertext tag)
      ∙ ap (crypto.unseal key iv tag) (take-append ciphertext tag)
      ∙ e

  open_payload-sealed :
      (key iv plain : Bytes)
      → open_payload crypto key iv ((crypto.seal key iv plain).0 ++ (crypto.seal key iv plain).1)
        ≡ returned plain
  unfolding open_payload
  open_payload-sealed key iv plain =
      let sealed = crypto.seal key iv plain in
      ap (open_at crypto key iv (sealed.0 ++ sealed.1)) (split_at-sealed key iv plain)
      ∙ open_at-sealed key iv sealed.0 sealed.1 plain (sound.unseal-seal key iv plain)

  -- The payload is too short exactly when nothing was sealed.
  leb-length-sealed :
      (key iv plain : Bytes)
      → leb (length ((crypto.seal key iv plain).0 ++ (crypto.seal key iv plain).1)) auth_tag_length
        ≡ is_empty plain
  leb-length-sealed key iv [] = ground (
    arith,
    length-append (crypto.seal key iv []).0 (crypto.seal key iv []).1,
    sound.tag_length key iv [],
    sound.keeps_length key iv [],
  )
  leb-length-sealed key iv (b ∷ plain) = ground (
    arith,
    length-append (crypto.seal key iv (b ∷ plain)).0 (crypto.seal key iv (b ∷ plain)).1,
    sound.tag_length key iv (b ∷ plain),
    sound.keeps_length key iv (b ∷ plain),
  )

  abbrev payload_of : Bytes → Text → Bytes → EncryptedMimeBody
  payload_of iv mime_body key = record {
    encrypted_mime_body = crypto.base64 (
        (crypto.seal key iv (crypto.utf8 mime_body)).0
        ++ (crypto.seal key iv (crypto.utf8 mime_body)).1);
    mime_body_nonce = crypto.base64 iv;
  }

  encrypted_with :
      (iv : Bytes) (mime_body : Text) (encrypted : EncryptedMimeBody)
      → encrypt_mime_body crypto env iv mime_body ≡ returned encrypted
      → (key : Bytes) × (checked_key crypto env ≡ returned key)
        × (encrypted.encrypted_mime_body
            ≡ crypto.base64 (
                (crypto.seal key iv (crypto.utf8 mime_body)).0
                ++ (crypto.seal key iv (crypto.utf8 mime_body)).1))
        × (encrypted.mime_body_nonce ≡ crypto.base64 iv)
  unfolding encrypt_mime_body
  encrypted_with iv mime_body encrypted e =
      let found =
        >>=-eq-returned (checked_key crypto env) (λ key. returned (payload_of iv mime_body key))
          encrypted e in
      let same = returned_injective (payload_of iv mime_body found.0) encrypted found.2 in
      (
        found.0,
        found.1,
        sym (ap (λ r. r.encrypted_mime_body) same),
        sym (ap (λ r. r.mime_body_nonce) same),
      )

  open_mime_body-sealed :
      (key iv plain : Bytes)
      → length iv ≡ 12
      → open_mime_body crypto key iv ((crypto.seal key iv plain).0 ++ (crypto.seal key iv plain).1)
        ≡ (if is_empty plain
            then thrown (codes "Invalid encrypted MIME body payload.")
            else returned (crypto.from_utf8 plain))
  open_mime_body-sealed key iv plain hl =
      let sealed = crypto.seal key iv plain in
      let refused = codes "Invalid encrypted MIME body payload." in
      guards (not (nat_eq (length iv) iv_length))
        (leb (length (sealed.0 ++ sealed.1)) auth_tag_length) (codes "Invalid MIME body nonce.")
        refused
        (open_payload crypto key iv (sealed.0 ++ sealed.1) >>= λ plain.
          returned (crypto.from_utf8 plain))
        (crypto.from_utf8 plain) (ground (arith, hl))
        (ap (λ r. r >>= λ plain. returned (crypto.from_utf8 plain))
          (open_payload-sealed key iv plain))
      ∙ ap (λ b. if b then thrown refused else returned (crypto.from_utf8 plain))
          (leb-length-sealed key iv plain)

  -- A message body that could be encrypted, with a nonce of 12 bytes, decrypts in the same environment to
  -- itself; the empty body, however, is refused as an invalid payload. The primitives do what they are
  -- documented to do, and the body is one that UTF-8 can express.
  pub decrypt_mime_body-encrypt_mime_body :
      (iv : Bytes) (mime_body : Text) (encrypted : EncryptedMimeBody)
      → length iv ≡ 12
      → crypto.from_utf8 (crypto.utf8 mime_body) ≡ mime_body
      → encrypt_mime_body crypto env iv mime_body ≡ returned encrypted
      → decrypt_mime_body crypto env encrypted.encrypted_mime_body encrypted.mime_body_nonce ≡ (
          if is_empty (crypto.utf8 mime_body)
          then thrown (codes "Invalid encrypted MIME body payload.")
          else returned mime_body)
  unfolding decrypt_mime_body
  decrypt_mime_body-encrypt_mime_body iv mime_body encrypted hl hu e =
      let found = encrypted_with iv mime_body encrypted e in
      let sealed = crypto.seal found.0 iv (crypto.utf8 mime_body) in
      let sealed_text = sealed.0 ++ sealed.1 in
      let iv_read = crypto.from_base64 encrypted.mime_body_nonce in
      let payload_read = crypto.from_base64 encrypted.encrypted_mime_body in
      let nonce_read = ap crypto.from_base64 found.3 ∙ sound.from_base64-base64 iv in
      ap (λ k. k >>= λ key. open_mime_body crypto key iv_read payload_read) found.1
      ∙ ap (λ n. open_mime_body crypto found.0 n payload_read) nonce_read
      ∙ ap (open_mime_body crypto found.0 iv)
          (ap crypto.from_base64 found.2 ∙ sound.from_base64-base64 sealed_text)
      ∙ open_mime_body-sealed found.0 iv (crypto.utf8 mime_body) hl
      ∙ ap
          (λ t.
            if is_empty (crypto.utf8 mime_body)
            then thrown (codes "Invalid encrypted MIME body payload.")
            else returned t)
          hu
