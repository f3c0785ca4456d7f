-- ===== src/Ratchet/Agreement.antt =====
-- Two sessions in step: what the one encrypts the other decrypts.
use enclave_mail.Prelude.{
  ℕ, zero, suc, ◌+◌, ◌-◌, ◌≤◌, ◌≡◌, refl, ◌∙◌, ap, false, List, [], ◌∷◌, ◌++◌, map, Option, none,
  some, arith, ltb, length, length-append, take, drop, text_eq_refl, All, if◌then◌else◌,
}
use enclave_mail.Ratchet.{
  Bytes, Primitives, RatchetSession, EncryptedMessage, key_length, nonce_length, and_then,
  arrays_equal, assert_key_length, uint32, serialize_header, header_cache_key, map_get, kdf_chain,
  decrypt_with_message_key, skip_message_keys, skip_from, skip_loop, header_of, encrypt_message,
  follow_ratchet, decrypt_next, decrypt_ahead, decrypt_with_cache, decrypt_message,
}

-- What the code relies on in the libraries: a cipher text opens to its plain text and is 16 bytes
-- longer, and a public key has 32 bytes.
pub record Laws (p : Primitives) : Type 0 where
  pub opens : (k n a m : Bytes) → p.decrypt k n a (p.encrypt k n a m) ≡ some m
  pub grows : (k n a m : Bytes) → length (p.encrypt k n a m) ≡ length m + 16
  pub public_length : (k : Bytes) → length (p.get_public_key k) ≡ key_length

pub take_first : (n : ℕ) (xs ys : Bytes) → length xs ≡ n → take n (xs ++ ys) ≡ xs
take_first zero [] ys e = refl
take_first zero (x ∷ xs) ys e = absurd (omega arith)
take_first (suc n) [] ys e = absurd (omega arith)
take_first (suc n) (x ∷ xs) ys e = ap (λ zs. x ∷ zs) (take_first n xs ys (omega arith))

drop_first : (n : ℕ) (xs ys : Bytes) → length xs ≡ n → drop n (xs ++ ys) ≡ ys
drop_first zero [] ys e = refl
drop_first zero (x ∷ xs) ys e = absurd (omega arith)
drop_first (suc n) [] ys e = absurd (omega arith)
drop_first (suc n) (x ∷ xs) ys e = drop_first n xs ys (omega arith)

module _ (p : Primitives) (laws : Laws p) where
  -- The receiver `r` follows the sender `s` on the chain with the key `chain_key`.
  pub record InStep (s r : RatchetSession) (chain_key : Bytes) : Type 0 where
    pub sends : s.sending_chain_key ≡ some chain_key
    pub receives : r.receiving_chain_key ≡ some chain_key
    pub same_key : r.dh_receiving_key ≡ some (p.get_public_key s.dh_sending_key)
    pub same_number : s.sending_message_number ≡ r.receiving_message_number
    pub uncached :
        (n : ℕ)
        → r.receiving_message_number ≤ n
        → map_get (header_cache_key (p.get_public_key s.dh_sending_key) n) r.skipped_message_keys
          ≡ none

  header_bytes : RatchetSession → Bytes
  header_bytes s =
      p.get_public_key s.dh_sending_key
      ++ (uint32 s.sending_message_number ++ uint32 s.previous_sending_chain_length)

  serialize_header-header_of :
      (s : RatchetSession) → serialize_header (header_of p s) ≡ some (header_bytes s)
  unfolding serialize_header assert_key_length header_bytes
  serialize_header-header_of s = rw (laws.public_length s.dh_sending_key)

  -- The message that a sender makes.
  abbrev sent_message : Bytes → RatchetSession → Bytes → Bytes → EncryptedMessage
  sent_message nonce s chain_key plaintext = record {
    header = header_of p s;
    ciphertext = nonce ++ p.encrypt (kdf_chain p chain_key).1 nonce (header_bytes s) plaintext;
  }

  abbrev sender_after : RatchetSession → Bytes → RatchetSession
  sender_after s chain_key = record s {
    sending_chain_key = some (kdf_chain p chain_key).0;
    sending_message_number = s.sending_message_number + 1;
  }

  abbrev receiver_after : RatchetSession → Bytes → RatchetSession
  receiver_after r chain_key = record r {
    receiving_chain_key = some (kdf_chain p chain_key).0;
    receiving_message_number = r.receiving_message_number + 1;
  }

  encrypt_message-eq :
      (nonce : Bytes) (s : RatchetSession) (chain_key plaintext : Bytes)
      → s.sending_chain_key ≡ some chain_key
      → encrypt_message p nonce s plaintext
        ≡ some (sender_after s chain_key, sent_message nonce s chain_key plaintext)
  unfolding encrypt_message
  encrypt_message-eq nonce s chain_key plaintext e = simp (e, serialize_header-header_of s)

  sealed-opens :
      (nonce : Bytes) (s : RatchetSession) (chain_key plaintext : Bytes)
      → length nonce ≡ nonce_length
      → decrypt_with_message_key p
          (kdf_chain p chain_key).1
          (header_of p s)
          (sent_message nonce s chain_key plaintext).ciphertext
        ≡ some plaintext
  unfolding decrypt_with_message_key
  sealed-opens nonce s chain_key plaintext e =
      let key = (kdf_chain p chain_key).1 in
      let payload = p.encrypt key nonce (header_bytes s) plaintext in
      rw
        (
          long_enough (length (nonce ++ payload)) (
              omega (
                arith,
                length-append nonce payload,
                laws.grows key nonce (header_bytes s) plaintext,
              )),
          serialize_header-header_of s,
          take_first nonce_length nonce payload e,
          drop_first nonce_length nonce payload e,
        )
        (laws.opens key nonce (header_bytes s) plaintext)
    where
      long_enough : (n : ℕ) → 28 ≤ n → ltb n (nonce_length + 16) ≡ false
      long_enough n h = ground arith

  -- There is nothing to skip in front of the next message.
  skip_message_keys-next :
      (r : RatchetSession) → skip_message_keys p r r.receiving_message_number ≡ r
  unfolding skip_message_keys skip_loop
  skip_message_keys-next r = nothing r.receiving_chain_key r.dh_receiving_key
    where
      no_rounds : (n : ℕ) → n - n ≡ 0
      no_rounds n = omega arith

      nothing : (c d : Option Bytes) → skip_from p c d r r.receiving_message_number ≡ r
      nothing (some c) (some d) =
          ap (λ k. skip_loop p k d c r) (no_rounds r.receiving_message_number)
      nothing none d = refl
      nothing (some c) none = refl

  decrypt_next-eq :
      (nonce : Bytes) (s r : RatchetSession) (chain_key plaintext : Bytes)
      → r.receiving_chain_key ≡ some chain_key
      → length nonce ≡ nonce_length
      → decrypt_next p r (sent_message nonce s chain_key plaintext)
        ≡ some (receiver_after r chain_key, plaintext)
  decrypt_next-eq nonce s r chain_key plaintext e n =
      rw (e, sealed-opens nonce s chain_key plaintext n)

  decrypt_ahead-next :
      (r : RatchetSession) (message : EncryptedMessage)
      → (message.header).message_number ≡ r.receiving_message_number
      → decrypt_ahead p message r ≡ decrypt_next p r message
  decrypt_ahead-next r message e =
      ap
        (λ n.
          if ltb n r.receiving_message_number
          then none
          else decrypt_next p (skip_message_keys p r n) message)
        e
      ∙ rw (not_below r.receiving_message_number, skip_message_keys-next r)
    where
      not_below : (n : ℕ) → ltb n n ≡ false
      not_below n = ground arith

  decrypt_message-eq :
      (fresh_key nonce : Bytes) (s r : RatchetSession) (chain_key plaintext : Bytes)
      → InStep s r chain_key
      → length nonce ≡ nonce_length
      → decrypt_message p fresh_key r (sent_message nonce s chain_key plaintext)
        ≡ some (receiver_after r chain_key, plaintext)
  unfolding decrypt_message
  decrypt_message-eq fresh_key nonce s r chain_key plaintext i n =
      let message = sent_message nonce s chain_key plaintext in
      let theirs = p.get_public_key s.dh_sending_key in
      ap (decrypt_with_cache p fresh_key r message)
        (i.uncached s.sending_message_number (omega (arith, i.same_number)))
      ∙ ap
          (λ b. and_then (follow_ratchet p fresh_key r (header_of p s) b) (decrypt_ahead p message))
          (ap (λ k. arrays_equal k theirs) i.same_key ∙ text_eq_refl theirs)
      ∙ decrypt_ahead-next r message i.same_number
      ∙ decrypt_next-eq nonce s r chain_key plaintext i.receives n

  InStep-after :
      (s r : RatchetSession) (chain_key : Bytes)
      → InStep s r chain_key
      → InStep (sender_after s chain_key) (receiver_after r chain_key) (kdf_chain p chain_key).0
  InStep-after s r chain_key i = record {
    sends = refl;
    receives = refl;
    same_key = i.same_key;
    same_number = ap (λ n. n + 1) i.same_number;
    uncached = λ n le. i.uncached n (omega arith);
  }

  -- The sender encrypts the plain texts, each with its nonce, and the receiver decrypts each message
  -- as it comes.
  pub deliver : Bytes → RatchetSession → RatchetSession → List (Bytes × Bytes) → Option (List Bytes)
  deliver fresh_key s r [] = some []
  deliver fresh_key s r ((nonce, plaintext) ∷ plaintexts) =
      and_then (encrypt_message p nonce s plaintext) λ sent.
        and_then (decrypt_message p fresh_key r sent.1) λ received.
          and_then (deliver fresh_key sent.0 received.0 plaintexts) λ rest. some (received.1 ∷ rest)

  -- Under the laws of the primitives, if two sessions are in step and every nonce has 12 bytes, the
  -- receiver gets every plain text, in order, and no error is thrown.
  pub deliver-InStep :
      (fresh_key : Bytes) (s r : RatchetSession) (chain_key : Bytes)
      (plaintexts : List (Bytes × Bytes))
      → InStep s r chain_key
      → All (λ m. length m.0 ≡ nonce_length) plaintexts
      → deliver fresh_key s r plaintexts ≡ some (map (λ m. m.1) plaintexts)
  unfolding deliver
  deliver-InStep fresh_key s r chain_key [] i h = refl
  deliver-InStep fresh_key s r chain_key ((nonce, plaintext) ∷ plaintexts) i h = rw (
    encrypt_message-eq nonce s chain_key plaintext i.sends,
    decrypt_message-eq fresh_key nonce s r chain_key plaintext i (h.0),
    deliver-InStep fresh_key (sender_after s chain_key) (receiver_after r chain_key)
        (kdf_chain p chain_key).0 plaintexts (InStep-after s r chain_key i) (h.1),
  )
