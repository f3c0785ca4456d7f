-- ===== src/Ratchet/Skipped.antt =====
-- The cache of skipped message keys stays small, and the loop of `skipMessageKeys` ends at its target.
use enclave_mail.Prelude.{
  ℕ, zero, suc, ◌-◌, ◌≤◌, Bool, true, false, List, [], ◌∷◌, Option, none, some, Text, arith, ltb,
  length, Bool-cases, inl, inr,
}
use enclave_mail.Ratchet.{
  Bytes, Primitives, RatchetSession, EncryptedMessage, MessageHeader, max_skipped_keys, and_then,
  map_delete, with_bounded_skipped_keys, skip_one, skip_loop, skip_from, skip_message_keys,
  apply_dh_ratchet, compute_dh, assert_key_length, kdf_chain, follow_ratchet, decrypt_next,
  decrypt_ahead, decrypt_with_cache, decrypt_with_message_key, decrypt_message,
}

abbrev pub IsSmall : RatchetSession → Type 0
IsSmall s = length s.skipped_message_keys ≤ max_skipped_keys

-- What holds of a value, if there is one.
abbrev pub Each {ℓ κ} : {A : Type ℓ} → (A → Type κ) → Option A → Type κ
Each P none = Unit
Each P (some a) = P a

Each-and_then {ℓ κ μ} :
    {A : Type ℓ} {B : Type κ} (P : B → Type μ) (o : Option A) (f : A → Option B)
    → ((a : A) → Each P (f a))
    → Each P (and_then o f)
Each-and_then P none f h = tt
Each-and_then P (some a) f h = h a

length-with_bounded_skipped_keys :
    (entries : List (Text × Bytes)) → length (with_bounded_skipped_keys entries) ≤ max_skipped_keys
unfolding with_bounded_skipped_keys
length-with_bounded_skipped_keys [] = omega arith
length-with_bounded_skipped_keys (entry ∷ entries) =
    ground (arith, length-with_bounded_skipped_keys entries)

length-map_delete :
    (key : Text) (entries : List (Text × Bytes)) → length (map_delete key entries) ≤ length entries
unfolding map_delete
length-map_delete key [] = omega arith
length-map_delete key ((k, v) ∷ entries) = ground (arith, length-map_delete key entries)

module _ (p : Primitives) where
  skip_loop-IsSmall :
      (rounds : ℕ) (dh chain_key : Bytes) (s : RatchetSession)
      → IsSmall s
      → IsSmall (skip_loop p rounds dh chain_key s)
  unfolding skip_loop
  skip_loop-IsSmall zero dh chain_key s h = h
  skip_loop-IsSmall (suc rounds) dh chain_key s h =
      skip_loop-IsSmall rounds dh (kdf_chain p chain_key).0 (skip_one p dh chain_key s)
        (length-with_bounded_skipped_keys _)

  skip_from-IsSmall :
      (chain_key dh : Option Bytes) (s : RatchetSession) (until : ℕ)
      → IsSmall s
      → IsSmall (skip_from p chain_key dh s until)
  skip_from-IsSmall (some c) (some d) s until h =
      skip_loop-IsSmall (until - s.receiving_message_number) d c s h
  skip_from-IsSmall none dh s until h = h
  skip_from-IsSmall (some c) none s until h = h

  skip_message_keys-IsSmall :
      (s : RatchetSession) (until : ℕ) → IsSmall s → IsSmall (skip_message_keys p s until)
  unfolding skip_message_keys
  skip_message_keys-IsSmall s until h =
      skip_from-IsSmall s.receiving_chain_key s.dh_receiving_key s until h

  apply_dh_ratchet-IsSmall :
      (fresh_key : Bytes) (s : RatchetSession) (theirs : Bytes)
      → IsSmall s
      → Each IsSmall (apply_dh_ratchet p fresh_key s theirs)
  unfolding apply_dh_ratchet
  apply_dh_ratchet-IsSmall fresh_key s theirs h =
      let next = skip_message_keys p s s.receiving_message_number in
      Each-and_then IsSmall (assert_key_length theirs) _ λ _.
        Each-and_then IsSmall (compute_dh p next.dh_sending_key theirs) _ λ first.
          Each-and_then IsSmall (compute_dh p fresh_key theirs) _
            λ second. skip_message_keys-IsSmall s s.receiving_message_number h

  follow_ratchet-IsSmall :
      (fresh_key : Bytes) (s : RatchetSession) (header : MessageHeader) (same : Bool)
      → IsSmall s
      → Each IsSmall (follow_ratchet p fresh_key s header same)
  follow_ratchet-IsSmall fresh_key s header true h = h
  follow_ratchet-IsSmall fresh_key s header false h =
      apply_dh_ratchet-IsSmall fresh_key (skip_message_keys p s header.previous_chain_length)
        header.dh_ratchet_key (skip_message_keys-IsSmall s header.previous_chain_length h)

  abbrev After : Option (RatchetSession × Bytes) → Type 0
  After o = Each (λ r. IsSmall r.0) o

  decrypt_next-IsSmall :
      (s : RatchetSession) (message : EncryptedMessage)
      → IsSmall s
      → After (decrypt_next p s message)
  decrypt_next-IsSmall s message h =
      Each-and_then (λ r. IsSmall r.0) s.receiving_chain_key _
        λ c.
          Each-and_then (λ r. IsSmall r.0)
            (decrypt_with_message_key p (kdf_chain p c).1 message.header message.ciphertext) _
            λ plaintext. h

  decrypt_ahead-IsSmall :
      (message : EncryptedMessage) (s : RatchetSession)
      → IsSmall s
      → After (decrypt_ahead p message s)
  decrypt_ahead-IsSmall message s h =
      elim (Bool-cases (ltb (message.header).message_number s.receiving_message_number)) [
        | inl e ↦ rw e tt
        | inr e ↦ rw e (
            decrypt_next-IsSmall (skip_message_keys p s (message.header).message_number) message
              (skip_message_keys-IsSmall s (message.header).message_number h))
      ]

  Each-Each {ℓ κ} :
      {A : Type ℓ} (P : RatchetSession → Type κ) (o : Option RatchetSession)
      (f : RatchetSession → Option (RatchetSession × A))
      → Each P o
      → ((s : RatchetSession) → P s → Each (λ r. P r.0) (f s))
      → Each (λ r. P r.0) (and_then o f)
  Each-Each P none f h k = tt
  Each-Each P (some s) f h k = k s h

  with_cache-IsSmall :
      (fresh_key : Bytes) (s : RatchetSession) (message : EncryptedMessage) (cached : Option Bytes)
      → IsSmall s
      → After (decrypt_with_cache p fresh_key s message cached)
  with_cache-IsSmall fresh_key s message none h =
      Each-Each IsSmall (follow_ratchet p fresh_key s message.header _) (decrypt_ahead p message)
        (follow_ratchet-IsSmall fresh_key s message.header _ h) (decrypt_ahead-IsSmall message)
  with_cache-IsSmall fresh_key s message (some cached) h =
      Each-and_then (λ r. IsSmall r.0)
        (decrypt_with_message_key p cached message.header message.ciphertext) _
        λ plaintext. omega (arith, length-map_delete _ s.skipped_message_keys)

  -- If a session has at most 64 skipped message keys, so has the session after decrypting any
  -- message.
  pub decrypt_message-IsSmall :
      (fresh_key : Bytes) (s : RatchetSession) (message : EncryptedMessage)
      → IsSmall s
      → Each (λ r. IsSmall r.0) (decrypt_message p fresh_key s message)
  unfolding decrypt_message
  decrypt_message-IsSmall fresh_key s message h = with_cache-IsSmall fresh_key s message _ h
