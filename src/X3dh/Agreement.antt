-- ===== src/X3dh/Agreement.antt =====
-- Both sides of the key agreement come to the same secret.
use enclave_mail.Prelude.{ℕ, ◌≡◌, ◌∙◌, ap, sym, true, [], ◌∷◌, ◌++◌, Option, some, length}
use enclave_mail.Ratchet.{
  Bytes, Primitives, DhKeyPair, and_then, key_length, assert_key_length, compute_dh,
}
use enclave_mail.X3dh.{
  zeros, x3dh_info, Signatures, PreKeyBundle, Generated, X3dhInitiationResult, signature_length,
  assert_signature_length, concatenate, derive_x3dh_shared_secret, verify_signed_pre_key, pair_of,
  generate_pre_key_bundle, x3dh_initiate_sender, x3dh_initiate_recipient,
}

-- What the code relies on in the libraries: the exchange of two key pairs succeeds and is the same from
-- both sides, keys and signatures have their lengths, and a signature verifies with the public key.
pub record ExchangeLaws (p : Primitives) (s : Signatures) (ed25519_public : Bytes → Bytes)
    : Type 0 where
  pub agrees :
      (a b : Bytes)
      → p.get_shared_secret a (p.get_public_key b) ≡ p.get_shared_secret b (p.get_public_key a)
  pub shares :
      (a b : Bytes) → (secret : Bytes) × (p.get_shared_secret a (p.get_public_key b) ≡ some secret)
  pub public_length : (k : Bytes) → length (p.get_public_key k) ≡ key_length
  pub ed25519_length : (k : Bytes) → length (ed25519_public k) ≡ key_length
  pub signature_64 : (m k : Bytes) → length (s.sign m k) ≡ signature_length
  pub verifies : (m k : Bytes) → s.verify (s.sign m k) m (ed25519_public k) ≡ true

abbrev pub IsKey : Bytes → Type 0
IsKey k = length k ≡ key_length

assert_key_length-eq : (k : Bytes) → IsKey k → assert_key_length k ≡ some k
unfolding assert_key_length
assert_key_length-eq k e = rw e

module _ (p : Primitives) (s : Signatures) (ed25519_public : Bytes → Bytes)
    (laws : ExchangeLaws p s ed25519_public) where
  public_IsKey : (k : Bytes) → assert_key_length (p.get_public_key k) ≡ some (p.get_public_key k)
  public_IsKey k = assert_key_length-eq (p.get_public_key k) (laws.public_length k)

  compute_dh-eq :
      (a b : Bytes)
      → IsKey a
      → compute_dh p a (p.get_public_key b) ≡ p.get_shared_secret a (p.get_public_key b)
  unfolding compute_dh
  compute_dh-eq a b e = rw (assert_key_length-eq a e, public_IsKey b)

  compute_dh-swap :
      (a b : Bytes)
      → IsKey a
      → IsKey b
      → compute_dh p a (p.get_public_key b) ≡ compute_dh p b (p.get_public_key a)
  compute_dh-swap a b e f = compute_dh-eq a b e ∙ laws.agrees a b ∙ sym (compute_dh-eq b a f)

  abbrev ed25519_pair : Bytes → DhKeyPair
  ed25519_pair k = record { public_key = ed25519_public k; private_key = k }

  module _ (sender recipient signing signed one_time ephemeral : Bytes) (registration_id : ℕ)
      (sender_key : IsKey sender) (recipient_key : IsKey recipient) (signing_key : IsKey signing)
      (signed_key : IsKey signed) (one_time_key : IsKey one_time)
      (ephemeral_key : IsKey ephemeral) where
    abbrev published : Option Generated
    published =
        generate_pre_key_bundle p s signed one_time (pair_of p s recipient) (ed25519_pair signing)
          registration_id

    abbrev initiated : Option X3dhInitiationResult
    initiated =
        and_then published λ g. x3dh_initiate_sender p s ephemeral (pair_of p s sender) g.bundle

    abbrev answered : Option Bytes
    answered = and_then published λ g.
        x3dh_initiate_recipient p s (pair_of p s recipient) g.signed_pre_key_pair
          (some g.one_time_pre_key_pair) (p.get_public_key sender) (p.get_public_key ephemeral)

    secret_of : Bytes → Bytes → Bytes
    secret_of a b = (laws.shares a b).0

    compute_dh-secret :
        (a b : Bytes) → IsKey a → compute_dh p a (p.get_public_key b) ≡ some (secret_of a b)
    unfolding secret_of
    compute_dh-secret a b e = compute_dh-eq a b e ∙ (laws.shares a b).1

    agreed_secret : Bytes
    agreed_secret =
        p.hkdf
          (secret_of sender signed
            ++ (secret_of ephemeral recipient
                ++ (secret_of ephemeral signed ++ (secret_of ephemeral one_time ++ []))))
          (zeros 32) x3dh_info key_length

    derived :
        derive_x3dh_shared_secret p s (
          compute_dh p sender (p.get_public_key signed)
          ∷ compute_dh p ephemeral (p.get_public_key recipient)
          ∷ compute_dh p ephemeral (p.get_public_key signed)
          ∷ compute_dh p ephemeral (p.get_public_key one_time)
          ∷ [])
        ≡ some agreed_secret
    unfolding derive_x3dh_shared_secret concatenate agreed_secret
    derived = rw (
      compute_dh-secret sender signed sender_key,
      compute_dh-secret ephemeral recipient ephemeral_key,
      compute_dh-secret ephemeral signed ephemeral_key,
      compute_dh-secret ephemeral one_time ephemeral_key,
    )

    abbrev published_bundle : PreKeyBundle
    published_bundle = record {
      identity_key = p.get_public_key recipient;
      signed_pre_key = p.get_public_key signed;
      signed_pre_key_signature = s.sign (p.get_public_key signed) signing;
      one_time_pre_key = some (p.get_public_key one_time);
      registration_id = registration_id;
      ed25519_identity_key = ed25519_public signing;
    }

    published-eq :
        published
        ≡ some (record {
          bundle = published_bundle;
          signed_pre_key_pair = pair_of p s signed;
          one_time_pre_key_pair = pair_of p s one_time;
        })
    unfolding generate_pre_key_bundle
    published-eq = simp (
      assert_key_length-eq recipient recipient_key,
      assert_key_length-eq signing signing_key,
      assert_key_length-eq (ed25519_public signing) (laws.ed25519_length signing),
      public_IsKey recipient,
    )

    verified : verify_signed_pre_key p s published_bundle ≡ some (p.get_public_key signed)
    unfolding verify_signed_pre_key assert_signature_length
    verified = simp (
      assert_key_length-eq (ed25519_public signing) (laws.ed25519_length signing),
      public_IsKey signed,
      laws.signature_64 (p.get_public_key signed) signing,
      laws.verifies (p.get_public_key signed) signing,
    )

    sender_secret :
        x3dh_initiate_sender p s ephemeral (pair_of p s sender) published_bundle
        ≡ some (record {
          shared_secret = agreed_secret;
          our_ephemeral_public_key = p.get_public_key ephemeral;
        })
    unfolding x3dh_initiate_sender
    sender_secret = simp (
      assert_key_length-eq sender sender_key,
      public_IsKey sender,
      public_IsKey recipient,
      public_IsKey signed,
      public_IsKey one_time,
      verified,
      derived,
    )

    recipient_secret :
        x3dh_initiate_recipient p s
          (pair_of p s recipient)
          (pair_of p s signed)
          (some (pair_of p s one_time))
          (p.get_public_key sender)
          (p.get_public_key ephemeral)
        ≡ some agreed_secret
    unfolding x3dh_initiate_recipient
    recipient_secret =
        simp
          (
            assert_key_length-eq recipient recipient_key,
            assert_key_length-eq signed signed_key,
            assert_key_length-eq one_time one_time_key,
            public_IsKey sender,
            public_IsKey ephemeral,
          )
          (ap4 (compute_dh-swap signed sender signed_key sender_key)
              (compute_dh-swap recipient ephemeral recipient_key ephemeral_key)
              (compute_dh-swap signed ephemeral signed_key ephemeral_key)
              (compute_dh-swap one_time ephemeral one_time_key ephemeral_key)
            ∙ derived)
      where
        ap4 :
            {a a' b b' c c' d d' : Option Bytes}
            → a ≡ a'
            → b ≡ b'
            → c ≡ c'
            → d ≡ d'
            → derive_x3dh_shared_secret p s (a ∷ b ∷ c ∷ d ∷ [])
              ≡ derive_x3dh_shared_secret p s (a' ∷ b' ∷ c' ∷ d' ∷ [])
        ap4 e f g h = cc

    -- Under the laws of the primitives and with private keys of 32 bytes, a sender who takes the
    -- bundle that the recipient generated, and the recipient, who learns the sender's identity key
    -- and ephemeral key, come to the same secret, and no error is thrown.
    pub x3dh_agreement :
        (secret : Bytes) × (initiated
          ≡ some (record {
            shared_secret = secret;
            our_ephemeral_public_key = p.get_public_key ephemeral;
          }))
        × (answered ≡ some secret)
    x3dh_agreement = (
      agreed_secret,
      ap (λ o. and_then o λ g. x3dh_initiate_sender p s ephemeral (pair_of p s sender) g.bundle)
            published-eq
          ∙ sender_secret,
      ap
            (λ o. and_then o λ g.
              x3dh_initiate_recipient p s (pair_of p s recipient) g.signed_pre_key_pair
                (some g.one_time_pre_key_pair) (p.get_public_key sender)
                (p.get_public_key ephemeral))
            published-eq
          ∙ recipient_secret,
    )
