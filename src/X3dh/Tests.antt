-- ===== src/X3dh/Tests.antt =====
-- The key agreement over a plain exchange and plain signatures.
use enclave_mail.Prelude.{◌≡◌, refl, true, some}
use enclave_mail.Ratchet.{Bytes, Primitives, and_then}
use enclave_mail.X3dh.{
  Signatures, zeros, pair_of, generate_pre_key_bundle, x3dh_initiate_sender,
  x3dh_initiate_recipient,
}
use enclave_mail.X3dh.Agreement.{ExchangeLaws, x3dh_agreement}

abbrev plain_exchange : Primitives
plain_exchange = record {
  hkdf = λ ikm salt info n. ikm;
  hmac = λ key message. key;
  get_shared_secret = λ private public. some public;
  get_public_key = λ private. zeros 32;
  encrypt = λ key nonce header plaintext. plaintext;
  decrypt = λ key nonce header payload. some payload;
}

abbrev plain_signatures : Signatures
plain_signatures = record { verify = λ signature message key. true; sign = λ message key. zeros 64 }

abbrev plain_public : Bytes → Bytes
plain_public k = zeros 32

plain_laws : ExchangeLaws plain_exchange plain_signatures plain_public
plain_laws = record {
  agrees = λ a b. refl;
  shares = λ a b. (zeros 32, refl);
  public_length = λ k. refl;
  ed25519_length = λ k. refl;
  signature_64 = λ m k. refl;
  verifies = λ m k. refl;
}

abbrev key : Bytes
key = zeros 32

x3dh_agreement_example :
    (secret : Bytes) × (and_then
        (generate_pre_key_bundle plain_exchange plain_signatures key key
          (pair_of plain_exchange plain_signatures key)
          (record { public_key = plain_public key; private_key = key })
          7)
        (λ g.
          x3dh_initiate_sender plain_exchange plain_signatures key
            (pair_of plain_exchange plain_signatures key)
            g.bundle)
      ≡ some (record { shared_secret = secret; our_ephemeral_public_key = zeros 32 }))
    × (and_then
          (generate_pre_key_bundle plain_exchange plain_signatures key key
            (pair_of plain_exchange plain_signatures key)
            (record { public_key = plain_public key; private_key = key })
            7)
          (λ g.
            x3dh_initiate_recipient plain_exchange plain_signatures
              (pair_of plain_exchange plain_signatures key)
              g.signed_pre_key_pair
              (some g.one_time_pre_key_pair)
              (zeros 32)
              (zeros 32))
        ≡ some secret)
x3dh_agreement_example =
    x3dh_agreement plain_exchange plain_signatures plain_public plain_laws key key key key key key 7
      refl refl refl refl refl refl
