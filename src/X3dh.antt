-- ===== src/X3dh.antt =====
-- packages/crypto/src/ratchet/x3dh.ts: the agreement on a first secret. `none` is an error that is
-- thrown. The random private keys are arguments.
pub mod Agreement
pub mod Tests
use enclave_mail.Prelude.{
  ℕ, zero, suc, Bool, true, false, List, [], ◌∷◌, ◌++◌, Option, none, some, codes, length, nat_eq,
  if◌then◌else◌,
}
use enclave_mail.Ratchet.{
  Bytes, Primitives, DhKeyPair, and_then, key_length, assert_key_length, compute_dh,
}

-- Ed25519 of @noble/curves: `verify signature message public_key` and `sign message private_key`.
pub record Signatures : Type 0 where
  pub verify : Bytes → Bytes → Bytes → Bool
  pub sign : Bytes → Bytes → Bytes

pub record PreKeyBundle : Type 0 where
  pub identity_key : Bytes
  pub signed_pre_key : Bytes
  pub signed_pre_key_signature : Bytes
  pub one_time_pre_key : Option Bytes
  pub registration_id : ℕ
  pub ed25519_identity_key : Bytes

pub record Generated : Type 0 where
  pub bundle : PreKeyBundle
  pub signed_pre_key_pair : DhKeyPair
  pub one_time_pre_key_pair : DhKeyPair

pub record X3dhInitiationResult : Type 0 where
  pub shared_secret : Bytes
  pub our_ephemeral_public_key : Bytes

abbrev pub signature_length : ℕ
signature_length = 64

abbrev pub zeros : ℕ → Bytes
zeros zero = []
zeros (suc n) = 0 ∷ zeros n

abbrev pub x3dh_info : Bytes
x3dh_info = codes "enclave-x3dh-v1"

unfoldable pub assert_signature_length : Bytes → Option Bytes
assert_signature_length signature =
    if nat_eq (length signature) signature_length then some signature else none

-- The array of the exchanges, each of which may throw, put together by `concatenate`.
unfoldable pub concatenate : List (Option Bytes) → Option Bytes
concatenate [] = some []
concatenate (part ∷ parts) =
    and_then part λ bytes. and_then (concatenate parts) λ rest. some (bytes ++ rest)

-- The check of a key that may be `undefined`.
abbrev pub assert_optional : Option Bytes → Option (Option Bytes)
assert_optional none = some none
assert_optional (some key) = and_then (assert_key_length key) λ k. some (some k)

module _ (p : Primitives) (signatures : Signatures) where
  unfoldable pub derive_x3dh_shared_secret : List (Option Bytes) → Option Bytes
  derive_x3dh_shared_secret dh_outputs =
      and_then (concatenate dh_outputs) λ ikm. some (p.hkdf ikm (zeros 32) x3dh_info key_length)

  unfoldable pub verify_signed_pre_key : PreKeyBundle → Option Bytes
  verify_signed_pre_key bundle = and_then (assert_key_length bundle.signed_pre_key) λ key.
      and_then (assert_signature_length bundle.signed_pre_key_signature) λ signature.
        and_then (assert_key_length bundle.ed25519_identity_key)
          λ identity. if signatures.verify signature key identity then some key else none

  abbrev pub pair_of : Bytes → DhKeyPair
  pair_of private = record { public_key = p.get_public_key private; private_key = private }

  unfoldable pub generate_pre_key_bundle :
      Bytes → Bytes → DhKeyPair → DhKeyPair → ℕ → Option Generated
  generate_pre_key_bundle signed_private one_time_private identity ed25519_identity
        registration_id =
      and_then (assert_key_length identity.private_key) λ _.
        and_then (assert_key_length identity.public_key) λ _.
          and_then (assert_key_length ed25519_identity.private_key) λ _.
            and_then (assert_key_length ed25519_identity.public_key) λ _. some (record {
              bundle = record {
                identity_key = identity.public_key;
                signed_pre_key = p.get_public_key signed_private;
                signed_pre_key_signature =
                    signatures.sign (p.get_public_key signed_private) ed25519_identity.private_key;
                one_time_pre_key = some (p.get_public_key one_time_private);
                registration_id = registration_id;
                ed25519_identity_key = ed25519_identity.public_key;
              };
              signed_pre_key_pair = pair_of signed_private;
              one_time_pre_key_pair = pair_of one_time_private;
            })

  -- The exchange with the one-time key, if there is one.
  abbrev pub sender_extra : Bytes → Option Bytes → List (Option Bytes)
  sender_extra ephemeral_private none = []
  sender_extra ephemeral_private (some one_time) = compute_dh p ephemeral_private one_time ∷ []

  abbrev pub sender_values : Bytes → DhKeyPair → PreKeyBundle → List (Option Bytes)
  sender_values ephemeral_private identity bundle =
      compute_dh p identity.private_key bundle.signed_pre_key
      ∷ compute_dh p ephemeral_private bundle.identity_key
      ∷ compute_dh p ephemeral_private bundle.signed_pre_key
      ∷ sender_extra ephemeral_private bundle.one_time_pre_key

  unfoldable pub x3dh_initiate_sender :
      Bytes → DhKeyPair → PreKeyBundle → Option X3dhInitiationResult
  x3dh_initiate_sender ephemeral_private identity bundle =
      and_then (assert_key_length identity.private_key) λ _.
        and_then (assert_key_length identity.public_key) λ _.
          and_then (assert_key_length bundle.identity_key) λ _.
            and_then (assert_key_length bundle.signed_pre_key) λ _.
              and_then (assert_optional bundle.one_time_pre_key) λ _.
                and_then (verify_signed_pre_key bundle) λ _.
                  and_then
                    (derive_x3dh_shared_secret (sender_values ephemeral_private identity bundle))
                    λ secret. some (record {
                      shared_secret = secret;
                      our_ephemeral_public_key = p.get_public_key ephemeral_private;
                    })

  abbrev pub recipient_extra : Option DhKeyPair → Bytes → List (Option Bytes)
  recipient_extra none ephemeral = []
  recipient_extra (some one_time) ephemeral =
      and_then (assert_key_length one_time.private_key) (λ key. compute_dh p key ephemeral) ∷ []

  unfoldable pub x3dh_initiate_recipient :
      DhKeyPair → DhKeyPair → Option DhKeyPair → Bytes → Bytes → Option Bytes
  x3dh_initiate_recipient identity signed one_time sender_identity sender_ephemeral =
      and_then (assert_key_length identity.private_key) λ _.
        and_then (assert_key_length signed.private_key) λ _.
          and_then (assert_key_length sender_identity) λ _.
            and_then (assert_key_length sender_ephemeral) λ _. derive_x3dh_shared_secret (
              compute_dh p signed.private_key sender_identity
              ∷ compute_dh p identity.private_key sender_ephemeral
              ∷ compute_dh p signed.private_key sender_ephemeral
              ∷ recipient_extra one_time sender_ephemeral)
