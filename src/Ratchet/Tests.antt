-- ===== src/Ratchet/Tests.antt =====
-- Two sessions over a cipher that hides nothing, and the theorems at work on them.
use enclave_mail.Prelude.{
  ℕ, zero, suc, ◌-◌, ◌≡◌, refl, ap, [], ◌∷◌, ◌++◌, map, none, some, arith, codes, length,
  length-append, take,
}
use enclave_mail.Ratchet.{
  Bytes, Primitives, RatchetSession, EncryptedMessage, map_get, decrypt_message,
}
use enclave_mail.Ratchet.Skipped.{Each, IsSmall, decrypt_message-IsSmall}
use enclave_mail.Ratchet.Agreement.{Laws, InStep, take_first, deliver, deliver-InStep}

abbrev zeros : ℕ → Bytes
zeros zero = []
zeros (suc n) = 0 ∷ zeros n

abbrev open_primitives : Primitives
open_primitives = record {
  hkdf = λ ikm salt info n. zeros n;
  hmac = λ key message. key ++ message;
  get_shared_secret = λ private public. some (zeros 32);
  get_public_key = λ private. zeros 32;
  encrypt = λ key nonce header plaintext. plaintext ++ zeros 16;
  decrypt = λ key nonce header payload. some (take (length payload - 16) payload);
}

open_primitives-Laws : Laws open_primitives
open_primitives-Laws = record {
  opens = λ k n a m. ap some (
      take_first (length (m ++ zeros 16) - 16) m (zeros 16)
        (omega (arith, length-append m (zeros 16))));
  grows = λ k n a m. length-append m (zeros 16);
  public_length = λ k. refl;
}

abbrev chain : Bytes
chain = zeros 32

abbrev sender : RatchetSession
sender = record {
  dh_sending_key = zeros 32;
  dh_receiving_key = none;
  root_key = zeros 32;
  sending_chain_key = some chain;
  receiving_chain_key = none;
  sending_message_number = 4;
  receiving_message_number = 0;
  previous_sending_chain_length = 2;
  skipped_message_keys = [];
}

abbrev receiver : RatchetSession
receiver = record sender {
  dh_receiving_key = some (zeros 32);
  sending_chain_key = none;
  receiving_chain_key = some chain;
  receiving_message_number = 4;
}

in_step : InStep open_primitives open_primitives-Laws sender receiver chain
unfolding map_get
in_step = record {
  sends = refl;
  receives = refl;
  same_key = refl;
  same_number = refl;
  uncached = λ n le. refl;
}

deliver-InStep_example :
    deliver open_primitives open_primitives-Laws
      (zeros 32)
      sender
      receiver
      ((zeros 12, codes "hello") ∷ (zeros 12, codes "again") ∷ [])
    ≡ some (
        map {A = Bytes × Bytes}
          (λ m. m.1)
          ((zeros 12, codes "hello") ∷ (zeros 12, codes "again") ∷ []))
deliver-InStep_example =
    deliver-InStep open_primitives open_primitives-Laws (zeros 32) sender receiver chain
      ((zeros 12, codes "hello") ∷ (zeros 12, codes "again") ∷ []) in_step (refl, (refl, tt))

-- A message that comes before two others.
abbrev early : EncryptedMessage
early = record {
  header = record { dh_ratchet_key = zeros 32; message_number = 6; previous_chain_length = 2 };
  ciphertext = zeros 40;
}

decrypt_message-IsSmall_example :
    Each (λ r. IsSmall r.0) (decrypt_message open_primitives (zeros 32) receiver early)
decrypt_message-IsSmall_example =
    decrypt_message-IsSmall open_primitives (zeros 32) receiver early (omega arith)
