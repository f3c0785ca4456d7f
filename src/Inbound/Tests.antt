-- ===== src/Inbound/Tests.antt =====
-- The theorems on incoming messages at concrete inputs.
use enclave_mail.Prelude.{◌≡◌, refl, true, false, [], ◌∷◌, none, some, codes, text_methods, find}
use enclave_mail.Prelude.Attempt.{returned}
use enclave_mail.Imap.Database.{
  Database, MailboxRow, inbox, insert_message, update_mailboxes, find_mailbox_by_id,
}
use enclave_mail.Inbound.Metadata.{
  single, several, ParsedMail, MailMetadata, extract_mail_metadata, extract_from_address,
  extract_to_addresses, kept_addresses, flat_values,
}
use enclave_mail.Inbound.Store.{
  UserRow, KeypairRow, x25519, VerificationResult, find_user_by_email,
  find_active_x25519_public_key, find_inbox_mailbox, store_delivery,
}
use enclave_mail.Inbound.Encryptor.{Cipher, create_recipient_encryptor}
use enclave_mail.Inbound.Worker.{
  Platform, Inbox, encrypt_with_recipient_public_key, deliver_to, deliver_all,
  process_inbound_mail_job,
}
use enclave_mail.Inbound.Worker.Counting.{total, process_inbound_mail_job-total}
use enclave_mail.Inbound.Worker.Again.{process_inbound_mail_job-again}

-- One local user with a key and an empty inbox.
abbrev alice : UserRow
alice = record {
  id = codes "u";
  email = codes "alice@x.org";
  srp_salt = [];
  srp_verifier = [];
  key_export_confirmed = true;
  is_admin = false;
  email_verified = true;
  email_verification_token = none;
  email_verification_expiry = none;
  disabled = false;
  preferences = codes "{}";
}

abbrev alice_key : KeypairRow
alice_key = record {
  id = codes "k";
  user_id = codes "u";
  type = x25519;
  public_key = 1 ∷ [];
  encrypted_private_key = [];
  is_active = true;
}

abbrev alice_inbox : MailboxRow
alice_inbox = record {
  id = codes "b";
  user_id = codes "u";
  name = codes "INBOX";
  type = inbox;
  uid_validity = 1;
  uid_next = 1;
  message_count = 0;
  unread_count = 0;
}

abbrev empty_tables : Database
empty_tables = record { mailboxes = alice_inbox ∷ []; messages = []; bodies = []; next_id = 0 }

abbrev plain_cipher : Cipher
plain_cipher = record {
  generate_key_pair = λ key. ([], []);
  compute_shared_secret = λ mine theirs. returned theirs;
  hkdf_sha256 = λ secret salt info size. secret;
  nonce = λ n. n ∷ [];
  chacha20_poly1305 = λ key nonce text. text;
  hex = λ bytes. [];
}

abbrev platform : Platform
platform = record {
  sha256_hex = λ text. codes "0";
  cipher = plain_cipher;
  utf8 = λ text. text;
  json = λ details. [];
  uuid = λ n. n ∷ [];
  refusal = codes "refused";
}

abbrev parsed : ParsedMail
parsed = record {
  from = single (record { text = some (codes "Bob"); value = some (codes "Bob@y.org") ∷ [] });
  to = several (
      record {
        text = none;
        value = some (codes " Alice@X.org ") ∷ none ∷ some (codes "eve@z.org") ∷ [];
      }
      ∷ []);
  subject = some (codes "hi");
  message_id = none;
  in_reply_to = none;
  date = none;
  raw_size = some 2;
}

abbrev metadata : MailMetadata
metadata = record {
  from = codes "bob@y.org";
  to = codes "alice@x.org" ∷ codes "eve@z.org" ∷ [];
  subject = codes "hi";
  message_id = [];
  in_reply_to = none;
  date = 9;
  size = 2;
}

metadata_of_parsed : extract_mail_metadata 9 parsed ≡ metadata
unfolding text_methods extract_mail_metadata extract_from_address extract_to_addresses
    kept_addresses flat_values
metadata_of_parsed = refl

abbrev passed : VerificationResult
passed = record {
  dkim = codes "pass";
  spf = codes "pass";
  dmarc = codes "pass";
  dmarc_policy = none;
}

abbrev first_run : Inbox
first_run =
    (process_inbound_mail_job platform (alice ∷ []) (alice_key ∷ []) (codes "hi") metadata passed
      empty_tables).1

first_run_stores : first_run.stored_recipients ≡ 1
unfolding text_methods process_inbound_mail_job deliver_all deliver_to find_user_by_email
    find_active_x25519_public_key find_inbox_mailbox encrypt_with_recipient_public_key
    create_recipient_encryptor store_delivery insert_message update_mailboxes find_mailbox_by_id
    find
first_run_stores = refl

none_failed : first_run.failed_recipients ≡ 0
unfolding text_methods process_inbound_mail_job deliver_all deliver_to find_user_by_email
    find_active_x25519_public_key find_inbox_mailbox encrypt_with_recipient_public_key
    create_recipient_encryptor store_delivery insert_message update_mailboxes find_mailbox_by_id
    find
none_failed = refl

process_inbound_mail_job-total_example :
    total first_run
    ≡ (process_inbound_mail_job platform
        (alice ∷ [])
        (alice_key ∷ [])
        (codes "hi")
        metadata
        passed
        empty_tables).0
process_inbound_mail_job-total_example =
    process_inbound_mail_job-total platform (alice ∷ []) (alice_key ∷ []) (codes "hi") metadata
      passed empty_tables

process_inbound_mail_job-again_example :
    ((process_inbound_mail_job platform
        (alice ∷ [])
        (alice_key ∷ [])
        (codes "hi")
        metadata
        passed
        first_run.db).1.stored_recipients
      ≡ 0)
    × ((process_inbound_mail_job platform
          (alice ∷ [])
          (alice_key ∷ [])
          (codes "hi")
          metadata
          passed
          first_run.db).1.db
        ≡ first_run.db)
process_inbound_mail_job-again_example =
    process_inbound_mail_job-again platform (alice ∷ []) (alice_key ∷ []) (codes "hi") metadata
      passed empty_tables first_run refl none_failed
