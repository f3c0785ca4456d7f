-- ===== src/Inbound/Worker.antt =====
-- `processInboundMailJob` of queue/inbound-worker.ts: a message is stored for each recipient in turn. The
-- hash, the primitives of encryption and the verification of the sender are parameters.
pub mod Counting
pub mod Steps
pub mod Again
use enclave_mail.Prelude.{
  ℕ, suc, ◌+◌, Bool, true, false, List, [], ◌∷◌, ◌++◌, Option, none, some, Text, codes, trim,
  to_lower_case, is_empty, length,
}
use enclave_mail.Prelude.Attempt.{Attempt, returned, thrown, ◌>>=◌}
use enclave_mail.Imap.Database.{Database, MailboxRow}
use enclave_mail.Inbound.Encryptor.{Cipher, EncryptedPayload, create_recipient_encryptor}
use enclave_mail.Inbound.Metadata.{MailMetadata}
use enclave_mail.Inbound.Store.{
  UserRow, KeypairRow, VerificationResult, DeliveryInsertInput, DeliveryStoreResult, stored,
  duplicate, find_user_by_email, find_active_x25519_public_key, find_inbox_mailbox, store_delivery,
}

pub record InboundEncryptionMetadata : Type 0 where
  pub algorithm : Text
  pub ephemeral_public_key : Text
  pub body_nonce : Text
  pub subject_nonce : Text

-- What the worker takes from its platform.
pub record Platform : Type 0 where
  pub sha256_hex : Text → Text
  pub cipher : Cipher
  pub utf8 : Text → List ℕ
  pub json : InboundEncryptionMetadata → Text
  pub uuid : ℕ → Text
  pub refusal : Text

abbrev pub normalize_recipient : Text → Text
normalize_recipient email = to_lower_case (trim email)

abbrev pub fallback_message_id : Platform → Text → Text
fallback_message_id platform raw_email = codes "generated-" ++ platform.sha256_hex raw_email

pub record Encrypted : Type 0 where
  pub encrypted_body : List ℕ
  pub encrypted_subject : List ℕ
  pub encryption_metadata : InboundEncryptionMetadata

abbrev encrypt_both : Platform → Text → Text → (ℕ → List ℕ → EncryptedPayload) → Encrypted
encrypt_both platform raw_email subject encrypt =
    let body = encrypt 0 (platform.utf8 raw_email) in
    let title = encrypt 1 (platform.utf8 subject) in
    record {
      encrypted_body = body.ciphertext;
      encrypted_subject = title.ciphertext;
      encryption_metadata = record {
        algorithm = codes "x25519-chacha20poly1305";
        ephemeral_public_key = platform.cipher.hex body.ephemeral_public_key;
        body_nonce = platform.cipher.hex body.nonce;
        subject_nonce = platform.cipher.hex title.nonce;
      };
    }

unfoldable pub encrypt_with_recipient_public_key :
    Platform → Text → Text → List ℕ → Attempt Encrypted
encrypt_with_recipient_public_key platform raw_email subject recipient_public_key =
    create_recipient_encryptor platform.cipher recipient_public_key >>= λ encrypt.
    returned (encrypt_both platform raw_email subject encrypt)

-- The counters, the tables, and whom the worker has told: the mailboxes with their counts, and the users.
pub record Inbox : Type 0 where
  pub db : Database
  pub stored_recipients : ℕ
  pub duplicate_recipients : ℕ
  pub skipped_recipients : ℕ
  pub failed_recipients : ℕ
  pub published : List (Text × ℕ)
  pub pushed : List Text

pub record Incoming : Type 0 where
  pub raw_email : Text
  pub metadata : MailMetadata
  pub verification : VerificationResult
  pub resolved_message_id : Text

abbrev pub skip : Inbox → Inbox
skip s = record s { skipped_recipients = s.skipped_recipients + 1 }

abbrev pub fail : Inbox → Inbox
fail s = record s { failed_recipients = s.failed_recipients + 1 }

abbrev pub delivery_input :
    Platform → Incoming → Text → MailboxRow → Encrypted → DeliveryInsertInput
delivery_input platform incoming recipient mailbox encrypted = record {
  mailbox_id = mailbox.id;
  mailbox_uid_next = mailbox.uid_next;
  message_id = incoming.resolved_message_id;
  in_reply_to = incoming.metadata.in_reply_to;
  from_address = incoming.metadata.from;
  to_addresses = recipient ∷ [];
  subject_encrypted = encrypted.encrypted_subject;
  date = incoming.metadata.date;
  size = incoming.metadata.size;
  encrypted_body = encrypted.encrypted_body;
  encryption_metadata = platform.json encrypted.encryption_metadata;
  verification = incoming.verification;
}

abbrev pub record_result : Text → Text → Inbox → Attempt DeliveryStoreResult × Database → Inbox
record_result user_id mailbox_id s (thrown message, db) = fail (record s { db = db })
record_result user_id mailbox_id s (returned duplicate, db) = record s {
  db = db;
  duplicate_recipients = s.duplicate_recipients + 1;
}
record_result user_id mailbox_id s (returned (stored count), db) = record s {
  db = db;
  stored_recipients = s.stored_recipients + 1;
  published = s.published ++ (mailbox_id, count) ∷ [];
  pushed = s.pushed ++ user_id ∷ [];
}

abbrev pub store_encrypted :
    Platform → Incoming → Text → UserRow → MailboxRow → Attempt Encrypted → Inbox → Inbox
store_encrypted platform incoming recipient user mailbox (thrown message) s = fail s
store_encrypted platform incoming recipient user mailbox (returned encrypted) s =
    record_result user.id mailbox.id s (
      store_delivery platform.uuid platform.refusal
        (delivery_input platform incoming recipient mailbox encrypted) s.db)

abbrev pub with_inbox :
    Platform → Incoming → Text → UserRow → KeypairRow → Option MailboxRow → Inbox → Inbox
with_inbox platform incoming recipient user key none s = skip s
with_inbox platform incoming recipient user key (some mailbox) s =
    store_encrypted platform incoming recipient user mailbox
      (encrypt_with_recipient_public_key platform incoming.raw_email incoming.metadata.subject
        key.public_key)
      s

abbrev pub with_key : Platform → Incoming → Text → UserRow → Option KeypairRow → Inbox → Inbox
with_key platform incoming recipient user none s = skip s
with_key platform incoming recipient user (some key) s =
    with_inbox platform incoming recipient user key (find_inbox_mailbox user.id s.db) s

abbrev pub with_user : Platform → List KeypairRow → Incoming → Text → Option UserRow → Inbox → Inbox
with_user platform keypairs incoming recipient none s = skip s
with_user platform keypairs incoming recipient (some user) s =
    with_key platform incoming recipient user (find_active_x25519_public_key keypairs user.id) s

module _ (platform : Platform) (users : List UserRow) (keypairs : List KeypairRow) where
  unfoldable pub deliver_to : Incoming → Text → Inbox → Inbox
  deliver_to incoming address s =
      let recipient = normalize_recipient address in
      with_user platform keypairs incoming recipient (find_user_by_email users recipient) s

  unfoldable pub deliver_all : Incoming → List Text → Inbox → Inbox
  deliver_all incoming [] s = s
  deliver_all incoming (address ∷ addresses) s =
      deliver_all incoming addresses (deliver_to incoming address s)

abbrev pub resolve_message_id : Platform → Text → Text → Text
resolve_message_id platform raw_email [] = fallback_message_id platform raw_email
resolve_message_id platform raw_email (c ∷ message_id) = c ∷ message_id

abbrev pub no_deliveries : Database → Inbox
no_deliveries db = record {
  db = db;
  stored_recipients = 0;
  duplicate_recipients = 0;
  skipped_recipients = 0;
  failed_recipients = 0;
  published = [];
  pushed = [];
}

abbrev pub incoming_of : Platform → Text → MailMetadata → VerificationResult → Incoming
incoming_of platform raw_email metadata verification = record {
  raw_email = raw_email;
  metadata = metadata;
  verification = verification;
  resolved_message_id = resolve_message_id platform raw_email metadata.message_id;
}

-- The result: how many recipients there were, and the state after all of them.
unfoldable pub process_inbound_mail_job :
    Platform
    → List UserRow
    → List KeypairRow
    → Text
    → MailMetadata
    → VerificationResult
    → Database
    → ℕ × Inbox
process_inbound_mail_job platform users keypairs raw_email metadata verification db = (
  length metadata.to,
  deliver_all platform users keypairs (incoming_of platform raw_email metadata verification)
      metadata.to (no_deliveries db),
)
