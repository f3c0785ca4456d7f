-- ===== src/Inbound/Worker/Counting.antt =====
-- The counters of `processInboundMailJob`.
use enclave_mail.Prelude.{ℕ, ◌+◌, ◌≡◌, ◌∙◌, List, [], ◌∷◌, arith, Option, none, some, Text, length}
use enclave_mail.Prelude.Attempt.{Attempt, returned, thrown}
use enclave_mail.Imap.Database.{Database, MailboxRow}
use enclave_mail.Inbound.Metadata.{MailMetadata}
use enclave_mail.Inbound.Store.{
  UserRow, KeypairRow, VerificationResult, DeliveryStoreResult, stored, duplicate,
  find_user_by_email, find_active_x25519_public_key, find_inbox_mailbox, store_delivery,
}
use enclave_mail.Inbound.Worker.{
  Platform, Encrypted, Inbox, Incoming, normalize_recipient, record_result, store_encrypted,
  with_inbox, with_key, with_user, deliver_to, deliver_all, delivery_input,
  encrypt_with_recipient_public_key, process_inbound_mail_job, no_deliveries, incoming_of,
}

-- All recipients that were counted.
pub total : Inbox → ℕ
total s = s.stored_recipients + s.duplicate_recipients + s.skipped_recipients + s.failed_recipients

record_result-total :
    (user_id mailbox_id : Text) (s : Inbox) (r : Attempt DeliveryStoreResult × Database)
    → total (record_result user_id mailbox_id s r) ≡ total s + 1
unfolding total
record_result-total user_id mailbox_id s (thrown message, db) = omega arith
record_result-total user_id mailbox_id s (returned duplicate, db) = omega arith
record_result-total user_id mailbox_id s (returned (stored count), db) = omega arith

module _ (platform : Platform) (incoming : Incoming) (recipient : Text) (user : UserRow) where
  store_encrypted-total :
      (mailbox : MailboxRow) (encrypted : Attempt Encrypted) (s : Inbox)
      → total (store_encrypted platform incoming recipient user mailbox encrypted s) ≡ total s + 1
  unfolding total
  store_encrypted-total mailbox (thrown message) s = omega arith
  store_encrypted-total mailbox (returned encrypted) s = record_result-total user.id mailbox.id s (
      store_delivery platform.uuid platform.refusal
        (delivery_input platform incoming recipient mailbox encrypted) s.db)

  with_inbox-total :
      (key : KeypairRow) (mailbox : Option MailboxRow) (s : Inbox)
      → total (with_inbox platform incoming recipient user key mailbox s) ≡ total s + 1
  unfolding total
  with_inbox-total key none s = omega arith
  with_inbox-total key (some mailbox) s =
      store_encrypted-total mailbox
        (encrypt_with_recipient_public_key platform incoming.raw_email incoming.metadata.subject
          key.public_key)
        s

  with_key-total :
      (key : Option KeypairRow) (s : Inbox)
      → total (with_key platform incoming recipient user key s) ≡ total s + 1
  unfolding total
  with_key-total none s = omega arith
  with_key-total (some key) s = with_inbox-total key (find_inbox_mailbox user.id s.db) s

module _ (platform : Platform) (users : List UserRow) (keypairs : List KeypairRow)
    (incoming : Incoming) where
  with_user-total :
      (recipient : Text) (user : Option UserRow) (s : Inbox)
      → total (with_user platform keypairs incoming recipient user s) ≡ total s + 1
  unfolding total
  with_user-total recipient none s = omega arith
  with_user-total recipient (some user) s =
      with_key-total platform incoming recipient user
        (find_active_x25519_public_key keypairs user.id) s

  deliver_to-total :
      (address : Text) (s : Inbox)
      → total (deliver_to platform users keypairs incoming address s) ≡ total s + 1
  unfolding deliver_to
  deliver_to-total address s =
      with_user-total (normalize_recipient address)
        (find_user_by_email users (normalize_recipient address)) s

  deliver_all-total :
      (addresses : List Text) (s : Inbox)
      → total (deliver_all platform users keypairs incoming addresses s)
        ≡ total s + length addresses
  unfolding deliver_all
  deliver_all-total [] s = omega arith
  deliver_all-total (address ∷ addresses) s =
      let next = deliver_to platform users keypairs incoming address s in
      omega (arith, deliver_all-total addresses next, deliver_to-total address s)

no_deliveries-total : (db : Database) (n : ℕ) → total (no_deliveries db) + n ≡ n
unfolding total
no_deliveries-total db n = omega arith

-- The counters of a job add up: each recipient is stored, a duplicate, skipped or failed, and counted once.
pub process_inbound_mail_job-total :
    (platform : Platform) (users : List UserRow) (keypairs : List KeypairRow) (raw_email : Text)
    (metadata : MailMetadata) (verification : VerificationResult) (db : Database)
    → total (process_inbound_mail_job platform users keypairs raw_email metadata verification db).1
      ≡ (process_inbound_mail_job platform users keypairs raw_email metadata verification db).0
unfolding process_inbound_mail_job
process_inbound_mail_job-total platform users keypairs raw_email metadata verification db =
    deliver_all-total platform users keypairs (incoming_of platform raw_email metadata verification)
      metadata.to (no_deliveries db)
    ∙ no_deliveries-total db (length metadata.to)
