-- ===== src/Inbound/Store.antt =====
-- `createDatabaseStore` of queue/inbound-worker.ts, over the tables. A query that the database refuses
-- throws, and the transaction is rolled back.
pub mod Growth
use enclave_mail.Prelude.{
  ℕ, suc, ◌+◌, Bool, true, false, ◌&&◌, List, [], ◌∷◌, ◌++◌, Option, none, some, Text, codes,
  text_eq, find, any, if◌then◌else◌,
}
use enclave_mail.Prelude.Attempt.{Attempt, returned, thrown}
use enclave_mail.Imap.Database.{
  Database, MailboxRow, MailboxType, inbox, type_eq, MessageRow, BodyRow, find_mailbox_by_id,
  update_mailboxes, insert_message,
}

-- `users`, less its time stamps.
pub record UserRow : Type 0 where
  pub id : Text
  pub email : Text
  pub srp_salt : List ℕ
  pub srp_verifier : List ℕ
  pub key_export_confirmed : Bool
  pub is_admin : Bool
  pub email_verified : Bool
  pub email_verification_token : Option Text
  pub email_verification_expiry : Option ℕ
  pub disabled : Bool
  pub preferences : Text

pub data KeypairType : Type 0 where
  x25519 ed25519 : KeypairType

abbrev is_x25519 : KeypairType → Bool
is_x25519 x25519 = true
is_x25519 ed25519 = false

pub record KeypairRow : Type 0 where
  pub id : Text
  pub user_id : Text
  pub type : KeypairType
  pub public_key : List ℕ
  pub encrypted_private_key : List ℕ
  pub is_active : Bool

pub record VerificationResult : Type 0 where
  pub dkim : Text
  pub spf : Text
  pub dmarc : Text
  pub dmarc_policy : Option Text

pub record DeliveryInsertInput : Type 0 where
  pub mailbox_id : Text
  pub mailbox_uid_next : ℕ
  pub message_id : Text
  pub in_reply_to : Option Text
  pub from_address : Text
  pub to_addresses : List Text
  pub subject_encrypted : List ℕ
  pub date : ℕ
  pub size : ℕ
  pub encrypted_body : List ℕ
  pub encryption_metadata : Text
  pub verification : VerificationResult

pub data DeliveryStoreResult : Type 0 where
  stored : ℕ → DeliveryStoreResult
  duplicate : DeliveryStoreResult

unfoldable pub find_user_by_email : List UserRow → Text → Option UserRow
find_user_by_email users email = find (λ u. text_eq u.email email) users

unfoldable pub find_active_x25519_public_key : List KeypairRow → Text → Option KeypairRow
find_active_x25519_public_key keypairs user_id =
    find (λ k. text_eq k.user_id user_id && is_x25519 k.type && k.is_active) keypairs

abbrev pub inbox_of : Text → MailboxRow → Bool
inbox_of user_id b = text_eq b.user_id user_id && type_eq b.type inbox

unfoldable pub find_inbox_mailbox : Text → Database → Option MailboxRow
find_inbox_mailbox user_id db = find (inbox_of user_id) db.mailboxes

abbrev has_message_id : Option Text → Text → Bool
has_message_id none message_id = false
has_message_id (some id) message_id = text_eq id message_id

abbrev pub is_duplicate : Text → Text → MessageRow → Bool
is_duplicate mailbox_id message_id m =
    text_eq m.mailbox_id mailbox_id && has_message_id m.message_id message_id

abbrev pub delivered_row : Text → DeliveryInsertInput → MessageRow
delivered_row id input = record {
  id = id;
  mailbox_id = input.mailbox_id;
  uid = input.mailbox_uid_next;
  message_id = some input.message_id;
  in_reply_to = input.in_reply_to;
  from_address = input.from_address;
  to_addresses = input.to_addresses;
  subject_encrypted = some input.subject_encrypted;
  date = input.date;
  flags = [];
  size = input.size;
  dkim_status = some input.verification.dkim;
  spf_status = some input.verification.spf;
  dmarc_status = some input.verification.dmarc;
}

abbrev pub delivered_body : Text → DeliveryInsertInput → BodyRow
delivered_body id input = record {
  message_id = id;
  encrypted_body = input.encrypted_body;
  content_type = codes "message/rfc822-encrypted";
  encryption_metadata = input.encryption_metadata;
}

abbrev pub count_delivery : MailboxRow → MailboxRow
count_delivery b = record {
  id = b.id;
  user_id = b.user_id;
  name = b.name;
  type = b.type;
  uid_validity = b.uid_validity;
  uid_next = b.uid_next + 1;
  message_count = b.message_count + 1;
  unread_count = b.unread_count + 1;
}

abbrev pub with_delivery : Text → DeliveryInsertInput → Database → Database
with_delivery id input db = record {
  mailboxes = update_mailboxes input.mailbox_id count_delivery db.mailboxes;
  messages = db.messages;
  bodies = db.bodies ++ delivered_body id input ∷ [];
  next_id = db.next_id;
}

abbrev counted :
    DeliveryInsertInput
    → Database
    → Database
    → Option MailboxRow
    → Attempt DeliveryStoreResult × Database
counted input before after none =
    (thrown (codes "Failed to update mailbox counters for mailbox " ++ input.mailbox_id), before)
counted input before after (some b) = (returned (stored b.message_count), after)

abbrev pub inserted :
    Text
    → Text
    → DeliveryInsertInput
    → Database
    → Option Database
    → Attempt DeliveryStoreResult × Database
inserted refusal id input before none = (thrown refusal, before)
inserted refusal id input before (some db) =
    let after = with_delivery id input db in
    counted input before after (find_mailbox_by_id input.mailbox_id after)

abbrev unless_duplicate :
    Bool
    → Database
    → Attempt DeliveryStoreResult × Database
    → Attempt DeliveryStoreResult × Database
unless_duplicate true db result = (returned duplicate, db)
unless_duplicate false db result = result

-- `refusal` is the error of an insert that the database refuses, `uuid` its generator of ids.
unfoldable pub store_delivery :
    (ℕ → Text) → Text → DeliveryInsertInput → Database → Attempt DeliveryStoreResult × Database
store_delivery uuid refusal input db =
    unless_duplicate (any (is_duplicate input.mailbox_id input.message_id) db.messages) db (
      inserted refusal (uuid db.next_id) input db
        (insert_message (delivered_row (uuid db.next_id) input) db))
