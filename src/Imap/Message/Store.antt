-- ===== src/Imap/Message/Store.antt =====
-- `createDrizzleMessageStore` of commands/message.ts. `none` is a query that the database refuses:
-- the transaction is rolled back and the handler's promise is rejected.
pub mod Uids
use enclave_mail.Prelude.{
  ℕ, suc, ◌+◌, Bool, true, false, not, ◌&&◌, ◌||◌, List, [], ◌∷◌, ◌++◌, map, Option, none, some,
  Text, codes, show, trim, to_lower_case, length, text_eq, text_Eq, contains, find, if◌then◌else◌,
}
use enclave_mail.Imap.Database.{
  Database, MailboxRow, MailboxType, inbox, sent, drafts, trash, archive, type_eq, MessageRow,
  BodyRow, find_mailbox_by_id, update_mailboxes, insert_message, delete_messages,
}
use enclave_mail.Imap.Message.Flags.{seen, normalize_db_flags}

-- `SYSTEM_MAILBOXES[name]`, for names that are no property of every object.
unfoldable pub system_mailboxes : Text → Option MailboxType
system_mailboxes name =
    if text_eq name (codes "inbox")
    then some inbox
    else if text_eq name (codes "sent")
    then some sent
    else if text_eq name (codes "drafts")
    then some drafts
    else if text_eq name (codes "trash")
    then some trash
    else if text_eq name (codes "archive")
    then some archive
    else none

abbrev of_type : Text → MailboxType → MailboxRow → Bool
of_type user_id type b = text_eq b.user_id user_id && type_eq b.type type

abbrev of_name : Text → Text → MailboxRow → Bool
of_name user_id name b = text_eq b.user_id user_id && text_eq b.name name

-- The two queries by name; the first row is taken.
unfoldable pub find_mailbox : Option MailboxType → Text → Text → Database → Option MailboxRow
find_mailbox (some system_type) user_id name db = find (of_type user_id system_type) db.mailboxes
find_mailbox none user_id name db = find (of_name user_id name) db.mailboxes

unfoldable pub find_mailbox_by_name : Text → Text → Database → Option MailboxRow
find_mailbox_by_name user_id mailbox_name db =
    let normalized_name = trim mailbox_name in
    find_mailbox (system_mailboxes (to_lower_case normalized_name)) user_id normalized_name db

unfoldable pub get_message_body : Text → Database → Option BodyRow
get_message_body message_id db = find (λ b. text_eq b.message_id message_id) db.bodies

unfoldable pub update_flags_of : Text → List Text → List MessageRow → List MessageRow
update_flags_of message_id flags [] = []
update_flags_of message_id flags (m ∷ ms) =
    (if text_eq m.id message_id then record m { flags = normalize_db_flags flags } else m)
    ∷ update_flags_of message_id flags ms

-- `updateFlags`: one update for each entry.
unfoldable pub update_flags : List (Text × List Text) → Database → Database
update_flags [] db = db
update_flags ((message_id, flags) ∷ entries) db =
    update_flags entries (record db { messages = update_flags_of message_id flags db.messages })

unfoldable pub delete_messages_by_ids : List Text → Database → Database
delete_messages_by_ids message_ids db = delete_messages (λ m. contains message_ids m.id) db

-- The variables of the loop of `copyMessages`, beside the database.
pub record Copying : Type 0 where
  pub destination_uids : List ℕ
  pub next_uid : ℕ
  pub unread_delta : ℕ
  pub db : Database

-- The counters that `copyMessages` writes when the loop is done.
abbrev pub add_copies : MailboxRow → Copying → MailboxRow → MailboxRow
add_copies destination c b = record b {
  uid_next = destination.uid_next + length c.destination_uids;
  message_count = destination.message_count + length c.destination_uids;
  unread_count = destination.unread_count + c.unread_delta;
}

abbrev pub finish_copy : Text → MailboxRow → Option Copying → Option (List ℕ × Database)
finish_copy mailbox_id destination none = none
finish_copy mailbox_id destination (some c) = some (
  c.destination_uids,
  record (c.db) {
    mailboxes = update_mailboxes mailbox_id (add_copies destination c) (c.db).mailboxes;
  },
)

abbrev pub count_stub : MailboxRow → MailboxRow → MailboxRow
count_stub mailbox b = record b {
  uid_next = mailbox.uid_next + 1;
  message_count = mailbox.message_count + 1;
  unread_count = mailbox.unread_count + 1;
}

module _ (uuid : ℕ → Text) where
  -- The row that the loop inserts.
  abbrev pub copied_row : Text → Copying → MessageRow → MessageRow
  copied_row mailbox_id c source = record source {
    id = uuid c.db.next_id;
    mailbox_id = mailbox_id;
    uid = c.next_uid;
    flags = normalize_db_flags source.flags;
  }

  -- The copy of the body, if the source has one.
  unfoldable pub copy_body : Text → Option BodyRow → Database → Database
  copy_body new_id none db = db
  copy_body new_id (some body) db = record db {
    bodies = db.bodies ++ record body { message_id = new_id } ∷ [];
  }

  -- One round of the loop.
  unfoldable pub copy_message : Text → Copying → MessageRow → Option Copying
  copy_message mailbox_id c source = elim (insert_message (copied_row mailbox_id c source) c.db) [
    | none ↦ none
    | some db ↦ some (record {
      destination_uids = c.destination_uids ++ c.next_uid ∷ [];
      next_uid = c.next_uid + 1;
      unread_delta = (if contains source.flags seen then c.unread_delta else c.unread_delta + 1);
      db = copy_body (uuid c.db.next_id) (get_message_body source.id db) db;
    })
  ]

  unfoldable pub copy_loop : Text → Copying → List MessageRow → Option Copying
  copy_loop mailbox_id c [] = some c
  copy_loop mailbox_id c (source ∷ sources) = elim (copy_message mailbox_id c source) [
    | none ↦ none
    | some c' ↦ copy_loop mailbox_id c' sources
  ]

  -- The transaction, with the destination as it reads it.
  abbrev pub copy_into :
      Text → Option MailboxRow → List MessageRow → Database → Option (List ℕ × Database)
  copy_into mailbox_id none sources db = some ([], db)
  copy_into mailbox_id (some destination) sources db = finish_copy mailbox_id destination (
      copy_loop mailbox_id
        (record {
          destination_uids = [];
          next_uid = destination.uid_next;
          unread_delta = 0;
          db = db;
        })
        sources)

  unfoldable pub copy_messages :
      MailboxRow → List MessageRow → Database → Option (List ℕ × Database)
  copy_messages destination_mailbox [] db = some ([], db)
  copy_messages destination_mailbox (source ∷ sources) db =
      copy_into destination_mailbox.id (find_mailbox_by_id destination_mailbox.id db)
        (source ∷ sources) db

  -- The stub that `APPEND` stores at time `now`.
  abbrev pub stub_row : ℕ → MailboxRow → ℕ → Database → MessageRow
  stub_row now mailbox literal_size db = record {
    id = uuid db.next_id;
    mailbox_id = mailbox.id;
    uid = mailbox.uid_next;
    message_id = some (codes "append-" ++ show now);
    in_reply_to = none;
    from_address = codes "unknown@localhost";
    to_addresses = [];
    subject_encrypted = none;
    date = now;
    flags = [];
    size = literal_size;
    dkim_status = none;
    spf_status = none;
    dmarc_status = none;
  }

  abbrev pub append_to : ℕ → Option MailboxRow → ℕ → Database → Option (Bool × Database)
  append_to now none literal_size db = some (false, db)
  append_to now (some mailbox) literal_size db =
      elim (insert_message (stub_row now mailbox literal_size db) db) [
        | none ↦ none
        | some db' ↦ some (
          true,
          record db' { mailboxes = update_mailboxes mailbox.id (count_stub mailbox) db'.mailboxes },
        )
      ]

  unfoldable pub append_stub_message : ℕ → Text → Text → ℕ → Database → Option (Bool × Database)
  append_stub_message now user_id mailbox_name literal_size db =
      append_to now (find_mailbox_by_name user_id mailbox_name db) literal_size db
