-- ===== src/Imap/Database.antt =====
-- The tables that the IMAP commands read and write (packages/db/src/schema/mailboxes.ts,
-- messages.ts and message_bodies.ts) and the queries that the two stores share. Ids are the texts
-- that the database generates: the n-th generated id is `uuid n`. The time stamps `created_at` and
-- `updated_at`, which no command reads, are left out.
pub mod Integrity
use enclave_mail.Prelude.{
  ℕ, suc, ◌+◌, Bool, true, false, not, ◌&&◌, ◌||◌, List, [], ◌∷◌, ◌++◌, map, Option, none, some,
  Text, leb, nat_eq, text_eq, text_Eq, contains, filter, find, any, if◌then◌else◌,
}

-- `mailboxTypeEnum`.
pub data MailboxType : Type 0 where
  inbox sent drafts trash archive custom : MailboxType

abbrev pub type_eq : MailboxType → MailboxType → Bool
type_eq inbox inbox = true
type_eq sent sent = true
type_eq drafts drafts = true
type_eq trash trash = true
type_eq archive archive = true
type_eq custom custom = true
type_eq _ _ = false

pub record MailboxRow : Type 0 where
  pub id : Text
  pub user_id : Text
  pub name : Text
  pub type : MailboxType
  pub uid_validity : ℕ
  pub uid_next : ℕ
  pub message_count : ℕ
  pub unread_count : ℕ

pub record MessageRow : Type 0 where
  pub id : Text
  pub mailbox_id : Text
  pub uid : ℕ
  pub message_id : Option Text
  pub in_reply_to : Option Text
  pub from_address : Text
  pub to_addresses : List Text
  pub subject_encrypted : Option (List ℕ)
  pub date : ℕ
  pub flags : List Text
  pub size : ℕ
  pub dkim_status : Option Text
  pub spf_status : Option Text
  pub dmarc_status : Option Text

pub record BodyRow : Type 0 where
  pub message_id : Text
  pub encrypted_body : List ℕ
  pub content_type : Text
  pub encryption_metadata : Text

-- `next_id` counts the ids that the database has generated.
pub record Database : Type 0 where
  pub mailboxes : List MailboxRow
  pub messages : List MessageRow
  pub bodies : List BodyRow
  pub next_id : ℕ

abbrev pub in_mailbox : Text → MessageRow → Bool
in_mailbox mailbox_id m = text_eq m.mailbox_id mailbox_id

-- `orderBy(asc(messages.uid))`.
unfoldable pub insert_by_uid : MessageRow → List MessageRow → List MessageRow
insert_by_uid m [] = m ∷ []
insert_by_uid m (n ∷ ns) = if leb m.uid n.uid then m ∷ n ∷ ns else n ∷ insert_by_uid m ns

unfoldable pub order_by_uid : List MessageRow → List MessageRow
order_by_uid [] = []
order_by_uid (m ∷ ms) = insert_by_uid m (order_by_uid ms)

-- `listMessages`; `listMessageMeta` selects two columns of the same rows.
unfoldable pub list_messages : Text → Database → List MessageRow
list_messages mailbox_id db = order_by_uid (filter (in_mailbox mailbox_id) db.messages)

unfoldable pub find_mailbox_by_id : Text → Database → Option MailboxRow
find_mailbox_by_id id db = find (λ b. text_eq b.id id) db.mailboxes

-- An update of the mailbox with the given id.
unfoldable pub update_mailboxes :
    Text → (MailboxRow → MailboxRow) → List MailboxRow → List MailboxRow
update_mailboxes id f [] = []
update_mailboxes id f (b ∷ bs) = (if text_eq b.id id then f b else b) ∷ update_mailboxes id f bs

-- `updateMailboxCounters`, with no `uidNext` in the payload (no call passes one).
unfoldable pub update_mailbox_counters : Text → ℕ → ℕ → Database → Database
update_mailbox_counters mailbox_id message_count unread_count db = record db {
  mailboxes =
      update_mailboxes mailbox_id
        (λ b. record b { message_count = message_count; unread_count = unread_count }) db.mailboxes;
}

-- An insert into `messages` fails on a taken pair of mailbox and uid, or with no such mailbox.
unfoldable pub insert_message : MessageRow → Database → Option Database
insert_message m db =
    let taken = any (λ n. text_eq n.mailbox_id m.mailbox_id && nat_eq n.uid m.uid) db.messages in
    let known = any (λ b. text_eq b.id m.mailbox_id) db.mailboxes in
    if taken || not known
    then none
    else some (record db { messages = db.messages ++ m ∷ []; next_id = suc db.next_id })

-- A delete from `messages` takes the bodies along.
unfoldable pub delete_messages : (MessageRow → Bool) → Database → Database
delete_messages gone db =
    let ids = map (λ m. m.id) (filter gone db.messages) in
    record db {
      messages = filter (λ m. not (gone m)) db.messages;
      bodies = filter (λ b. not (contains ids b.message_id)) db.bodies;
    }
