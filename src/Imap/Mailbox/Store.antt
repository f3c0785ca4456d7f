-- ===== src/Imap/Mailbox/Store.antt =====
-- The store of commands/mailbox.ts (`createDrizzleMailboxStore`), and what the handler reads from rows
-- and arguments.
use enclave_mail.Prelude.{
  ℕ, suc, Bool, true, false, not, ◌&&◌, ◌||◌, List, [], ◌∷◌, ◌++◌, map, Option, none, some, Text,
  codes, join, words, trim, to_upper_case, to_lower_case, starts_with, ends_with, length, leb,
  text_eq, text_Eq, contains, filter, find, any, if◌then◌else◌,
}
use enclave_mail.Imap.Types.{Session, ConnectionState, authenticated, selected}
use enclave_mail.Imap.Database.{
  Database, MailboxRow, MailboxType, inbox, sent, drafts, trash, archive, custom, MessageRow,
  in_mailbox, delete_messages,
}
use enclave_mail.Imap.Message.Flags.{seen, deleted, inside}
use enclave_mail.Imap.Message.Store.{system_mailboxes, find_mailbox}

-- `mailboxFlags`, with `SPECIAL_USE_FLAGS`.
abbrev pub mailbox_flags : MailboxType → Text
mailbox_flags inbox = codes "(\\Inbox)"
mailbox_flags sent = codes "(\\Sent)"
mailbox_flags drafts = codes "(\\Drafts)"
mailbox_flags trash = codes "(\\Trash)"
mailbox_flags archive = codes "(\\Archive)"
mailbox_flags custom = codes "()"

-- `SYSTEM_MAILBOX_NAMES`.
abbrev pub system_mailbox_names : List Text
system_mailbox_names =
    codes "inbox"
    ∷ codes "sent"
    ∷ codes "drafts"
    ∷ codes "trash"
    ∷ codes "archive"
    ∷ codes "junk"
    ∷ []

-- `isAuthenticatedForMailboxCommands`: the user of a session that may use mailboxes.
abbrev pub mailbox_user_in : ConnectionState → Option Text → Option Text
mailbox_user_in authenticated user = user
mailbox_user_in selected user = user
mailbox_user_in _ user = none

unfoldable pub mailbox_user : Session → Option Text
mailbox_user s = mailbox_user_in s.state s.user_id

-- `toMailboxStats`, of the rows whose uid and flags are listed.
pub record MailboxStats : Type 0 where
  pub exists : ℕ
  pub unseen_count : ℕ
  pub first_unseen : ℕ

unfoldable pub unseen_uids : List MessageRow → List ℕ
unseen_uids [] = []
unseen_uids (m ∷ ms) = if contains m.flags seen then unseen_uids ms else m.uid ∷ unseen_uids ms

abbrev pub head_or_zero : List ℕ → ℕ
head_or_zero [] = 0
head_or_zero (n ∷ ns) = n

unfoldable pub to_mailbox_stats : List MessageRow → MailboxStats
to_mailbox_stats message_meta = record {
  exists = length message_meta;
  unseen_count = length (unseen_uids message_meta);
  first_unseen = head_or_zero (unseen_uids message_meta);
}

-- `parseStatusItems`.
abbrev pub some_items : List Text → Option (List Text)
some_items [] = none
some_items (v ∷ vs) = some (v ∷ vs)

unfoldable pub parse_status_items : List Text → Option (List Text)
parse_status_items args =
    let raw = trim (join (codes " ") args) in
    if not (starts_with raw (codes "(")) || not (ends_with raw (codes ")"))
    then none
    else some_items (map to_upper_case (words (trim (inside raw))))

-- `orderBy(asc(mailboxes.name))`, by code units.
unfoldable pub text_leb : Text → Text → Bool
text_leb [] t = true
text_leb (c ∷ s) [] = false
text_leb (c ∷ s) (d ∷ t) = if leb d c then (if leb c d then text_leb s t else false) else true

unfoldable pub insert_by_name : MailboxRow → List MailboxRow → List MailboxRow
insert_by_name b [] = b ∷ []
insert_by_name b (c ∷ cs) = if text_leb b.name c.name then b ∷ c ∷ cs else c ∷ insert_by_name b cs

unfoldable pub order_by_name : List MailboxRow → List MailboxRow
order_by_name [] = []
order_by_name (b ∷ bs) = insert_by_name b (order_by_name bs)

unfoldable pub list_mailboxes : Text → Database → List MailboxRow
list_mailboxes user_id db = order_by_name (filter (λ b. text_eq b.user_id user_id) db.mailboxes)

-- `findMailboxByName` of this store takes the name as it is.
unfoldable pub find_mailbox_by_name : Text → Text → Database → Option MailboxRow
find_mailbox_by_name user_id mailbox_name db =
    find_mailbox (system_mailboxes (to_lower_case (trim mailbox_name))) user_id mailbox_name db

unfoldable pub find_mailbox_by_name_case_insensitive : Text → Text → Database → Option MailboxRow
find_mailbox_by_name_case_insensitive user_id mailbox_name db =
    let lowered = to_lower_case (trim mailbox_name) in
    find (λ b. text_eq b.user_id user_id && text_eq (to_lower_case b.name) lowered) db.mailboxes

-- `createMailbox`: the insert fails if the user has a mailbox of this name.
unfoldable pub create_mailbox : (ℕ → Text) → Text → Text → ℕ → Database → Option Database
create_mailbox uuid user_id name uid_validity db =
    if any (λ b. text_eq b.user_id user_id && text_eq b.name name) db.mailboxes
    then none
    else some (record db {
      mailboxes =
          db.mailboxes
          ++ record {
            id = uuid db.next_id;
            user_id = user_id;
            name = name;
            type = custom;
            uid_validity = uid_validity;
            uid_next = 1;
            message_count = 0;
            unread_count = 0;
          }
            ∷ [];
      next_id = suc db.next_id;
    })

-- `deleteMailboxById`: the messages of the mailbox go with it. The result says whether a row went.
abbrev pub is_row : Text → Text → MailboxRow → Bool
is_row user_id mailbox_id b = text_eq b.user_id user_id && text_eq b.id mailbox_id

unfoldable pub delete_mailbox_by_id : Text → Text → Database → Database × Bool
delete_mailbox_by_id user_id mailbox_id db =
    let found = any (is_row user_id mailbox_id) db.mailboxes in
    let rest = filter (λ b. not (is_row user_id mailbox_id b)) db.mailboxes in
    let emptied = delete_messages (in_mailbox mailbox_id) db in
    if found then (record emptied { mailboxes = rest }, true) else (db, false)

-- `expungeDeletedMessages`.
unfoldable pub expunge_deleted_messages : Text → Database → Database
expunge_deleted_messages mailbox_id db =
    delete_messages (λ m. in_mailbox mailbox_id m && contains m.flags deleted) db
