-- ===== src/Imap/Mailbox/Commands.antt =====
-- The commands of commands/mailbox.ts, one function each. `none` is a rejected promise: the pattern of
-- `LIST` is no regular expression.
use enclave_mail.Prelude.{
  ℕ, ◌/◌, Bool, true, false, List, [], ◌∷◌, ◌++◌, Option, none, some, Text, codes, show, join, trim,
  to_lower_case, text_eq, text_Eq, contains, if◌then◌else◌,
}
use enclave_mail.Imap.Types.{
  Session, ConnectionState, authenticated, selected, Result, Response, Status, ok, no_, bad,
  to_tagged, to_untagged, escape_imap_string,
}
use enclave_mail.Imap.Database.{
  Database, MailboxRow, MailboxType, custom, list_messages, update_mailbox_counters,
}
use enclave_mail.Imap.Mailbox.Pattern.{matches_mailbox_pattern}
use enclave_mail.Imap.Mailbox.Store.{
  mailbox_flags, system_mailbox_names, MailboxStats, to_mailbox_stats, parse_status_items,
  list_mailboxes, find_mailbox_by_name, find_mailbox_by_name_case_insensitive, create_mailbox,
  delete_mailbox_by_id, expunge_deleted_messages,
}

-- The session and the database.
pub record Connected : Type 0 where
  pub session : Session
  pub db : Database

abbrev pub reply : Connected → List Response → Option (Result Connected)
reply c responses = some (record { state = c; responses = responses; close_connection = false })

abbrev pub refuse : Connected → Text → Status → Text → Option (Result Connected)
refuse c tag status message = reply c (to_tagged tag status message ∷ [])

-- The responses of `LIST` and `LSUB`: `none` where a pattern is no regular expression.
abbrev pub list_response : Text → MailboxRow → Response
list_response name b = to_untagged (
    name
    ++ (codes " "
        ++ (mailbox_flags b.type
            ++ (codes " \"/\" \"" ++ (escape_imap_string b.name ++ codes "\"")))))

unfoldable pub list_responses : (ℕ → ℕ) → Text → Text → List MailboxRow → Option (List Response)
list_responses fold name pattern_text [] = some []
list_responses fold name pattern_text (b ∷ bs) =
    elim (matches_mailbox_pattern fold b.name pattern_text) [
      | none ↦ none
      | some matched ↦ elim (list_responses fold name pattern_text bs) [
        | none ↦ none
        | some rest ↦ some (if matched then list_response name b ∷ rest else rest)
      ]
    ]

abbrev pub listed : Connected → Text → Text → Option (List Response) → Option (Result Connected)
listed c tag name none = none
listed c tag name (some responses) =
    reply c (responses ++ to_tagged tag ok (name ++ codes " completed") ∷ [])

unfoldable pub handle_list :
    (ℕ → ℕ) → Connected → Text → Text → Text → List Text → Option (Result Connected)
handle_list fold c tag user_id name (reference ∷ pattern_text ∷ args) =
    listed c tag name (list_responses fold name pattern_text (list_mailboxes user_id c.db))
handle_list fold c tag user_id name _ =
    refuse c tag bad (name ++ codes " requires reference and mailbox pattern")

-- `SELECT` and `EXAMINE`.
abbrev pub mode_of : Bool → Text
mode_of true = codes "READ-ONLY"
mode_of false = codes "READ-WRITE"

abbrev pub select_name : Bool → Text
select_name true = codes "EXAMINE"
select_name false = codes "SELECT"

abbrev pub select_row : Connected → Text → Bool → Option MailboxRow → Option (Result Connected)
select_row c tag read_only none = refuse c tag no_ (select_name read_only ++ codes " failed")
select_row c tag read_only (some mailbox) =
    let stats = to_mailbox_stats (list_messages mailbox.id c.db) in
    reply
      (record c {
        session = record (c.session) { state = selected; selected_mailbox = some mailbox.id };
      })
      (to_untagged (show stats.exists ++ codes " EXISTS")
        ∷ to_untagged (codes "0 RECENT")
        ∷ to_untagged
            (codes "OK [UNSEEN " ++ (show stats.first_unseen ++ codes "] First unseen message"))
        ∷ to_untagged (codes "OK [UIDVALIDITY " ++ (show mailbox.uid_validity ++ codes "]"))
        ∷ to_untagged (codes "OK [UIDNEXT " ++ (show mailbox.uid_next ++ codes "]"))
        ∷ to_untagged (codes "FLAGS (\\Seen \\Answered \\Flagged \\Deleted \\Draft)")
        ∷ to_untagged
            (codes "OK [PERMANENTFLAGS (\\Seen \\Answered \\Flagged \\Deleted \\Draft \\*)]")
        ∷ to_tagged tag ok (
            codes "["
            ++ (mode_of read_only ++ (codes "] " ++ (select_name read_only ++ codes " completed"))))
        ∷ [])

unfoldable pub handle_select :
    Connected → Text → Text → Bool → List Text → Option (Result Connected)
handle_select c tag user_id read_only ((h ∷ s) ∷ args) =
    select_row c tag read_only (find_mailbox_by_name user_id (trim (h ∷ s)) c.db)
handle_select c tag user_id read_only _ =
    refuse c tag bad (select_name read_only ++ codes " requires mailbox name")

-- `CREATE` at time `now`, in milliseconds.
abbrev pub created : Connected → Text → Option Database → Option (Result Connected)
created c tag none = none
created c tag (some db) = refuse (record c { db = db }) tag ok (codes "CREATE completed")

abbrev pub create_free :
    (ℕ → Text) → ℕ → Connected → Text → Text → Text → Option MailboxRow → Option (Result Connected)
create_free uuid now c tag user_id name (some existing) =
    refuse c tag no_ (codes "CREATE failed (mailbox exists)")
create_free uuid now c tag user_id name none =
    created c tag (create_mailbox uuid user_id name (now / 1000) c.db)

abbrev pub create_named :
    (ℕ → Text) → ℕ → Connected → Text → Text → Text → Option (Result Connected)
create_named uuid now c tag user_id [] = refuse c tag bad (codes "CREATE requires mailbox name")
create_named uuid now c tag user_id (h ∷ s) =
    if contains system_mailbox_names (to_lower_case (h ∷ s))
    then refuse c tag no_ (codes "CREATE failed (system mailbox name reserved)")
    else create_free uuid now c tag user_id (h ∷ s)
        (find_mailbox_by_name_case_insensitive user_id (h ∷ s) c.db)

unfoldable pub handle_create :
    (ℕ → Text) → ℕ → Connected → Text → Text → List Text → Option (Result Connected)
handle_create uuid now c tag user_id ((h ∷ s) ∷ args) =
    create_named uuid now c tag user_id (trim (h ∷ s))
handle_create uuid now c tag user_id _ = refuse c tag bad (codes "CREATE requires mailbox name")

-- `DELETE`.
abbrev pub delete_done : Connected → Text → Database → Bool → Option (Result Connected)
delete_done c tag db true = refuse (record c { db = db }) tag ok (codes "DELETE completed")
delete_done c tag db false = refuse c tag no_ (codes "DELETE failed")

abbrev pub delete_row : Connected → Text → Text → Text → MailboxType → Option (Result Connected)
delete_row c tag user_id mailbox_id custom =
    delete_done c tag (delete_mailbox_by_id user_id mailbox_id c.db).0
      (delete_mailbox_by_id user_id mailbox_id c.db).1
delete_row c tag user_id mailbox_id _ = refuse c tag no_ (codes "DELETE failed (system mailbox)")

abbrev pub delete_found : Connected → Text → Text → Option MailboxRow → Option (Result Connected)
delete_found c tag user_id none = refuse c tag no_ (codes "DELETE failed")
delete_found c tag user_id (some mailbox) = delete_row c tag user_id mailbox.id mailbox.type

unfoldable pub handle_delete : Connected → Text → Text → List Text → Option (Result Connected)
handle_delete c tag user_id ((h ∷ s) ∷ args) =
    delete_found c tag user_id (find_mailbox_by_name user_id (trim (h ∷ s)) c.db)
handle_delete c tag user_id _ = refuse c tag bad (codes "DELETE requires mailbox name")

-- `STATUS`: a list of names and values, or the item that is not supported.
abbrev pub status_value : MailboxStats → MailboxRow → Text → Option ℕ
status_value stats mailbox item =
    if text_eq item (codes "MESSAGES")
    then some stats.exists
    else if text_eq item (codes "UNSEEN")
    then some stats.unseen_count
    else if text_eq item (codes "UIDNEXT")
    then some mailbox.uid_next
    else if text_eq item (codes "UIDVALIDITY")
    then some mailbox.uid_validity
    else none

pub data Items : Type 0 where
  values : List Text → Items
  unsupported_item : Text → Items

abbrev pub add_item : Text → ℕ → Items → Items
add_item item n (values vs) = values (item ∷ show n ∷ vs)
add_item item n (unsupported_item i) = unsupported_item i

unfoldable pub status_items : MailboxStats → MailboxRow → List Text → Items
status_items stats mailbox [] = values []
status_items stats mailbox (item ∷ items) = elim (status_value stats mailbox item) [
  | none ↦ unsupported_item item
  | some n ↦ add_item item n (status_items stats mailbox items)
]

abbrev pub status_reply : Connected → Text → MailboxRow → Items → Option (Result Connected)
status_reply c tag mailbox (unsupported_item item) =
    refuse c tag bad (codes "Unsupported STATUS data item: " ++ item)
status_reply c tag mailbox (values vs) = reply c (
    to_untagged (
      codes "STATUS \""
      ++ (escape_imap_string mailbox.name ++ (codes "\" (" ++ (join (codes " ") vs ++ codes ")"))))
    ∷ to_tagged tag ok (codes "STATUS completed")
    ∷ [])

abbrev pub status_of : Connected → Text → List Text → Option MailboxRow → Option (Result Connected)
status_of c tag items none = refuse c tag no_ (codes "STATUS failed")
status_of c tag items (some mailbox) =
    let stats = to_mailbox_stats (list_messages mailbox.id c.db) in
    status_reply c tag mailbox (status_items stats mailbox items)

abbrev pub status_for :
    Connected → Text → Text → Text → Option (List Text) → Option (Result Connected)
status_for c tag user_id name none = refuse c tag bad (codes "STATUS requires data items list")
status_for c tag user_id name (some items) =
    status_of c tag items (find_mailbox_by_name user_id name c.db)

unfoldable pub handle_status : Connected → Text → Text → List Text → Option (Result Connected)
handle_status c tag user_id ((h ∷ s) ∷ args) =
    status_for c tag user_id (trim (h ∷ s)) (parse_status_items args)
handle_status c tag user_id _ = refuse c tag bad (codes "STATUS requires mailbox name")

-- `CLOSE`: the mailbox that is open, if there is one.
abbrev pub open_mailbox : ConnectionState → Option Text → Option Text
open_mailbox selected (some (h ∷ s)) = some (h ∷ s)
open_mailbox _ _ = none

abbrev pub close_mailbox : Connected → Text → Option Text → Option (Result Connected)
close_mailbox c tag none = refuse c tag bad (codes "No mailbox selected")
close_mailbox c tag (some mailbox_id) =
    let db = expunge_deleted_messages mailbox_id c.db in
    let stats = to_mailbox_stats (list_messages mailbox_id db) in
    refuse
      (record {
        session = record (c.session) { state = authenticated; selected_mailbox = none };
        db = update_mailbox_counters mailbox_id stats.exists stats.unseen_count db;
      })
      tag ok (codes "CLOSE completed")

unfoldable pub handle_close : Connected → Text → Option (Result Connected)
handle_close c tag =
    close_mailbox c tag (open_mailbox (c.session).state (c.session).selected_mailbox)
