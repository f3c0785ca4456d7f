-- ===== src/Imap/Message/Actions.antt =====
-- FETCH, STORE, SEARCH and EXPUNGE of commands/message.ts.
pub mod Expunge
use enclave_mail.Prelude.{
  ℕ, zero, suc, ◌+◌, ◌-◌, Bool, true, false, not, ◌&&◌, ◌||◌, List, [], ◌∷◌, ◌++◌, map, Option,
  none, some, Text, codes, show, join, is_empty, to_upper_case, length, text_eq, text_Eq, nat_Eq,
  nat_eq, contains, filter, find, all, if◌then◌else◌,
}
use enclave_mail.Prelude.Int.{ℤ, parse_digits, is_digit}
use enclave_mail.Imap.Types.{
  Session, Command, ConnectionState, not_authenticated, authenticated, selected, logout, Result,
  Response, Status, ok, no_, bad, to_tagged, to_untagged,
}
use enclave_mail.Imap.Database.{
  Database, MailboxRow, MessageRow, list_messages, update_mailbox_counters,
}
use enclave_mail.Imap.Message.Flags.{
  seen, deleted, to_imap_flags, StoreOperation, parse_store_operation, apply_store_flags,
}
use enclave_mail.Imap.Message.SequenceSet.{parse_sequence_set}
use enclave_mail.Imap.Message.Store.{
  find_mailbox_by_name, get_message_body, update_flags, delete_messages_by_ids, copy_messages,
  append_stub_message,
}
use enclave_mail.Imap.Message.Fetch.{parse_fetch_items, build_fetch_response}
use enclave_mail.Imap.Message.Search.{
  IndexedMessage, max_uid, Criterion, Parsed, parsed, failed, create_search_predicates,
  apply_predicates,
}
use enclave_mail.Imap.Message.Replies.{
  nonempty, pair_of, selected_in, selected_session, authenticated_in, authenticated_session,
  index_from, resolve_target_messages, unread_count, uid_prefix, reply, refuse, digits_then_brace,
  parse_append_literal_size, last_of,
}

-- `FETCH`: the response for one message, with its body if an item asks for it.
unfoldable pub fetch_one : Database → List Text → IndexedMessage → Response
fetch_one db items target =
    let wants_body = contains items (codes "BODY[]") || contains items (codes "BODY[TEXT]") in
    let body = if wants_body then get_message_body (target.message).id db else none in
    build_fetch_response target.sequence target.message items body

abbrev pub fetch_items :
    Text → Database → List IndexedMessage → Bool → Text → List Text → Option (Result Database)
fetch_items tag db indexed use_uids set [] = refuse db tag bad (codes "FETCH requires data items")
fetch_items tag db indexed use_uids set (item ∷ items) = reply db (
    map (fetch_one db (item ∷ items)) (resolve_target_messages indexed set use_uids)
    ++ to_tagged tag ok (uid_prefix use_uids (codes "FETCH completed")) ∷ [])

unfoldable pub handle_fetch :
    Text → Database → List IndexedMessage → Bool → List Text → Option (Result Database)
handle_fetch tag db indexed use_uids [] = refuse db tag bad (codes "FETCH requires sequence set")
handle_fetch tag db indexed use_uids ([] ∷ args) =
    refuse db tag bad (codes "FETCH requires sequence set")
handle_fetch tag db indexed use_uids ((c ∷ s) ∷ args) =
    fetch_items tag db indexed use_uids (c ∷ s) (parse_fetch_items args)

-- `STORE`: the update of one target.
unfoldable pub flag_update : StoreOperation → IndexedMessage → Text × List Text
flag_update operation target =
    ((target.message).id, apply_store_flags (target.message).flags operation)

abbrev pub with_id : Text → IndexedMessage → Bool
with_id id e = text_eq (e.message).id id

-- The entry of an updated message gets the new flags.
unfoldable pub set_entry_flags : Text × List Text → List IndexedMessage → List IndexedMessage
set_entry_flags update [] = []
set_entry_flags (id, flags) (e ∷ es) =
    if with_id id e
    then record e { message = record (e.message) { flags = flags } } ∷ es
    else e ∷ set_entry_flags (id, flags) es

unfoldable pub set_entries : List (Text × List Text) → List IndexedMessage → List IndexedMessage
set_entries [] indexed = indexed
set_entries (u ∷ updates) indexed = set_entries updates (set_entry_flags u indexed)

abbrev pub flags_of : Option IndexedMessage → List Text
flags_of none = []
flags_of (some e) = (e.message).flags

unfoldable pub store_response : Bool → List IndexedMessage → IndexedMessage → Response
store_response use_uids indexed target =
    let updated_flags = flags_of (find (with_id (target.message).id) indexed) in
    let uid_segment = if use_uids then codes " UID " ++ show (target.message).uid else [] in
    to_untagged (
      show target.sequence
      ++ (codes " FETCH (FLAGS " ++ (to_imap_flags updated_flags ++ (uid_segment ++ codes ")"))))

abbrev pub store_flags_of :
    Text
    → Database
    → List IndexedMessage
    → Bool
    → Text
    → Option StoreOperation
    → Option (Result Database)
store_flags_of tag db indexed use_uids set none =
    refuse db tag bad (codes "STORE requires valid flag operation")
store_flags_of tag db indexed use_uids set (some operation) =
    let targets = resolve_target_messages indexed set use_uids in
    let updates = map (flag_update operation) targets in
    let done = to_tagged tag ok (uid_prefix use_uids (codes "STORE completed")) ∷ [] in
    reply (update_flags updates db) (
      if operation.silent
      then done
      else map (store_response use_uids (set_entries updates indexed)) targets ++ done)

unfoldable pub handle_store :
    Text → Database → List IndexedMessage → Bool → List Text → Option (Result Database)
handle_store tag db indexed use_uids [] = refuse db tag bad (codes "STORE requires sequence set")
handle_store tag db indexed use_uids ([] ∷ args) =
    refuse db tag bad (codes "STORE requires sequence set")
handle_store tag db indexed use_uids ((c ∷ s) ∷ args) =
    store_flags_of tag db indexed use_uids (c ∷ s) (parse_store_operation args)

-- `SEARCH`: the numbers of the messages that are left.
abbrev pub number_of : Bool → IndexedMessage → ℕ
number_of true e = (e.message).uid
number_of false e = e.sequence

abbrev pub number_list : List Text → Text
number_list [] = []
number_list (n ∷ ns) = codes " " ++ join (codes " ") (n ∷ ns)

abbrev pub search_with :
    Text
    → Database
    → List IndexedMessage
    → Bool
    → Parsed (List Criterion)
    → Option (Result Database)
search_with tag db indexed use_uids (failed error) = refuse db tag bad error
search_with tag db indexed use_uids (parsed predicates) =
    let numbers = map (number_of use_uids) (apply_predicates predicates indexed) in
    reply db (
      to_untagged (codes "SEARCH" ++ number_list (map show numbers))
      ∷ to_tagged tag ok (uid_prefix use_uids (codes "SEARCH completed"))
      ∷ [])

-- `EXPUNGE`: the messages marked as deleted go, and the counters are computed anew.
abbrev pub is_deleted : IndexedMessage → Bool
is_deleted e = contains (e.message).flags deleted

abbrev pub reverse_onto : List Response → List Response → List Response
reverse_onto [] acc = acc
reverse_onto (r ∷ rs) acc = reverse_onto rs (r ∷ acc)

abbrev pub expunge_response : IndexedMessage → Response
expunge_response e = to_untagged (show e.sequence ++ codes " EXPUNGE")

unfoldable pub remaining_after : List Text → List IndexedMessage → List MessageRow
remaining_after delete_ids indexed =
    map (λ e. e.message) (filter (λ e. not (contains delete_ids (e.message).id)) indexed)

-- The deletions are in ascending order, so the sort by descending sequence reverses them.
unfoldable pub handle_expunge :
    Text → Database → List IndexedMessage → Text → Option (Result Database)
handle_expunge tag db indexed mailbox_id =
    let deletions = filter is_deleted indexed in
    let delete_ids = map (λ e. (e.message).id) deletions in
    let remaining = remaining_after delete_ids indexed in
    reply
      (update_mailbox_counters mailbox_id (length remaining) (unread_count remaining)
        (delete_messages_by_ids delete_ids db))
      (reverse_onto (map expunge_response deletions)
        (to_tagged tag ok (codes "EXPUNGE completed") ∷ []))
