-- ===== src/Imap/Message/Handler.antt =====
-- `createMessageCommandHandler` of commands/message.ts: COPY, APPEND and the handler over the database.
-- `none` is a rejected promise: the database refused an insert.
use enclave_mail.Prelude.{
  ℕ, Bool, true, false, List, [], ◌∷◌, ◌++◌, map, Option, none, some, Text, codes, show, join,
  to_upper_case, text_eq, text_Eq, nat_Eq, if◌then◌else◌,
}
use enclave_mail.Prelude.Int.{ℤ}
use enclave_mail.Imap.Types.{Session, Command, Result, ok, no_, bad}
use enclave_mail.Imap.Database.{Database, MailboxRow, MessageRow, list_messages}
use enclave_mail.Imap.Message.Store.{find_mailbox_by_name, copy_messages, append_stub_message}
use enclave_mail.Imap.Message.Search.{IndexedMessage, create_search_predicates}
use enclave_mail.Imap.Message.Replies.{
  selected_session, authenticated_session, index_from, resolve_target_messages, refuse,
  parse_append_literal_size, last_of,
}
use enclave_mail.Imap.Message.Actions.{handle_fetch, handle_store, search_with, handle_expunge}

-- The commands of the `switch`.
pub data MessageCommand : Type 0 where
  fetch store search copy expunge unknown : MessageCommand

unfoldable pub message_command_of : Text → MessageCommand
message_command_of name =
    if text_eq name (codes "FETCH")
    then fetch
    else if text_eq name (codes "STORE")
    then store
    else if text_eq name (codes "SEARCH")
    then search
    else if text_eq name (codes "COPY")
    then copy
    else if text_eq name (codes "EXPUNGE")
    then expunge
    else unknown

-- `parseUidSubcommand`; `none` is the subcommand `null`.
abbrev pub uid_able : MessageCommand → Bool
uid_able expunge = false
uid_able unknown = false
uid_able _ = true

unfoldable pub parse_uid_subcommand : List Text → Option (MessageCommand × List Text)
parse_uid_subcommand [] = none
parse_uid_subcommand (arg ∷ args) =
    let subcommand = message_command_of (to_upper_case arg) in
    if uid_able subcommand then some (subcommand, args) else none

module _ (uuid : ℕ → Text) (date_parse : Text → Option ℤ) (now : ℕ) where
  abbrev pub copied :
      Text
      → Database
      → MailboxRow
      → List MessageRow
      → Option (List ℕ × Database)
      → Option (Result Database)
  copied tag db destination sources none = none
  copied tag db destination sources (some (destination_uids, db')) = refuse db' tag ok (
      codes "[COPYUID "
      ++ (show destination.uid_validity
          ++ (codes " "
              ++ (join (codes ",") (map (λ m. show m.uid) sources)
                  ++ (codes " "
                      ++ (join (codes ",") (map show destination_uids)
                          ++ codes "] COPY completed"))))))

  abbrev pub copy_to :
      Text
      → Database
      → List IndexedMessage
      → Bool
      → Text
      → Option MailboxRow
      → Option (Result Database)
  copy_to tag db indexed use_uids set none = refuse db tag no_ (codes "COPY failed")
  copy_to tag db indexed use_uids set (some destination) =
      let sources = map (λ e. e.message) (resolve_target_messages indexed set use_uids) in
      copied tag db destination sources (copy_messages uuid destination sources db)

  unfoldable pub handle_copy :
      Text → Text → Database → List IndexedMessage → Bool → List Text → Option (Result Database)
  handle_copy tag user_id db indexed use_uids ((c ∷ s) ∷ (d ∷ t) ∷ args) =
      copy_to tag db indexed use_uids (c ∷ s) (find_mailbox_by_name user_id (d ∷ t) db)
  handle_copy tag user_id db indexed use_uids _ =
      refuse db tag bad (codes "COPY requires sequence set and destination mailbox")

  abbrev pub appended : Text → Option (Bool × Database) → Option (Result Database)
  appended tag none = none
  appended tag (some (false, db)) = refuse db tag no_ (codes "APPEND failed")
  appended tag (some (true, db)) = refuse db tag ok (codes "APPEND completed")

  unfoldable pub handle_append :
      Text → Database → Option Text → List Text → Option (Result Database)
  handle_append tag db none args = refuse db tag bad (codes "Not authenticated")
  handle_append tag db (some user_id) [] = refuse db tag bad (codes "APPEND requires mailbox name")
  handle_append tag db (some user_id) ([] ∷ args) =
      refuse db tag bad (codes "APPEND requires mailbox name")
  handle_append tag db (some user_id) ((c ∷ s) ∷ args) = appended tag (
      append_stub_message uuid now user_id (c ∷ s)
        (parse_append_literal_size (last_of ((c ∷ s) ∷ args))) db)

  -- The `switch` on the command, for a selected session.
  unfoldable pub run_message_command :
      Text
      → Database
      → Text
      → Text
      → List IndexedMessage
      → Bool
      → MessageCommand
      → List Text
      → Option (Result Database)
  run_message_command tag db user_id mailbox_id indexed use_uids fetch args =
      handle_fetch tag db indexed use_uids args
  run_message_command tag db user_id mailbox_id indexed use_uids store args =
      handle_store tag db indexed use_uids args
  run_message_command tag db user_id mailbox_id indexed use_uids search args =
      search_with tag db indexed use_uids (create_search_predicates date_parse indexed args)
  run_message_command tag db user_id mailbox_id indexed use_uids copy args =
      handle_copy tag user_id db indexed use_uids args
  run_message_command tag db user_id mailbox_id indexed use_uids expunge args =
      handle_expunge tag db indexed mailbox_id
  run_message_command tag db user_id mailbox_id indexed use_uids unknown args =
      refuse db tag bad (codes "Unsupported message command")

  abbrev pub run_uid_command :
      Text
      → Database
      → Text
      → Text
      → List IndexedMessage
      → Option (MessageCommand × List Text)
      → Option (Result Database)
  run_uid_command tag db user_id mailbox_id indexed none =
      refuse db tag bad (codes "UID requires FETCH, STORE, SEARCH, or COPY")
  run_uid_command tag db user_id mailbox_id indexed (some (subcommand, args)) =
      run_message_command tag db user_id mailbox_id indexed true subcommand args

  abbrev pub in_selected : Command → Database → Option (Text × Text) → Option (Result Database)
  in_selected command db none = refuse db command.tag bad (codes "Not in selected state")
  in_selected command db (some (user_id, mailbox_id)) =
      let indexed = index_from 1 (list_messages mailbox_id db) in
      if text_eq command.command (codes "UID")
      then run_uid_command command.tag db user_id mailbox_id indexed
          (parse_uid_subcommand command.args)
      else run_message_command command.tag db user_id mailbox_id indexed false
          (message_command_of command.command) command.args

  -- The handler.
  unfoldable pub message_command : Session → Command → Database → Option (Result Database)
  message_command session command db =
      if text_eq command.command (codes "APPEND")
      then handle_append command.tag db (authenticated_session session) command.args
      else in_selected command db (selected_session session)
