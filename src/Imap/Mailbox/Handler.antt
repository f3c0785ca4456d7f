-- ===== src/Imap/Mailbox/Handler.antt =====
-- `createMailboxCommandHandler` of commands/mailbox.ts: the command is handed to its function.
use enclave_mail.Prelude.{
  ℕ, true, false, List, Option, none, some, Text, codes, text_eq, text_Eq, if◌then◌else◌,
}
use enclave_mail.Imap.Types.{Command, Result, bad}
use enclave_mail.Imap.Mailbox.Store.{mailbox_user}
use enclave_mail.Imap.Mailbox.Commands.{
  Connected, refuse, handle_list, handle_select, handle_create, handle_delete, handle_status,
  handle_close,
}

-- The commands of the `switch`.
pub data MailboxCommand : Type 0 where
  list lsub select_ examine create delete status_ close unknown : MailboxCommand

unfoldable pub mailbox_command_of : Text → MailboxCommand
mailbox_command_of name =
    if text_eq name (codes "LIST")
    then list
    else if text_eq name (codes "LSUB")
    then lsub
    else if text_eq name (codes "SELECT")
    then select_
    else if text_eq name (codes "EXAMINE")
    then examine
    else if text_eq name (codes "CREATE")
    then create
    else if text_eq name (codes "DELETE")
    then delete
    else if text_eq name (codes "STATUS")
    then status_
    else if text_eq name (codes "CLOSE")
    then close
    else unknown

module _ (fold : ℕ → ℕ) (uuid : ℕ → Text) (now : ℕ) where
  unfoldable pub run_mailbox_command :
      Connected → Text → Text → MailboxCommand → List Text → Option (Result Connected)
  run_mailbox_command c tag user_id list args = handle_list fold c tag user_id (codes "LIST") args
  run_mailbox_command c tag user_id lsub args = handle_list fold c tag user_id (codes "LSUB") args
  run_mailbox_command c tag user_id select_ args = handle_select c tag user_id false args
  run_mailbox_command c tag user_id examine args = handle_select c tag user_id true args
  run_mailbox_command c tag user_id create args = handle_create uuid now c tag user_id args
  run_mailbox_command c tag user_id delete args = handle_delete c tag user_id args
  run_mailbox_command c tag user_id status_ args = handle_status c tag user_id args
  run_mailbox_command c tag user_id close args = handle_close c tag
  run_mailbox_command c tag user_id unknown args =
      refuse c tag bad (codes "Unsupported mailbox command")

  abbrev pub for_user : Connected → Command → Option Text → Option (Result Connected)
  for_user c command none = refuse c command.tag bad (codes "Not authenticated")
  for_user c command (some user_id) =
      run_mailbox_command c command.tag user_id (mailbox_command_of command.command) command.args

  -- The handler.
  unfoldable pub mailbox_command : Connected → Command → Option (Result Connected)
  mailbox_command c command = for_user c command (mailbox_user c.session)
