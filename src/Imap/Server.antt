-- ===== src/Imap/Server.antt =====
-- apps/server/src/imap/server.ts: the check of a login, the dispatch of a command to its handler, and
-- the lines of a connection. `none` is a rejected promise.
pub mod Buffer
pub mod States
pub mod Unauthenticated
use enclave_mail.Prelude.{
  ℕ, suc, Bool, true, false, not, ◌&&◌, ◌||◌, List, [], ◌∷◌, ◌++◌, Option, none, some, Text, codes,
  trim, to_lower_case, is_empty, nat_eq, text_eq, find, if◌then◌else◌,
}
use enclave_mail.Prelude.Int.{ℤ}
use enclave_mail.Imap.Types.{
  Session, Command, ConnectionState, not_authenticated, authenticated, selected, logout, Result,
  Response, Status, ok, no_, bad, to_tagged, to_untagged, text, crlf,
}
use enclave_mail.Imap.Parser.{parse_imap_command}
use enclave_mail.Imap.Database.{Database}
use enclave_mail.Imap.Idle.{Environment, Idling, IdleResult, handle_idle, handle_done, cleanup}
use enclave_mail.Imap.Message.Handler.{message_command}
use enclave_mail.Imap.Mailbox.Commands.{Connected}
use enclave_mail.Imap.Mailbox.Handler.{mailbox_command}

-- A row of the users table.
pub record User : Type 0 where
  pub id : Text
  pub email : Text

-- `validateImapLogin`: `validate_session` is the session check of middleware/session.ts.
unfoldable pub validate_imap_login : (Text → Option Text) → List User → Text → Text → Option Text
validate_imap_login validate_session users email session_token =
    let normalized_email = to_lower_case (trim email) in
    if is_empty normalized_email || is_empty session_token
    then none
    else elim (validate_session session_token) [
      | none ↦ none
      | some session_user ↦ elim (find (λ u. text_eq u.email normalized_email) users) [
        | none ↦ none
        | some user ↦ if text_eq user.id session_user then some user.id else none
      ]
    ]

pub record Connection : Type 0 where
  pub session : Session
  pub db : Database
  pub env : Environment

abbrev pub reply : Connection → List Response → Bool → Option (Result Connection)
reply c responses close_connection =
    some (record { state = c; responses = responses; close_connection = close_connection })

abbrev pub refuse : Connection → Text → Status → Text → Option (Result Connection)
refuse c tag status message = reply c (to_tagged tag status message ∷ []) false

-- The handlers of the other modules, on their parts of the connection.
abbrev pub from_idle : Connection → IdleResult → Option (Result Connection)
from_idle c r =
    reply (record c { session = (r.state).session; env = (r.state).env }) r.responses false

abbrev pub from_mailbox : Connection → Option (Result Connected) → Option (Result Connection)
from_mailbox c none = none
from_mailbox c (some r) =
    reply (record c { session = (r.state).session; db = (r.state).db }) r.responses
      r.close_connection

abbrev pub from_message : Connection → Option (Result Database) → Option (Result Connection)
from_message c none = none
from_message c (some r) = reply (record c { db = r.state }) r.responses r.close_connection

abbrev pub idling : Connection → Idling
idling c = record { session = c.session; env = c.env }

-- `IMAP_CAPABILITY`.
abbrev pub imap_capability : Text
imap_capability = codes "IMAP4rev1 IDLE UIDPLUS"

-- The cases of the `switch`; those of the two command modules are handed on together.
pub data Verb : Type 0 where
  capability noop login log_out idle done for_mailbox for_message other : Verb

unfoldable pub verb_of : Text → Verb
verb_of name =
    if text_eq name (codes "CAPABILITY")
    then capability
    else if text_eq name (codes "NOOP")
    then noop
    else if text_eq name (codes "LOGIN")
    then login
    else if text_eq name (codes "LOGOUT")
    then log_out
    else if text_eq name (codes "IDLE")
    then idle
    else if text_eq name (codes "DONE")
    then done
    else if text_eq name (codes "LIST")
        || text_eq name (codes "LSUB")
        || text_eq name (codes "SELECT")
        || text_eq name (codes "EXAMINE")
        || text_eq name (codes "CREATE")
        || text_eq name (codes "DELETE")
        || text_eq name (codes "STATUS")
        || text_eq name (codes "CLOSE")
    then for_mailbox
    else if text_eq name (codes "FETCH")
        || text_eq name (codes "STORE")
        || text_eq name (codes "SEARCH")
        || text_eq name (codes "COPY")
        || text_eq name (codes "EXPUNGE")
        || text_eq name (codes "UID")
        || text_eq name (codes "APPEND")
    then for_message
    else other

-- `LOGIN`.
abbrev pub logged_in : Connection → Text → Option Text → Option (Result Connection)
logged_in c tag none = refuse c tag no_ (codes "LOGIN failed")
logged_in c tag (some user_id) =
    refuse
      (record c { session = record (c.session) { state = authenticated; user_id = some user_id } })
      tag ok (codes "LOGIN completed")

abbrev pub login_with :
    (Text → Text → Option Text) → Connection → Text → List Text → Option (Result Connection)
login_with validate_login c tag ((e ∷ email) ∷ (p ∷ password) ∷ args) =
    logged_in c tag (validate_login (e ∷ email) (p ∷ password))
login_with validate_login c tag _ = refuse c tag bad (codes "LOGIN requires username and password")

unfoldable pub handle_login :
    (Text → Text → Option Text)
    → Connection
    → Text
    → List Text
    → ConnectionState
    → Option (Result Connection)
handle_login validate_login c tag args not_authenticated = login_with validate_login c tag args
handle_login validate_login c tag args _ = refuse c tag bad (codes "Already authenticated")

unfoldable pub handle_logout : Connection → Text → Option (Result Connection)
handle_logout c tag =
    let cleaned = cleanup (idling c) in
    reply (record c { session = record (cleaned.session) { state = logout }; env = cleaned.env })
      (to_untagged (codes "BYE Enclave IMAP closing")
        ∷ to_tagged tag ok (codes "LOGOUT completed")
        ∷ [])
      true

module _ (fold : ℕ → ℕ) (uuid : ℕ → Text) (date_parse : Text → Option ℤ)
    (validate_login : Text → Text → Option Text) (now : ℕ) where
  unfoldable pub run_verb : Connection → Command → Verb → Option (Result Connection)
  run_verb c command capability =
      reply c
        (to_untagged (codes "CAPABILITY " ++ imap_capability)
          ∷ to_tagged command.tag ok (codes "CAPABILITY completed")
          ∷ [])
        false
  run_verb c command noop = refuse c command.tag ok (codes "NOOP completed")
  run_verb c command login =
      handle_login validate_login c command.tag command.args (c.session).state
  run_verb c command log_out = handle_logout c command.tag
  run_verb c command idle = from_idle c (handle_idle (idling c) command.tag)
  run_verb c command done = from_idle c (handle_done (idling c))
  run_verb c command for_mailbox =
      from_mailbox c
        (mailbox_command fold uuid now (record { session = c.session; db = c.db }) command)
  run_verb c command for_message =
      from_message c (message_command uuid date_parse now c.session command c.db)
  run_verb c command other = refuse c command.tag bad (codes "Unsupported command")

  -- `executeCommand`, by the state of the session.
  unfoldable pub execute_in : Connection → Command → ConnectionState → Option (Result Connection)
  execute_in c command logout =
      reply c (to_tagged command.tag bad (codes "Session already closed") ∷ []) true
  execute_in c command _ = run_verb c command (verb_of command.command)

  unfoldable pub execute_command : Connection → Command → Option (Result Connection)
  execute_command c command = execute_in c command (c.session).state

  abbrev pub on_parsed : Connection → Option Command → Option (Result Connection)
  on_parsed c none = reply c (text (codes "* BAD Invalid command syntax" ++ crlf) ∷ []) false
  on_parsed c (some command) = execute_command c command

  -- `onLine`.
  unfoldable pub on_line : Connection → Text → Option (Result Connection)
  on_line c line = on_parsed c (parse_imap_command line)

-- `onClose`.
unfoldable pub on_close : Connection → Connection
on_close c =
    let cleaned = cleanup (idling c) in record c { session = cleaned.session; env = cleaned.env }

-- The session of a new connection.
abbrev pub new_session : Session
new_session = record {
  state = not_authenticated;
  user_id = none;
  selected_mailbox = none;
  is_idling = false;
  idle_tag = none;
  idle_unsubscribe = none;
  idle_timer = none;
}
