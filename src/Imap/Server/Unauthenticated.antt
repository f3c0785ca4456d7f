-- ===== src/Imap/Server/Unauthenticated.antt =====
-- What a connection that nobody has logged in on can do to the database.
use enclave_mail.Prelude.{
  ℕ, ◌≡◌, refl, List, [], ◌∷◌, Option, none, some, Text, codes, text_eq, Bool-cases, inl, inr,
}
use enclave_mail.Prelude.Int.{ℤ}
use enclave_mail.Imap.Types.{Command, ConnectionState, not_authenticated, logout, Result}
use enclave_mail.Imap.Mailbox.Handler.{mailbox_command}
use enclave_mail.Imap.Mailbox.Store.{mailbox_user}
use enclave_mail.Imap.Message.Handler.{message_command, handle_append}
use enclave_mail.Imap.Message.Replies.{authenticated_session, selected_session}
use enclave_mail.Imap.Server.{
  Connection, from_mailbox, from_message, logged_in, login_with, Verb, verb_of, capability, noop,
  login, log_out, idle, done, for_mailbox, for_message, other, execute_command, execute_in,
  run_verb, handle_login, handle_logout,
}

-- What holds of the state that a call leaves; it does leave one.
abbrev pub Answers : (Connection → Type 0) → Option (Result Connection) → Type 0
Answers P none = ⊥
Answers P (some r) = P r.state

module _ (fold : ℕ → ℕ) (uuid : ℕ → Text) (date_parse : Text → Option ℤ)
    (validate_login : Text → Text → Option Text) (now : ℕ) (c : Connection) (command : Command)
    (e : (c.session).state ≡ not_authenticated) where
  abbrev Same : Connection → Type 0
  Same d = d.db ≡ c.db

  login_with-Same : (args : List Text) → Answers Same (login_with validate_login c command.tag args)
  login_with-Same [] = refl
  login_with-Same ([] ∷ args) = refl
  login_with-Same ((d ∷ email) ∷ []) = refl
  login_with-Same ((d ∷ email) ∷ [] ∷ args) = refl
  login_with-Same ((d ∷ email) ∷ (p ∷ password) ∷ args) =
      logged_in-Same (validate_login (d ∷ email) (p ∷ password))
    where
      logged_in-Same : (user : Option Text) → Answers Same (logged_in c command.tag user)
      logged_in-Same none = refl
      logged_in-Same (some u) = refl

  handle_login-Same :
      (state : ConnectionState)
      → Answers Same (handle_login validate_login c command.tag command.args state)
  unfolding handle_login
  handle_login-Same not_authenticated = login_with-Same command.args
  handle_login-Same _ = refl

  nobody : mailbox_user c.session ≡ none
  unfolding mailbox_user
  nobody = rw e

  nobody_appends : authenticated_session c.session ≡ none
  unfolding authenticated_session
  nobody_appends = rw e

  nothing_open : selected_session c.session ≡ none
  unfolding selected_session
  nothing_open = rw e

  mailbox_command-Same : Answers Same (
      from_mailbox c
        (mailbox_command fold uuid now (record { session = c.session; db = c.db }) command))
  unfolding mailbox_command
  mailbox_command-Same = rw nobody refl

  append_refused :
      (args : List Text)
      → Answers Same (from_message c (handle_append uuid date_parse now command.tag c.db none args))
  unfolding handle_append
  append_refused args = refl

  message_command-Same :
      Answers Same (from_message c (message_command uuid date_parse now c.session command c.db))
  unfolding message_command
  message_command-Same = elim (Bool-cases (text_eq command.command (codes "APPEND"))) [
    | inl hit ↦ rw (hit, nobody_appends) (append_refused command.args)
    | inr miss ↦ rw (miss, nothing_open) refl
  ]

  run_verb-Same :
      (verb : Verb) → Answers Same (run_verb fold uuid date_parse validate_login now c command verb)
  unfolding run_verb handle_logout
  run_verb-Same capability = refl
  run_verb-Same noop = refl
  run_verb-Same login = handle_login-Same (c.session).state
  run_verb-Same log_out = refl
  run_verb-Same idle = refl
  run_verb-Same done = refl
  run_verb-Same for_mailbox = mailbox_command-Same
  run_verb-Same for_message = message_command-Same
  run_verb-Same other = refl

  execute_in-Same :
      (state : ConnectionState)
      → Answers Same (execute_in fold uuid date_parse validate_login now c command state)
  unfolding execute_in
  execute_in-Same logout = refl
  execute_in-Same _ = run_verb-Same (verb_of command.command)

  -- Before the login every command is answered, and none changes the database.
  pub execute_command-Same :
      Answers Same (execute_command fold uuid date_parse validate_login now c command)
  unfolding execute_command
  execute_command-Same = execute_in-Same (c.session).state
