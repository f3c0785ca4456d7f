-- ===== src/Imap/Server/States.antt =====
-- The states of a session, and what a session holds in each of them.
use enclave_mail.Prelude.{
  ℕ, ◌≡◌, refl, List, [], ◌∷◌, arith, Option, none, some, Text, text_Eq, inl,
}
use enclave_mail.Prelude.Int.{ℤ}
use enclave_mail.Imap.Types.{
  Session, Command, ConnectionState, not_authenticated, authenticated, selected, logout, Result,
}
use enclave_mail.Imap.Database.{Database}
use enclave_mail.Imap.Idle.{
  Idling, start_idling, handle_idle, handle_done, cleanup, clear_idle_state,
}
use enclave_mail.Imap.Idle.Tidy.{
  IsTidy, cleanup-IsQuiet, handle_idle-IsTidy, handle_done-IsTidy, IsTidy-with_access,
}
use enclave_mail.Imap.Mailbox.Commands.{Connected}
use enclave_mail.Imap.Mailbox.Handler.{mailbox_command, for_user, mailbox_command_of}
use enclave_mail.Imap.Mailbox.Store.{mailbox_user}
use enclave_mail.Imap.Mailbox.Effects.{After, run_mailbox_command-After}
use enclave_mail.Imap.Message.Handler.{message_command}
use enclave_mail.Imap.Server.{
  Connection, idling, from_mailbox, from_message, from_idle, logged_in, login_with, Verb, verb_of,
  capability, noop, login, log_out, idle, done, for_mailbox, for_message, other, execute_command,
  execute_in, run_verb, handle_login, handle_logout,
}

-- Who is logged in and what is selected, in each state.
abbrev pub Held : ConnectionState → Option Text → Option Text → Type 0
Held not_authenticated none none = Unit
Held authenticated (some u) none = Unit
Held selected (some u) (some m) = Unit
Held logout user mailbox = Unit
Held _ _ _ = ⊥

abbrev pub HeldBy : Session → Type 0
HeldBy s = Held s.state s.user_id s.selected_mailbox

-- Idle calls leave the state, the user and the mailbox alone.
abbrev pub SameAccess : Session → Session → Type 0
SameAccess s t =
    (t.state ≡ s.state) × (t.user_id ≡ s.user_id) × (t.selected_mailbox ≡ s.selected_mailbox)

cleanup-SameAccess : (i : Idling) → SameAccess i.session (cleanup i).session
unfolding cleanup clear_idle_state
cleanup-SameAccess i = ground arith

handle_idle-SameAccess :
    (i : Idling) (tag : Text) → SameAccess i.session (handle_idle i tag).state.session
unfolding handle_idle start_idling
handle_idle-SameAccess i tag = ground arith

handle_done-SameAccess : (i : Idling) → SameAccess i.session (handle_done i).state.session
unfolding handle_done clear_idle_state
handle_done-SameAccess i = ground arith

mailbox_user-eq : (s : Session) (u : Text) → mailbox_user s ≡ some u → s.user_id ≡ some u
unfolding mailbox_user
mailbox_user-eq s u e = ground arith

-- A connection in order: its session holds what its state says, and idles tidily.
pub record IsValid (c : Connection) : Type 0 where
  pub held : HeldBy c.session
  pub tidy : IsTidy (idling c)

-- The part of a connection that the mailbox commands see, in the whole.
abbrev within : Connection → Connected → Connection
within c d = record c { session = d.session; db = d.db }

from_mailbox-IsValid :
    (c : Connection) (r : Option (Result Connected))
    → After (λ d. IsValid (within c d)) r
    → After IsValid (from_mailbox c r)
from_mailbox-IsValid c none h = tt
from_mailbox-IsValid c (some r) h = h

from_message-IsValid :
    (c : Connection) (r : Option (Result Database)) → IsValid c → After IsValid (from_message c r)
from_message-IsValid c none v = tt
from_message-IsValid c (some r) v = record { held = v.held; tidy = v.tidy }

module _ (fold : ℕ → ℕ) (uuid : ℕ → Text) (now : ℕ) (c : Connection) (command : Command)
    (v : IsValid c) where
  opened-Held :
      (u id : Text)
      → (c.session).user_id ≡ some u
      → HeldBy (record (c.session) { state = selected; selected_mailbox = some id })
  opened-Held u id e = simp e tt

  closed-Held :
      (u : Text)
      → (c.session).user_id ≡ some u
      → HeldBy (record (c.session) { state = authenticated; selected_mailbox = none })
  closed-Held u e = simp e tt

  for_user-IsValid :
      (u : Option Text)
      → mailbox_user c.session ≡ u
      → After
          (λ d. IsValid (within c d))
          (for_user fold uuid now (record { session = c.session; db = c.db }) command u)
  for_user-IsValid none e = v
  for_user-IsValid (some u) e =
      let known = mailbox_user-eq c.session u e in
      run_mailbox_command-After (λ d. IsValid (within c d))
        (record { session = c.session; db = c.db }) v
        (λ db. record { held = v.held; tidy = v.tidy })
        (λ id. record {
          held = opened-Held u id known;
          tidy = IsTidy-with_access (idling c) selected (c.session).user_id (some id) v.tidy;
        })
        (λ db. record {
          held = closed-Held u known;
          tidy = IsTidy-with_access (idling c) authenticated (c.session).user_id none v.tidy;
        })
        fold uuid now command.tag u (mailbox_command_of command.command) command.args

  same_access : (s : Session) → SameAccess c.session s → HeldBy s
  same_access s (e, f, g) = rw (e, f, g) (v.held)

  idle-IsValid : After IsValid (from_idle c (handle_idle (idling c) command.tag))
  idle-IsValid = record {
    held =
        same_access (handle_idle (idling c) command.tag).state.session
          (handle_idle-SameAccess (idling c) command.tag);
    tidy = handle_idle-IsTidy (idling c) command.tag v.tidy;
  }

  done-IsValid : After IsValid (from_idle c (handle_done (idling c)))
  done-IsValid = record {
    held = same_access (handle_done (idling c)).state.session (handle_done-SameAccess (idling c));
    tidy = handle_done-IsTidy (idling c) v.tidy;
  }

  logout-IsValid : After IsValid (handle_logout c command.tag)
  unfolding handle_logout
  logout-IsValid =
      let i = cleanup (idling c) in
      record {
        held = tt;
        tidy =
            IsTidy-with_access i logout (i.session).user_id (i.session).selected_mailbox
              (inl (cleanup-IsQuiet (idling c) v.tidy));
      }

  logged_in-IsValid :
      (user : Option Text)
      → (c.session).selected_mailbox ≡ none
      → After IsValid (logged_in c command.tag user)
  logged_in-IsValid none e = v
  logged_in-IsValid (some u) e = record {
    held = simp e tt;
    tidy = IsTidy-with_access (idling c) authenticated (some u) (c.session).selected_mailbox v.tidy;
  }

nothing_selected_in :
    (state : ConnectionState) (user mailbox : Option Text)
    → Held state user mailbox
    → state ≡ not_authenticated
    → mailbox ≡ none
nothing_selected_in not_authenticated none none h e = refl
nothing_selected_in not_authenticated none (some m) h e = absurd h
nothing_selected_in not_authenticated (some u) none h e = absurd h
nothing_selected_in not_authenticated (some u) (some m) h e = absurd h
nothing_selected_in authenticated user mailbox h e = cc
nothing_selected_in selected user mailbox h e = cc
nothing_selected_in logout user mailbox h e = cc

module _ (fold : ℕ → ℕ) (uuid : ℕ → Text) (date_parse : Text → Option ℤ)
    (validate_login : Text → Text → Option Text) (now : ℕ) (c : Connection) (command : Command)
    (v : IsValid c) where
  login_with-IsValid :
      (args : List Text)
      → (c.session).selected_mailbox ≡ none
      → After IsValid (login_with validate_login c command.tag args)
  login_with-IsValid [] e = v
  login_with-IsValid ([] ∷ args) e = v
  login_with-IsValid ((d ∷ email) ∷ []) e = v
  login_with-IsValid ((d ∷ email) ∷ [] ∷ args) e = v
  login_with-IsValid ((d ∷ email) ∷ (p ∷ password) ∷ args) e =
      logged_in-IsValid fold uuid now c command v (validate_login (d ∷ email) (p ∷ password)) e

  -- Before the login nothing is selected.
  nothing_selected : (c.session).state ≡ not_authenticated → (c.session).selected_mailbox ≡ none
  nothing_selected e =
      nothing_selected_in (c.session).state (c.session).user_id (c.session).selected_mailbox v.held
        e

  handle_login-IsValid :
      (state : ConnectionState)
      → (c.session).state ≡ state
      → After IsValid (handle_login validate_login c command.tag command.args state)
  unfolding handle_login
  handle_login-IsValid not_authenticated e = login_with-IsValid command.args (nothing_selected e)
  handle_login-IsValid _ e = v

  run_verb-IsValid :
      (verb : Verb)
      → After IsValid (run_verb fold uuid date_parse validate_login now c command verb)
  unfolding run_verb
  run_verb-IsValid capability = v
  run_verb-IsValid noop = v
  run_verb-IsValid login = handle_login-IsValid (c.session).state refl
  run_verb-IsValid log_out = logout-IsValid fold uuid now c command v
  run_verb-IsValid idle = idle-IsValid fold uuid now c command v
  run_verb-IsValid done = done-IsValid fold uuid now c command v
  run_verb-IsValid for_mailbox =
      from_mailbox-IsValid c
        (mailbox_command fold uuid now (record { session = c.session; db = c.db }) command)
        (unfold mailbox_command in
          for_user-IsValid fold uuid now c command v (mailbox_user c.session) refl)
  run_verb-IsValid for_message =
      from_message-IsValid c (message_command uuid date_parse now c.session command c.db) v
  run_verb-IsValid other = v

  execute_in-IsValid :
      (state : ConnectionState)
      → After IsValid (execute_in fold uuid date_parse validate_login now c command state)
  unfolding execute_in
  execute_in-IsValid logout = v
  execute_in-IsValid _ = run_verb-IsValid (verb_of command.command)

  -- If a connection is in order, every command that is answered leaves it in order: a session that
  -- is not authenticated has no user and no mailbox, an authenticated one has a user and no
  -- mailbox, a selected one a user and a mailbox; and it holds one subscription and one timer while
  -- it waits for updates, none otherwise.
  pub execute_command-IsValid :
      After IsValid (execute_command fold uuid date_parse validate_login now c command)
  unfolding execute_command
  execute_command-IsValid = execute_in-IsValid (c.session).state
