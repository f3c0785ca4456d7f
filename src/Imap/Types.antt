-- ===== src/Imap/Types.antt =====
-- apps/server/src/imap/types.ts, with the response lines that every command module formats.
use enclave_mail.Prelude.{ℕ, List, [], ◌∷◌, ◌++◌, Option, Bool, Text, codes, replace_all}

-- `ImapConnectionState`.
pub data ConnectionState : Type 0 where
  not_authenticated authenticated selected logout : ConnectionState

-- `ImapStatus`.
pub data Status : Type 0 where
  ok no_ bad : Status

pub record Command : Type 0 where
  pub tag : Text
  pub command : Text
  pub args : List Text
  pub raw : Text

-- The subscription and the timer are the handles that the environment gave out.
pub record Session : Type 0 where
  pub state : ConnectionState
  pub user_id : Option Text
  pub selected_mailbox : Option Text
  pub is_idling : Bool
  pub idle_tag : Option Text
  pub idle_unsubscribe : Option ℕ
  pub idle_timer : Option ℕ

-- A response is text, or bytes where a literal stands in it.
pub data Response : Type 0 where
  text bytes : List ℕ → Response

abbrev pub crlf : Text
crlf = 13 ∷ 10 ∷ []

abbrev pub status_text : Status → Text
status_text ok = codes "OK"
status_text no_ = codes "NO"
status_text bad = codes "BAD"

unfoldable pub to_untagged : Text → Response
to_untagged response = text (codes "* " ++ (response ++ crlf))

unfoldable pub to_tagged : Text → Status → Text → Response
to_tagged tag status message =
    text (tag ++ (codes " " ++ (status_text status ++ (codes " " ++ (message ++ crlf)))))

-- `ImapCommandResult`, beside the state that the call leaves.
pub record Result {ℓ} (S : Type ℓ) : Type ℓ where
  pub state : S
  pub responses : List Response
  pub close_connection : Bool

-- `escapeImapString` of commands/mailbox.ts and commands/message.ts.
unfoldable pub escape_imap_string : Text → Text
escape_imap_string value =
    replace_all b'"' (b'\\' ∷ b'"' ∷ []) (replace_all b'\\' (b'\\' ∷ b'\\' ∷ []) value)
