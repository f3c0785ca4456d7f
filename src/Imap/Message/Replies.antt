-- ===== src/Imap/Message/Replies.antt =====
-- What the commands of commands/message.ts share: the access of a session, the messages by number,
-- the targets of a sequence set and the replies.
use enclave_mail.Prelude.{
  ℕ, suc, Bool, true, false, ◌&&◌, List, [], ◌∷◌, ◌++◌, Option, none, some, Text, codes, length,
  text_Eq, nat_Eq, nat_eq, contains, filter, if◌then◌else◌,
}
use enclave_mail.Prelude.Int.{parse_digits, is_digit}
use enclave_mail.Imap.Types.{
  Session, ConnectionState, authenticated, selected, Result, Response, Status, to_tagged,
}
use enclave_mail.Imap.Database.{Database, MessageRow}
use enclave_mail.Imap.Message.Flags.{seen}
use enclave_mail.Imap.Message.SequenceSet.{parse_sequence_set}
use enclave_mail.Imap.Message.Search.{IndexedMessage, max_uid}

-- A text that is there and not empty.
abbrev pub nonempty : Option Text → Option Text
nonempty none = none
nonempty (some []) = none
nonempty (some (c ∷ s)) = some (c ∷ s)

-- `isSelectedSession`: the user and the mailbox of a selected session.
abbrev pub pair_of : Option Text → Option Text → Option (Text × Text)
pair_of (some u) (some m) = some (u, m)
pair_of (some u) none = none
pair_of none m = none

abbrev pub selected_in : ConnectionState → Option Text → Option Text → Option (Text × Text)
selected_in selected user mailbox = pair_of (nonempty user) (nonempty mailbox)
selected_in _ user mailbox = none

unfoldable pub selected_session : Session → Option (Text × Text)
selected_session s = selected_in s.state s.user_id s.selected_mailbox

-- `isAuthenticatedSession`.
abbrev pub authenticated_in : ConnectionState → Option Text → Option Text
authenticated_in authenticated user = nonempty user
authenticated_in selected user = nonempty user
authenticated_in _ user = none

unfoldable pub authenticated_session : Session → Option Text
authenticated_session s = authenticated_in s.state s.user_id

-- `listedMessages.map((message, index) => …)`
unfoldable pub index_from : ℕ → List MessageRow → List IndexedMessage
index_from n [] = []
index_from n (m ∷ ms) = record { sequence = n; message = m } ∷ index_from (suc n) ms

-- `resolveTargetMessages`.
unfoldable pub resolve_target_messages : List IndexedMessage → Text → Bool → List IndexedMessage
resolve_target_messages indexed raw_set true =
    filter (λ e. contains (parse_sequence_set raw_set (max_uid indexed)) e.message.uid) indexed
resolve_target_messages indexed raw_set false =
    filter (λ e. contains (parse_sequence_set raw_set (length indexed)) e.sequence) indexed

-- `unreadCount`.
unfoldable pub unread_count : List MessageRow → ℕ
unread_count [] = 0
unread_count (m ∷ ms) = if contains m.flags seen then unread_count ms else suc (unread_count ms)

abbrev pub uid_prefix : Bool → Text → Text
uid_prefix true s = codes "UID " ++ s
uid_prefix false s = s

abbrev pub reply : Database → List Response → Option (Result Database)
reply db responses = some (record { state = db; responses = responses; close_connection = false })

abbrev pub refuse : Database → Text → Status → Text → Option (Result Database)
refuse db tag status message = reply db (to_tagged tag status message ∷ [])

-- `parseAppendLiteralSize`: `^\{(\d+)\}$`.
abbrev pub digits_then_brace : Text → Bool
digits_then_brace [] = false
digits_then_brace (c ∷ []) = nat_eq c b'}'
digits_then_brace (c ∷ d ∷ s) = is_digit c && digits_then_brace (d ∷ s)

unfoldable pub parse_append_literal_size : Option Text → ℕ
parse_append_literal_size none = 0
parse_append_literal_size (some []) = 0
parse_append_literal_size (some (c ∷ [])) = 0
parse_append_literal_size (some (c ∷ d ∷ s)) =
    if nat_eq c b'{' && is_digit d && digits_then_brace (d ∷ s) then parse_digits 0 (d ∷ s) else 0

abbrev pub last_of : List Text → Option Text
last_of [] = none
last_of (x ∷ []) = some x
last_of (x ∷ y ∷ xs) = last_of (y ∷ xs)
