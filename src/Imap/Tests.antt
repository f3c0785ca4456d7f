-- ===== src/Imap/Tests.antt =====
-- Concrete connections, messages and texts, and the theorems at work on them.
use enclave_mail.Prelude.{
  ℕ, ◌+◌, ◌≡◌, refl, false, not, ◌&&◌, List, [], ◌∷◌, ◌++◌, Option, none, some, Text, codes,
  text_eq, text_Eq, nat_Eq, arith, to_upper_case, all, filter, contains, All, split, inl, nat_eq,
  is_space, find, upper_char, map, ltb, if◌then◌else◌, split_from, trim_start,
}
use enclave_mail.Prelude.Int.{ℤ, pos, parse_int, parse_signed, parse_nat, parse_digits}
use enclave_mail.Prelude.Trimming.{IsWord}
use enclave_mail.Imap.Types.{Command, selected, Result, to_tagged, ok}
use enclave_mail.Imap.Parser.{parse_imap_command}
use enclave_mail.Imap.Parser.Scanning.{is_nonempty}
use enclave_mail.Imap.Parser.RoundTrip.{print_line, parse_imap_command-print_line}
use enclave_mail.Imap.Database.{
  Database, MailboxRow, MessageRow, custom, list_messages, update_mailboxes, find_mailbox_by_id,
}
use enclave_mail.Imap.Database.Integrity.{IsBounded}
use enclave_mail.Imap.Idle.{Environment, Idling, handle_idle, handle_done, cleanup}
use enclave_mail.Imap.Idle.Tidy.{IsQuiet, IsWaiting, cleanup-IsQuiet, handle_done-handle_idle}
use enclave_mail.Imap.Mailbox.Effects.{After}
use enclave_mail.Imap.Mailbox.Pattern.{matches_mailbox_pattern, is_terminator}
use enclave_mail.Imap.Mailbox.Pattern.Wildcards.{
  matches_mailbox_pattern-percent, matches_mailbox_pattern-plain,
}
use enclave_mail.Imap.Types.{Response}
use enclave_mail.Imap.Database.{BodyRow}
use enclave_mail.Imap.Message.Fetch.{build_fetch_response}
use enclave_mail.Imap.Message.Fetch.Announcing.{Announced}
use enclave_mail.Imap.Message.Fetch.Literals.{
  runs, literals_of, written, build_fetch_response-Announced,
}
use enclave_mail.Imap.Message.Flags.{
  imap_flag_order, normalize_db_flags, StoreOperation, add, apply_store_flags, parse_flag_list,
  to_imap_flags, deleted,
}
use enclave_mail.Imap.Message.Flags.Normal.{means, contains-normalize_db_flags}
use enclave_mail.Imap.Message.Flags.Stored.{stored, named_in, contains-apply_store_flags}
use enclave_mail.Imap.Message.Flags.Wire.{parse_flag_list-to_imap_flags}
use enclave_mail.Imap.Message.SequenceSet.{parse_sequence_set}
use enclave_mail.Imap.Message.SequenceSet.Coverage.{
  in_bounds, named_by, contains-parse_sequence_set,
}
use enclave_mail.Imap.Message.Store.{copy_messages}
use enclave_mail.Imap.Message.Store.Uids.{count_up, unread_in, copied_rows, copy_messages-stored}
use enclave_mail.Imap.Message.Search.{
  IndexedMessage, Criterion, parsed, create_search_predicates, apply_predicates,
}
use enclave_mail.Imap.Message.Search.Terms.{Term, is_unseen, smaller_than, search_arguments, holds}
use enclave_mail.Imap.Message.Search.Narrowing.{create_search_predicates-holds}
use enclave_mail.Imap.Message.Replies.{index_from}
use enclave_mail.Imap.Message.Actions.{handle_expunge}
use enclave_mail.Imap.Message.Actions.Expunge.{Counts, handle_expunge-Counts}
use enclave_mail.Imap.Server.{Connection, execute_command, new_session}
use enclave_mail.Imap.Server.Buffer.{
  receive_all, decoded, last_part, lines_of, receive_all-lines_of,
}
use enclave_mail.Imap.Server.States.{IsValid, execute_command-IsValid}
use enclave_mail.Imap.Server.Unauthenticated.{Answers, execute_command-Same}

abbrev message : Text → Text → ℕ → List Text → MessageRow
message id mailbox_id uid flags = record {
  id = id;
  mailbox_id = mailbox_id;
  uid = uid;
  message_id = none;
  in_reply_to = none;
  from_address = codes "ann@example.org";
  to_addresses = codes "ben@example.org" ∷ [];
  subject_encrypted = none;
  date = 1700000000000;
  flags = flags;
  size = 120;
  dkim_status = none;
  spf_status = none;
  dmarc_status = none;
}

abbrev mailbox : Text → ℕ → MailboxRow
mailbox id uid_next = record {
  id = id;
  user_id = codes "u1";
  name = codes "Work";
  type = custom;
  uid_validity = 1;
  uid_next = uid_next;
  message_count = 0;
  unread_count = 0;
}

-- Two mailboxes; the first has a read message that is marked as deleted, and an unread one.
abbrev old_message : MessageRow
old_message = message (codes "m1") (codes "b1") 1 (codes "seen" ∷ codes "deleted" ∷ [])

abbrev new_message : MessageRow
new_message = message (codes "m2") (codes "b1") 2 []

abbrev two_mailboxes : Database
two_mailboxes = record {
  mailboxes = mailbox (codes "b1") 3 ∷ mailbox (codes "b2") 5 ∷ [];
  messages = old_message ∷ new_message ∷ [];
  bodies = [];
  next_id = 0;
}

two_mailboxes-IsBounded : IsBounded two_mailboxes
two_mailboxes-IsBounded =
    ((λ e. omega arith, (λ e. omega arith, tt)), ((λ e. omega arith, (λ e. omega arith, tt)), tt))

abbrev ids : ℕ → Text
ids n = n ∷ []

abbrev no_dates : Text → Option ℤ
no_dates s = none

abbrev everybody : Text → Text → Option Text
everybody email password = some (codes "u1")

abbrev nothing_waits : Environment
nothing_waits = record { subscriptions = []; timers = []; next_handle = 0 }

abbrev opened : Connection
opened = record { session = new_session; db = two_mailboxes; env = nothing_waits }

abbrev command : Text → List Text → Command
command name args = record { tag = codes "a1"; command = name; args = args; raw = [] }

opened-IsValid : IsValid opened
opened-IsValid = record {
  held = tt;
  tidy = inl (record {
    still = refl;
    no_tag = refl;
    no_unsubscribe = refl;
    no_timer = refl;
    no_subscriptions = refl;
    no_timers = refl;
  });
}

abbrev log_in : Command
log_in = command (codes "LOGIN") (codes "ann" ∷ codes "token" ∷ [])

execute_command-IsValid_example :
    After IsValid (execute_command upper_char ids no_dates everybody 0 opened log_in)
execute_command-IsValid_example =
    execute_command-IsValid upper_char ids no_dates everybody 0 opened log_in opened-IsValid

abbrev append_early : Command
append_early = command (codes "APPEND") (codes "Work" ∷ codes "{12}" ∷ [])

execute_command-Same_example :
    Answers
      (λ d. d.db ≡ two_mailboxes)
      (execute_command upper_char ids no_dates everybody 0 opened append_early)
execute_command-Same_example =
    execute_command-Same upper_char ids no_dates everybody 0 opened append_early refl

found_b2 : find_mailbox_by_id (codes "b2") two_mailboxes ≡ some (mailbox (codes "b2") 5)
unfolding find_mailbox_by_id find text_eq
found_b2 = refl

copy_messages-stored_example :
    (db' : Database) × (copy_messages ids
        (mailbox (codes "b2") 5)
        (old_message ∷ new_message ∷ [])
        two_mailboxes
      ≡ some (count_up 5 2, db'))
    × (db'.messages
        ≡ two_mailboxes.messages
          ++ copied_rows ids (codes "b2") 0 5 (old_message ∷ new_message ∷ []))
    × (db'.mailboxes
        ≡ update_mailboxes
            (codes "b2")
            (λ r. record r {
              uid_next = 5 + 2;
              message_count = 0 + 2;
              unread_count = 0 + unread_in (old_message ∷ new_message ∷ []);
            })
            two_mailboxes.mailboxes)
    × IsBounded db'
copy_messages-stored_example =
    copy_messages-stored ids (mailbox (codes "b2") 5) (mailbox (codes "b2") 5) old_message
      (new_message ∷ []) two_mailboxes found_b2 two_mailboxes-IsBounded

handle_expunge-Counts_example :
    (r : Result Database) × (handle_expunge
        (codes "a1")
        two_mailboxes
        (index_from 1 (list_messages (codes "b1") two_mailboxes))
        (codes "b1")
      ≡ some r)
    × All (λ m. contains m.flags deleted ≡ false) (list_messages (codes "b1") (r.state))
    × All (Counts (codes "b1") (r.state)) (r.state).mailboxes
handle_expunge-Counts_example = handle_expunge-Counts (codes "a1") (codes "b1") two_mailboxes

tag_IsWord : IsWord (codes "a1")
unfolding is_space
tag_IsWord = (refl, (refl, tt))

select_IsWord : IsWord (codes "select")
unfolding is_space
select_IsWord = (refl, (refl, (refl, (refl, (refl, (refl, tt))))))

parse_imap_command-print_line_example :
    parse_imap_command (print_line (codes "a1") (codes "select") (codes "My \"box\"" ∷ []))
    ≡ some (record {
      tag = codes "a1";
      command = to_upper_case (codes "select");
      args = filter is_nonempty (codes "My \"box\"" ∷ []);
      raw = print_line (codes "a1") (codes "select") (codes "My \"box\"" ∷ []);
    })
parse_imap_command-print_line_example =
    parse_imap_command-print_line (codes "a1") (codes "select") (codes "My \"box\"") [] tag_IsWord
      select_IsWord

contains-parse_sequence_set_example :
    contains (parse_sequence_set (codes "5:3,*") 7) 4
    ≡ (in_bounds 7 4 && named_by 7 (split b',' (codes "5:3,*")) 4)
contains-parse_sequence_set_example = contains-parse_sequence_set (codes "5:3,*") 7 4

abbrev flag_it : StoreOperation
flag_it = record { mode = add; silent = false; flags = codes "flagged" ∷ [] }

contains-apply_store_flags_example :
    contains (apply_store_flags (codes "seen" ∷ []) flag_it) (codes "flagged")
    ≡ stored add
        (means (codes "seen" ∷ []) (codes "flagged"))
        (named_in add (codes "flagged" ∷ []) (codes "flagged"))
contains-apply_store_flags_example =
    contains-apply_store_flags (codes "seen" ∷ []) flag_it (codes "flagged")
      (unfold text_eq in refl)

contains-normalize_db_flags_example :
    contains (normalize_db_flags (codes " Seen" ∷ codes "junk" ∷ [])) (codes "seen") ≡ (
      contains imap_flag_order (codes "seen")
      && means (codes " Seen" ∷ codes "junk" ∷ []) (codes "seen"))
contains-normalize_db_flags_example =
    contains-normalize_db_flags (codes " Seen" ∷ codes "junk" ∷ []) (codes "seen")

parse_flag_list-to_imap_flags_example :
    parse_flag_list (to_imap_flags (codes "deleted" ∷ codes "seen" ∷ []))
    ≡ normalize_db_flags (codes "deleted" ∷ codes "seen" ∷ [])
parse_flag_list-to_imap_flags_example =
    parse_flag_list-to_imap_flags (codes "deleted" ∷ codes "seen" ∷ [])

-- A session with an open mailbox.
abbrev looking : Idling
looking = record {
  session = record new_session {
    state = selected;
    user_id = some (codes "u1");
    selected_mailbox = some (codes "b1");
  };
  env = nothing_waits;
}

looking-IsQuiet : IsQuiet looking
looking-IsQuiet = record {
  still = refl;
  no_tag = refl;
  no_unsubscribe = refl;
  no_timer = refl;
  no_subscriptions = refl;
  no_timers = refl;
}

handle_done-handle_idle_example :
    let waiting = (handle_idle looking (codes "a7")).state in
    (IsWaiting waiting)
    × ((handle_done waiting).responses ≡ to_tagged (codes "a7") ok (codes "IDLE terminated") ∷ [])
    × IsQuiet (handle_done waiting).state
handle_done-handle_idle_example =
    handle_done-handle_idle looking b'a' b'b' (codes "7") (codes "1") looking-IsQuiet refl refl

cleanup-IsQuiet_example : IsQuiet (cleanup looking)
cleanup-IsQuiet_example = cleanup-IsQuiet looking (inl looking-IsQuiet)

abbrev entries : List IndexedMessage
entries =
    record { sequence = 1; message = old_message }
    ∷ record { sequence = 2; message = new_message }
    ∷ []

abbrev with_body : List Text
with_body = codes "UID" ∷ codes "BODY[]" ∷ codes "FLAGS" ∷ []

abbrev sealed_body : Option BodyRow
sealed_body = some (record {
  message_id = codes "m2";
  encrypted_body = 200 ∷ 13 ∷ 10 ∷ [];
  content_type = codes "text/plain";
  encryption_metadata = [];
})

matches_mailbox_pattern-percent_example :
    matches_mailbox_pattern upper_char (codes "a/b") (codes "%")
    ≡ some (not (nat_eq b'a' b'/') && all (λ c. not (is_terminator c)) (codes "/b"))
matches_mailbox_pattern-percent_example =
    matches_mailbox_pattern-percent upper_char b'a' (codes "/b")

matches_mailbox_pattern-plain_example :
    matches_mailbox_pattern upper_char (codes "Inbox") (codes "INBOX")
    ≡ some (text_eq (map upper_char (codes "INBOX")) (map upper_char (codes "Inbox")))
matches_mailbox_pattern-plain_example =
    matches_mailbox_pattern-plain upper_char b'I' (codes "NBOX") (codes "Inbox")
      (refl, (refl, (refl, (refl, (refl, tt)))))

-- A decoder of ASCII; every other byte is the replacement character.
abbrev decode_ascii : List ℕ → Text
decode_ascii [] = []
decode_ascii (b ∷ chunk) = (if ltb b 128 then b else 0xfffd) ∷ decode_ascii chunk

abbrev three_chunks : List (List ℕ)
three_chunks = codes "a1 NO" ∷ codes "OP\r\n\r" ∷ codes "\na2 " ∷ []

receive_all-lines_of_example :
    receive_all decode_ascii (record { buffer = []; queue = [] }) three_chunks ≡ record {
      buffer = last_part (split 10 (decoded decode_ascii three_chunks));
      queue = lines_of (decoded decode_ascii three_chunks);
    }
receive_all-lines_of_example = receive_all-lines_of decode_ascii three_chunks

one_line : lines_of (decoded decode_ascii three_chunks) ≡ codes "a1 NOOP" ∷ []
unfolding split split_from filter
one_line = refl

build_fetch_response-Announced_example :
    (segments : List Response) × Announced segments
    × (runs segments ≡ literals_of new_message sealed_body with_body)
    × (build_fetch_response 2 new_message with_body sealed_body
        ≡ written (literals_of new_message sealed_body with_body) segments)
build_fetch_response-Announced_example =
    build_fetch_response-Announced 2 new_message with_body sealed_body

abbrev size_below : Term
size_below = smaller_than (codes "500") (pos 500)

create_search_predicates-holds_example :
    (cs : List Criterion) × (create_search_predicates no_dates entries
        (search_arguments (is_unseen ∷ size_below ∷ []))
      ≡ parsed cs)
    × (apply_predicates cs entries
        ≡ filter (λ e. all (λ t. holds entries t e.message) (is_unseen ∷ size_below ∷ [])) entries)
create_search_predicates-holds_example =
    create_search_predicates-holds no_dates entries is_unseen (size_below ∷ []) (
      tt,
      (
        (refl, unfold parse_int parse_signed parse_nat parse_digits trim_start is_space in refl),
        tt,
      ),
    )
