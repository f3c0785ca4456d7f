-- ===== src/Outbound/Tests.antt =====
-- The theorems on the delivery of messages at concrete inputs.
use enclave_mail.Prelude.{
  ◌≡◌, refl, true, List, [], ◌∷◌, ◌++◌, filter, none, some, Text, codes, text_methods, starts_with,
  if◌then◌else◌,
}
use enclave_mail.Prelude.Attempt.{Attempt, returned, thrown}
use enclave_mail.Outbound.Addresses.{
  MxRecord, Grouped, insert_record, sort_mx_records_by_priority, last_index_of,
  parse_address_domain, add_recipient, group_from, group_recipients_by_domain,
  outbound_backoff_delay,
}
use enclave_mail.Outbound.Addresses.Groups.{
  recipients_of, in_domain, domains, Distinct, group_recipients_by_domain-filter,
}
use enclave_mail.Outbound.Framing.{
  normalize_line_endings, line_start, stuff_from, dot_stuff_message, data_body, read_data,
  read_data-data_body,
}
use enclave_mail.Mime.{decrypt_mime_body, get_mime_encryption_key, open_payload}
use enclave_mail.Mime.Sample.{plain_crypto, development, hello}
use enclave_mail.Outbound.Worker.{
  OutboundMailJob, OutboundJobContext, LoadedOutboundMessage, OutboundWorkerDeps, Log,
  dead_lettered, bounced, dead_letter, signed_mime, relay_to_any, relay_to_domain, relay_groups,
  deliver, give_up, process_outbound_mail_job,
}
use enclave_mail.Outbound.Worker.Delivery.{IsDelivered, process_outbound_mail_job-IsDelivered}
use enclave_mail.Outbound.Worker.Failures.{notices, IsAccepting}
use enclave_mail.Outbound.Worker.Notices.{
  at_attempt, untried, failed_again, process_outbound_mail_job-notices,
}
use enclave_mail.Outbound.Talk.{
  finished, Written, closed, match_line, response_from, read_response, send_smtp_command,
  response_has_start_tls,
}
use enclave_mail.Outbound.Relay.{
  RelayEnvelope, ask, greet, send_recipients, send_body, transmit, relay_with_smtp,
}
use enclave_mail.Outbound.Relay.Transcript.{IsGreeting, transaction, relay_with_smtp-transcript}

-- A message with a line that is a single dot.
abbrev tricky : Text
tricky = codes "a" ++ 10 ∷ codes "." ++ 10 ∷ codes "b"

read_data-data_body_example :
    read_data line_start (data_body tricky ++ codes "QUIT")
    ≡ some (normalize_line_endings tricky ++ 13 ∷ 10 ∷ [], codes "QUIT")
read_data-data_body_example = read_data-data_body tricky (codes "QUIT")

data_body-tricky :
    data_body tricky
    ≡ codes "a"
      ++ 13 ∷ 10 ∷ codes ".."
      ++ 13 ∷ 10 ∷ codes "b"
      ++ 13 ∷ 10 ∷ codes "."
      ++ 13 ∷ 10 ∷ []
unfolding data_body dot_stuff_message stuff_from normalize_line_endings
data_body-tricky = refl

abbrev recipients : List Text
recipients = codes "a@x.org" ∷ codes "b@y.org" ∷ codes "c@X.org" ∷ []

abbrev groups : Grouped
groups =
    (codes "x.org", codes "a@x.org" ∷ codes "c@X.org" ∷ [])
    ∷ (codes "y.org", codes "b@y.org" ∷ [])
    ∷ []

group_recipients : group_recipients_by_domain recipients ≡ returned groups
unfolding text_methods group_recipients_by_domain group_from add_recipient parse_address_domain
    last_index_of
group_recipients = refl

group_recipients_by_domain-filter_example :
    Distinct (domains groups)
    × (recipients_of groups (codes "x.org") ≡ filter (in_domain (codes "x.org")) recipients)
group_recipients_by_domain-filter_example =
    group_recipients_by_domain-filter recipients groups (codes "x.org") group_recipients

bad_address :
    parse_address_domain (codes "nobody@") ≡ thrown (codes "Invalid email address: nobody@")
unfolding parse_address_domain last_index_of
bad_address = refl

fourth_delay : outbound_backoff_delay 4 ≡ returned 900000
unfolding outbound_backoff_delay
fourth_delay = refl

abbrev envelope : RelayEnvelope
envelope = record {
  from = codes "me@z.org";
  to = codes "a@x.org" ∷ [];
  message = codes "hi";
  ehlo_domain = codes "mail.z.org";
}

abbrev server_lines : List Text
server_lines =
    codes "220 x.org" ∷ codes "250-x.org" ∷ codes "250 STARTTLS" ∷ codes "220 go ahead" ∷ []

abbrev secure_lines : List Text
secure_lines =
    codes "250 x.org"
    ∷ codes "250 ok"
    ∷ codes "251 ok"
    ∷ codes "354 go on"
    ∷ codes "250 queued"
    ∷ codes "221 bye"
    ∷ []

abbrev all_written : List Written
all_written =
    (relay_with_smtp (returned server_lines) (thrown (codes "self-signed"), returned secure_lines)
      (codes "mx") envelope).1

relayed_well :
    relay_with_smtp
      (returned server_lines)
      (thrown (codes "self-signed"), returned secure_lines)
      (codes "mx")
      envelope
    ≡ (finished tt, all_written)
unfolding text_methods relay_with_smtp greet transmit send_recipients send_body ask
    send_smtp_command read_response response_from match_line response_has_start_tls
relayed_well = refl

relay_with_smtp-transcript_example :
    (greeting : List Written) × IsGreeting envelope greeting
    × (all_written ≡ greeting ++ (transaction envelope ++ closed ∷ []))
relay_with_smtp-transcript_example =
    relay_with_smtp-transcript (returned server_lines)
      (thrown (codes "self-signed"), returned secure_lines) (codes "mx") envelope all_written
      relayed_well

-- A job with two attempts, for which the server of x.org takes messages and that of y.org does not.
abbrev mail_job : List Text → OutboundMailJob
mail_job to = record {
  to = to;
  from = codes "me@z.org";
  encrypted_body_ref = codes "ref";
  dkim_sign = true;
  encrypted_mime_body = hello.encrypted_mime_body;
  mime_body_nonce = hello.mime_body_nonce;
  attachment_ids = none;
}

abbrev context : List Text → OutboundJobContext
context to = record {
  id = some (codes "7");
  payload = mail_job to;
  attempts_made = 0;
  attempts = some 2;
}

abbrev loaded : LoadedOutboundMessage
loaded = record {
  message_id = codes "ref";
  from_address = codes "me@z.org";
  to_addresses = [];
  date = 0;
  subject_encrypted = none;
  encrypted_body = [];
  content_type = codes "text/html";
}

abbrev server_of : Text → List MxRecord
server_of domain = record { exchange = domain; priority = 10 } ∷ []

abbrev takes : Text → Attempt (Unit {0})
takes host = if starts_with host (codes "x") then returned tt else thrown (codes "busy")

abbrev deps : OutboundWorkerDeps
deps = record {
  resolve_mx = λ log domain. returned (server_of domain);
  relay = λ log host envelope. takes host;
  load_dkim_private_key = λ log. returned (codes "key");
  sign_message = λ log body domain selector key. returned body;
  load_message_by_id = λ log ref. returned (some loaded);
  mark_delivered = λ log ref at_time. returned tt;
  mark_failed = λ log ref message dead. returned tt;
  create_bounce_notification = λ log job reason. returned tt;
  add_dead_letter = λ log letter. returned tt;
  find_blob = λ id. none;
  crypto = plain_crypto;
  env = development;
  boundary = codes "b";
  smtp_domain = codes "z.org";
  dkim_selector = codes "mail";
  now_iso = λ log. codes "now";
}

abbrev good : OutboundJobContext
good = context (codes "a@x.org" ∷ [])

abbrev log_of_good : Log
log_of_good = (process_outbound_mail_job deps good []).1

good_returns : process_outbound_mail_job deps good [] ≡ (returned tt, log_of_good)
unfolding text_methods process_outbound_mail_job deliver signed_mime relay_groups relay_to_domain
    relay_to_any group_recipients_by_domain group_from add_recipient parse_address_domain
    last_index_of sort_mx_records_by_priority insert_record decrypt_mime_body
    get_mime_encryption_key open_payload
good_returns = refl

process_outbound_mail_job-IsDelivered_example : IsDelivered deps good.payload [] log_of_good
process_outbound_mail_job-IsDelivered_example =
    process_outbound_mail_job-IsDelivered deps good log_of_good good_returns

abbrev bad : OutboundJobContext
bad = context (codes "b@y.org" ∷ [])

abbrev first_log : Log
first_log = (process_outbound_mail_job deps (at_attempt bad 0) []).1

abbrev second_log : Log
second_log = (process_outbound_mail_job deps (at_attempt bad 1) first_log).1

first_fails :
    process_outbound_mail_job deps (at_attempt bad 0) [] ≡ (thrown (codes "busy"), first_log)
unfolding text_methods process_outbound_mail_job deliver signed_mime relay_groups relay_to_domain
    relay_to_any group_recipients_by_domain group_from add_recipient parse_address_domain
    last_index_of sort_mx_records_by_priority insert_record decrypt_mime_body
    get_mime_encryption_key open_payload give_up
first_fails = refl

second_fails :
    process_outbound_mail_job deps (at_attempt bad 1) first_log
    ≡ (thrown (codes "busy"), second_log)
unfolding text_methods process_outbound_mail_job deliver signed_mime relay_groups relay_to_domain
    relay_to_any group_recipients_by_domain group_from add_recipient parse_address_domain
    last_index_of sort_mx_records_by_priority insert_record decrypt_mime_body
    get_mime_encryption_key open_payload give_up
second_fails = refl

deps-IsAccepting : IsAccepting deps
deps-IsAccepting = record {
  marks_failed = λ log ref message dead. refl;
  adds_dead_letter = λ log letter. refl;
  creates_bounce = λ log job reason. refl;
}

process_outbound_mail_job-notices_example :
    (failed_at : Text) × (notices second_log
      ≡ dead_lettered (dead_letter bad (codes "busy") failed_at) (returned tt)
        ∷ bounced bad.payload (codes "busy") (returned tt)
        ∷ [])
process_outbound_mail_job-notices_example =
    process_outbound_mail_job-notices deps bad 1 first_log (codes "busy") second_log
      deps-IsAccepting refl (failed_again (codes "busy") first_log untried first_fails) second_fails
