-- ===== src/Outbound/Worker.antt =====
-- `processOutboundMailJob` of queue/outbound-worker.ts: one attempt at a job. What the worker does is
-- logged; what its dependencies answer may depend on all that was done before.
pub mod Relays
pub mod Signing
pub mod Delivery
pub mod Failures
pub mod Notices
use enclave_mail.Prelude.{
  ℕ, suc, ◌+◌, Bool, true, false, List, [], ◌∷◌, ◌++◌, Option, none, some, Text, codes, leb,
  if◌then◌else◌, show,
}
use enclave_mail.Prelude.Attempt.{Attempt, returned, thrown, ◌>>=◌}
use enclave_mail.Mime.{Crypto, Env, decrypt_mime_body}
use enclave_mail.Outbound.Addresses.{
  MxRecord, Grouped, sort_mx_records_by_priority, parse_address_domain, group_recipients_by_domain,
}
use enclave_mail.Outbound.Multipart.{
  AttachmentBlob, DecryptedAttachment, fetch_and_decrypt_attachments, assemble_multipart_mime,
}
use enclave_mail.Outbound.Relay.{RelayEnvelope}

pub record OutboundMailJob : Type 0 where
  pub to : List Text
  pub from : Text
  pub encrypted_body_ref : Text
  pub dkim_sign : Bool
  pub encrypted_mime_body : Text
  pub mime_body_nonce : Text
  pub attachment_ids : Option (List Text)

pub record OutboundJobContext : Type 0 where
  pub id : Option Text
  pub payload : OutboundMailJob
  pub attempts_made : ℕ
  pub attempts : Option ℕ

pub record DeadLetterJob : Type 0 where
  pub original_queue : Text
  pub original_job_id : Text
  pub failure_reason : Text
  pub failed_at : Text
  pub original_data : OutboundMailJob

pub record LoadedOutboundMessage : Type 0 where
  pub message_id : Text
  pub from_address : Text
  pub to_addresses : List Text
  pub date : ℕ
  pub subject_encrypted : Option (List ℕ)
  pub encrypted_body : List ℕ
  pub content_type : Text

-- What is done to the world, with the outcome of it.
pub data Event : Type 0 where
  relayed : Text → RelayEnvelope → Attempt (Unit {0}) → Event
  marked_delivered : Text → Text → Attempt (Unit {0}) → Event
  marked_failed : Text → Text → Bool → Attempt (Unit {0}) → Event
  dead_lettered : DeadLetterJob → Attempt (Unit {0}) → Event
  bounced : OutboundMailJob → Text → Attempt (Unit {0}) → Event

abbrev pub Log : Type 0
Log = List Event

pub record OutboundWorkerDeps : Type 0 where
  pub resolve_mx : Log → Text → Attempt (List MxRecord)
  pub relay : Log → Text → RelayEnvelope → Attempt (Unit {0})
  pub load_dkim_private_key : Log → Attempt Text
  pub sign_message : Log → Text → Text → Text → Text → Attempt Text
  pub load_message_by_id : Log → Text → Attempt (Option LoadedOutboundMessage)
  pub mark_delivered : Log → Text → Text → Attempt (Unit {0})
  pub mark_failed : Log → Text → Text → Bool → Attempt (Unit {0})
  pub create_bounce_notification : Log → OutboundMailJob → Text → Attempt (Unit {0})
  pub add_dead_letter : Log → DeadLetterJob → Attempt (Unit {0})
  pub find_blob : Text → Option AttachmentBlob
  pub crypto : Crypto
  pub env : Env
  pub boundary : Text
  pub smtp_domain : Text
  pub dkim_selector : Text
  pub now_iso : Log → Text

abbrev pub Act {ℓ} : Type ℓ → Type ℓ
Act A = Log → Attempt A × Log

abbrev pub and_then {ℓ κ} :
    {A : Type ℓ} {B : Type κ} → Attempt A × Log → (A → Act B) → Attempt B × Log
and_then (returned a, log) next = next a log
and_then (thrown message, log) next = (thrown message, log)

infixl 5 ◌>>◌
abbrev pub ◌>>◌ {ℓ κ} : {A : Type ℓ} {B : Type κ} → Act A → (A → Act B) → Act B
(act >> next) log = and_then (act log) next

-- A call that changes nothing, and one that is logged with its outcome.
abbrev pub call {ℓ} : {A : Type ℓ} → (Log → Attempt A) → Act A
call f log = (f log, log)

abbrev pub perform : (Attempt (Unit {0}) → Event) → (Log → Attempt (Unit {0})) → Act (Unit {0})
perform event f log = (f log, log ++ event (f log) ∷ [])

abbrev must_exist : Text → Option LoadedOutboundMessage → Attempt (Unit {0})
must_exist ref none = thrown (codes "Message not found for encryptedBodyRef=" ++ ref)
must_exist ref (some message) = returned tt

abbrev pub with_attachments : OutboundWorkerDeps → Text → List DecryptedAttachment → Text
with_attachments deps mime_body [] = mime_body
with_attachments deps mime_body (att ∷ attachments) =
    assemble_multipart_mime deps.crypto deps.boundary mime_body (att ∷ attachments)

abbrev pub attach : OutboundWorkerDeps → Option (List Text) → Text → Attempt Text
attach deps none mime_body = returned mime_body
attach deps (some attachment_ids) mime_body =
    fetch_and_decrypt_attachments deps.crypto deps.env deps.find_blob attachment_ids
    >>= λ attachments. returned (with_attachments deps mime_body attachments)

-- The MIME body with its attachments, signed.
unfoldable pub signed_mime : OutboundWorkerDeps → OutboundMailJob → Act Text
signed_mime deps job =
    call (λ log. decrypt_mime_body deps.crypto deps.env job.encrypted_mime_body job.mime_body_nonce)
    >> λ decrypted. call (λ log. attach deps job.attachment_ids decrypted) >> λ mime_body.
        call (λ log. parse_address_domain job.from) >> λ dkim_domain.
        call deps.load_dkim_private_key >> λ private_key_pem.
        call (λ log. deps.sign_message log mime_body dkim_domain deps.dkim_selector private_key_pem)

abbrev pub envelope_for : OutboundWorkerDeps → OutboundMailJob → Text → List Text → RelayEnvelope
envelope_for deps job signed recipients = record {
  from = job.from;
  to = recipients;
  message = signed;
  ehlo_domain = codes "mail." ++ deps.smtp_domain;
}

abbrev last_error_or : Text → Option Text → Text
last_error_or domain none = codes "Failed to relay message for " ++ domain
last_error_or domain (some error) = error

-- The servers are tried in turn, until one takes the message.
abbrev unless_delivered :
    Attempt (Unit {0}) × Log → (Text → Act (Unit {0})) → Attempt (Unit {0}) × Log
unless_delivered (returned u, log) retry = (returned tt, log)
unless_delivered (thrown error, log) retry = retry error log

unfoldable pub relay_to_any :
    OutboundWorkerDeps → RelayEnvelope → Text → List MxRecord → Option Text → Act (Unit {0})
relay_to_any deps envelope domain [] last_error log =
    (thrown (last_error_or domain last_error), log)
relay_to_any deps envelope domain (mx ∷ records) last_error log =
    unless_delivered
      (perform (relayed mx.exchange envelope) (λ log. deps.relay log mx.exchange envelope) log)
      (λ error log. relay_to_any deps envelope domain records (some error) log)

abbrev relay_to_servers : OutboundWorkerDeps → RelayEnvelope → Text → List MxRecord → Act (Unit {0})
relay_to_servers deps envelope domain [] log =
    (thrown (codes "No MX records found for domain " ++ domain), log)
relay_to_servers deps envelope domain (mx ∷ records) log =
    relay_to_any deps envelope domain (mx ∷ records) none log

unfoldable pub relay_to_domain : OutboundWorkerDeps → RelayEnvelope → Text → Act (Unit {0})
relay_to_domain deps envelope domain = call (λ log. deps.resolve_mx log domain) >> λ records.
    relay_to_servers deps envelope domain (sort_mx_records_by_priority records)

unfoldable pub relay_groups : OutboundWorkerDeps → OutboundMailJob → Text → Grouped → Act (Unit {0})
relay_groups deps job signed [] log = (returned tt, log)
relay_groups deps job signed ((domain, recipients) ∷ grouped) log =
    and_then (relay_to_domain deps (envelope_for deps job signed recipients) domain log)
      (λ u log. relay_groups deps job signed grouped log)

-- The `try` block.
unfoldable pub deliver : OutboundWorkerDeps → OutboundMailJob → Act (Unit {0})
deliver deps job = call (λ log. deps.load_message_by_id log job.encrypted_body_ref) >> λ loaded.
    call (λ log. must_exist job.encrypted_body_ref loaded) >> λ u. signed_mime deps job >> λ signed.
    call (λ log. group_recipients_by_domain job.to) >> λ grouped.
    relay_groups deps job signed grouped >> λ u. λ log.
      perform (marked_delivered job.encrypted_body_ref (deps.now_iso log))
        (λ log. deps.mark_delivered log job.encrypted_body_ref (deps.now_iso log)) log

abbrev or_else {ℓ} : {A : Type ℓ} → Option A → A → A
or_else (some a) fallback = a
or_else none fallback = fallback

abbrev pub max_attempts : OutboundJobContext → ℕ
max_attempts job = or_else job.attempts 5

abbrev pub is_dead : OutboundJobContext → Bool
is_dead job = leb (max_attempts job) (job.attempts_made + 1)

abbrev pub dead_letter : OutboundJobContext → Text → Text → DeadLetterJob
dead_letter job error_message failed_at = record {
  original_queue = codes "outbound-mail";
  original_job_id = or_else job.id [];
  failure_reason = error_message;
  failed_at = failed_at;
  original_data = job.payload;
}

abbrev pub bury : OutboundWorkerDeps → OutboundJobContext → Text → Bool → Act (Unit {0})
bury deps job error_message false log = (returned tt, log)
bury deps job error_message true log =
    and_then
      (perform (dead_lettered (dead_letter job error_message (deps.now_iso log)))
        (λ l. deps.add_dead_letter l (dead_letter job error_message (deps.now_iso log))) log)
      (λ u.
        perform (bounced job.payload error_message)
          (λ l. deps.create_bounce_notification l job.payload error_message))

-- The `catch` block; the error is thrown again.
unfoldable pub give_up : OutboundWorkerDeps → OutboundJobContext → Text → Act (Unit {0})
give_up deps job error_message =
    perform (marked_failed job.payload.encrypted_body_ref error_message (is_dead job))
      (λ l. deps.mark_failed l job.payload.encrypted_body_ref error_message (is_dead job))
    >> λ u. bury deps job error_message (is_dead job) >> λ u log. (thrown error_message, log)

abbrev pub or_catch : Attempt (Unit {0}) × Log → (Text → Act (Unit {0})) → Attempt (Unit {0}) × Log
or_catch (returned u, log) handler = (returned tt, log)
or_catch (thrown error, log) handler = handler error log

unfoldable pub process_outbound_mail_job : OutboundWorkerDeps → OutboundJobContext → Act (Unit {0})
process_outbound_mail_job deps job log =
    or_catch (deliver deps job.payload log) (λ error. give_up deps job error)
