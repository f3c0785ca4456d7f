-- ===== src/Inbound/Worker/Again.antt =====
-- A job that is run a second time, as the queue does when it is unsure of the first.
use mathlib.Core.Path.{subst}
use enclave_mail.Prelude.{
  ◌≤◌, ◌≡◌, refl, sym, ◌∙◌, ap, List, [], ◌∷◌, arith, Option, none, some, Text, All,
}
use enclave_mail.Imap.Database.{Database}
use enclave_mail.Inbound.Metadata.{MailMetadata}
use enclave_mail.Inbound.Store.{
  UserRow, KeypairRow, VerificationResult, find_user_by_email, find_active_x25519_public_key,
  is_duplicate,
}
use enclave_mail.Inbound.Store.Growth.{Grows, Grows-refl, Grows-trans}
use enclave_mail.Inbound.Worker.{
  Platform, Inbox, Incoming, normalize_recipient, deliver_to, deliver_all, process_inbound_mail_job,
  no_deliveries, incoming_of,
}
use enclave_mail.Inbound.Worker.Steps.{
  Holds, with_key_target, with_user_target, Step, with_user-Step,
}

-- Where the tables grow, everyone's mail goes to the same mailbox, and what it held it holds.
with_key_target-Grows :
    (user : UserRow) (key : Option KeypairRow) (before after : Database)
    → Grows before after
    → with_key_target user key after ≡ with_key_target user key before
with_key_target-Grows user none before after grows = refl
with_key_target-Grows user (some key) before after grows = grows.inboxes user.id

with_user_target-Grows :
    (keypairs : List KeypairRow) (user : Option UserRow) (before after : Database)
    → Grows before after
    → with_user_target keypairs user after ≡ with_user_target keypairs user before
with_user_target-Grows keypairs none before after grows = refl
with_user_target-Grows keypairs (some user) before after grows =
    with_key_target-Grows user (find_active_x25519_public_key keypairs user.id) before after grows

Holds-Grows :
    (incoming : Incoming) (o : Option Text) (before after : Database)
    → Grows before after
    → Holds incoming o before
    → Holds incoming o after
Holds-Grows incoming none before after grows h = tt
Holds-Grows incoming (some id) before after grows h =
    grows.keeps (is_duplicate id incoming.resolved_message_id) h

module _ (platform : Platform) (users : List UserRow) (keypairs : List KeypairRow)
    (incoming : Incoming) where
  abbrev target_of : Text → Database → Option Text
  target_of address db =
      with_user_target keypairs (find_user_by_email users (normalize_recipient address)) db

  -- The message is in the mailbox of each recipient who has one.
  abbrev AllHold : List Text → Database → Type 0
  AllHold addresses db = All (λ address. Holds incoming (target_of address db) db) addresses

  deliver_to-Step :
      (address : Text) (s : Inbox)
      → Step incoming (target_of address) s (deliver_to platform users keypairs incoming address s)
  unfolding deliver_to
  deliver_to-Step address s =
      with_user-Step platform incoming keypairs (normalize_recipient address)
        (find_user_by_email users (normalize_recipient address)) s

  hold_on :
      (address : Text) (before middle after : Database)
      → Grows before middle
      → Grows middle after
      → Holds incoming (target_of address before) middle
      → Holds incoming (target_of address after) after
  hold_on address before middle after f g h =
      subst (λ o. Holds incoming o after)
        (sym (
          with_user_target-Grows keypairs (find_user_by_email users (normalize_recipient address))
            before after (Grows-trans before middle after f g)))
        (Holds-Grows incoming (target_of address before) middle after g h)

  first_run :
      (addresses : List Text) (s : Inbox)
      → Grows s.db (deliver_all platform users keypairs incoming addresses s).db
        × (s.failed_recipients
            ≤ (deliver_all platform users keypairs incoming addresses s).failed_recipients)
        × ((deliver_all platform users keypairs incoming addresses s).failed_recipients
              ≡ s.failed_recipients
            → AllHold addresses (deliver_all platform users keypairs incoming addresses s).db)
  unfolding deliver_all
  first_run [] s = (Grows-refl s.db, omega arith, λ e. tt)
  first_run (address ∷ addresses) s =
      let next = deliver_to platform users keypairs incoming address s in
      let step = deliver_to-Step address s in
      let rest = first_run addresses next in
      let last = deliver_all platform users keypairs incoming addresses next in
      (
        Grows-trans s.db next.db last.db step.grows rest.0,
        omega (arith, step.failures, rest.1),
        λ e. (
          hold_on address s.db next.db last.db step.grows rest.0
              (step.holds (omega (arith, step.failures, rest.1, e))),
          rest.2 (omega (arith, step.failures, rest.1, e)),
        ),
      )

  second_run :
      (addresses : List Text) (s : Inbox)
      → AllHold addresses s.db
      → ((deliver_all platform users keypairs incoming addresses s).stored_recipients
          ≡ s.stored_recipients)
        × ((deliver_all platform users keypairs incoming addresses s).db ≡ s.db)
  unfolding deliver_all
  second_run [] s h = (refl, refl)
  second_run (address ∷ addresses) s h =
      let next = deliver_to platform users keypairs incoming address s in
      let same = (deliver_to-Step address s).again h.0 in
      let rest = second_run addresses next (subst (AllHold addresses) (sym same.1) h.1) in
      (rest.0 ∙ same.0, rest.1 ∙ same.1)

-- A job that has run without a failed recipient can be run again: the second run stores nothing and leaves
-- the tables as they are.
pub process_inbound_mail_job-again :
    (platform : Platform) (users : List UserRow) (keypairs : List KeypairRow) (raw_email : Text)
    (metadata : MailMetadata) (verification : VerificationResult) (db : Database) (first : Inbox)
    → (process_inbound_mail_job platform users keypairs raw_email metadata verification db).1
      ≡ first
    → first.failed_recipients ≡ 0
    → ((process_inbound_mail_job platform users keypairs raw_email metadata verification
          first.db).1.stored_recipients
        ≡ 0)
      × ((process_inbound_mail_job platform users keypairs raw_email metadata verification
            first.db).1.db
          ≡ first.db)
unfolding process_inbound_mail_job
process_inbound_mail_job-again platform users keypairs raw_email metadata verification db first e
      none_failed =
    let incoming = incoming_of platform raw_email metadata verification in
    let run = first_run platform users keypairs incoming metadata.to (no_deliveries db) in
    let held = run.2 (ap (λ s. s.failed_recipients) e ∙ none_failed) in
    second_run platform users keypairs incoming metadata.to (no_deliveries first.db)
      (subst (λ s. AllHold platform users keypairs incoming metadata.to s.db) e held)
