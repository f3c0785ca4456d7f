-- ===== src/Outbound/Worker/Delivery.antt =====
-- What an attempt at a job does when it delivers.
use enclave_mail.Prelude.{
  ◌≡◌, refl, sym, ap, ◌∙◌, List, [], ◌∷◌, ◌++◌, append_assoc, All, All-append, Text,
}
use enclave_mail.Prelude.Attempt.{Attempt, returned, thrown}
use mathlib.Core.Path.{subst}
use enclave_mail.Outbound.Addresses.{Grouped, group_recipients_by_domain}
use enclave_mail.Outbound.Worker.{
  OutboundMailJob, OutboundJobContext, Event, relayed, marked_delivered, marked_failed,
  dead_lettered, bounced, Log, OutboundWorkerDeps, Act, and_then, perform, must_exist, signed_mime,
  relay_groups, deliver, give_up, is_dead, bury, or_catch, process_outbound_mail_job,
}
use enclave_mail.Outbound.Worker.Relays.{
  Did, quiet_then, IsRelay, accepted, Relays, envelopes, relay_groups-Relays,
}
use enclave_mail.Outbound.Worker.Signing.{IsSigned, signed_mime-quiet, signed_mime-IsSigned}

-- The events of a delivery: no failure is recorded, and nobody is told of one.
abbrev pub IsDelivery : Event → Type 0
IsDelivery (relayed host envelope outcome) = Unit
IsDelivery (marked_delivered ref at_time outcome) = Unit
IsDelivery _ = ⊥

pub IsRelay-IsDelivery : (events : List Event) → All IsRelay events → All IsDelivery events
IsRelay-IsDelivery [] h = tt
IsRelay-IsDelivery (relayed a b c ∷ events) h = (tt, IsRelay-IsDelivery events h.1)
IsRelay-IsDelivery (marked_delivered a b c ∷ events) h = absurd h.0
IsRelay-IsDelivery (marked_failed a b c d ∷ events) h = absurd h.0
IsRelay-IsDelivery (dead_lettered a b ∷ events) h = absurd h.0
IsRelay-IsDelivery (bounced a b c ∷ events) h = absurd h.0

module _ (deps : OutboundWorkerDeps) (job : OutboundMailJob) where
  -- A delivery: relays, of which those that succeed carry the signed message to each group of recipients
  -- in turn, and then the mark.
  abbrev pub IsDelivered : Log → List Event → Type 0
  IsDelivered log events =
      (signed : Text) × (grouped : Grouped) × (front : List Event) × (at_time : Text) × IsSigned
        deps job log signed
      × (group_recipients_by_domain job.to ≡ returned grouped)
      × All IsRelay front
      × (accepted front ≡ envelopes deps job signed grouped)
      × (events ≡ front ++ marked_delivered job.encrypted_body_ref at_time (returned tt) ∷ [])

  abbrev pub Delivers : Log → Attempt (Unit {0}) → List Event → Type 0
  Delivers log (returned u) events = IsDelivered log events
  Delivers log (thrown message) events = All IsDelivery events

  marked : Act (Unit {0})
  marked log =
      perform (marked_delivered job.encrypted_body_ref (deps.now_iso log))
        (λ l. deps.mark_delivered l job.encrypted_body_ref (deps.now_iso log)) log

  marked-Delivers :
      (signed : Text) (grouped : Grouped) (front : List Event) (at_time : Text)
      (outcome : Attempt (Unit {0})) (log : Log)
      → IsSigned deps job log signed
      → group_recipients_by_domain job.to ≡ returned grouped
      → All IsRelay front
      → accepted front ≡ envelopes deps job signed grouped
      → Delivers log outcome (front ++ marked_delivered job.encrypted_body_ref at_time outcome ∷ [])
  marked-Delivers signed grouped front at_time (returned u) log hs hg hr ha =
      (signed, grouped, front, at_time, hs, hg, hr, ha, refl)
  marked-Delivers signed grouped front at_time (thrown message) log hs hg hr ha =
      All-append IsDelivery front
        (marked_delivered job.encrypted_body_ref at_time (thrown message) ∷ [])
        (IsRelay-IsDelivery front hr) (tt, tt)

  mark_groups-Delivers :
      (signed : Text) (grouped : Grouped) (log : Log) (r : Attempt (Unit {0}) × Log)
      → IsSigned deps job log signed
      → group_recipients_by_domain job.to ≡ returned grouped
      → Did (Relays (envelopes deps job signed grouped)) log r
      → Did (Delivers log) log (and_then r (λ u. marked))
  unfolding marked
  mark_groups-Delivers signed grouped log (returned u, after) hs hg did =
      let outcome = deps.mark_delivered after job.encrypted_body_ref (deps.now_iso after) in
      let event = marked_delivered job.encrypted_body_ref (deps.now_iso after) outcome in
      (
        did.0 ++ event ∷ [],
        ap (λ l. l ++ event ∷ []) did.1 ∙ append_assoc log did.0 (event ∷ []),
        marked-Delivers signed grouped did.0 (deps.now_iso after) outcome log hs hg did.2.0 did.2.1,
      )
  mark_groups-Delivers signed grouped log (thrown message, after) hs hg did =
      (did.0, did.1, IsRelay-IsDelivery did.0 did.2.0)

  pub deliver-Delivers : (log : Log) → Did (Delivers log) log (deliver deps job log)
  unfolding deliver marked
  deliver-Delivers log =
      quiet_then (Delivers log) log (deps.load_message_by_id log job.encrypted_body_ref, log) _ refl
        (λ loaded e.
          quiet_then (Delivers log) log (must_exist job.encrypted_body_ref loaded, log) _ refl
            (λ u e.
              quiet_then (Delivers log) log (signed_mime deps job log) _
                (signed_mime-quiet deps job log)
                (λ signed es.
                  quiet_then (Delivers log) log (group_recipients_by_domain job.to, log) _ refl
                    (λ grouped hg.
                      mark_groups-Delivers signed grouped log
                        (relay_groups deps job signed grouped log)
                        (signed_mime-IsSigned deps job log signed es) hg
                        (relay_groups-Relays deps job signed grouped log))
                    (λ message. tt))
                (λ message. tt))
            (λ message. tt))
        (λ message. tt)

abbrev pub Fails : Attempt (Unit {0}) × Log → Type 0
Fails (returned u, log) = ⊥
Fails (thrown message, log) = Unit

and_then-Fails {ℓ} :
    {A : Type ℓ} (r : Attempt A × Log) (next : A → Act (Unit {0}))
    → ((a : A) (log : Log) → Fails (next a log))
    → Fails (and_then r next)
and_then-Fails (returned a, log) next fails = fails a log
and_then-Fails (thrown message, log) next fails = tt

-- The handler of an error ends with an error.
pub give_up-Fails :
    (deps : OutboundWorkerDeps) (job : OutboundJobContext) (error : Text) (log : Log)
    → Fails (give_up deps job error log)
unfolding give_up
give_up-Fails deps job error log =
    and_then-Fails
      (deps.mark_failed log job.payload.encrypted_body_ref error (is_dead job), log ++ _ ∷ []) _
      (λ u l. and_then-Fails (bury deps job error (is_dead job) l) _ (λ u l. tt))

give_up-thrown :
    (deps : OutboundWorkerDeps) (job : OutboundJobContext) (error : Text) (log after : Log)
    (u : Unit {0})
    → give_up deps job error log ≡ (returned u, after)
    → ⊥
give_up-thrown deps job error log after u e = subst Fails e (give_up-Fails deps job error log)

or_catch-returned :
    (r : Attempt (Unit {0}) × Log) (handler : Text → Act (Unit {0})) (u : Unit {0}) (after : Log)
    → ((error : Text) (log : Log) → handler error log ≡ (returned u, after) → ⊥)
    → or_catch r handler ≡ (returned u, after)
    → r ≡ (returned tt, after)
or_catch-returned (returned u, log) handler v after never e =
    ap (λ l. (returned tt, l)) (ap (λ p. p.1) e)
or_catch-returned (thrown error, log) handler v after never e = absurd (never error log e)

deliver-IsDelivered :
    (deps : OutboundWorkerDeps) (job : OutboundMailJob) (r : Attempt (Unit {0}) × Log) (after : Log)
    → Did (Delivers deps job []) [] r
    → r ≡ (returned tt, after)
    → IsDelivered deps job [] after
deliver-IsDelivered deps job (returned u, log) after did e =
    subst (IsDelivered deps job []) (sym did.1 ∙ ap (λ p. p.1) e) did.2
deliver-IsDelivered deps job (thrown message, log) after did e = cc

-- When an attempt at a job succeeds, every group of recipients that the job's addresses form has had the
-- signed message accepted by a server, once and in order, nothing but these relays and the ones
-- refused before was done, and last of all the message was marked as delivered. The signed message is
-- what signing gives for the decrypted body with its attachments, the domain of the sender and the key
-- of the worker.
pub process_outbound_mail_job-IsDelivered :
    (deps : OutboundWorkerDeps) (job : OutboundJobContext) (after : Log)
    → process_outbound_mail_job deps job [] ≡ (returned tt, after)
    → IsDelivered deps job.payload [] after
unfolding process_outbound_mail_job
process_outbound_mail_job-IsDelivered deps job after e =
    deliver-IsDelivered deps job.payload (deliver deps job.payload []) after
      (deliver-Delivers deps job.payload [])
      (or_catch-returned (deliver deps job.payload []) (λ error. give_up deps job error) tt after
        (λ error log. give_up-thrown deps job error log after tt) e)
