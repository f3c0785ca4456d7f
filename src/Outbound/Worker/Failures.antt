-- ===== src/Outbound/Worker/Failures.antt =====
-- What a failed attempt at a job leaves in the log.
use mathlib.Core.Path.{subst}
use enclave_mail.Prelude.{
  ◌≡◌, refl, sym, ap, ◌∙◌, Bool, true, false, List, [], ◌∷◌, ◌++◌, filter, filter-append,
  append_assoc, append-nil, All, All-append, Text,
}
use enclave_mail.Prelude.Attempt.{Attempt, returned, thrown, thrown_injective}
use enclave_mail.Outbound.Worker.{
  OutboundMailJob, OutboundJobContext, DeadLetterJob, Event, relayed, marked_delivered,
  marked_failed, dead_lettered, bounced, Log, OutboundWorkerDeps, and_then, perform, deliver,
  give_up, bury, is_dead, dead_letter, or_catch, process_outbound_mail_job,
}
use enclave_mail.Outbound.Worker.Delivery.{
  Delivers, IsDelivery, deliver-Delivers, IsRelay-IsDelivery,
}

-- The dead letters and the notices to the sender in a log.
abbrev pub is_notice : Event → Bool
is_notice (dead_lettered letter outcome) = true
is_notice (bounced job reason outcome) = true
is_notice _ = false

unfoldable pub notices : Log → List Event
notices log = filter is_notice log

notices-append : (xs ys : Log) → notices (xs ++ ys) ≡ notices xs ++ notices ys
unfolding notices
notices-append xs ys = filter-append is_notice xs ys

notices-delivery : (events : List Event) → All IsDelivery events → notices events ≡ []
unfolding notices filter
notices-delivery [] h = refl
notices-delivery (relayed a b c ∷ events) h = notices-delivery events h.1
notices-delivery (marked_delivered a b c ∷ events) h = notices-delivery events h.1
notices-delivery (marked_failed a b c d ∷ events) h = absurd h.0
notices-delivery (dead_lettered a b ∷ events) h = absurd h.0
notices-delivery (bounced a b c ∷ events) h = absurd h.0

-- The store and the queue of dead letters take what they are given.
pub record IsAccepting (deps : OutboundWorkerDeps) : Type 0 where
  pub marks_failed :
      (log : Log) (ref message : Text) (dead : Bool)
      → deps.mark_failed log ref message dead ≡ returned tt
  pub adds_dead_letter :
      (log : Log) (letter : DeadLetterJob) → deps.add_dead_letter log letter ≡ returned tt
  pub creates_bounce :
      (log : Log) (job : OutboundMailJob) (reason : Text)
      → deps.create_bounce_notification log job reason ≡ returned tt

-- What is owed when an attempt fails.
abbrev pub aftermath : OutboundJobContext → Text → Text → Bool → List Event
aftermath job error failed_at false = []
aftermath job error failed_at true =
    dead_lettered (dead_letter job error failed_at) (returned tt)
    ∷ bounced job.payload error (returned tt)
    ∷ []

module _ (deps : OutboundWorkerDeps) (accepting : IsAccepting deps) where
  -- A step that is logged, when what it calls succeeds.
  perform-returned :
      (event : Attempt (Unit {0}) → Event) (f : Log → Attempt (Unit {0})) (log : Log)
      → f log ≡ returned tt
      → perform event f log ≡ (returned tt, log ++ event (returned tt) ∷ [])
  perform-returned event f log e = ap (λ r. (r, log ++ event r ∷ [])) e

  bury-accepted :
      (job : OutboundJobContext) (error : Text) (dead : Bool) (log : Log)
      → bury deps job error dead log
        ≡ (returned tt, log ++ aftermath job error (deps.now_iso log) dead)
  bury-accepted job error false log = ap (λ l. (returned tt, l)) (sym (append-nil log))
  bury-accepted job error true log =
      let letter = dead_letter job error (deps.now_iso log) in
      ap
        (λ r. and_then r (λ u.
          perform (bounced job.payload error)
            (λ l. deps.create_bounce_notification l job.payload error)))
        (perform-returned (dead_lettered letter) (λ l. deps.add_dead_letter l letter) log
          (accepting.adds_dead_letter log letter))
      ∙ perform-returned (bounced job.payload error)
          (λ l. deps.create_bounce_notification l job.payload error)
          (log ++ dead_lettered letter (returned tt) ∷ [])
          (accepting.creates_bounce (log ++ dead_lettered letter (returned tt) ∷ []) job.payload
            error)
      ∙ ap (λ l. (returned tt, l))
          (append_assoc log (dead_lettered letter (returned tt) ∷ [])
            (bounced job.payload error (returned tt) ∷ []))

  give_up-accepted :
      (job : OutboundJobContext) (error : Text) (log : Log)
      → (failed_at : Text) × (give_up deps job error log ≡ (
        thrown error,
        (log ++ marked_failed job.payload.encrypted_body_ref error (is_dead job) (returned tt) ∷ [])
            ++ aftermath job error failed_at (is_dead job),
      ))
  unfolding give_up
  give_up-accepted job error log =
      let ref = job.payload.encrypted_body_ref in
      let marked = log ++ marked_failed ref error (is_dead job) (returned tt) ∷ [] in
      (
        deps.now_iso marked,
        ap
              (λ r.
                and_then r (λ u l.
                  and_then (bury deps job error (is_dead job) l) (λ u l. (thrown error, l))))
              (perform-returned (marked_failed ref error (is_dead job))
                (λ l. deps.mark_failed l ref error (is_dead job)) log
                (accepting.marks_failed log ref error (is_dead job)))
            ∙ ap (λ r. and_then r (λ u l. (thrown error, l)))
                (bury-accepted job error (is_dead job) marked),
      )

  notices-aftermath :
      (job : OutboundJobContext) (error failed_at : Text) (dead : Bool)
      → notices (aftermath job error failed_at dead) ≡ aftermath job error failed_at dead
  unfolding notices filter
  notices-aftermath job error failed_at false = refl
  notices-aftermath job error failed_at true = refl

  notices-marked_failed :
      (ref error : Text) (dead : Bool) (outcome : Attempt (Unit {0}))
      → notices (marked_failed ref error dead outcome ∷ []) ≡ []
  unfolding notices filter
  notices-marked_failed ref error dead outcome = refl

  notices-give_up :
      (job : OutboundJobContext) (error : Text) (log : Log)
      → (failed_at : Text) × (notices (give_up deps job error log).1
          ≡ notices log ++ aftermath job error failed_at (is_dead job))
  notices-give_up job error log =
      let ref = job.payload.encrypted_body_ref in
      let marked = marked_failed ref error (is_dead job) (returned tt) ∷ [] in
      let done = give_up-accepted job error log in
      let owed = aftermath job error done.0 (is_dead job) in
      (
        done.0,
        ap (λ r. notices r.1) done.1
            ∙ notices-append (log ++ marked) owed
            ∙ ap (λ t. t ++ notices owed) (notices-append log marked)
            ∙ ap (λ t. (notices log ++ t) ++ notices owed)
                (notices-marked_failed ref error (is_dead job) (returned tt))
            ∙ ap (λ t. t ++ notices owed) (append-nil (notices log))
            ∙ ap (λ t. notices log ++ t) (notices-aftermath job error done.0 (is_dead job)),
      )

  Delivers-IsDelivery :
      (job : OutboundMailJob) (log : Log) (outcome : Attempt (Unit {0})) (events : List Event)
      → Delivers deps job log outcome events
      → All IsDelivery events
  Delivers-IsDelivery job log (thrown message) events h = h
  Delivers-IsDelivery job log (returned u) events h =
      subst (All IsDelivery) (sym h.8)
        (All-append IsDelivery h.2 _ (IsRelay-IsDelivery h.2 h.6) (tt, tt))

  -- Delivering, whatever comes of it, tells nobody of a failure.
  notices-deliver :
      (job : OutboundMailJob) (log : Log) → notices (deliver deps job log).1 ≡ notices log
  notices-deliver job log =
      let did = deliver-Delivers deps job log in
      ap notices did.1
      ∙ notices-append log did.0
      ∙ ap (λ t. notices log ++ t)
          (notices-delivery did.0
            (Delivers-IsDelivery job log (deliver deps job log).0 did.0 did.2))
      ∙ append-nil (notices log)

  -- The attempt that fails with `error`.
  failed_with :
      (job : OutboundJobContext) (log : Log) (r : Attempt (Unit {0}) × Log) (error : Text)
      (after : Log)
      → or_catch r (λ e. give_up deps job e) ≡ (thrown error, after)
      → notices r.1 ≡ notices log
      → (failed_at : Text) × (notices after
          ≡ notices log ++ aftermath job error failed_at (is_dead job))
  failed_with job log (returned u, l) error after e same = cc
  failed_with job log (thrown message, l) error after e same =
      let done = give_up-accepted job message l in
      let found = notices-give_up job message l in
      (
        found.0,
        sym (ap (λ r. notices r.1) e)
            ∙ found.1
            ∙ ap (λ t. t ++ aftermath job message found.0 (is_dead job)) same
            ∙ ap (λ m. notices log ++ aftermath job m found.0 (is_dead job))
                (thrown_injective message error (ap (λ r. r.0) (sym done.1 ∙ e))),
      )

  pub notices-process :
      (job : OutboundJobContext) (log : Log) (error : Text) (after : Log)
      → process_outbound_mail_job deps job log ≡ (thrown error, after)
      → (failed_at : Text) × (notices after
          ≡ notices log ++ aftermath job error failed_at (is_dead job))
  unfolding process_outbound_mail_job
  notices-process job log error after e =
      failed_with job log (deliver deps job.payload log) error after e
        (notices-deliver job.payload log)
