-- ===== src/Outbound/Worker/Notices.antt =====
-- What the failed attempts at a job leave: the dead letter and the notice to the sender.
use enclave_mail.Prelude.{
  ℕ, suc, ◌<◌, ◌≡◌, refl, ap, ◌∙◌, true, false, [], ◌∷◌, ◌++◌, arith, filter, append-nil, Text,
}
use enclave_mail.Prelude.Attempt.{returned, thrown}
use enclave_mail.Outbound.Worker.{
  OutboundJobContext, dead_lettered, bounced, Log, OutboundWorkerDeps, is_dead, max_attempts,
  dead_letter, process_outbound_mail_job,
}
use enclave_mail.Outbound.Worker.Failures.{notices, IsAccepting, aftermath, notices-process}

abbrev pub at_attempt : OutboundJobContext → ℕ → OutboundJobContext
at_attempt job n = record {
  id = job.id;
  payload = job.payload;
  attempts_made = n;
  attempts = job.attempts;
}

-- The log of a job after its first `n` attempts, each of which failed.
pub data Tried (deps : OutboundWorkerDeps) (job : OutboundJobContext) : ℕ → Log → Type 0 where
  untried : Tried deps job 0 []
  failed_again :
      {n : ℕ} {log : Log} (error : Text) (after : Log)
      → Tried deps job n log
      → process_outbound_mail_job deps (at_attempt job n) log ≡ (thrown error, after)
      → Tried deps job (suc n) after

still_alive :
    (job : OutboundJobContext) (k : ℕ)
    → suc k < max_attempts job
    → is_dead (at_attempt job k) ≡ false
still_alive job k h = ground (arith, h)

now_dead :
    (job : OutboundJobContext) (n : ℕ)
    → max_attempts job ≡ suc n
    → is_dead (at_attempt job n) ≡ true
now_dead job n e = ground (arith, e)

-- Before the last attempt nobody is told.
notices-Tried :
    (deps : OutboundWorkerDeps) (job : OutboundJobContext) (n : ℕ) (log : Log)
    → IsAccepting deps
    → Tried deps job n log
    → n < max_attempts job
    → notices log ≡ []
notices-Tried deps job n log accepting untried h = unfold notices in unfold filter in refl
notices-Tried deps job n log accepting
      (failed_again {n = k} {log = before} error after tried failed) h =
    let told = notices-process deps accepting (at_attempt job k) before error after failed in
    let alive = still_alive job k h in
    told.1
    ∙ ap (λ dead. notices before ++ aftermath (at_attempt job k) error told.0 dead) alive
    ∙ append-nil (notices before)
    ∙ notices-Tried deps job k before accepting tried (omega (arith, h))

-- When all attempts at a job fail, the log has exactly one dead letter and one notice to the sender, both
-- with the error of the last attempt; the store and the queue of dead letters take what they are given.
pub process_outbound_mail_job-notices :
    (deps : OutboundWorkerDeps) (job : OutboundJobContext) (n : ℕ) (log : Log) (error : Text)
    (after : Log)
    → IsAccepting deps
    → max_attempts job ≡ suc n
    → Tried deps job n log
    → process_outbound_mail_job deps (at_attempt job n) log ≡ (thrown error, after)
    → (failed_at : Text) × (notices after
        ≡ dead_lettered (dead_letter job error failed_at) (returned tt)
          ∷ bounced job.payload error (returned tt)
          ∷ [])
process_outbound_mail_job-notices deps job n log error after accepting last tried failed =
    let told = notices-process deps accepting (at_attempt job n) log error after failed in
    (
      told.0,
      told.1
          ∙ ap (λ t. t ++ aftermath (at_attempt job n) error told.0 (is_dead (at_attempt job n)))
              (notices-Tried deps job n log accepting tried (omega (arith, last)))
          ∙ ap (aftermath (at_attempt job n) error told.0) (now_dead job n last),
    )
