-- ===== src/Outbound/Worker/Relays.antt =====
-- What relaying a message to the servers of its recipients logs.
use enclave_mail.Prelude.{
  ◌≡◌, refl, sym, ap, ◌∙◌, List, [], ◌∷◌, ◌++◌, map, append_assoc, append-nil, All, All-append,
  Text, Option, none, some,
}
use enclave_mail.Prelude.Attempt.{Attempt, returned, thrown}
use enclave_mail.Outbound.Addresses.{MxRecord, Grouped, sort_mx_records_by_priority}
use enclave_mail.Outbound.Relay.{RelayEnvelope}
use enclave_mail.Outbound.Worker.{
  OutboundMailJob, Event, relayed, marked_delivered, marked_failed, dead_lettered, bounced, Log,
  OutboundWorkerDeps, Act, and_then, envelope_for, unless_delivered, relay_to_any, relay_to_servers,
  relay_to_domain, relay_groups,
}

-- What a step left behind: its log is the one before, and events that fit its outcome.
abbrev pub Did {ℓ} :
    {A : Type ℓ} → (Attempt A → List Event → Type 0) → Log → Attempt A × Log → Type 0
Did P log r = (events : List Event) × (r.1 ≡ log ++ events) × P r.0 events

-- A step that logs nothing, and what comes behind it.
pub quiet_then {ℓ κ} :
    {A : Type ℓ} {B : Type κ} (P : Attempt B → List Event → Type 0) (log : Log)
    (r : Attempt A × Log) (next : A → Act B)
    → r.1 ≡ log
    → ((a : A) → r.0 ≡ returned a → Did P log (next a log))
    → ((message : Text) → P (thrown message) [])
    → Did P log (and_then r next)
quiet_then P log (returned a, after) next quiet goes fails = rw quiet (goes a refl)
quiet_then P log (thrown message, after) next quiet goes fails =
    ([], quiet ∙ sym (append-nil log), fails message)

abbrev pub IsRelay : Event → Type 0
IsRelay (relayed host envelope outcome) = Unit
IsRelay _ = ⊥

-- The envelopes that a server took, in order.
abbrev pub accepted : List Event → List RelayEnvelope
accepted [] = []
accepted (relayed host envelope (returned u) ∷ events) = envelope ∷ accepted events
accepted (_ ∷ events) = accepted events

abbrev pub Accepts : List RelayEnvelope → Attempt (Unit {0}) → List Event → Type 0
Accepts envelopes (returned u) events = accepted events ≡ envelopes
Accepts envelopes (thrown message) events = Unit

abbrev pub Relays : List RelayEnvelope → Attempt (Unit {0}) → List Event → Type 0
Relays envelopes outcome events = All IsRelay events × Accepts envelopes outcome events

Accepts-tried :
    (envelopes : List RelayEnvelope) (outcome : Attempt (Unit {0})) (host : Text)
    (envelope : RelayEnvelope) (error : Text) (events : List Event)
    → Accepts envelopes outcome events
    → Accepts envelopes outcome (relayed host envelope (thrown error) ∷ events)
Accepts-tried envelopes (returned u) host envelope error events h = h
Accepts-tried envelopes (thrown message) host envelope error events h = tt

accepted-append : (xs ys : List Event) → accepted (xs ++ ys) ≡ accepted xs ++ accepted ys
accepted-append [] ys = refl
accepted-append (relayed host envelope (returned u) ∷ xs) ys =
    ap (λ t. envelope ∷ t) (accepted-append xs ys)
accepted-append (relayed host envelope (thrown e) ∷ xs) ys = accepted-append xs ys
accepted-append (marked_delivered a b c ∷ xs) ys = accepted-append xs ys
accepted-append (marked_failed a b c d ∷ xs) ys = accepted-append xs ys
accepted-append (dead_lettered a b ∷ xs) ys = accepted-append xs ys
accepted-append (bounced a b c ∷ xs) ys = accepted-append xs ys

Accepts-append :
    (first : RelayEnvelope) (others : List RelayEnvelope) (outcome : Attempt (Unit {0}))
    (xs ys : List Event)
    → accepted xs ≡ first ∷ []
    → Accepts others outcome ys
    → Accepts (first ∷ others) outcome (xs ++ ys)
Accepts-append first others (returned u) xs ys hx hy =
    accepted-append xs ys ∙ ap (λ t. t ++ accepted ys) hx ∙ ap (λ t. first ∷ t) hy
Accepts-append first others (thrown message) xs ys hx hy = tt

module _ (envelope : RelayEnvelope) where
  unless_delivered-Relays :
      (log : Log) (host : Text) (outcome : Attempt (Unit {0})) (retry : Text → Act (Unit {0}))
      → ((error : Text) (l : Log) → Did (Relays (envelope ∷ [])) l (retry error l))
      → Did
          (Relays (envelope ∷ []))
          log
          (unless_delivered (outcome, log ++ relayed host envelope outcome ∷ []) retry)
  unless_delivered-Relays log host (returned u) retry goes =
      (relayed host envelope (returned u) ∷ [], refl, ((tt, tt), refl))
  unless_delivered-Relays log host (thrown error) retry goes =
      let tried = relayed host envelope (thrown error) in
      let later = goes error (log ++ tried ∷ []) in
      (
        tried ∷ later.0,
        later.1 ∙ append_assoc log (tried ∷ []) later.0,
        (
          (tt, later.2.0),
          Accepts-tried (envelope ∷ []) (retry error (log ++ tried ∷ [])).0 host envelope error
              later.0 later.2.1,
        ),
      )

  relay_to_any-Relays :
      (deps : OutboundWorkerDeps) (domain : Text) (records : List MxRecord) (last : Option Text)
      (log : Log)
      → Did (Relays (envelope ∷ [])) log (relay_to_any deps envelope domain records last log)
  unfolding relay_to_any
  relay_to_any-Relays deps domain [] last log = ([], sym (append-nil log), (tt, tt))
  relay_to_any-Relays deps domain (mx ∷ records) last log =
      unless_delivered-Relays log mx.exchange (deps.relay log mx.exchange envelope)
        (λ error l. relay_to_any deps envelope domain records (some error) l)
        (λ error l. relay_to_any-Relays deps domain records (some error) l)

  relay_to_servers-Relays :
      (deps : OutboundWorkerDeps) (domain : Text) (records : List MxRecord) (log : Log)
      → Did (Relays (envelope ∷ [])) log (relay_to_servers deps envelope domain records log)
  relay_to_servers-Relays deps domain [] log = ([], sym (append-nil log), (tt, tt))
  relay_to_servers-Relays deps domain (mx ∷ records) log =
      relay_to_any-Relays deps domain (mx ∷ records) none log

  relay_to_domain-Relays :
      (deps : OutboundWorkerDeps) (domain : Text) (log : Log)
      → Did (Relays (envelope ∷ [])) log (relay_to_domain deps envelope domain log)
  unfolding relay_to_domain
  relay_to_domain-Relays deps domain log =
      quiet_then (Relays (envelope ∷ [])) log (deps.resolve_mx log domain, log)
        (λ records. relay_to_servers deps envelope domain (sort_mx_records_by_priority records))
        refl
        (λ records e. relay_to_servers-Relays deps domain (sort_mx_records_by_priority records) log)
        (λ message. (tt, tt))

module _ (deps : OutboundWorkerDeps) (job : OutboundMailJob) (signed : Text) where
  abbrev pub envelopes : Grouped → List RelayEnvelope
  envelopes grouped = map (λ group. envelope_for deps job signed group.1) grouped

  then_Relays :
      (log : Log) (r : Attempt (Unit {0}) × Log) (next : Unit {0} → Act (Unit {0}))
      (first : RelayEnvelope) (others : List RelayEnvelope)
      → Did (Relays (first ∷ [])) log r
      → ((u : Unit {0}) (l : Log) → Did (Relays others) l (next u l))
      → Did (Relays (first ∷ others)) log (and_then r next)
  then_Relays log (returned u, after) next first others did goes =
      let later = goes u after in
      (
        did.0 ++ later.0,
        later.1 ∙ ap (λ l. l ++ later.0) did.1 ∙ append_assoc log did.0 later.0,
        (
          All-append IsRelay did.0 later.0 did.2.0 later.2.0,
          Accepts-append first others (next u after).0 did.0 later.0 did.2.1 later.2.1,
        ),
      )
  then_Relays log (thrown message, after) next first others did goes = (did.0, did.1, (did.2.0, tt))

  pub relay_groups-Relays :
      (grouped : Grouped) (log : Log)
      → Did (Relays (envelopes grouped)) log (relay_groups deps job signed grouped log)
  unfolding relay_groups
  relay_groups-Relays [] log = ([], sym (append-nil log), (tt, refl))
  relay_groups-Relays ((domain, recipients) ∷ grouped) log =
      then_Relays log (relay_to_domain deps (envelope_for deps job signed recipients) domain log)
        (λ u log. relay_groups deps job signed grouped log)
        (envelope_for deps job signed recipients) (envelopes grouped)
        (relay_to_domain-Relays (envelope_for deps job signed recipients) deps domain log)
        (λ u l. relay_groups-Relays grouped l)
