-- ===== src/Outbound/Addresses.antt =====
-- The recipients of a job and the servers of a domain: `sortMxRecordsByPriority`, `outboundBackoffDelay`,
-- `parseAddressDomain` and `groupRecipientsByDomain` of queue/outbound-worker.ts.
pub mod Groups
use enclave_mail.Prelude.{
  ℕ, suc, ◌+◌, ◌-◌, min, Bool, true, false, ◌||◌, List, [], ◌∷◌, ◌++◌, Option, none, some, Text,
  codes, nat_eq, leb, if◌then◌else◌, length, drop, get_elem?, to_lower_case, text_eq,
}
use enclave_mail.Prelude.Attempt.{Attempt, returned, thrown, when, ◌>>=◌}

pub record MxRecord : Type 0 where
  pub exchange : Text
  pub priority : ℕ

-- `sort` keeps the order of records of the same priority.
unfoldable pub insert_record : MxRecord → List MxRecord → List MxRecord
insert_record mx [] = mx ∷ []
insert_record mx (other ∷ records) =
    let behind = insert_record mx records in
    if leb mx.priority other.priority then mx ∷ other ∷ records else other ∷ behind

unfoldable pub sort_mx_records_by_priority : List MxRecord → List MxRecord
sort_mx_records_by_priority [] = []
sort_mx_records_by_priority (mx ∷ records) = insert_record mx (sort_mx_records_by_priority records)

abbrev pub outbound_retry_delays_ms : List ℕ
outbound_retry_delays_ms = 30000 ∷ 60000 ∷ 300000 ∷ 900000 ∷ 3600000 ∷ []

abbrev pub delay_or : Option ℕ → Option ℕ → Attempt ℕ
delay_or (some delay) fallback = returned delay
delay_or none (some delay) = returned delay
delay_or none none = thrown (codes "Outbound retry delays are not configured")

-- The index is `max(0, min(attemptsMade - 1, length - 1))`.
unfoldable pub outbound_backoff_delay : ℕ → Attempt ℕ
outbound_backoff_delay attempts_made =
    let last = length outbound_retry_delays_ms - 1 in
    delay_or (get_elem? outbound_retry_delays_ms (min (attempts_made - 1) last))
      (get_elem? outbound_retry_delays_ms last)

abbrev pub at_later : Option ℕ → Bool → Option ℕ
at_later (some i) here = some (suc i)
at_later none true = some 0
at_later none false = none

-- `lastIndexOf` of a character.
unfoldable pub last_index_of : ℕ → Text → Option ℕ
last_index_of c [] = none
last_index_of c (d ∷ s) = at_later (last_index_of c s) (nat_eq d c)

abbrev pub invalid_address : Text → Text
invalid_address address = codes "Invalid email address: " ++ address

abbrev pub domain_at : Text → Option ℕ → Attempt Text
domain_at address none = thrown (invalid_address address)
domain_at address (some at_index) =
    when (nat_eq at_index 0 || nat_eq (suc at_index) (length address)) (invalid_address address)
      (returned (to_lower_case (drop (suc at_index) address)))

unfoldable pub parse_address_domain : Text → Attempt Text
parse_address_domain address = domain_at address (last_index_of b'@' address)

-- A `Map` from domains to recipients, in the order in which the domains came.
abbrev pub Grouped : Type 0
Grouped = List (Text × List Text)

unfoldable pub add_recipient : Grouped → Text → Text → Grouped
add_recipient [] domain recipient = (domain, recipient ∷ []) ∷ []
add_recipient ((key, existing) ∷ grouped) domain recipient =
    let behind = add_recipient grouped domain recipient in
    if text_eq key domain
    then (key, existing ++ recipient ∷ []) ∷ grouped
    else (key, existing) ∷ behind

unfoldable pub group_from : Grouped → List Text → Attempt Grouped
group_from grouped [] = returned grouped
group_from grouped (recipient ∷ recipients) = parse_address_domain recipient >>= λ domain.
    group_from (add_recipient grouped domain recipient) recipients

unfoldable pub group_recipients_by_domain : List Text → Attempt Grouped
group_recipients_by_domain recipients = group_from [] recipients
