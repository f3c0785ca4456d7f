-- ===== src/Outbound/Addresses/Groups.antt =====
-- What the groups of `groupRecipientsByDomain` hold.
use enclave_mail.Prelude.{
  ◌≡◌, refl, sym, Bool, false, ◌||◌, List, [], ◌∷◌, ◌++◌, arith, map, filter, append_assoc,
  append-nil, Text, text_eq, text_eq_iff, if◌then◌else◌, Bool-cases, inl, inr, contains, text_Eq,
}
use enclave_mail.Prelude.Attempt.{Attempt, returned, thrown, >>=-eq-returned}
use enclave_mail.Outbound.Addresses.{
  Grouped, add_recipient, group_from, group_recipients_by_domain, parse_address_domain,
}

-- The recipients that a grouping has for a domain, `get(domain) ?? []`.
unfoldable pub recipients_of : Grouped → Text → List Text
recipients_of [] domain = []
recipients_of ((key, existing) ∷ grouped) domain =
    if text_eq key domain then existing else recipients_of grouped domain

abbrev pub is_domain : Attempt Text → Text → Bool
is_domain (returned d) domain = text_eq d domain
is_domain (thrown message) domain = false

abbrev pub in_domain : Text → Text → Bool
in_domain domain recipient = is_domain (parse_address_domain recipient) domain

recipients_of-add_recipient :
    (grouped : Grouped) (d recipient domain : Text)
    → recipients_of (add_recipient grouped d recipient) domain
      ≡ recipients_of grouped domain ++ (if text_eq d domain then recipient ∷ [] else [])
unfolding recipients_of add_recipient
recipients_of-add_recipient [] d recipient domain = refl
recipients_of-add_recipient ((key, existing) ∷ grouped) d recipient domain = ground (
  arith,
  recipients_of-add_recipient grouped d recipient domain,
  append-nil existing,
  append-nil (recipients_of grouped domain),
  text_eq_iff key d,
  text_eq_iff key domain,
  text_eq_iff d domain,
)

group_from-nil :
    (grouped result : Grouped) → group_from grouped [] ≡ returned result → grouped ≡ result
unfolding group_from
group_from-nil grouped result e = cc

-- A grouping that succeeds has found a domain for its first recipient.
group_from-cons :
    (grouped : Grouped) (r : Text) (recipients : List Text) (result : Grouped)
    → group_from grouped (r ∷ recipients) ≡ returned result
    → (d : Text) × (parse_address_domain r ≡ returned d)
      × (group_from (add_recipient grouped d r) recipients ≡ returned result)
unfolding group_from
group_from-cons grouped r recipients result e =
    >>=-eq-returned (parse_address_domain r)
      (λ d. group_from (add_recipient grouped d r) recipients) result e

filter-in_domain :
    (domain r : Text) (recipients : List Text) (d : Text)
    → parse_address_domain r ≡ returned d
    → filter (in_domain domain) (r ∷ recipients)
      ≡ (if text_eq d domain then r ∷ [] else []) ++ filter (in_domain domain) recipients
unfolding filter
filter-in_domain domain r recipients d e = elim (Bool-cases (text_eq d domain)) [
  | inl same ↦ simp (e, same)
  | inr other ↦ simp (e, other)
]

recipients_of-group_from :
    (grouped : Grouped) (recipients : List Text) (result : Grouped) (domain : Text)
    → group_from grouped recipients ≡ returned result
    → recipients_of result domain
      ≡ recipients_of grouped domain ++ filter (in_domain domain) recipients
recipients_of-group_from grouped [] result domain e =
    rw (sym (group_from-nil grouped result e))
      (unfold filter in sym (append-nil (recipients_of grouped domain)))
recipients_of-group_from grouped (r ∷ recipients) result domain e =
    let found = group_from-cons grouped r recipients result e in
    let mine = if text_eq found.0 domain then r ∷ [] else [] in
    rw
      (
        filter-in_domain domain r recipients found.0 found.1,
        recipients_of-group_from (add_recipient grouped found.0 r) recipients result domain found.2,
        recipients_of-add_recipient grouped found.0 r domain,
      )
      (append_assoc (recipients_of grouped domain) mine (filter (in_domain domain) recipients))

-- The domains of a grouping.
unfoldable pub domains : Grouped → List Text
domains grouped = map (λ group. group.0) grouped

abbrev pub Distinct : List Text → Type 0
Distinct [] = Unit
Distinct (d ∷ ds) = (contains ds d ≡ false) × Distinct ds

contains-domains-add :
    (grouped : Grouped) (d r k : Text)
    → contains (domains (add_recipient grouped d r)) k
      ≡ (contains (domains grouped) k || text_eq d k)
unfolding add_recipient domains
contains-domains-add [] d r k = ground arith
contains-domains-add ((key, existing) ∷ grouped) d r k =
    ground (arith, contains-domains-add grouped d r k, text_eq_iff key d)

contains-add-other :
    (grouped : Grouped) (d r key : Text)
    → contains (domains grouped) key ≡ false
    → text_eq key d ≡ false
    → contains (domains (add_recipient grouped d r)) key ≡ false
contains-add-other grouped d r key h other =
    ground (arith, contains-domains-add grouped d r key, text_eq_iff key d, text_eq_iff d key)

add_recipient-Distinct :
    (grouped : Grouped) (d r : Text)
    → Distinct (domains grouped)
    → Distinct (domains (add_recipient grouped d r))
unfolding add_recipient domains
add_recipient-Distinct [] d r h = (refl, tt)
add_recipient-Distinct ((key, existing) ∷ grouped) d r h = elim (Bool-cases (text_eq key d)) [
  | inl same ↦ rw same h
  | inr other ↦
      rw other
        (contains-add-other grouped d r key h.0 other, add_recipient-Distinct grouped d r h.1)
]

group_from-Distinct :
    (grouped : Grouped) (recipients : List Text) (result : Grouped)
    → Distinct (domains grouped)
    → group_from grouped recipients ≡ returned result
    → Distinct (domains result)
group_from-Distinct grouped [] result h e = rw (sym (group_from-nil grouped result e)) h
group_from-Distinct grouped (r ∷ recipients) result h e =
    let found = group_from-cons grouped r recipients result e in
    group_from-Distinct (add_recipient grouped found.0 r) recipients result
      (add_recipient-Distinct grouped found.0 r h) found.2

-- When grouping succeeds, no domain has two groups, and the group of each domain is the list of
-- the recipients whose addresses have that domain, in order.
pub group_recipients_by_domain-filter :
    (recipients : List Text) (grouped : Grouped) (domain : Text)
    → group_recipients_by_domain recipients ≡ returned grouped
    → Distinct (domains grouped)
      × (recipients_of grouped domain ≡ filter (in_domain domain) recipients)
unfolding group_recipients_by_domain recipients_of
group_recipients_by_domain-filter recipients grouped domain e = (
  group_from-Distinct [] recipients grouped (unfold domains in tt) e,
  recipients_of-group_from [] recipients grouped domain e,
)
