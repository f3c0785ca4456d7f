-- ===== src/Imap/Message/Search.antt =====
-- `SEARCH` of commands/message.ts. `date_parse` is the fallback `new Date(text)`, whose formats the
-- platform chooses: a time in milliseconds, or `none` for an invalid date.
pub mod Terms
pub mod Narrowing
use enclave_mail.Prelude.{
  ℕ, suc, ◌+◌, ◌-◌, ◌/◌, Bool, true, false, not, ◌&&◌, ◌||◌, List, [], ◌∷◌, ◌++◌, map, Option, none,
  some, Text, codes, trim, is_empty, to_upper_case, to_lower_case, text_includes, break_at, length,
  text_eq, text_Eq, nat_Eq, nat_eq, contains, leb, any, all, max, filter, if◌then◌else◌,
}
use enclave_mail.Prelude.Int.{
  ℤ, pos, negsuc, pos_part, neg_part, leb_ℤ, ltb_ℤ, parse_int, parse_digits, is_digit,
}
use enclave_mail.Prelude.Dates.{utc_day, ms_per_day}
use enclave_mail.Imap.Database.{MessageRow}
use enclave_mail.Imap.Message.Flags.{seen, flagged, deleted, draft}
use enclave_mail.Imap.Message.SequenceSet.{parse_sequence_set}

pub record IndexedMessage : Type 0 where
  pub sequence : ℕ
  pub message : MessageRow

unfoldable pub max_uid : List IndexedMessage → ℕ
max_uid [] = 0
max_uid (e ∷ es) = max e.message.uid (max_uid es)

-- `monthMap[text]`.
unfoldable pub month_of : Text → Option ℕ
month_of s =
    if text_eq s (codes "jan")
    then some 0
    else if text_eq s (codes "feb")
    then some 1
    else if text_eq s (codes "mar")
    then some 2
    else if text_eq s (codes "apr")
    then some 3
    else if text_eq s (codes "may")
    then some 4
    else if text_eq s (codes "jun")
    then some 5
    else if text_eq s (codes "jul")
    then some 6
    else if text_eq s (codes "aug")
    then some 7
    else if text_eq s (codes "sep")
    then some 8
    else if text_eq s (codes "oct")
    then some 9
    else if text_eq s (codes "nov")
    then some 10
    else if text_eq s (codes "dec")
    then some 11
    else none

abbrev pub is_letter : ℕ → Bool
is_letter c = (leb b'A' c && leb c b'Z') || (leb b'a' c && leb c b'z')

-- `^(\d{1,2})-([A-Za-z]{3})-(\d{4})$`, with the three groups handed on.
abbrev pub dated : Text → Text → Text → Option ℤ
dated dd mmm yyyy =
    if all is_digit dd
      && (nat_eq (length dd) 1 || nat_eq (length dd) 2)
      && all is_letter mmm
      && nat_eq (length mmm) 3
      && all is_digit yyyy
      && nat_eq (length yyyy) 4
    then elim (month_of (to_lower_case mmm)) [
      | none ↦ none
      | some month ↦ some (utc_day (parse_digits 0 yyyy) month (parse_digits 0 dd))
    ]
    else none

abbrev pub dated_rest : Text → Option Text → Option ℤ
dated_rest dd none = none
dated_rest dd (some rest) = elim (break_at b'-' rest).1 [
  | none ↦ none
  | some yyyy ↦ dated dd (break_at b'-' rest).0 yyyy
]

unfoldable pub match_dd_mmm_yyyy : Text → Option ℤ
match_dd_mmm_yyyy s = dated_rest (break_at b'-' s).0 (break_at b'-' s).1

-- The day of a time: `Date.UTC` of its year, month and day.
unfoldable pub day_of : ℤ → ℤ
day_of (pos ms) = pos (ms / ms_per_day)
day_of (negsuc ms) = negsuc (ms / ms_per_day)

abbrev pub message_day : IndexedMessage → ℤ
message_day entry = day_of (pos entry.message.date)

-- A predicate of `createSearchPredicates` is a test on each message.
pub data Criterion : Type 0 where
  everything : Criterion
  with_flag without_flag : Text → Criterion
  from to : Text → Criterion
  on before since : ℤ → Criterion
  smaller larger : ℤ → Criterion
  uids : List ℕ → Criterion

unfoldable pub satisfies : Criterion → IndexedMessage → Bool
satisfies everything entry = true
satisfies (with_flag flag) entry = contains (entry.message).flags flag
satisfies (without_flag flag) entry = not (contains (entry.message).flags flag)
satisfies (from lowered) entry = text_includes (to_lower_case (entry.message).from_address) lowered
satisfies (to lowered) entry =
    any (λ address. text_includes (to_lower_case address) lowered) (entry.message).to_addresses
satisfies (on target) entry = leb_ℤ (message_day entry) target && leb_ℤ target (message_day entry)
satisfies (before target) entry = ltb_ℤ (message_day entry) target
satisfies (since target) entry = leb_ℤ target (message_day entry)
satisfies (smaller numeric) entry = ltb_ℤ (pos (entry.message).size) numeric
satisfies (larger numeric) entry = ltb_ℤ numeric (pos (entry.message).size)
satisfies (uids set) entry = contains set (entry.message).uid

-- The cases of the `switch` that take no argument, and those that do.
pub data Key : Type 0 where
  plain : Criterion → Key
  needs_string needs_date needs_number needs_set : Key
  unsupported : Key

unfoldable pub search_key : Text → Key
search_key token =
    if text_eq token (codes "ALL")
    then plain everything
    else if text_eq token (codes "SEEN")
    then plain (with_flag seen)
    else if text_eq token (codes "UNSEEN")
    then plain (without_flag seen)
    else if text_eq token (codes "FLAGGED")
    then plain (with_flag flagged)
    else if text_eq token (codes "UNFLAGGED")
    then plain (without_flag flagged)
    else if text_eq token (codes "DELETED")
    then plain (with_flag deleted)
    else if text_eq token (codes "UNDELETED")
    then plain (without_flag deleted)
    else if text_eq token (codes "DRAFT")
    then plain (with_flag draft)
    else if text_eq token (codes "UNDRAFT")
    then plain (without_flag draft)
    else if text_eq token (codes "FROM") || text_eq token (codes "TO")
    then needs_string
    else if text_eq token (codes "BEFORE")
        || text_eq token (codes "SINCE")
        || text_eq token (codes "ON")
    then needs_date
    else if text_eq token (codes "SMALLER") || text_eq token (codes "LARGER")
    then needs_number
    else if text_eq token (codes "UID")
    then needs_set
    else unsupported

-- An error text, or a value.
pub data Parsed {ℓ} (A : Type ℓ) : Type ℓ where
  parsed : A → Parsed A
  failed : Text → Parsed A

abbrev pub string_criterion : Text → Text → Criterion
string_criterion token lowered = if text_eq token (codes "FROM") then from lowered else to lowered

abbrev pub date_criterion : Text → Option ℤ → Parsed Criterion
date_criterion token none = failed (token ++ codes " invalid date")
date_criterion token (some target) = parsed (
    if text_eq token (codes "ON")
    then on target
    else if text_eq token (codes "BEFORE")
    then before target
    else since target)

abbrev pub number_criterion : Text → Option ℤ → Parsed Criterion
number_criterion token none = failed (token ++ codes " requires numeric value")
number_criterion token (some numeric) =
    parsed (if text_eq token (codes "SMALLER") then smaller numeric else larger numeric)

-- The message for a key whose argument is missing.
abbrev pub missing : Key → Text → Text
missing needs_string token = token ++ codes " requires search string"
missing needs_date token = token ++ codes " requires date value"
missing needs_number token = token ++ codes " requires numeric value"
missing needs_set token = codes "UID requires set value"
missing (plain c) token = []
missing unsupported token = []

abbrev pub push : Criterion → Parsed (List Criterion) → Parsed (List Criterion)
push c (parsed cs) = parsed (c ∷ cs)
push c (failed e) = failed e

abbrev pub push_parsed : Parsed Criterion → Parsed (List Criterion) → Parsed (List Criterion)
push_parsed (failed e) rest = failed e
push_parsed (parsed c) rest = push c rest

module _ (date_parse : Text → Option ℤ) where
  -- `parseImapDate`, as a day number.
  unfoldable pub parse_imap_date : Text → Option ℤ
  parse_imap_date input =
      let normalized = trim input in
      if is_empty normalized then none else elim (match_dd_mmm_yyyy normalized) [
        | some day ↦ some day
        | none ↦ elim (date_parse normalized) [ none ↦ none | some ms ↦ some (day_of ms) ]
      ]

  -- The criterion of a key with its argument.
  unfoldable pub argument_criterion : List IndexedMessage → Key → Text → Text → Parsed Criterion
  argument_criterion indexed (plain c) token value = parsed c
  argument_criterion indexed needs_string token value =
      parsed (string_criterion token (to_lower_case value))
  argument_criterion indexed needs_date token value = date_criterion token (parse_imap_date value)
  argument_criterion indexed needs_number token value = number_criterion token (parse_int value)
  argument_criterion indexed needs_set token value =
      parsed (uids (parse_sequence_set value (max_uid indexed)))
  argument_criterion indexed unsupported token value =
      failed (codes "Unsupported SEARCH criteria: " ++ token)

  -- The loop over the arguments; a key that needs a value takes the next argument too.
  unfoldable pub search_loop : List IndexedMessage → List Text → Parsed (List Criterion)
  search_loop indexed [] = parsed []
  search_loop indexed ([] ∷ args) = search_loop indexed args
  search_loop indexed ((c ∷ s) ∷ []) =
      let token = to_upper_case (c ∷ s) in
      elim (search_key token) [
        | plain criterion ↦ parsed (criterion ∷ [])
        | unsupported ↦ failed (codes "Unsupported SEARCH criteria: " ++ token)
        | key ↦ failed (missing key token)
      ]
  search_loop indexed ((c ∷ s) ∷ value ∷ args) =
      let token = to_upper_case (c ∷ s) in
      let after_value = search_loop indexed args in
      let after_key = search_loop indexed (value ∷ args) in
      elim (search_key token) [
        | plain criterion ↦ push criterion after_key
        | unsupported ↦ failed (codes "Unsupported SEARCH criteria: " ++ token)
        | key ↦
            if is_empty value
            then failed (missing key token)
            else push_parsed (argument_criterion indexed key token value) after_value
      ]

  unfoldable pub create_search_predicates :
      List IndexedMessage → List Text → Parsed (List Criterion)
  create_search_predicates indexed [] = parsed (everything ∷ [])
  create_search_predicates indexed (arg ∷ args) = search_loop indexed (arg ∷ args)

-- The predicates in turn.
unfoldable pub apply_predicates : List Criterion → List IndexedMessage → List IndexedMessage
apply_predicates [] values = values
apply_predicates (c ∷ cs) values = apply_predicates cs (filter (satisfies c) values)
