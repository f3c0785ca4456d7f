-- ===== src/Inbound/Metadata.antt =====
-- apps/server/src/smtp/inbound.ts: what is kept of a parsed message. The parser is a third-party library,
-- so its result is an input; a header with addresses may be absent, single or repeated.
use enclave_mail.Prelude.{
  ℕ, List, [], ◌∷◌, ◌++◌, Option, none, some, Text, trim, to_lower_case, is_empty, if◌then◌else◌,
}

pub record ParsedAddressField : Type 0 where
  pub text : Option Text
  pub value : List (Option Text)

pub data AddressHeader : Type 0 where
  absent : AddressHeader
  single : ParsedAddressField → AddressHeader
  several : List ParsedAddressField → AddressHeader

pub record ParsedMail : Type 0 where
  pub from : AddressHeader
  pub to : AddressHeader
  pub subject : Option Text
  pub message_id : Option Text
  pub in_reply_to : Option Text
  pub date : Option ℕ
  pub raw_size : Option ℕ

pub record MailMetadata : Type 0 where
  pub from : Text
  pub to : List Text
  pub subject : Text
  pub message_id : Text
  pub in_reply_to : Option Text
  pub date : ℕ
  pub size : ℕ

abbrev pub normalize_address : Text → Text
normalize_address address = to_lower_case (trim address)

unfoldable pub flat_values : List ParsedAddressField → List (Option Text)
flat_values [] = []
flat_values (field ∷ fields) = field.value ++ flat_values fields

abbrev flatten_address_field : AddressHeader → List (Option Text)
flatten_address_field absent = []
flatten_address_field (single field) = field.value
flatten_address_field (several fields) = flat_values fields

abbrev or_default {ℓ} : {A : Type ℓ} → Option A → A → A
or_default (some a) fallback = a
or_default none fallback = fallback

abbrev trimmed : Option Text → Option Text
trimmed none = none
trimmed (some text) = some (trim text)

abbrev header_text : AddressHeader → Text
header_text absent = []
header_text (single field) = or_default (trimmed field.text) []
header_text (several []) = []
header_text (several (field ∷ fields)) = or_default (trimmed field.text) []

-- An empty address counts as none.
abbrev from_primary : List (Option Text) → AddressHeader → Text
from_primary (some (c ∷ address) ∷ values) header = normalize_address (c ∷ address)
from_primary _ header = header_text header

unfoldable pub extract_from_address : ParsedMail → Text
extract_from_address parsed = from_primary (flatten_address_field parsed.from) parsed.from

unfoldable pub kept_addresses : List (Option Text) → List Text
kept_addresses [] = []
kept_addresses (none ∷ values) = kept_addresses values
kept_addresses (some address ∷ values) =
    let rest = kept_addresses values in
    if is_empty (trim address) then rest else normalize_address address ∷ rest

unfoldable pub extract_to_addresses : ParsedMail → List Text
extract_to_addresses parsed = kept_addresses (flatten_address_field parsed.to)

unfoldable pub extract_mail_metadata : ℕ → ParsedMail → MailMetadata
extract_mail_metadata now parsed = record {
  from = extract_from_address parsed;
  to = extract_to_addresses parsed;
  subject = or_default parsed.subject [];
  message_id = or_default (trimmed parsed.message_id) [];
  in_reply_to = trimmed parsed.in_reply_to;
  date = or_default parsed.date now;
  size = or_default parsed.raw_size 0;
}
