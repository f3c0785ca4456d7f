-- ===== src/Imap/Message/Search/Terms.antt =====
-- What a client asks for by `SEARCH`: the arguments that it writes, and the messages that it means.
use enclave_mail.Prelude.{
  ℕ, ◌/◌, ◌≡◌, refl, ap, Bool, true, false, not, ◌&&◌, List, [], ◌∷◌, ◌++◌, any, some, Option, Text,
  codes, contains, text_Eq, nat_Eq, text_includes, to_lower_case, is_empty, split, max,
}
use enclave_mail.Prelude.Int.{ℤ, pos, leb_ℤ, ltb_ℤ, parse_int}
use enclave_mail.Imap.Database.{MessageRow}
use enclave_mail.Imap.Message.SequenceSet.Coverage.{in_bounds, named_by}
use enclave_mail.Imap.Message.Search.{IndexedMessage, max_uid, parse_imap_date}

-- What a client asks for. A value stands as the client writes it, with what it is read as.
pub data Term : Type 0 where
  all_messages : Term
  is_seen is_unseen is_flagged is_unflagged : Term
  is_deleted is_undeleted is_draft is_undraft : Term
  sent_from sent_to : Text → Term
  dated_before dated_since dated_on : Text → ℤ → Term
  smaller_than larger_than : Text → ℤ → Term
  uid_among : Text → Term

-- The arguments of `SEARCH` that ask for it.
abbrev pub arguments_of : Term → List Text
arguments_of all_messages = codes "ALL" ∷ []
arguments_of is_seen = codes "SEEN" ∷ []
arguments_of is_unseen = codes "UNSEEN" ∷ []
arguments_of is_flagged = codes "FLAGGED" ∷ []
arguments_of is_unflagged = codes "UNFLAGGED" ∷ []
arguments_of is_deleted = codes "DELETED" ∷ []
arguments_of is_undeleted = codes "UNDELETED" ∷ []
arguments_of is_draft = codes "DRAFT" ∷ []
arguments_of is_undraft = codes "UNDRAFT" ∷ []
arguments_of (sent_from value) = codes "FROM" ∷ value ∷ []
arguments_of (sent_to value) = codes "TO" ∷ value ∷ []
arguments_of (dated_before value day) = codes "BEFORE" ∷ value ∷ []
arguments_of (dated_since value day) = codes "SINCE" ∷ value ∷ []
arguments_of (dated_on value day) = codes "ON" ∷ value ∷ []
arguments_of (smaller_than value n) = codes "SMALLER" ∷ value ∷ []
arguments_of (larger_than value n) = codes "LARGER" ∷ value ∷ []
arguments_of (uid_among value) = codes "UID" ∷ value ∷ []

abbrev pub search_arguments : List Term → List Text
search_arguments [] = []
search_arguments (term ∷ terms) = arguments_of term ++ search_arguments terms

-- The day of a message, counted from 1970 in UTC.
abbrev pub day_sent : MessageRow → ℤ
day_sent message = pos (message.date / 86400000)

abbrev pub largest_uid : List IndexedMessage → ℕ
largest_uid [] = 0
largest_uid (e ∷ es) = max e.message.uid (largest_uid es)

pub max_uid-largest_uid : (es : List IndexedMessage) → max_uid es ≡ largest_uid es
unfolding max_uid
max_uid-largest_uid [] = refl
max_uid-largest_uid (e ∷ es) = ap (max e.message.uid) (max_uid-largest_uid es)

-- Which messages a term asks for, among those of a mailbox.
abbrev pub holds : List IndexedMessage → Term → MessageRow → Bool
holds es all_messages m = true
holds es is_seen m = contains m.flags (codes "seen")
holds es is_unseen m = not (contains m.flags (codes "seen"))
holds es is_flagged m = contains m.flags (codes "flagged")
holds es is_unflagged m = not (contains m.flags (codes "flagged"))
holds es is_deleted m = contains m.flags (codes "deleted")
holds es is_undeleted m = not (contains m.flags (codes "deleted"))
holds es is_draft m = contains m.flags (codes "draft")
holds es is_undraft m = not (contains m.flags (codes "draft"))
holds es (sent_from value) m = text_includes (to_lower_case m.from_address) (to_lower_case value)
holds es (sent_to value) m =
    any (λ address. text_includes (to_lower_case address) (to_lower_case value)) m.to_addresses
holds es (dated_before value day) m = ltb_ℤ (day_sent m) day
holds es (dated_since value day) m = leb_ℤ day (day_sent m)
holds es (dated_on value day) m = leb_ℤ (day_sent m) day && leb_ℤ day (day_sent m)
holds es (smaller_than value n) m = ltb_ℤ (pos m.size) n
holds es (larger_than value n) m = ltb_ℤ n (pos m.size)
holds es (uid_among value) m =
    in_bounds (largest_uid es) m.uid && named_by (largest_uid es) (split b',' value) m.uid

module _ (date_parse : Text → Option ℤ) where
  -- No value is empty, and numbers and days are read as the term says.
  abbrev pub IsWritten : Term → Type 0
  IsWritten (sent_from value) = is_empty value ≡ false
  IsWritten (sent_to value) = is_empty value ≡ false
  IsWritten (dated_before value day) =
      (is_empty value ≡ false) × (parse_imap_date date_parse value ≡ some day)
  IsWritten (dated_since value day) =
      (is_empty value ≡ false) × (parse_imap_date date_parse value ≡ some day)
  IsWritten (dated_on value day) =
      (is_empty value ≡ false) × (parse_imap_date date_parse value ≡ some day)
  IsWritten (smaller_than value n) = (is_empty value ≡ false) × (parse_int value ≡ some n)
  IsWritten (larger_than value n) = (is_empty value ≡ false) × (parse_int value ≡ some n)
  IsWritten (uid_among value) = is_empty value ≡ false
  IsWritten _ = Unit
