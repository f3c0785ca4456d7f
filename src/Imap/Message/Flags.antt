-- ===== src/Imap/Message/Flags.antt =====
-- The flags of a message, in the database and on the wire: `normalizeDbFlags`, `toImapFlags`,
-- `parseFlagList`, `parseStoreOperation` and `applyStoreFlags` of commands/message.ts.
pub mod Normal
pub mod Stored
pub mod Wire
use enclave_mail.Prelude.{
  ℕ, ◌-◌, Bool, true, false, not, ◌&&◌, ◌||◌, List, [], ◌∷◌, ◌++◌, Option, none, some, Text, codes,
  is_empty, trim, to_upper_case, to_lower_case, starts_with, ends_with, words, join, take, drop,
  length, text_eq, text_Eq, contains, filter, set_add, set_delete, if◌then◌else◌,
}

abbrev pub seen : Text
seen = codes "seen"

abbrev pub answered : Text
answered = codes "answered"

abbrev pub flagged : Text
flagged = codes "flagged"

abbrev pub deleted : Text
deleted = codes "deleted"

abbrev pub draft : Text
draft = codes "draft"

-- `IMAP_FLAG_ORDER`.
abbrev pub imap_flag_order : List Text
imap_flag_order = seen ∷ answered ∷ flagged ∷ deleted ∷ draft ∷ []

-- `IMAP_TO_DB_FLAG[token]`.
unfoldable pub imap_to_db_flag : Text → Option Text
imap_to_db_flag token =
    if text_eq token (codes "\\SEEN")
    then some seen
    else if text_eq token (codes "\\ANSWERED")
    then some answered
    else if text_eq token (codes "\\FLAGGED")
    then some flagged
    else if text_eq token (codes "\\DELETED")
    then some deleted
    else if text_eq token (codes "\\DRAFT")
    then some draft
    else none

-- The loop of `normalizeDbFlags`.
unfoldable pub collect_flags : List Text → List Text → List Text
collect_flags normalized [] = normalized
collect_flags normalized (value ∷ input) =
    let lower = to_lower_case (trim value) in
    collect_flags (if contains imap_flag_order lower then set_add normalized lower else normalized)
      input

unfoldable pub normalize_db_flags : List Text → List Text
normalize_db_flags input =
    let normalized = collect_flags [] input in
    filter (λ flag. contains normalized flag) imap_flag_order

-- One `if` of `toImapFlags`.
abbrev pub push_if : Bool → Text → List Text
push_if test flag = if test then flag ∷ [] else []

unfoldable pub to_imap_flags : List Text → Text
to_imap_flags flags =
    let normalized = normalize_db_flags flags in
    let imap_flags =
      push_if (contains normalized seen) (codes "\\Seen")
      ++ (push_if (contains normalized answered) (codes "\\Answered")
          ++ (push_if (contains normalized flagged) (codes "\\Flagged")
              ++ (push_if (contains normalized deleted) (codes "\\Deleted")
                  ++ push_if (contains normalized draft) (codes "\\Draft")))) in
    codes "(" ++ (join (codes " ") imap_flags ++ codes ")")

-- `slice(1, -1)`: the text without its first and its last character.
abbrev pub inside : Text → Text
inside s = take (length s - 2) (drop 1 s)

-- The loop of `parseFlagList`.
unfoldable pub map_flags : List Text → List Text → List Text
map_flags result [] = result
map_flags result (token ∷ tokens) =
    map_flags
      (elim (imap_to_db_flag (to_upper_case token)) [
        | none ↦ result
        | some mapped ↦ set_add result mapped
      ])
      tokens

unfoldable pub parse_flag_list : Text → List Text
parse_flag_list raw =
    let trimmed = trim raw in
    if not (starts_with trimmed (codes "(")) || not (ends_with trimmed (codes ")"))
    then []
    else filter (λ flag. contains (map_flags [] (words (trim (inside trimmed)))) flag)
        imap_flag_order

pub data StoreMode : Type 0 where
  add remove replace : StoreMode

-- `ParsedStoreOperation`.
pub record StoreOperation : Type 0 where
  pub mode : StoreMode
  pub silent : Bool
  pub flags : List Text

unfoldable pub parse_store_mode : Text → Option StoreMode
parse_store_mode base_mode =
    if text_eq base_mode (codes "+FLAGS")
    then some add
    else if text_eq base_mode (codes "-FLAGS")
    then some remove
    else if text_eq base_mode (codes "FLAGS")
    then some replace
    else none

abbrev pub is_nil : List Text → Bool
is_nil [] = true
is_nil (x ∷ xs) = false

-- What follows the mode of the operation.
unfoldable pub store_flags : Bool → Option StoreMode → Text → Option StoreOperation
store_flags silent none flag_raw = none
store_flags silent (some mode) flag_raw =
    let flags = parse_flag_list flag_raw in
    if is_nil flags && not (text_eq (trim flag_raw) (codes "()"))
    then none
    else some (record { mode = mode; silent = silent; flags = flags })

unfoldable pub parse_store_operation : List Text → Option StoreOperation
parse_store_operation [] = none
parse_store_operation (mode_arg ∷ rest) =
    let mode_raw = to_upper_case mode_arg in
    let silent = ends_with mode_raw (codes ".SILENT") in
    let base_mode = if silent then take (length mode_raw - 7) mode_raw else mode_raw in
    if is_empty mode_raw
    then none
    else store_flags silent (parse_store_mode base_mode) (join (codes " ") rest)

-- `current.add` and `current.delete` for each flag of the operation.
unfoldable pub add_all : List Text → List Text → List Text
add_all current [] = current
add_all current (flag ∷ flags) = add_all (set_add current flag) flags

unfoldable pub delete_all : List Text → List Text → List Text
delete_all current [] = current
delete_all current (flag ∷ flags) = delete_all (set_delete current flag) flags

abbrev pub in_order : List Text → List Text
in_order current = filter (λ flag. contains current flag) imap_flag_order

unfoldable pub apply_mode : StoreMode → List Text → List Text → List Text
apply_mode replace existing flags = normalize_db_flags flags
apply_mode add existing flags = in_order (add_all (normalize_db_flags existing) flags)
apply_mode remove existing flags = in_order (delete_all (normalize_db_flags existing) flags)

unfoldable pub apply_store_flags : List Text → StoreOperation → List Text
apply_store_flags existing operation = apply_mode operation.mode existing operation.flags
