-- ===== src/Imap/Parser.antt =====
-- apps/server/src/imap/parser.ts.
pub mod Scanning
pub mod RoundTrip
pub mod Tests
use enclave_mail.Prelude.{
  ℕ, Bool, true, false, not, ◌&&◌, ◌||◌, List, [], ◌∷◌, ◌++◌, Option, none, some, Text, codes,
  is_space, is_empty, trim, to_upper_case, break_at, text_eq, nat_eq, all, if◌then◌else◌,
}
use enclave_mail.Imap.Types.{Command}

-- The variables of the loop of `tokenizeArguments`.
pub record Scan : Type 0 where
  pub args : List Text
  pub current : Text
  pub in_quotes : Bool
  pub escaping : Bool

-- One round of the loop.
unfoldable pub scan_char : Scan → ℕ → Scan
scan_char s char =
    if s.escaping
    then record s { current = s.current ++ char ∷ []; escaping = false }
    else if nat_eq char b'\\' && s.in_quotes
    then record s { escaping = true }
    else if nat_eq char b'"'
    then record s { in_quotes = not s.in_quotes }
    else if not s.in_quotes && is_space char
    then (if is_empty s.current
        then s
        else record s { args = s.args ++ s.current ∷ []; current = [] })
    else record s { current = s.current ++ char ∷ [] }

unfoldable pub scan_chars : Scan → Text → Scan
scan_chars s [] = s
scan_chars s (char ∷ input) = scan_chars (scan_char s char) input

abbrev pub scan_start : Scan
scan_start = record { args = []; current = []; in_quotes = false; escaping = false }

-- What follows the loop.
abbrev pub scan_end : Scan → Option (List Text)
scan_end s =
    if s.escaping || s.in_quotes
    then none
    else some (if is_empty s.current then s.args else s.args ++ s.current ∷ [])

unfoldable pub tokenize_arguments : Text → Option (List Text)
tokenize_arguments input = scan_end (scan_chars scan_start input)

-- `replace(/\r?\n$/, '')`
unfoldable pub strip_newline : Text → Text
strip_newline [] = []
strip_newline (c ∷ []) = if nat_eq c 10 then [] else c ∷ []
strip_newline (c ∷ d ∷ s) =
    let rest = strip_newline (d ∷ s) in
    if nat_eq c 13 && nat_eq d 10 && is_empty s then [] else c ∷ rest

-- The text behind the command word, and its arguments.
unfoldable pub args_input : Option Text → Text
args_input none = []
args_input (some rest) = trim rest

unfoldable pub parse_args : Text → Option (List Text)
parse_args input = if is_empty input then some [] else tokenize_arguments input

-- The object that the parser returns.
unfoldable pub with_args : Text → Text → Text → Option (List Text) → Option Command
with_args raw tag command none = none
with_args raw tag command (some args) =
    some (record { tag = tag; command = to_upper_case command; args = args; raw = raw })

-- What follows the first blank.
unfoldable pub parse_remainder : Text → Text → Text → Option Command
parse_remainder raw tag remainder =
    let (command, rest) = break_at b' ' remainder in
    if is_empty remainder then none else with_args raw tag command (parse_args (args_input rest))

unfoldable pub parse_tagged : Text → Text → Option Text → Option Command
parse_tagged normalized tag none = none
parse_tagged normalized tag (some rest) =
    if is_empty tag || not (all (λ c. not (is_space c)) tag)
    then none
    else parse_remainder normalized tag (trim rest)

unfoldable pub parse_imap_command : Text → Option Command
parse_imap_command line =
    let normalized = trim (strip_newline line) in
    if is_empty normalized
    then none
    else if text_eq (to_upper_case normalized) (codes "DONE")
    then some (record { tag = []; command = codes "DONE"; args = []; raw = normalized })
    else parse_tagged normalized (break_at b' ' normalized).0 (break_at b' ' normalized).1
