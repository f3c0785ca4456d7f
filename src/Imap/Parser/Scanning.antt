-- ===== src/Imap/Parser/Scanning.antt =====
-- How the scanner of parser.ts reads a quoted and escaped text.
use enclave_mail.Prelude.{
  ℕ, ◌≡◌, refl, ◌∙◌, sym, ap, Bool, true, false, List, [], ◌∷◌, ◌++◌, append_assoc, append-nil,
  some, arith, Text, is_space, is_empty, nat_eq, replace_all, filter, not, if◌then◌else◌,
}
use enclave_mail.Imap.Types.{escape_imap_string}
use enclave_mail.Imap.Parser.{Scan, scan_char, scan_chars, scan_end, tokenize_arguments}

pub scan_chars-append :
    (s : Scan) (xs ys : Text) → scan_chars s (xs ++ ys) ≡ scan_chars (scan_chars s xs) ys
unfolding scan_chars
scan_chars-append s [] ys = refl
scan_chars-append s (c ∷ xs) ys = scan_chars-append (scan_char s c) xs ys

-- The escaped form of one character.
abbrev pub escape_char : ℕ → Text
escape_char c =
    if nat_eq c b'\\'
    then b'\\' ∷ b'\\' ∷ []
    else if nat_eq c b'"'
    then b'\\' ∷ b'"' ∷ []
    else c ∷ []

pub escape_imap_string-cons :
    (c : ℕ) (v : Text) → escape_imap_string (c ∷ v) ≡ escape_char c ++ escape_imap_string v
unfolding escape_imap_string replace_all
escape_imap_string-cons c v = ground arith

-- The scanner inside a quoted text, with `current` read so far.
abbrev pub quoted : List Text → Text → Scan
quoted args current = record { args = args; current = current; in_quotes = true; escaping = false }

abbrev pub unquoted : List Text → Text → Scan
unquoted args current = record {
  args = args;
  current = current;
  in_quotes = false;
  escaping = false;
}

scan_chars-escape_char :
    (args : List Text) (current : Text) (c : ℕ)
    → scan_chars (quoted args current) (escape_char c) ≡ quoted args (current ++ c ∷ [])
unfolding scan_chars scan_char
scan_chars-escape_char args current c = ground arith

pub scan_chars-escape :
    (args : List Text) (current v : Text)
    → scan_chars (quoted args current) (escape_imap_string v) ≡ quoted args (current ++ v)
scan_chars-escape args current [] =
    unfold escape_imap_string replace_all scan_chars in ap (quoted args) (sym (append-nil current))
scan_chars-escape args current (c ∷ v) =
    rw (escape_imap_string-cons c v, scan_chars-append, scan_chars-escape_char args current c)
      (scan_chars-escape args (current ++ c ∷ []) v ∙ ap (quoted args) (append_assoc current _ v))

-- A quoted argument as a client writes it.
abbrev pub quote : Text → Text
quote v = b'"' ∷ (escape_imap_string v ++ b'"' ∷ [])

unfoldable pub print_args : List Text → Text
print_args [] = []
print_args (v ∷ []) = quote v
print_args (v ∷ w ∷ vs) = quote v ++ (b' ' ∷ print_args (w ∷ vs))

open_quote :
    (args : List Text) (t : Text)
    → scan_chars (unquoted args []) (b'"' ∷ t) ≡ scan_chars (quoted args []) t
unfolding scan_chars scan_char
open_quote args t = refl

close_quote :
    (args : List Text) (v : Text) → scan_chars (quoted args v) (b'"' ∷ []) ≡ unquoted args v
unfolding scan_chars scan_char
close_quote args v = refl

pub scan_chars-quote :
    (args : List Text) (v : Text) → scan_chars (unquoted args []) (quote v) ≡ unquoted args v
scan_chars-quote args v =
    rw (open_quote, scan_chars-append, scan_chars-escape args [] v) (close_quote args v)

abbrev pub is_nonempty : Text → Bool
is_nonempty v = not (is_empty v)

blank_after :
    (args : List Text) (v t : Text)
    → scan_chars (unquoted args v) (b' ' ∷ t)
      ≡ scan_chars (unquoted (args ++ filter is_nonempty (v ∷ [])) []) t
unfolding scan_chars scan_char filter is_space
blank_after args [] t = rw (append-nil args)
blank_after args (c ∷ v) t = refl

filter-cons :
    (v : Text) (vs : List Text)
    → filter is_nonempty (v ∷ vs) ≡ filter is_nonempty (v ∷ []) ++ filter is_nonempty vs
unfolding filter
filter-cons [] vs = refl
filter-cons (c ∷ v) vs = refl

scan_end-unquoted :
    (args : List Text) (v : Text)
    → scan_end (unquoted args v) ≡ some (args ++ filter is_nonempty (v ∷ []))
unfolding filter
scan_end-unquoted args [] = rw (append-nil args)
scan_end-unquoted args (c ∷ v) = refl

pub scan_end-print_args :
    (args vs : List Text)
    → scan_end (scan_chars (unquoted args []) (print_args vs))
      ≡ some (args ++ filter is_nonempty vs)
unfolding print_args
scan_end-print_args args [] = unfold scan_chars filter in rw (append-nil args)
scan_end-print_args args (v ∷ []) = rw (scan_chars-quote args v) (scan_end-unquoted args v)
scan_end-print_args args (v ∷ w ∷ vs) = rw (
  scan_chars-append (unquoted args []) (quote v) (b' ' ∷ print_args (w ∷ vs)),
  scan_chars-quote args v,
  blank_after args v,
  scan_end-print_args (args ++ filter is_nonempty (v ∷ [])) (w ∷ vs),
  filter-cons v (w ∷ vs),
  append_assoc,
)

-- A client's quoted arguments are read back as they were, except that the empty ones are lost.
pub tokenize_arguments-print_args :
    (vs : List Text) → tokenize_arguments (print_args vs) ≡ some (filter is_nonempty vs)
unfolding tokenize_arguments
tokenize_arguments-print_args vs = scan_end-print_args [] vs
