-- ===== src/Imap/Parser/RoundTrip.antt =====
-- Printing a command line and parsing it.
use enclave_mail.Prelude.{
  suc, ◌≤◌, ◌≡◌, refl, ap, false, List, [], ◌∷◌, ◌++◌, append_assoc, some, arith, Text, codes,
  is_space, is_empty, length, length-append, filter, text_eq, text_eq_iff, to_upper_case, trim, inl,
  inr, Bool-cases,
}
use enclave_mail.Prelude.Trimming.{IsWord, IsWord-tests, trim_of_framed, break_at_of_word}
use enclave_mail.Imap.Types.{escape_imap_string}
use enclave_mail.Imap.Parser.{
  parse_imap_command, parse_tagged, parse_remainder, parse_args, args_input, with_args,
  strip_newline,
}
use enclave_mail.Imap.Parser.Scanning.{print_args, is_nonempty, tokenize_arguments-print_args}

-- A command line with at least one argument.
abbrev pub print_remainder : Text → List Text → Text
print_remainder command args = command ++ b' ' ∷ print_args args

abbrev pub print_line : Text → Text → List Text → Text
print_line tag command args = tag ++ b' ' ∷ print_remainder command args

-- The arguments stand between two quotation marks.
print_args_ends :
    (v : Text) (vs : List Text)
    → (p : Text) × (print_args (v ∷ vs) ≡ (b'"' ∷ []) ++ (p ++ b'"' ∷ []))
unfolding print_args
print_args_ends v [] = (escape_imap_string v, refl)
print_args_ends v (w ∷ vs) =
    let (p, e) = print_args_ends w vs in
    (
      (escape_imap_string v ++ b'"' ∷ []) ++ (b' ' ∷ b'"' ∷ p),
      rw (e, append_assoc (escape_imap_string v ++ b'"' ∷ []) (b' ' ∷ b'"' ∷ p) (b'"' ∷ [])),
    )

quote_mark : is_space b'"' ≡ false
unfolding is_space
quote_mark = refl

strip_newline_of_end : (s : Text) → strip_newline (s ++ b'"' ∷ []) ≡ s ++ b'"' ∷ []
unfolding strip_newline
strip_newline_of_end [] = refl
strip_newline_of_end (c ∷ []) = ground arith
strip_newline_of_end (c ∷ d ∷ []) = ground arith
strip_newline_of_end (c ∷ d ∷ e ∷ s) = ground (arith, strip_newline_of_end (d ∷ e ∷ s))

length-to_upper_case : (s : Text) → length (to_upper_case s) ≡ length s
unfolding to_upper_case
length-to_upper_case [] = refl
length-to_upper_case (c ∷ s) = ap suc (length-to_upper_case s)

-- A text of more than four characters is not the word DONE.
not_done : (s : Text) → 5 ≤ length s → text_eq (to_upper_case s) (codes "DONE") ≡ false
not_done s h = elim (Bool-cases (text_eq (to_upper_case s) (codes "DONE"))) [
  | inl e ↦ absurd (
      omega (
        arith,
        length-to_upper_case s,
        ap length ((text_eq_iff (to_upper_case s) (codes "DONE")).0 e),
      ))
  | inr e ↦ e
]

trim-print_args : (v : Text) (vs : List Text) → trim (print_args (v ∷ vs)) ≡ print_args (v ∷ vs)
trim-print_args v vs =
    let (p, e) = print_args_ends v vs in
    rw e (trim_of_framed (b'"' ∷ []) p b'"' (quote_mark, tt) quote_mark)

is_empty-print_args : (v : Text) (vs : List Text) → is_empty (print_args (v ∷ vs)) ≡ false
is_empty-print_args v vs = let (p, e) = print_args_ends v vs in rw e

parse_args-print_args :
    (v : Text) (vs : List Text)
    → parse_args (args_input (some (print_args (v ∷ vs)))) ≡ some (filter is_nonempty (v ∷ vs))
unfolding args_input parse_args
parse_args-print_args v vs =
    rw (trim-print_args v vs, is_empty-print_args v vs) (tokenize_arguments-print_args (v ∷ vs))

-- A word, a blank and the arguments.
framed :
    (w s : Text) (v : Text) (vs : List Text)
    → (p : Text) × (w ++ b' ' ∷ (s ++ print_args (v ∷ vs)) ≡ w ++ (p ++ b'"' ∷ []))
framed w s v vs =
    let (p, e) = print_args_ends v vs in
    (b' ' ∷ (s ++ (b'"' ∷ p)), rw (e, append_assoc s (b'"' ∷ p) (b'"' ∷ [])))

is_empty_of_word : (w s : Text) → IsWord w → is_empty (w ++ s) ≡ false
is_empty_of_word [] s h = absurd h
is_empty_of_word (c ∷ w) s h = refl

length_of_word : (w : Text) → IsWord w → 1 ≤ length w
length_of_word [] h = absurd h
length_of_word (c ∷ w) h = omega arith

module _ (tag command : Text) (v : Text) (vs : List Text) (t : IsWord tag)
    (c : IsWord command) where
  trim-print_remainder : trim (print_remainder command (v ∷ vs)) ≡ print_remainder command (v ∷ vs)
  trim-print_remainder =
      let (p, e) = framed command [] v vs in rw e (trim_of_framed command p b'"' c quote_mark)

  print_line_end : (p : Text) × (print_line tag command (v ∷ vs) ≡ tag ++ (p ++ b'"' ∷ []))
  print_line_end =
      let (p, e) = framed tag (command ++ b' ' ∷ []) v vs in
      (p, rw (append_assoc command (b' ' ∷ []) (print_args (v ∷ vs))) at e)

  trim-print_line :
      trim (strip_newline (print_line tag command (v ∷ vs))) ≡ print_line tag command (v ∷ vs)
  trim-print_line =
      let (p, e) = print_line_end in
      rw (e, ← append_assoc tag p (b'"' ∷ []), strip_newline_of_end (tag ++ p))
        (rw (append_assoc tag p (b'"' ∷ [])) (trim_of_framed tag p b'"' t quote_mark))

  parse_remainder-print :
      (raw : Text)
      → parse_remainder raw tag (print_remainder command (v ∷ vs))
        ≡ some (record {
          tag = tag;
          command = to_upper_case command;
          args = filter is_nonempty (v ∷ vs);
          raw = raw;
        })
  unfolding parse_remainder with_args
  parse_remainder-print raw = rw (
    is_empty_of_word command (b' ' ∷ print_args (v ∷ vs)) c,
    break_at_of_word command (print_args (v ∷ vs)) c,
    parse_args-print_args v vs,
  )

  length-print_line : 5 ≤ length (print_line tag command (v ∷ vs))
  length-print_line =
      let (p, e) = print_args_ends v vs in
      rw e (
        omega (
          arith,
          length-append tag (b' ' ∷ (command ++ b' ' ∷ b'"' ∷ (p ++ b'"' ∷ []))),
          length-append command (b' ' ∷ b'"' ∷ (p ++ b'"' ∷ [])),
          length-append p (b'"' ∷ []),
          length_of_word tag t,
          length_of_word command c,
        ))

  parse_tagged-print :
      (raw : Text)
      → parse_tagged raw tag (some (print_remainder command (v ∷ vs)))
        ≡ parse_remainder raw tag (print_remainder command (v ∷ vs))
  unfolding parse_tagged
  parse_tagged-print raw = rw ((IsWord-tests tag t).0, (IsWord-tests tag t).1, trim-print_remainder)

  -- A line of a tag, a command word, both without blanks, and at least one quoted argument parses
  -- to the tag, the command in capitals and the arguments that are not empty; `raw` is the line.
  pub parse_imap_command-print_line :
      parse_imap_command (print_line tag command (v ∷ vs))
      ≡ some (record {
        tag = tag;
        command = to_upper_case command;
        args = filter is_nonempty (v ∷ vs);
        raw = print_line tag command (v ∷ vs);
      })
  unfolding parse_imap_command
  parse_imap_command-print_line =
      rw
        (
          trim-print_line,
          is_empty_of_word tag (b' ' ∷ print_remainder command (v ∷ vs)) t,
          not_done (print_line tag command (v ∷ vs)) length-print_line,
          break_at_of_word tag (print_remainder command (v ∷ vs)) t,
          parse_tagged-print,
        )
        (parse_remainder-print (print_line tag command (v ∷ vs)))
