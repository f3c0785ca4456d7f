-- ===== src/Imap/Parser/Tests.antt =====
-- Runs of the command parser, and the witnesses of its theorems.
use enclave_mail.Prelude.{◌≡◌, refl, [], ◌∷◌, none, some, codes, text_methods}
use enclave_mail.Imap.Types.{escape_imap_string}
use enclave_mail.Imap.Parser.{
  scan_char, scan_chars, tokenize_arguments, parse_args, args_input, with_args, parse_remainder,
  parse_tagged, strip_newline, parse_imap_command,
}

parser : Unit {0}
unfolding text_methods escape_imap_string scan_char scan_chars tokenize_arguments parse_args
    args_input with_args parse_remainder parse_tagged strip_newline parse_imap_command
parser = tt

login_line :
    parse_imap_command (codes "a1 login me@example.org \"to ken\"")
    ≡ some (record {
      tag = codes "a1";
      command = codes "LOGIN";
      args = codes "me@example.org" ∷ codes "to ken" ∷ [];
      raw = codes "a1 login me@example.org \"to ken\"";
    })
unfolding parser
login_line = refl

other_lines :
    (tokenize_arguments (codes "a \"b") ≡ none)
    × (tokenize_arguments (codes "a \"\" b") ≡ some (codes "a" ∷ codes "b" ∷ []))
    × (parse_imap_command (codes "a1") ≡ none)
    × (escape_imap_string (codes "a\"b\\") ≡ codes "a\\\"b\\\\")
unfolding parser
other_lines = (refl, refl, refl, refl)
