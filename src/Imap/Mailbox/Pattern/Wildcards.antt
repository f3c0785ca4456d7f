-- ===== src/Imap/Mailbox/Pattern/Wildcards.antt =====
-- What the patterns of `LIST` match.
use enclave_mail.Prelude.{
  ℕ, ◌≡◌, refl, Bool, true, false, not, ◌&&◌, ◌||◌, List, [], ◌∷◌, map, all, arith, some, Text,
  codes, nat_eq, All, text_eq,
}
use enclave_mail.Imap.Mailbox.Pattern.{
  Atom, char, not_slash, anything, letter, compile_after, compile, is_terminator, test_atoms,
  matches_mailbox_pattern,
}

-- A character of a pattern that stands for itself.
abbrev pub is_plain : ℕ → Bool
is_plain c = not (nat_eq c b'?' || nat_eq c b'*' || nat_eq c b'%')

abbrev pub IsPlain : Text → Type 0
IsPlain s = All (λ c. is_plain c ≡ true) s

test_anything :
    (fold : ℕ → ℕ) (s : Text)
    → test_atoms fold (anything ∷ []) s ≡ all (λ d. not (is_terminator d)) s
unfolding test_atoms
test_anything fold [] = refl
test_anything fold (d ∷ s) = ground (arith, test_anything fold s)

test_not_slash :
    (fold : ℕ → ℕ) (atoms : List Atom) (d : ℕ) (s : Text)
    → test_atoms fold (not_slash ∷ atoms) (d ∷ s) ≡ (not (nat_eq d b'/') && test_atoms fold atoms s)
unfolding test_atoms
test_not_slash fold atoms d s = refl

compile-percent : compile (codes "%") ≡ some (not_slash ∷ anything ∷ [])
unfolding compile compile_after
compile-percent = refl

-- A name of at least one character matches `%` exactly if it does not begin with a slash and has no
-- line terminator behind the first character; further slashes do not matter.
pub matches_mailbox_pattern-percent :
    (fold : ℕ → ℕ) (d : ℕ) (name : Text)
    → matches_mailbox_pattern fold (d ∷ name) (codes "%")
      ≡ some (not (nat_eq d b'/') && all (λ c. not (is_terminator c)) name)
unfolding matches_mailbox_pattern
matches_mailbox_pattern-percent fold d name =
    rw (compile-percent, test_not_slash fold (anything ∷ []) d name, test_anything fold name)

compile_after-plain :
    (c : ℕ) (s : Text) → IsPlain s → compile_after (letter c 0) s ≡ some (char c ∷ map char s)
unfolding compile_after
compile_after-plain c [] h = refl
compile_after-plain c (d ∷ s) h = ground (arith, compile_after-plain d s h.1)

test_atoms-char :
    (fold : ℕ → ℕ) (s name : Text)
    → test_atoms fold (map char s) name ≡ text_eq (map fold s) (map fold name)
unfolding test_atoms text_eq
test_atoms-char fold [] [] = refl
test_atoms-char fold [] (d ∷ name) = refl
test_atoms-char fold (c ∷ s) [] = refl
test_atoms-char fold (c ∷ s) (d ∷ name) = rw (test_atoms-char fold s name)

compile-plain : (c : ℕ) (s : Text) → IsPlain (c ∷ s) → compile (c ∷ s) ≡ some (map char (c ∷ s))
unfolding compile compile_after
compile-plain c s h = ground (arith, compile_after-plain c s h.1)

not_star : (c : ℕ) → is_plain c ≡ true → nat_eq c b'*' ≡ false
not_star c h = ground arith

-- A pattern of plain characters, at least one, matches exactly the names that have as many characters and
-- agree with it in each up to the folding of case.
pub matches_mailbox_pattern-plain :
    (fold : ℕ → ℕ) (c : ℕ) (s name : Text)
    → IsPlain (c ∷ s)
    → matches_mailbox_pattern fold name (c ∷ s) ≡ some (text_eq (map fold (c ∷ s)) (map fold name))
unfolding matches_mailbox_pattern
matches_mailbox_pattern-plain fold c s name h =
    rw (not_star c h.0, compile-plain c s h, test_atoms-char fold (c ∷ s) name)
