-- ===== src/Imap/Mailbox/Pattern.antt =====
-- `matchesMailboxPattern` of commands/mailbox.ts: the pattern becomes a regular expression, in which
-- every special character but `?` is escaped. `%` is replaced by `[^/]*`, and then each `*`, that one
-- too, by `.*`; so `%` ends up as `[^/].*`.
pub mod Wildcards
use enclave_mail.Prelude.{
  ℕ, zero, suc, Bool, true, false, not, ◌&&◌, ◌||◌, List, [], ◌∷◌, ◌++◌, Option, none, some, Text,
  nat_eq, is_empty, if◌then◌else◌,
}

-- The parts of the expression: a character, one made optional by `?`, `[^/]` and `.*`.
pub data Atom : Type 0 where
  char optional : ℕ → Atom
  not_slash anything : Atom

-- The atom read last, with the number of `?` behind it. One `?` makes a character optional, and one
-- more makes it lazy, which changes no match; a wildcard is made lazy by one.
pub data Pending : Type 0 where
  start : Pending
  letter : ℕ → ℕ → Pending
  wild : ℕ → Pending

abbrev pub flush : Pending → List Atom
flush start = []
flush (letter c zero) = char c ∷ []
flush (letter c (suc marks)) = optional c ∷ []
flush (wild marks) = anything ∷ []

-- `none` is a `SyntaxError`: there is nothing to repeat.
abbrev pub mark : Pending → Option Pending
mark start = none
mark (letter c zero) = some (letter c 1)
mark (letter c (suc zero)) = some (letter c 2)
mark (letter c (suc (suc marks))) = none
mark (wild zero) = some (wild 1)
mark (wild (suc marks)) = none

abbrev pub prepend : List Atom → Option (List Atom) → Option (List Atom)
prepend atoms none = none
prepend atoms (some rest) = some (atoms ++ rest)

unfoldable pub compile_after : Pending → Text → Option (List Atom)
compile_after p [] = some (flush p)
compile_after p (c ∷ s) =
    let marked : Option (List Atom) = elim (mark p) [ none ↦ none | some q ↦ compile_after q s ] in
    let wildcard = prepend (flush p) (compile_after (wild 0) s) in
    let percent = prepend (flush p ++ not_slash ∷ []) (compile_after (wild 0) s) in
    let plain = prepend (flush p) (compile_after (letter c 0) s) in
    if nat_eq c b'?'
    then marked
    else if nat_eq c b'*'
    then wildcard
    else if nat_eq c b'%'
    then percent
    else plain

unfoldable pub compile : Text → Option (List Atom)
compile pattern_text = compile_after start pattern_text

-- `.` matches no line terminator.
abbrev pub is_terminator : ℕ → Bool
is_terminator c = nat_eq c 10 || nat_eq c 13 || nat_eq c 0x2028 || nat_eq c 0x2029

-- The flag `i`: characters are compared by what they are folded to, `Canonicalize` of the platform.
abbrev pub same_letter : (ℕ → ℕ) → ℕ → ℕ → Bool
same_letter fold c d = nat_eq (fold c) (fold d)

-- Whether the atoms match the whole text.
unfoldable pub test_atoms : (ℕ → ℕ) → List Atom → Text → Bool
test_atoms fold [] [] = true
test_atoms fold [] (d ∷ s) = false
test_atoms fold (char c ∷ atoms) [] = false
test_atoms fold (char c ∷ atoms) (d ∷ s) = same_letter fold c d && test_atoms fold atoms s
test_atoms fold (optional c ∷ atoms) [] = test_atoms fold atoms []
test_atoms fold (optional c ∷ atoms) (d ∷ s) =
    let taken = test_atoms fold atoms s in
    test_atoms fold atoms (d ∷ s) || (same_letter fold c d && taken)
test_atoms fold (not_slash ∷ atoms) [] = false
test_atoms fold (not_slash ∷ atoms) (d ∷ s) = not (nat_eq d b'/') && test_atoms fold atoms s
test_atoms fold (anything ∷ atoms) [] = test_atoms fold atoms []
test_atoms fold (anything ∷ atoms) (d ∷ s) =
    let longer = test_atoms fold (anything ∷ atoms) s in
    test_atoms fold atoms (d ∷ s) || (not (is_terminator d) && longer)

abbrev pub test_compiled : (ℕ → ℕ) → Option (List Atom) → Text → Option Bool
test_compiled fold none name = none
test_compiled fold (some atoms) name = some (test_atoms fold atoms name)

abbrev pub is_star : Text → Bool
is_star [] = false
is_star (c ∷ s) = nat_eq c b'*' && is_empty s

unfoldable pub matches_mailbox_pattern : (ℕ → ℕ) → Text → Text → Option Bool
matches_mailbox_pattern fold mailbox_name pattern_text =
    if is_empty pattern_text || is_star pattern_text
    then some true
    else test_compiled fold (compile pattern_text) mailbox_name
