-- ===== src/Prelude/Strings.antt =====
-- Texts as lists of UTF-16 code units, with the string methods that the program calls.
-- Case mapping is that of the ASCII letters; other code units map to themselves.
use Prim.Native.Nat.{ℕ, zero, suc, ◌+◌, ◌-◌, ◌/◌, ◌%◌}
use Prim.Native.Char.{code}
use Prim.Native.String.{String}
use mathlib.Core.Bool.{Bool, true, false, ◌&&◌, ◌||◌}
use mathlib.Core.List.{List, [], ◌∷◌, ◌++◌, map}
use mathlib.Core.Option.{Option, none, some}
use enclave_mail.Prelude.Tests.{ltb, leb, nat_eq, if◌then◌else◌, text_eq}
use enclave_mail.Prelude.Lists.{length, drop}

abbrev pub Text : Type 0
Text = List ℕ

-- The code units of a literal (all literals here are below U+10000).
abbrev pub codes : String → Text
codes String.[] = []
codes (String.◌∷◌ c s) = code c ∷ codes s

-- `\s` and the characters that `trim` removes.
unfoldable pub is_space : ℕ → Bool
is_space c =
    (leb 9 c && leb c 13)
    || nat_eq c 32
    || nat_eq c 0xa0
    || nat_eq c 0x1680
    || (leb 0x2000 c && leb c 0x200a)
    || nat_eq c 0x2028
    || nat_eq c 0x2029
    || nat_eq c 0x202f
    || nat_eq c 0x205f
    || nat_eq c 0x3000
    || nat_eq c 0xfeff

unfoldable pub upper_char : ℕ → ℕ
upper_char c = if leb b'a' c && leb c b'z' then c - 32 else c

unfoldable pub lower_char : ℕ → ℕ
lower_char c = if leb b'A' c && leb c b'Z' then c + 32 else c

unfoldable pub to_upper_case : Text → Text
to_upper_case = map upper_char

unfoldable pub to_lower_case : Text → Text
to_lower_case = map lower_char

unfoldable pub trim_start : Text → Text
trim_start [] = []
trim_start (c ∷ s) = if is_space c then trim_start s else c ∷ s

-- A character is dropped if nothing but blanks follows it.
abbrev pub keep_end : ℕ → Text → Text
keep_end c [] = if is_space c then [] else c ∷ []
keep_end c (d ∷ s) = c ∷ d ∷ s

unfoldable pub trim_end : Text → Text
trim_end [] = []
trim_end (c ∷ s) = keep_end c (trim_end s)

unfoldable pub trim : Text → Text
trim s = trim_end (trim_start s)

abbrev pub is_empty : Text → Bool
is_empty [] = true
is_empty (c ∷ s) = false

unfoldable pub starts_with : Text → Text → Bool
starts_with s [] = true
starts_with [] (d ∷ t) = false
starts_with (c ∷ s) (d ∷ t) = nat_eq c d && starts_with s t

unfoldable pub ends_with : Text → Text → Bool
ends_with s t = leb (length t) (length s) && text_eq (drop (length s - length t) s) t

-- `includes` of a string.
unfoldable pub text_includes : Text → Text → Bool
text_includes [] t = starts_with [] t
text_includes (c ∷ s) t = starts_with (c ∷ s) t || text_includes s t

-- The text up to the first `c`, and the text behind it, if there is one.
unfoldable pub break_at : ℕ → Text → Text × Option Text
break_at c [] = ([], none)
break_at c (d ∷ s) =
    let rest = break_at c s in if nat_eq d c then ([], some s) else (d ∷ rest.0, rest.1)

-- `split` by one character.
unfoldable pub split_from : Text → ℕ → Text → List Text
split_from cur c [] = cur ∷ []
split_from cur c (d ∷ s) =
    let closed = split_from [] c s in
    let longer = split_from (cur ++ d ∷ []) c s in if nat_eq d c then cur ∷ closed else longer

unfoldable pub split : ℕ → Text → List Text
split c s = split_from [] c s

-- The nonempty parts of `split(/\s+/)`.
unfoldable pub words_from : Text → Text → List Text
words_from cur [] = if is_empty cur then [] else cur ∷ []
words_from cur (d ∷ s) =
    let closed = words_from [] s in
    let longer = words_from (cur ++ d ∷ []) s in
    if is_space d then (if is_empty cur then closed else cur ∷ closed) else longer

unfoldable pub words : Text → List Text
words s = words_from [] s

unfoldable pub join : Text → List Text → Text
join sep [] = []
join sep (s ∷ []) = s
join sep (s ∷ t ∷ ts) = s ++ (sep ++ join sep (t ∷ ts))

-- `replaceAll` of one character.
unfoldable pub replace_all : ℕ → Text → Text → Text
replace_all c r [] = []
replace_all c r (d ∷ s) = (if nat_eq d c then r else d ∷ []) ++ replace_all c r s

-- `String(n)` of a natural number; the fuel exceeds the number of digits.
unfoldable pub show_from : ℕ → ℕ → Text → Text
show_from zero n acc = acc
show_from (suc f) n acc =
    let digit = b'0' + n % 10 in
    let rest = show_from f (n / 10) (digit ∷ acc) in if ltb n 10 then digit ∷ acc else rest

unfoldable pub show : ℕ → Text
show n = show_from (suc n) n []

-- What a test by evaluation unfolds to run the functions above.
unfoldable pub text_methods : Unit {0}
unfolding is_space upper_char lower_char to_upper_case to_lower_case trim_start trim_end trim
    starts_with ends_with text_includes break_at split_from split words_from words join replace_all
    show_from show text_eq
text_methods = tt
