-- ===== src/Prelude/Trimming.antt =====
-- Laws of the string methods: what trimming keeps, and how a text is cut at a blank.
use Prim.Native.Nat.{ℕ}
use mathlib.Core.Path.{◌≡◌, refl, ap}
use mathlib.Core.Bool.{true, false, not}
use mathlib.Core.List.{[], ◌∷◌, ◌++◌, append_assoc, append-nil}
use mathlib.Core.Option.{some}
use native.Mathlib.Omega.{arith}
use enclave_mail.Prelude.Lists.{All, all}
use enclave_mail.Prelude.Strings.{
  Text, is_space, is_empty, trim, trim_start, trim_end, keep_end, break_at, split, split_from,
}

-- Neither empty nor with a blank in it.
abbrev pub IsWord : Text → Type 0
IsWord [] = ⊥
IsWord (c ∷ s) = All (λ d. is_space d ≡ false) (c ∷ s)

pub keep_end-append : (c d : ℕ) (s : Text) → keep_end c (s ++ d ∷ []) ≡ c ∷ (s ++ d ∷ [])
keep_end-append c d [] = refl
keep_end-append c d (e ∷ s) = refl

trim_end-append : (s : Text) (c : ℕ) → is_space c ≡ false → trim_end (s ++ c ∷ []) ≡ s ++ c ∷ []
unfolding trim_end
trim_end-append [] c h = ground arith
trim_end-append (d ∷ s) c h = rw (trim_end-append s c h) (keep_end-append d c s)

trim_start_of_word : (w s : Text) → IsWord w → trim_start (w ++ s) ≡ w ++ s
trim_start_of_word [] s h = absurd h
trim_start_of_word (c ∷ w) s h = unfold trim_start in rw (h.0)

-- A text that begins with a word and ends in a character that is no blank is not trimmed.
pub trim_of_framed :
    (w s : Text) (c : ℕ)
    → IsWord w
    → is_space c ≡ false
    → trim (w ++ (s ++ c ∷ [])) ≡ w ++ (s ++ c ∷ [])
unfolding trim
trim_of_framed w s c hw hc =
    rw (trim_start_of_word w (s ++ c ∷ []) hw, ← append_assoc w s (c ∷ []))
      (trim_end-append (w ++ s) c hc)

break_at_of_All :
    (w s : Text) → All (λ d. is_space d ≡ false) w → break_at b' ' (w ++ b' ' ∷ s) ≡ (w, some s)
unfolding break_at is_space
break_at_of_All [] s h = refl
break_at_of_All (c ∷ w) s h = ground (arith, break_at_of_All w s h.1)

-- Cutting at the first blank gives the word in front of it.
pub break_at_of_word : (w s : Text) → IsWord w → break_at b' ' (w ++ b' ' ∷ s) ≡ (w, some s)
break_at_of_word [] s h = absurd h
break_at_of_word (c ∷ w) s h = break_at_of_All (c ∷ w) s h

pub all_of_All : (w : Text) → All (λ d. is_space d ≡ false) w → all (λ c. not (is_space c)) w ≡ true
all_of_All [] h = refl
all_of_All (c ∷ w) h = rw (h.0) (all_of_All w h.1)

pub IsWord-tests :
    (w : Text) → IsWord w → (is_empty w ≡ false) × (all (λ c. not (is_space c)) w ≡ true)
IsWord-tests [] h = absurd h
IsWord-tests (c ∷ w) h = (refl, all_of_All (c ∷ w) h)

blank_of_trim_end : (s : Text) → is_empty (trim_end s) ≡ true → all is_space s ≡ true
unfolding trim_end
blank_of_trim_end [] h = refl
blank_of_trim_end (c ∷ s) h = ground (arith, blank_of_trim_end s)

blank_of_trim_start : (s : Text) → all is_space (trim_start s) ≡ true → all is_space s ≡ true
unfolding trim_start
blank_of_trim_start [] h = refl
blank_of_trim_start (c ∷ s) h = ground (arith, blank_of_trim_start s)

-- Only blanks are trimmed to the empty text.
pub blank_of_trim : (s : Text) → is_empty (trim s) ≡ true → all is_space s ≡ true
unfolding trim
blank_of_trim s h = blank_of_trim_start s (blank_of_trim_end (trim_start s) h)

split_from_of_blank :
    (cur s : Text) (c : ℕ)
    → is_space c ≡ false
    → all is_space s ≡ true
    → split_from cur c s ≡ (cur ++ s) ∷ []
unfolding split_from
split_from_of_blank cur [] c h b = rw (append-nil cur)
split_from_of_blank cur (d ∷ s) c h b = ground (
  arith,
  split_from_of_blank (cur ++ d ∷ []) s c h,
  append_assoc cur (d ∷ []) s,
  ap is_space {x = d} {y = c},
)

-- A blank text is not split.
pub split_of_blank :
    (s : Text) (c : ℕ) → is_space c ≡ false → all is_space s ≡ true → split c s ≡ s ∷ []
unfolding split
split_of_blank s c h b = split_from_of_blank [] s c h b
