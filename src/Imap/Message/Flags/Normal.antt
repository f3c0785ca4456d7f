-- ===== src/Imap/Message/Flags/Normal.antt =====
-- Normalised flag lists.
use enclave_mail.Prelude.{
  ◌≡◌, refl, ◌∙◌, ap, Bool, true, false, ◌&&◌, ◌||◌, List, [], ◌∷◌, Text, trim, to_lower_case,
  text_eq, text_eq_iff, text_Eq, contains, contains-filter, contains-set_add, set_add, any,
  Bool-cases, ◌⊎◌, inl, inr, if◌then◌else◌,
}
use enclave_mail.Imap.Message.Flags.{imap_flag_order, collect_flags, normalize_db_flags}

-- Whether a value of the list means the flag.
abbrev pub means : List Text → Text → Bool
means input flag = any (λ value. text_eq (to_lower_case (trim value)) flag) input

pub or_false : (b : Bool) → b ≡ (b || false)
or_false true = refl
or_false false = refl

pub or_assoc : (a b c : Bool) → ((a || b) || c) ≡ (a || (b || c))
or_assoc true b c = refl
or_assoc false b c = refl

keep_known :
    (order normalized : List Text) (lower flag : Text)
    → contains order flag ≡ true
    → contains (if contains order lower then set_add normalized lower else normalized) flag
      ≡ (contains normalized flag || text_eq lower flag)
keep_known order normalized lower flag h = elim (Bool-cases (contains order lower)) [
  | inl known ↦ rw known (contains-set_add normalized lower flag)
  | inr unknown ↦ rw unknown (elim (Bool-cases (text_eq lower flag)) [
    | inl same ↦ let e = (text_eq_iff lower flag).0 same in let bad = ap (contains order) e in cc
    | inr other ↦ rw other (or_false (contains normalized flag))
  ])
]

contains-collect_flags :
    (normalized input : List Text) (flag : Text)
    → contains imap_flag_order flag ≡ true
    → contains (collect_flags normalized input) flag
      ≡ (contains normalized flag || means input flag)
unfolding collect_flags
contains-collect_flags normalized [] flag h = or_false (contains normalized flag)
contains-collect_flags normalized (value ∷ input) flag h =
    let lower = to_lower_case (trim value) in
    let next = if contains imap_flag_order lower then set_add normalized lower else normalized in
    contains-collect_flags next input flag h
    ∙ (ap (λ b. b || means input flag) (keep_known imap_flag_order normalized lower flag h)
        ∙ or_assoc (contains normalized flag) (text_eq lower flag) (means input flag))

-- A flag is in the normalised list exactly if it is one of the five and some value of the list is
-- that flag, up to case and surrounding blanks.
pub contains-normalize_db_flags :
    (input : List Text) (flag : Text)
    → contains (normalize_db_flags input) flag ≡ (contains imap_flag_order flag && means input flag)
unfolding normalize_db_flags
contains-normalize_db_flags input flag =
    contains-filter (contains (collect_flags [] input)) imap_flag_order flag
    ∙ both (Bool-cases (contains imap_flag_order flag))
  where
    both :
        (contains imap_flag_order flag ≡ true) ⊎ (contains imap_flag_order flag ≡ false)
        → (contains imap_flag_order flag && contains (collect_flags [] input) flag)
          ≡ (contains imap_flag_order flag && means input flag)
    both (inl h) =
        ap (◌&&◌ (contains imap_flag_order flag)) (contains-collect_flags [] input flag h)
    both (inr h) = rw h
