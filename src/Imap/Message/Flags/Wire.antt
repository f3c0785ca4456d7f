-- ===== src/Imap/Message/Flags/Wire.antt =====
-- Flags on the wire.
use enclave_mail.Prelude.{
  ◌≡◌, refl, ◌∙◌, sym, Bool, true, false, ◌&&◌, List, [], ◌∷◌, ◌++◌, arith, Text, codes, join,
  text_eq, text_eq_iff, All, text_Eq, contains, contains-filter, filter, text_methods, set_add,
}
use enclave_mail.Imap.Message.Flags.{
  seen, answered, flagged, deleted, draft, imap_flag_order, imap_to_db_flag, push_if, to_imap_flags,
  map_flags, parse_flag_list, collect_flags, normalize_db_flags,
}

render : Bool → Bool → Bool → Bool → Bool → Text
render s a f d t =
    codes "("
    ++ (join (codes " ") (
          push_if s (codes "\\Seen")
          ++ (push_if a (codes "\\Answered")
              ++ (push_if f (codes "\\Flagged")
                  ++ (push_if d (codes "\\Deleted") ++ push_if t (codes "\\Draft")))))
        ++ codes ")")

choose : Bool → Bool → Bool → Bool → Bool → List Text
choose s a f d t =
    push_if s seen
    ++ (push_if a answered ++ (push_if f flagged ++ (push_if d deleted ++ push_if t draft)))

-- A test of both values.
both : (Bool → Bool) → Bool
both p = p true && p false

both_sound : (p : Bool → Bool) (b : Bool) → both p ≡ true → p b ≡ true
unfolding both
both_sound p true h = ground arith
both_sound p false h = ground arith

texts_eq : List Text → List Text → Bool
texts_eq [] [] = true
texts_eq (x ∷ xs) (y ∷ ys) = text_eq x y && texts_eq xs ys
texts_eq _ _ = false

texts_eq_sound : (xs ys : List Text) → texts_eq xs ys ≡ true → xs ≡ ys
unfolding texts_eq
texts_eq_sound [] [] h = refl
texts_eq_sound [] (y ∷ ys) h = cc
texts_eq_sound (x ∷ xs) [] h = cc
texts_eq_sound (x ∷ xs) (y ∷ ys) h = ground (arith, text_eq_iff x y, texts_eq_sound xs ys)

reads_back : Bool → Bool → Bool → Bool → Bool → Bool
reads_back s a f d t = texts_eq (parse_flag_list (render s a f d t)) (choose s a f d t)

-- The thirty-two texts.
table : both (λ s. both (λ a. both (λ f. both (λ d. both (λ t. reads_back s a f d t))))) ≡ true
unfolding both reads_back texts_eq render choose parse_flag_list map_flags imap_to_db_flag
    text_methods filter set_add
table = refl

parse_flag_list-render : (s a f d t : Bool) → parse_flag_list (render s a f d t) ≡ choose s a f d t
unfolding reads_back
parse_flag_list-render s a f d t =
    texts_eq_sound (parse_flag_list (render s a f d t)) (choose s a f d t)
      (both_sound _ t (both_sound _ d (both_sound _ f (both_sound _ a (both_sound _ s table)))))

filter-choose :
    (p : Text → Bool)
    → filter p imap_flag_order ≡ choose (p seen) (p answered) (p flagged) (p deleted) (p draft)
unfolding filter choose
filter-choose p = ground arith

known_flags :
    (input : List Text)
    → All
        (λ flag. contains (normalize_db_flags input) flag ≡ contains (collect_flags [] input) flag)
        imap_flag_order
unfolding normalize_db_flags
known_flags input =
    let held = contains-filter (contains (collect_flags [] input)) imap_flag_order in
    unfold text_eq in (held seen, (held answered, (held flagged, (held deleted, (held draft, tt)))))

-- The five tests of a list.
abbrev tests {ℓ} : {A : Type ℓ} → (Bool → Bool → Bool → Bool → Bool → A) → List Text → A
tests f flags =
    f (contains flags seen) (contains flags answered) (contains flags flagged)
      (contains flags deleted) (contains flags draft)

to_imap_flags-render :
    (flags : List Text) → to_imap_flags flags ≡ tests render (normalize_db_flags flags)
unfolding to_imap_flags render
to_imap_flags-render flags = refl

normalize_db_flags-choose :
    (flags : List Text) → tests choose (collect_flags [] flags) ≡ normalize_db_flags flags
unfolding normalize_db_flags
normalize_db_flags-choose flags = sym (filter-choose (contains (collect_flags [] flags)))

tests_agree :
    (flags : List Text)
    → tests choose (normalize_db_flags flags) ≡ tests choose (collect_flags [] flags)
tests_agree flags = let (s, (a, (f, (d, (t, _))))) = known_flags flags in rw (s, a, f, d, t)

-- The flags that a response shows are read back as the normalised flags of the message.
pub parse_flag_list-to_imap_flags :
    (flags : List Text) → parse_flag_list (to_imap_flags flags) ≡ normalize_db_flags flags
parse_flag_list-to_imap_flags flags =
    rw (to_imap_flags-render flags) (parse_flag_list-render _ _ _ _ _)
    ∙ (tests_agree flags ∙ normalize_db_flags-choose flags)
