-- ===== src/Imap/Message/Search/Narrowing.antt =====
-- What `SEARCH` of commands/message.ts selects: `createSearchPredicates` and `applySearchPredicates`.
use enclave_mail.Prelude.{
  ℕ, ◌≡◌, refl, ◌∙◌, sym, ap, Bool, true, false, ◌&&◌, List, [], ◌∷◌, ◌++◌, arith, all, filter,
  Option, Text, All, map, text_eq, text_Eq, nat_Eq, to_lower_case, to_upper_case, upper_char,
  is_empty, split,
}
use mathlib.Core.Path.{fun_ext}
use enclave_mail.Prelude.Int.{ℤ}
use enclave_mail.Imap.Message.Flags.{seen, flagged, deleted, draft}
use enclave_mail.Imap.Message.SequenceSet.{parse_sequence_set}
use enclave_mail.Imap.Message.SequenceSet.Coverage.{
  in_bounds, named_by, contains-parse_sequence_set,
}
use enclave_mail.Imap.Message.Search.{
  IndexedMessage, max_uid, Criterion, everything, with_flag, without_flag, from, to, on, before,
  since, smaller, larger, uids, satisfies, day_of, Key, plain, needs_string, needs_date,
  needs_number, needs_set, unsupported, search_key, parsed, push, argument_criterion, search_loop,
  create_search_predicates, apply_predicates,
}
use enclave_mail.Imap.Message.Search.Terms.{
  Term, all_messages, is_seen, is_unseen, is_flagged, is_unflagged, is_deleted, is_undeleted,
  is_draft, is_undraft, sent_from, sent_to, dated_before, dated_since, dated_on, smaller_than,
  larger_than, uid_among, arguments_of, search_arguments, max_uid-largest_uid, holds, IsWritten,
}

filter-filter :
    (p q : IndexedMessage → Bool) (es : List IndexedMessage)
    → filter q (filter p es) ≡ filter (λ e. p e && q e) es
unfolding filter
filter-filter p q [] = refl
filter-filter p q (e ∷ es) = ground (arith, filter-filter p q es)

filter-true : (es : List IndexedMessage) → filter (λ e. true) es ≡ es
unfolding filter
filter-true [] = refl
filter-true (e ∷ es) = rw (filter-true es)

apply_predicates-filter :
    (cs : List Criterion) (es : List IndexedMessage)
    → apply_predicates cs es ≡ filter (λ e. all (λ c. satisfies c e) cs) es
unfolding apply_predicates
apply_predicates-filter [] es = sym (filter-true es)
apply_predicates-filter (c ∷ cs) es =
    apply_predicates-filter cs (filter (satisfies c) es)
    ∙ filter-filter (satisfies c) (λ e. all (λ d. satisfies d e) cs) es

module _ (date_parse : Text → Option ℤ) where
  -- Which criterion the term becomes.
  criterion_of : List IndexedMessage → Term → Criterion
  criterion_of es all_messages = everything
  criterion_of es is_seen = with_flag seen
  criterion_of es is_unseen = without_flag seen
  criterion_of es is_flagged = with_flag flagged
  criterion_of es is_unflagged = without_flag flagged
  criterion_of es is_deleted = with_flag deleted
  criterion_of es is_undeleted = without_flag deleted
  criterion_of es is_draft = with_flag draft
  criterion_of es is_undraft = without_flag draft
  criterion_of es (sent_from value) = from (to_lower_case value)
  criterion_of es (sent_to value) = to (to_lower_case value)
  criterion_of es (dated_before value day) = before day
  criterion_of es (dated_since value day) = since day
  criterion_of es (dated_on value day) = on day
  criterion_of es (smaller_than value n) = smaller n
  criterion_of es (larger_than value n) = larger n
  criterion_of es (uid_among value) = uids (parse_sequence_set value (max_uid es))

  satisfies-criterion_of :
      (es : List IndexedMessage) (term : Term) (e : IndexedMessage)
      → satisfies (criterion_of es term) e ≡ holds es term e.message
  unfolding satisfies criterion_of day_of
  satisfies-criterion_of es all_messages e = refl
  satisfies-criterion_of es is_seen e = refl
  satisfies-criterion_of es is_unseen e = refl
  satisfies-criterion_of es is_flagged e = refl
  satisfies-criterion_of es is_unflagged e = refl
  satisfies-criterion_of es is_deleted e = refl
  satisfies-criterion_of es is_undeleted e = refl
  satisfies-criterion_of es is_draft e = refl
  satisfies-criterion_of es is_undraft e = refl
  satisfies-criterion_of es (sent_from value) e = refl
  satisfies-criterion_of es (sent_to value) e = refl
  satisfies-criterion_of es (dated_before value day) e = refl
  satisfies-criterion_of es (dated_since value day) e = refl
  satisfies-criterion_of es (dated_on value day) e = refl
  satisfies-criterion_of es (smaller_than value n) e = refl
  satisfies-criterion_of es (larger_than value n) e = refl
  satisfies-criterion_of es (uid_among value) e =
      contains-parse_sequence_set value (max_uid es) (e.message).uid
      ∙ ap (λ n. in_bounds n (e.message).uid && named_by n (split b',' value) (e.message).uid)
          (max_uid-largest_uid es)

  search_loop-plain :
      (es : List IndexedMessage) (c : ℕ) (s : Text) (args : List Text) (criterion : Criterion)
      → search_key (to_upper_case (c ∷ s)) ≡ plain criterion
      → search_loop date_parse es ((c ∷ s) ∷ args) ≡ push criterion (search_loop date_parse es args)
  unfolding search_loop
  search_loop-plain es c s [] criterion h = rw (h, search_loop) refl
  search_loop-plain es c s (value ∷ args) criterion h = rw (h, search_loop) refl

  abbrev TakesValue : Key → Type 0
  TakesValue (plain criterion) = ⊥
  TakesValue unsupported = ⊥
  TakesValue _ = Unit

  search_loop-value :
      (es : List IndexedMessage) (c : ℕ) (s value : Text) (args : List Text) (key : Key)
      (criterion : Criterion)
      → search_key (to_upper_case (c ∷ s)) ≡ key
      → TakesValue key
      → is_empty value ≡ false
      → argument_criterion date_parse es key (to_upper_case (c ∷ s)) value ≡ parsed criterion
      → search_loop date_parse es ((c ∷ s) ∷ value ∷ args)
        ≡ push criterion (search_loop date_parse es args)
  unfolding search_loop
  search_loop-value es c s value args (plain k) criterion h takes full e = absurd takes
  search_loop-value es c s value args unsupported criterion h takes full e = absurd takes
  search_loop-value es c s value args needs_string criterion h takes full e =
      rw (h, search_loop) (rw (full, e) refl)
  search_loop-value es c s value args needs_date criterion h takes full e =
      rw (h, search_loop) (rw (full, e) refl)
  search_loop-value es c s value args needs_number criterion h takes full e =
      rw (h, search_loop) (rw (full, e) refl)
  search_loop-value es c s value args needs_set criterion h takes full e =
      rw (h, search_loop) (rw (full, e) refl)

  search_loop-term :
      (es : List IndexedMessage) (term : Term) (args : List Text)
      → IsWritten date_parse term
      → search_loop date_parse es (arguments_of term ++ args)
        ≡ push (criterion_of es term) (search_loop date_parse es args)
  unfolding criterion_of search_key to_upper_case upper_char text_eq argument_criterion
  search_loop-term es all_messages args h = search_loop-plain es _ _ args everything refl
  search_loop-term es is_seen args h = search_loop-plain es _ _ args (with_flag seen) refl
  search_loop-term es is_unseen args h = search_loop-plain es _ _ args (without_flag seen) refl
  search_loop-term es is_flagged args h = search_loop-plain es _ _ args (with_flag flagged) refl
  search_loop-term es is_unflagged args h =
      search_loop-plain es _ _ args (without_flag flagged) refl
  search_loop-term es is_deleted args h = search_loop-plain es _ _ args (with_flag deleted) refl
  search_loop-term es is_undeleted args h =
      search_loop-plain es _ _ args (without_flag deleted) refl
  search_loop-term es is_draft args h = search_loop-plain es _ _ args (with_flag draft) refl
  search_loop-term es is_undraft args h = search_loop-plain es _ _ args (without_flag draft) refl
  search_loop-term es (sent_from value) args h =
      search_loop-value es _ _ value args needs_string (from (to_lower_case value)) refl tt h refl
  search_loop-term es (sent_to value) args h =
      search_loop-value es _ _ value args needs_string (to (to_lower_case value)) refl tt h refl
  search_loop-term es (dated_before value day) args h =
      search_loop-value es _ _ value args needs_date (before day) refl tt h.0 (rw h.1 refl)
  search_loop-term es (dated_since value day) args h =
      search_loop-value es _ _ value args needs_date (since day) refl tt h.0 (rw h.1 refl)
  search_loop-term es (dated_on value day) args h =
      search_loop-value es _ _ value args needs_date (on day) refl tt h.0 (rw h.1 refl)
  search_loop-term es (smaller_than value n) args h =
      search_loop-value es _ _ value args needs_number (smaller n) refl tt h.0 (rw h.1 refl)
  search_loop-term es (larger_than value n) args h =
      search_loop-value es _ _ value args needs_number (larger n) refl tt h.0 (rw h.1 refl)
  search_loop-term es (uid_among value) args h =
      search_loop-value es _ _ value args needs_set (uids (parse_sequence_set value (max_uid es)))
        refl tt h refl

  search_loop-terms :
      (es : List IndexedMessage) (terms : List Term)
      → All (IsWritten date_parse) terms
      → search_loop date_parse es (search_arguments terms) ≡ parsed (map (criterion_of es) terms)
  search_loop-terms es [] h = unfold search_loop in refl
  search_loop-terms es (term ∷ terms) h =
      search_loop-term es term (search_arguments terms) h.0
      ∙ ap (push (criterion_of es term)) (search_loop-terms es terms h.1)

  create_search_predicates-loop :
      (es : List IndexedMessage) (args : List Text) (c : Criterion) (cs : List Criterion)
      → search_loop date_parse es args ≡ parsed (c ∷ cs)
      → create_search_predicates date_parse es args ≡ parsed (c ∷ cs)
  unfolding create_search_predicates
  create_search_predicates-loop es [] c cs e = unfold search_loop in cc
  create_search_predicates-loop es (arg ∷ args) c cs e = e

  all-criterion_of :
      (es : List IndexedMessage) (terms : List Term) (e : IndexedMessage)
      → all (λ c. satisfies c e) (map (criterion_of es) terms)
        ≡ all (λ term. holds es term e.message) terms
  all-criterion_of es [] e = refl
  all-criterion_of es (term ∷ terms) e =
      rw (satisfies-criterion_of es term e, all-criterion_of es terms e)

  -- The criteria of a search of at least one term are read without an error, and select, one after the
  -- other, exactly the messages for which all terms hold, in their order: the flags, the addresses, the
  -- days, the sizes and the uids are as each term says. No value is empty, and numbers and days are read
  -- as the term says.
  pub create_search_predicates-holds :
      (es : List IndexedMessage) (term : Term) (terms : List Term)
      → All (IsWritten date_parse) (term ∷ terms)
      → (cs : List Criterion) × (create_search_predicates date_parse es
            (search_arguments (term ∷ terms))
          ≡ parsed cs)
        × (apply_predicates cs es ≡ filter (λ e. all (λ t. holds es t e.message) (term ∷ terms)) es)
  create_search_predicates-holds es term terms h = (
    map (criterion_of es) (term ∷ terms),
    create_search_predicates-loop es (search_arguments (term ∷ terms)) (criterion_of es term)
        (map (criterion_of es) terms) (search_loop-terms es (term ∷ terms) h),
    apply_predicates-filter (map (criterion_of es) (term ∷ terms)) es
        ∙ ap (λ p. filter p es) (fun_ext (all-criterion_of es (term ∷ terms))),
  )
