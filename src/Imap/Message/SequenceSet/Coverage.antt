-- ===== src/Imap/Message/SequenceSet/Coverage.antt =====
-- Which numbers a sequence set holds, in terms of its text.
use enclave_mail.Prelude.{
  ℕ, zero, suc, ◌+◌, ◌-◌, min, max, ◌≡◌, refl, ◌∙◌, Bool, true, false, ◌&&◌, ◌||◌, List, [], ◌∷◌,
  arith, Text, is_empty, trim, is_space, split, leb, set_add, nat_Eq, contains, contains-set_add,
  any, Option, none, some, Bool-cases, inl, inr, append_assoc, append-nil, sym, ap, break_at,
  split_from, text_eq, codes, trim_start, nat_eq, if◌then◌else◌, ◌++◌,
}
use enclave_mail.Prelude.Trimming.{blank_of_trim, split_of_blank}
use enclave_mail.Prelude.Int.{ℤ, pos, pos_part, leb_ℤ, min_ℤ, max_ℤ, parse_int, parse_signed}
use enclave_mail.Imap.Message.SequenceSet.{
  parse_bound, one_of, range_of, bounds_chunk, Chunk, skip, one, range, parse_chunk, add_range,
  add_chunk, add_chunks, parse_sequence_set,
}

-- Whether a chunk names the number, in either order of its bounds.
unfoldable pub names : Chunk → ℕ → Bool
names skip x = false
names (one n) x = leb_ℤ n (pos x) && leb_ℤ (pos x) n
names (range start end) x =
    (leb_ℤ start (pos x) && leb_ℤ (pos x) end) || (leb_ℤ end (pos x) && leb_ℤ (pos x) start)

abbrev pub in_bounds : ℕ → ℕ → Bool
in_bounds max_value x = leb 1 x && leb x max_value

contains-add_range :
    (count current : ℕ) (values : List ℕ) (x : ℕ)
    → contains (add_range count current values) x
      ≡ (contains values x || (leb current x && leb (x + 1) (current + count)))
unfolding add_range
contains-add_range zero current values x = ground arith
contains-add_range (suc count) current values x = ground (
  arith,
  contains-add_range count (current + 1) (set_add values current) x,
  contains-set_add values current x,
)

contains-add_chunk :
    (max_value : ℕ) (values : List ℕ) (c : Chunk) (x : ℕ)
    → contains (add_chunk max_value values c) x
      ≡ (contains values x || (in_bounds max_value x && names c x))
unfolding add_chunk names
contains-add_chunk max_value values skip x = ground arith
contains-add_chunk max_value values (one n) x =
    ground (arith, contains-set_add values (pos_part n) x)
contains-add_chunk max_value values (range start end) x =
    let low = max 1 (pos_part (min_ℤ start end)) in
    let high = min max_value (pos_part (max_ℤ start end)) in
    contains-add_range (high + 1 - low) low values x ∙ ground arith

-- The specification reads the text. What a bound stands for, if for anything: `*` for the largest
-- number, any other text for the number at its front.
abbrev pub bound : ℕ → Text → Option ℤ
bound max_value raw = if text_eq raw (codes "*") then some (pos max_value) else parse_int raw

abbrev pub lies_between : Option ℤ → Option ℤ → ℕ → Bool
lies_between none end x = false
lies_between (some start) none x = false
lies_between (some start) (some end) x =
    (leb_ℤ start (pos x) && leb_ℤ (pos x) end) || (leb_ℤ end (pos x) && leb_ℤ (pos x) start)

-- The parts between colons: one names itself, of more the first two are the bounds.
abbrev pub parts_name : ℕ → List Text → ℕ → Bool
parts_name max_value [] x = false
parts_name max_value (raw ∷ []) x = lies_between (bound max_value raw) (bound max_value raw) x
parts_name max_value (start ∷ end ∷ rest) x =
    lies_between (bound max_value start) (bound max_value end) x

-- Whether some chunk of the list names the number.
abbrev pub named_by : ℕ → List Text → ℕ → Bool
named_by max_value chunks x = any (λ chunk. parts_name max_value (split b':' (trim chunk)) x) chunks

parse_bound-bound : (max_value : ℕ) (raw : Text) → parse_bound max_value raw ≡ bound max_value raw
unfolding parse_bound parse_int parse_signed trim_start text_eq
parse_bound-bound max_value [] = refl
parse_bound-bound max_value (c ∷ []) = ground arith
parse_bound-bound max_value (c ∷ d ∷ s) = ground arith

names-one_of : (bound : Option ℤ) (x : ℕ) → names (one_of bound) x ≡ lies_between bound bound x
unfolding names
names-one_of none x = refl
names-one_of (some n) x = ground arith

names-range_of :
    (start end : Option ℤ) (x : ℕ) → names (range_of start end) x ≡ lies_between start end x
unfolding names
names-range_of none end x = refl
names-range_of (some start) none x = refl
names-range_of (some start) (some end) x = refl

-- `split` and `break_at` cut at the same places.
abbrev parts_behind : ℕ → Option Text → List Text
parts_behind c none = []
parts_behind c (some rest) = split c rest

abbrev prepend : Text → List Text → List Text
prepend s [] = []
prepend s (part ∷ parts) = (s ++ part) ∷ parts

split_from-break_at :
    (cur : Text) (c : ℕ) (s : Text)
    → split_from cur c s ≡ (cur ++ (break_at c s).0) ∷ parts_behind c (break_at c s).1
unfolding split_from break_at split
split_from-break_at cur c [] = ap (λ t. t ∷ []) (sym (append-nil cur))
split_from-break_at cur c (d ∷ s) = elim (Bool-cases (nat_eq d c)) [
  | inl ends ↦ rw (ends, append-nil cur) refl
  | inr more ↦
      rw (more, split_from-break_at (cur ++ d ∷ []) c s, append_assoc cur (d ∷ []) (break_at c s).0)
]

split-break_at : (c : ℕ) (s : Text) → split c s ≡ (break_at c s).0 ∷ parts_behind c (break_at c s).1
unfolding split
split-break_at c s = split_from-break_at [] c s

names-bounds_chunk :
    (max_value : ℕ) (start : Text) (behind : Option Text) (x : ℕ)
    → names (bounds_chunk max_value start behind) x
      ≡ parts_name max_value (start ∷ parts_behind b':' behind) x
names-bounds_chunk max_value start none x =
    rw (parse_bound-bound max_value start) (names-one_of (bound max_value start) x)
names-bounds_chunk max_value start (some rest) x =
    let end = (break_at b':' rest).0 in
    rw
      (parse_bound-bound max_value start, parse_bound-bound max_value end, split-break_at b':' rest)
      (names-range_of (bound max_value start) (bound max_value end) x)

names-token :
    (max_value : ℕ) (token : Text) (x : ℕ)
    → names
        (if is_empty token
          then skip
          else bounds_chunk max_value (break_at b':' token).0 (break_at b':' token).1)
        x
      ≡ parts_name max_value (split b':' token) x
names-token max_value [] x =
    unfold names split split_from text_eq parse_int parse_signed trim_start in refl
names-token max_value (c ∷ s) x =
    rw (split-break_at b':' (c ∷ s))
      (names-bounds_chunk max_value (break_at b':' (c ∷ s)).0 (break_at b':' (c ∷ s)).1 x)

names-parse_chunk :
    (max_value : ℕ) (chunk : Text) (x : ℕ)
    → names (parse_chunk max_value chunk) x ≡ parts_name max_value (split b':' (trim chunk)) x
unfolding parse_chunk
names-parse_chunk max_value chunk x = names-token max_value (trim chunk) x

contains-add_chunks :
    (max_value : ℕ) (values : List ℕ) (chunks : List Text) (x : ℕ)
    → contains (add_chunks max_value values chunks) x
      ≡ (contains values x || (in_bounds max_value x && named_by max_value chunks x))
unfolding add_chunks
contains-add_chunks max_value values [] x = ground arith
contains-add_chunks max_value values (chunk ∷ chunks) x =
    let c = parse_chunk max_value chunk in
    contains-add_chunks max_value (add_chunk max_value values c) chunks x
    ∙ ground (arith, contains-add_chunk max_value values c x, names-parse_chunk max_value chunk x)

-- A blank text names nothing.
named_by_blank :
    (max_value : ℕ) (raw_set : Text) (x : ℕ)
    → is_empty (trim raw_set) ≡ true
    → named_by max_value (split b',' raw_set) x ≡ false
named_by_blank max_value raw_set x h =
    rw (split_of_blank raw_set b',' (unfold is_space in refl) (blank_of_trim raw_set h))
      (blank_names (trim raw_set) h)
  where
    blank_names :
        (s : Text) → is_empty s ≡ true → (parts_name max_value (split b':' s) x || false) ≡ false
    blank_names [] h = unfold split split_from text_eq parse_int parse_signed trim_start in refl
    blank_names (c ∷ s) h = cc

-- The set holds exactly the numbers from 1 to `max_value` that a chunk of the text between commas names:
-- a single number names itself, two bounds at a colon name what lies between them in either order, `*`
-- stands for `max_value`, and a chunk that is no number names nothing.
pub contains-parse_sequence_set :
    (raw_set : Text) (max_value x : ℕ)
    → contains (parse_sequence_set raw_set max_value) x
      ≡ (in_bounds max_value x && named_by max_value (split b',' raw_set) x)
unfolding parse_sequence_set
contains-parse_sequence_set raw_set max_value x = ground (
  arith,
  contains-add_chunks max_value [] (split b',' raw_set) x,
  named_by_blank max_value raw_set x,
)
