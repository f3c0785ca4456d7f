-- ===== src/Imap/Message/SequenceSet.antt =====
-- `parseSequenceSet` of commands/message.ts. A set of numbers is a list in insertion order, and
-- numbers are exact (a `number` is exact up to 2^53); for a bound of more than 308 digits, which the code
-- reads as `Infinity` and passes over, this is not so.
pub mod Coverage
use enclave_mail.Prelude.{
  ℕ, zero, suc, ◌+◌, ◌-◌, min, max, Bool, true, false, ◌&&◌, ◌||◌, List, [], ◌∷◌, Option, none,
  some, Text, is_empty, trim, split, break_at, nat_eq, leb, set_add, nat_Eq, if◌then◌else◌,
}
use enclave_mail.Prelude.Int.{ℤ, pos, negsuc, pos_part, leb_ℤ, min_ℤ, max_ℤ, parse_int}

-- What one chunk between commas asks for; `skip` is a chunk that the loop passes over.
pub data Chunk : Type 0 where
  skip : Chunk
  one : ℤ → Chunk
  range : ℤ → ℤ → Chunk

-- `raw === '*' ? maxValue : Number.parseInt(raw, 10)`
unfoldable pub parse_bound : ℕ → Text → Option ℤ
parse_bound max_value [] = none
parse_bound max_value (c ∷ raw) =
    if nat_eq c b'*' && is_empty raw then some (pos max_value) else parse_int (c ∷ raw)

abbrev pub one_of : Option ℤ → Chunk
one_of none = skip
one_of (some n) = one n

abbrev pub range_of : Option ℤ → Option ℤ → Chunk
range_of none end = skip
range_of (some start) none = skip
range_of (some start) (some end) = range start end

-- `token.split(':')`: the first two parts count.
abbrev pub bounds_chunk : ℕ → Text → Option Text → Chunk
bounds_chunk max_value start none = one_of (parse_bound max_value start)
bounds_chunk max_value start (some rest) =
    range_of (parse_bound max_value start) (parse_bound max_value (break_at b':' rest).0)

unfoldable pub parse_chunk : ℕ → Text → Chunk
parse_chunk max_value chunk =
    let token = trim chunk in
    if is_empty token
    then skip
    else bounds_chunk max_value (break_at b':' token).0 (break_at b':' token).1

-- `count` rounds of the loop from `current`.
unfoldable pub add_range : ℕ → ℕ → List ℕ → List ℕ
add_range zero current values = values
add_range (suc count) current values = add_range count (current + 1) (set_add values current)

-- The bounds of the loop are clamped to 1 … max_value, so they are natural numbers.
unfoldable pub add_chunk : ℕ → List ℕ → Chunk → List ℕ
add_chunk max_value values skip = values
add_chunk max_value values (one n) =
    if leb_ℤ (pos 1) n && leb_ℤ n (pos max_value) then set_add values (pos_part n) else values
add_chunk max_value values (range start end) =
    let low = max 1 (pos_part (min_ℤ start end)) in
    let high = min max_value (pos_part (max_ℤ start end)) in add_range (high + 1 - low) low values

unfoldable pub add_chunks : ℕ → List ℕ → List Text → List ℕ
add_chunks max_value values [] = values
add_chunks max_value values (chunk ∷ chunks) =
    add_chunks max_value (add_chunk max_value values (parse_chunk max_value chunk)) chunks

unfoldable pub parse_sequence_set : Text → ℕ → List ℕ
parse_sequence_set raw_set max_value =
    if is_empty (trim raw_set) || nat_eq max_value 0
    then []
    else add_chunks max_value [] (split b',' raw_set)
