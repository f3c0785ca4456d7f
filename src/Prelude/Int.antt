-- ===== src/Prelude/Int.antt =====
-- Signed integers over the native numbers, and `Number.parseInt(text, 10)`.
use Prim.Native.Nat.{ℕ, suc, ◌+◌, ◌-◌, ◌*◌}
use mathlib.Core.Bool.{Bool, ◌&&◌}
use mathlib.Core.List.{[], ◌∷◌}
use mathlib.Core.Option.{Option, none, some}
use mathlib.Core.Option
use enclave_mail.Prelude.Tests.{ltb, leb, nat_eq, if◌then◌else◌}
use enclave_mail.Prelude.Strings.{Text, trim_start}

-- `negsuc n` is -(n + 1).
pub data ℤ : Type 0 where
  pos : ℕ → ℤ
  negsuc : ℕ → ℤ

abbrev pub pos_part : ℤ → ℕ
pos_part (pos n) = n
pos_part (negsuc n) = 0

abbrev pub neg_part : ℤ → ℕ
neg_part (pos n) = 0
neg_part (negsuc n) = suc n

abbrev pub leb_ℤ : ℤ → ℤ → Bool
leb_ℤ a b = leb (pos_part a + neg_part b) (pos_part b + neg_part a)

abbrev pub ltb_ℤ : ℤ → ℤ → Bool
ltb_ℤ a b = ltb (pos_part a + neg_part b) (pos_part b + neg_part a)

abbrev pub min_ℤ : ℤ → ℤ → ℤ
min_ℤ a b = if leb_ℤ a b then a else b

abbrev pub max_ℤ : ℤ → ℤ → ℤ
max_ℤ a b = if leb_ℤ a b then b else a

abbrev pub is_digit : ℕ → Bool
is_digit c = leb b'0' c && leb c b'9'

-- The digits at the front of a text, after `acc`.
unfoldable pub parse_digits : ℕ → Text → ℕ
parse_digits acc [] = acc
parse_digits acc (c ∷ s) =
    let rest = parse_digits (acc * 10 + (c - b'0')) s in if is_digit c then rest else acc

-- `none` is NaN: there is no digit.
unfoldable pub parse_nat : Text → Option ℕ
parse_nat [] = none
parse_nat (c ∷ s) = if is_digit c then some (parse_digits 0 (c ∷ s)) else none

abbrev pub negate : ℕ → ℤ
negate n = if nat_eq n 0 then pos 0 else negsuc (n - 1)

unfoldable pub parse_signed : Text → Option ℤ
parse_signed [] = none
parse_signed (c ∷ s) =
    if nat_eq c b'-'
    then Option.map negate (parse_nat s)
    else if nat_eq c b'+'
    then Option.map pos (parse_nat s)
    else Option.map pos (parse_nat (c ∷ s))

unfoldable pub parse_int : Text → Option ℤ
parse_int s = parse_signed (trim_start s)
