-- ===== src/Prelude/Dates.antt =====
-- The parts of `Date` that the program uses. A time is the number of milliseconds since 1970 began,
-- in UTC; a `Date` made from a row is not before 1970.
use Prim.Native.Nat.{ℕ, ◌+◌, ◌-◌, ◌*◌, ◌/◌, ◌%◌}
use mathlib.Core.Bool.{Bool, ◌&&◌}
use mathlib.Core.List.{List, [], ◌∷◌, ◌++◌}
use mathlib.Core.Option.{Option, none, some}
use enclave_mail.Prelude.Tests.{ltb, leb, if◌then◌else◌}
use enclave_mail.Prelude.Lists.{get_elem?}
use enclave_mail.Prelude.Strings.{Text, codes, show}
use enclave_mail.Prelude.Int.{ℤ, pos, negsuc}

abbrev pub ms_per_day : ℕ
ms_per_day = 86400000

-- A day of the calendar; months count from 0.
pub record Civil : Type 0 where
  pub year : ℕ
  pub month : ℕ
  pub day : ℕ

-- The calendar day of a day number from 1970-01-01, by eras of 400 years that begin in March.
unfoldable pub civil_of_days : ℕ → Civil
civil_of_days days =
    let z = days + 719468 in
    let era = z / 146097 in
    let doe = z % 146097 in
    let yoe = (doe + doe / 36524 - doe / 1460 - doe / 146096) / 365 in
    let doy = doe - (365 * yoe + yoe / 4 - yoe / 100) in
    let mp = (5 * doy + 2) / 153 in
    let month = if ltb mp 10 then mp + 2 else mp - 10 in
    record {
      year = yoe + era * 400 + (if leb month 1 then 1 else 0);
      month = month;
      day = doy + 1 - (153 * mp + 2) / 5;
    }

-- The day number of the first of a month, plus 719468; the year is at least 1.
unfoldable pub days_of_month : ℕ → ℕ → ℕ
days_of_month year month =
    let y = if leb month 1 then year - 1 else year in
    let mp = if leb month 1 then month + 10 else month - 2 in
    let yoe = y % 400 in y / 400 * 146097 + (yoe * 365 + yoe / 4 - yoe / 100 + (153 * mp + 2) / 5)

-- `Date.UTC(year, month, day, 0, 0, 0)`: a year below 100 is of the twentieth century, and a day
-- counts on from the first of the month, also past its end. The result is a day number.
unfoldable pub utc_day : ℕ → ℕ → ℕ → ℤ
utc_day year month day =
    let full_year = if ltb year 100 then year + 1900 else year in
    let days = days_of_month full_year month + day in
    if leb 719469 days then pos (days - 719469) else negsuc (719468 - days)

unfoldable pub pad2 : ℕ → Text
pad2 n = if ltb n 10 then b'0' ∷ show n else show n

abbrev pub name_at : ℕ → List Text → Text → Text
name_at i names default = elim (get_elem? names i) [ none ↦ default | some name ↦ name ]

abbrev pub months : List Text
months =
    codes "Jan"
    ∷ codes "Feb"
    ∷ codes "Mar"
    ∷ codes "Apr"
    ∷ codes "May"
    ∷ codes "Jun"
    ∷ codes "Jul"
    ∷ codes "Aug"
    ∷ codes "Sep"
    ∷ codes "Oct"
    ∷ codes "Nov"
    ∷ codes "Dec"
    ∷ []

abbrev pub weekdays : List Text
weekdays =
    codes "Sun"
    ∷ codes "Mon"
    ∷ codes "Tue"
    ∷ codes "Wed"
    ∷ codes "Thu"
    ∷ codes "Fri"
    ∷ codes "Sat"
    ∷ []

-- `hh:mm:ss` of a time.
unfoldable pub clock_text : ℕ → Text
clock_text time =
    let seconds = time / 1000 % 86400 in
    pad2 (seconds / 3600)
    ++ (codes ":" ++ (pad2 (seconds / 60 % 60) ++ (codes ":" ++ pad2 (seconds % 60))))

unfoldable pub pad4 : ℕ → Text
pad4 n =
    if ltb n 10
    then codes "000" ++ show n
    else if ltb n 100
    then codes "00" ++ show n
    else if ltb n 1000
    then codes "0" ++ show n
    else show n

-- `toUTCString()`.
unfoldable pub to_utc_string : ℕ → Text
to_utc_string time =
    let days = time / ms_per_day in
    let c = civil_of_days days in
    name_at ((days + 4) % 7) weekdays []
    ++ (codes ", "
        ++ (pad2 c.day
            ++ (codes " "
                ++ (name_at c.month months []
                    ++ (codes " "
                        ++ (pad4 c.year ++ (codes " " ++ (clock_text time ++ codes " GMT"))))))))

unfoldable pub date_methods : Unit {0}
unfolding civil_of_days days_of_month utc_day pad2 pad4 clock_text to_utc_string
date_methods = tt

-- `TextEncoder.encode`: UTF-8 of UTF-16 code units; a lone surrogate becomes U+FFFD.
abbrev pub is_high : ℕ → Bool
is_high c = leb 0xd800 c && leb c 0xdbff

abbrev pub is_low : ℕ → Bool
is_low c = leb 0xdc00 c && leb c 0xdfff

abbrev pub replacement : List ℕ
replacement = 0xef ∷ 0xbf ∷ 0xbd ∷ []

unfoldable pub utf8_unit : ℕ → List ℕ
utf8_unit c =
    if ltb c 0x80
    then c ∷ []
    else if ltb c 0x800
    then (0xc0 + c / 64) ∷ (0x80 + c % 64) ∷ []
    else if is_high c
    then []
    else if is_low c
    then replacement
    else (0xe0 + c / 4096) ∷ (0x80 + c / 64 % 64) ∷ (0x80 + c % 64) ∷ []

unfoldable pub utf8_pair : ℕ → ℕ → List ℕ
utf8_pair h l =
    let p = 0x10000 + (h - 0xd800) * 1024 + (l - 0xdc00) in
    (0xf0 + p / 262144) ∷ (0x80 + p / 4096 % 64) ∷ (0x80 + p / 64 % 64) ∷ (0x80 + p % 64) ∷ []

abbrev pub pending_of : ℕ → Option ℕ
pending_of c = if is_high c then some c else none

-- What one more unit emits, after a high surrogate that waits for its partner.
unfoldable pub utf8_step : Option ℕ → ℕ → List ℕ
utf8_step none c = utf8_unit c
utf8_step (some h) c = if is_low c then utf8_pair h c else replacement ++ utf8_unit c

unfoldable pub utf8_from : Option ℕ → Text → List ℕ
utf8_from none [] = []
utf8_from (some h) [] = replacement
utf8_from pending (c ∷ s) = utf8_step pending c ++ utf8_from (pending_of c) s

unfoldable pub to_bytes : Text → List ℕ
to_bytes value = utf8_from none value
