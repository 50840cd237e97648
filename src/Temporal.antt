-- ===== src/Temporal.antt =====
-- src/temporal.rs: dates as days and date-times as microseconds from 1970-01-01, in UTC.
pub mod Civil
pub mod Calendar
pub mod NextDay
pub mod Years
pub mod Written
pub mod Dates
pub mod Zones
pub mod Stamps
pub use Civil.*
use quackiso.Base.{
  ℕ, ◌+◌, ◌*◌, ◌-◌, ◌^◌, Bool, true, false, not, ◌&&◌, ◌||◌, List, [], ◌∷◌, ◌++◌, Option, none,
  some, Bytes, codes, ltb, leb, ◌==◌, if◌then◌else◌, length, get_or, take, drop, replicate,
  and_then,
}
use quackiso.Base.Int.{ℤ, pos, negsuc, ◌+ℤ◌, ◌-ℤ◌, ◌*ℤ◌, neg}
use quackiso.Text.{is_digit, is_ascii, is_empty, all, span, str_eq}
use quackiso.Text.Digits.{number}
use quackiso.Text.Trim.{trim}

-- `s[lo..hi]`; every caller has compared the length first
abbrev pub slice : ℕ → ℕ → Bytes → Bytes
slice lo hi s = take (hi - lo) (drop lo s)

-- Digits as an `i64`, which is not negative here.
unfoldable pub num : Bytes → Option ℕ
num s =
    if is_empty s || not (all is_digit s)
    then none
    else if ltb (number s) (2 ^ 63)
    then some (number s)
    else none

-- The year, the month, the day, and the text behind the date.
pub record DateParts : Type 0 where
  pub year : ℕ
  pub month : ℕ
  pub day : ℕ
  pub rest : Bytes

unfoldable pub three_nums : Bytes → Bytes → Bytes → Bytes → Option DateParts
three_nums y m d rest = and_then (num y) λ y'.
    and_then (num m)
      λ m'. and_then (num d) λ d'. some (record { year = y'; month = m'; day = d'; rest = rest })

unfoldable pub split_date : Bytes → Option DateParts
split_date s =
    if not (is_ascii s)
    then none
    else if leb 10 (length s) && (get_or s 4 0 == b'-' && get_or s 7 0 == b'-')
    then three_nums (slice 0 4 s) (slice 5 7 s) (slice 8 10 s) (drop 10 s)
    else if leb 8 (length s) && all is_digit (take 8 s)
    then three_nums (slice 0 4 s) (slice 4 6 s) (slice 6 8 s) (drop 8 s)
    else none

-- `i32::try_from`
unfoldable pub to_i32 : ℤ → Option ℤ
to_i32 (pos n) = if ltb n (2 ^ 31) then some (pos n) else none
to_i32 (negsuc n) = if ltb n (2 ^ 31) then some (negsuc n) else none

unfoldable pub date_days : Bytes → Option ℤ
date_days s = and_then (split_date (trim s)) λ p.
    if not (valid p.year p.month p.day) then none else to_i32 (days_from_civil p.year p.month p.day)

-- The hours and minutes of an offset; without a colon the minutes may be missing or unreadable.
unfoldable pub offset_minutes : Bytes → Option ℕ
offset_minutes tail =
    if leb 6 (length tail) && get_or tail 3 0 == b':'
    then num (slice 4 6 tail)
    else if leb 5 (length tail)
    then elim (num (slice 3 5 tail)) [ none ↦ some 0 | some n ↦ some n ]
    else some 0

unfoldable pub shift_by : ℤ → Bool → Bytes → Option ℤ
shift_by micros east tail =
    if leb 3 (length tail)
    then (and_then (num (slice 1 3 tail)) λ oh. and_then (offset_minutes tail) λ om.
        let offset = pos ((oh * 3600 + om * 60) * 1_000_000) in
        some (if east then micros -ℤ offset else micros +ℤ offset))
    else some micros

-- The zone: Z is UTC, an offset is subtracted, and anything else is ignored.
unfoldable pub with_zone : ℤ → Bytes → Option ℤ
with_zone micros text =
    let tail = trim text in
    if is_empty tail || (str_eq tail (codes "Z") || str_eq tail (codes "z"))
    then some micros
    else if get_or tail 0 0 == b'+'
    then shift_by micros true tail
    else if get_or tail 0 0 == b'-'
    then shift_by micros false tail
    else some micros

-- Six digits of a fraction, cut off or filled up with zeros.
unfoldable pub six_digits : Bytes → Bytes
six_digits digits = take 6 digits ++ replicate (6 - length digits) b'0'

unfoldable pub with_fraction : ℤ → Bytes → Option ℤ
with_fraction micros [] = with_zone micros []
with_fraction micros (c ∷ frac) =
    let digits = (span is_digit frac).0 in
    if c == b'.' && not (is_empty digits)
    then (and_then (num (six_digits digits))
        λ us. with_zone (micros +ℤ pos us) (drop (1 + length digits) (c ∷ frac)))
    else with_zone micros (c ∷ frac)

unfoldable pub with_seconds : ℤ → Bytes → Option ℤ
with_seconds micros tail =
    if leb 3 (length tail) && get_or tail 0 0 == b':'
    then (and_then (num (slice 1 3 tail)) λ sec.
        if ltb 60 sec then none else with_fraction (micros +ℤ pos (sec * 1_000_000)) (drop 3 tail))
    else with_zone micros tail

unfoldable pub with_time : ℤ → Bytes → Option ℤ
with_time micros rest =
    if leb 5 (length rest) && get_or rest 2 0 == b':'
    then (and_then (num (slice 0 2 rest)) λ h. and_then (num (slice 3 5 rest)) λ mi.
        if ltb 23 h || ltb 59 mi
        then none
        else with_seconds (micros +ℤ pos ((h * 3600 + mi * 60) * 1_000_000)) (drop 5 rest))
    else some micros

-- `strip_prefix('T')`, or else `strip_prefix(' ')`
unfoldable pub strip_separator : Bytes → Bytes
strip_separator [] = []
strip_separator (c ∷ s) = if c == b'T' || c == b' ' then s else c ∷ s

unfoldable pub ts_micros : Bytes → Option ℤ
ts_micros s = and_then (split_date (trim s)) λ p.
    if not (valid p.year p.month p.day)
    then none
    else with_time (days_from_civil p.year p.month p.day *ℤ 86_400_000_000) (strip_separator p.rest)
