-- ===== src/Mt/Dates.antt =====
-- The dates of a message: two-digit years, the entry date of a statement line, and `:13D:`.
pub mod Pivot
pub mod EntryDate
use quackiso.Base.{
  ℕ, zero, suc, ◌+◌, ◌-◌, ◌*◌, Bool, true, false, not, ◌&&◌, ◌||◌, [], ◌∷◌, ◌++◌, Option, none,
  some, Bytes, ltb, leb, ◌==◌, if◌then◌else◌, length, take, drop, get_or, Result, ok, err, and_then,
}
use quackiso.Base.Int.{ℤ, abs, ltb_ℤ, ◌-ℤ◌}
use quackiso.Text.{all, is_digit, is_ascii}
use quackiso.Text.Digits.{number}
use quackiso.Text.Trim.{trim}
use quackiso.Temporal.{date_days, ts_micros, slice}
use quackiso.Temporal.Written.{four}
use quackiso.Mt.Error.{MtError, not_a_datetime, not_an_offset}

abbrev pub year_pivot : ℕ
year_pivot = 69

-- `s.len() == n` of digits
abbrev pub digits_of_length : ℕ → Bytes → Bool
digits_of_length n s = length s == n && all is_digit s

abbrev pub pivot_year : ℕ → ℕ
pivot_year yy = if ltb yy year_pivot then 2000 + yy else 1900 + yy

abbrev pub with_year : ℕ → Option ℤ → Option (ℤ × ℕ)
with_year year none = none
with_year year (some days) = some (days, year)

-- Six digits, with the century that the pivot says. The years here have four digits.
unfoldable pub in_century : ℕ → Bytes → Option (ℤ × ℕ)
in_century year mmdd = with_year year (date_days (four year ++ mmdd))

-- `YYMMDD`: the days, and the year with its century.
unfoldable pub date2_full : Bytes → Option (ℤ × ℕ)
date2_full yymmdd =
    let s = trim yymmdd in
    if not (digits_of_length 6 s)
    then none
    else in_century (pivot_year (number (take 2 s))) (drop 2 s)

unfoldable pub date2 : Bytes → Option ℤ
date2 yymmdd = elim (date2_full yymmdd) [ none ↦ none | some (days, year) ↦ some days ]

-- The date of `MMDD` in a year.
unfoldable pub candidate : Bytes → ℕ → Option ℤ
candidate s year = date_days (four year ++ s)

-- `Option::or_else`
abbrev pub or_else {ℓ} : {A : Type ℓ} → Option A → Option A → Option A
or_else none other = other
or_else (some a) other = some a

-- A date 330 days away or more belongs to the neighbouring year, if there it is a date.
unfoldable pub shift_year : Bytes → ℤ → ℕ → ℤ → ℤ
shift_year s value_days value_year days =
    if leb 330 (abs (days -ℤ value_days))
    then (let neighbour = if ltb_ℤ value_days days then value_year - 1 else value_year + 1 in
        elim (candidate s neighbour) [ none ↦ days | some shifted ↦ shifted ])
    else days

-- `MMDD` beside a value date; the year of that is four digits, so it has a year before it.
unfoldable pub entry_date : Bytes → ℤ → ℕ → Option ℤ
entry_date mmdd value_days value_year =
    let s = trim mmdd in
    if not (digits_of_length 4 s)
    then none
    else elim (or_else (candidate s value_year)
        (or_else (candidate s (value_year - 1)) (candidate s (value_year + 1)))) [
          | none ↦ none
          | some days ↦ some (shift_year s value_days value_year days)
        ]

-- The report time as it is written, in its own zone.
unfoldable pub local_micros : Bytes → Option ℤ
local_micros s = elim (date2_full (take 6 s)) [
  | none ↦ none
  | some (days, year) ↦ ts_micros (
      four year
      ++ (b'-'
          ∷ (slice 2 4 s
              ++ (b'-'
                  ∷ (slice 4 6 s
                      ++ (b'T'
                          ∷ (slice 6 8 s
                              ++ (b':' ∷ (slice 8 10 s ++ (b':' ∷ b'0' ∷ b'0' ∷ []))))))))))
]

-- `YYMMDDHHMMsHHMM`: the time, and the offset beside it.
unfoldable pub datetime13d : Bytes → Result MtError (Option ℤ × Bytes)
datetime13d v =
    let s = trim v in
    if ltb (length s) 15 || not (is_ascii s)
    then err (not_a_datetime v)
    else if not (get_or s 10 0 == b'+') && not (get_or s 10 0 == b'-')
    then err (not_an_offset v)
    else if not (all is_digit (slice 11 15 s))
    then err (not_an_offset v)
    else ok (local_micros s, slice 10 11 s ++ slice 11 15 s)
