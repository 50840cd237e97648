-- ===== src/Mt/Dates/Pivot.antt =====
-- `date2_full` of a written date, and the dates that `entry_date` tries.
use quackiso.Base.{ℕ, ◌%◌, ◌≤◌, ◌≡◌, ap, ◌∙◌, [], ◌++◌, none, some, Bytes, arith, if◌then◌else◌}
use quackiso.Text.Digits.{number, number_from, all-is_digit, digits-IsGraphic}
use quackiso.Text.Trim.{trim_graphic}
use quackiso.Temporal.Civil.{valid, days_from_civil}
use quackiso.Temporal.Written.{two}
use quackiso.Temporal.Dates.{date_or_none, date_days-written}
use quackiso.Mt.Dates.{pivot_year, in_century, date2_full, candidate}

-- `YYMMDD` and `MMDD`
abbrev pub six : ℕ → ℕ → ℕ → Bytes
six yy m d = two yy ++ (two m ++ two d)

abbrev pub month_day : ℕ → ℕ → Bytes
month_day m d = two m ++ two d

pub number-two : (n : ℕ) → n ≤ 99 → number (two n) ≡ n
unfolding number number_from
number-two n h = ground arith

pub pivot_year-le : (yy : ℕ) → yy ≤ 99 → pivot_year yy ≤ 2068
pivot_year-le yy h = ground arith

-- The date of `MMDD` in a year is the date of the calendar, if there is one.
pub candidate-month_day :
    (year m d : ℕ)
    → year ≤ 9999
    → m ≤ 99
    → d ≤ 99
    → candidate (month_day m d) year ≡ date_or_none year m d
unfolding candidate
candidate-month_day year m d hy hm hd = (date_days-written year m d [] hy hm hd tt).1

in_century-written :
    (year m d : ℕ)
    → year ≤ 9999
    → m ≤ 99
    → d ≤ 99
    → in_century year (month_day m d)
      ≡ (if valid year m d then some (days_from_civil year m d, year) else none)
unfolding in_century
in_century-written year m d hy hm hd =
    rw ((date_days-written year m d [] hy hm hd tt).1) (ground arith)

-- The date of `YYMMDD` is the one in the century of the pivot.
pub date2_full-six :
    (yy m d : ℕ)
    → yy ≤ 99
    → m ≤ 99
    → d ≤ 99
    → date2_full (six yy m d) ≡ (
        if valid (pivot_year yy) m d
        then some (days_from_civil (pivot_year yy) m d, pivot_year yy)
        else none)
unfolding date2_full
date2_full-six yy m d hy hm hd =
    let small : pivot_year yy ≤ 9999 = omega (arith, pivot_year-le yy hy) in
    rw
      (
        trim_graphic (six yy m d) (digits-IsGraphic (six yy m d) (omega arith)),
        all-is_digit (six yy m d) (omega arith),
        number-two yy hy,
      )
      (in_century-written (pivot_year yy) m d small hm hd)

-- The two digits of a year between 1969 and 2068 are in its own century.
century_of : (year : ℕ) → 1969 ≤ year → year ≤ 2068 → pivot_year (year % 100) ≡ year
century_of year lo hi = ground arith

-- A date of the years 1969 to 2068 that is written as `YYMMDD`, with the last two digits of its year,
-- is read as the days of that date and its year with the century, and as nothing if the calendar has
-- no such date.
pub date2_full-written :
    (year m d : ℕ)
    → 1969 ≤ year
    → year ≤ 2068
    → m ≤ 99
    → d ≤ 99
    → date2_full (six (year % 100) m d)
      ≡ (if valid year m d then some (days_from_civil year m d, year) else none)
date2_full-written year m d lo hi hm hd =
    date2_full-six (year % 100) m d (omega arith) hm hd
    ∙ ap (λ y. if valid y m d then some (days_from_civil y m d, y) else none)
        (century_of year lo hi)
