-- ===== src/Temporal/Dates.antt =====
-- Written dates, in the extended and in the basic format, and `date_days` of them.
use quackiso.Base.{
  ℕ, ◌/◌, ◌≤◌, ◌≡◌, refl, Bool, true, false, ◌&&◌, [], ◌∷◌, ◌++◌, Option, none, some, Bytes, All,
  All-append, arith, leb, le→leb, ◌==◌, if◌then◌else◌, length, take, Bool-cases, inl, inr,
}
use quackiso.Base.Int.{ℤ}
use quackiso.Text.{is_ascii}
use quackiso.Text.Digits.{digits-IsGraphic, all-is_digit}
use quackiso.Text.Trim.{trim, trim_graphic, IsGraphic}
use quackiso.Temporal.{DateParts, three_nums, split_date, date_days}
use quackiso.Temporal.Civil.{valid, days_from_civil}
use quackiso.Temporal.Calendar.{valid_iff}
use quackiso.Temporal.NextDay.{to_i32-days}
use quackiso.Temporal.Written.{digit, two, four, num-two, num-four, two-IsDigit, four-IsDigit}

-- `2019-01-23` and `20190123`, with the text that follows.
abbrev pub extended : ℕ → ℕ → ℕ → Bytes → Bytes
extended y m d rest = four y ++ (b'-' ∷ (two m ++ (b'-' ∷ (two d ++ rest))))

abbrev pub basic : ℕ → ℕ → ℕ → Bytes → Bytes
basic y m d rest = four y ++ (two m ++ (two d ++ rest))

abbrev pub parts : ℕ → ℕ → ℕ → Bytes → DateParts
parts y m d rest = record { year = y; month = m; day = d; rest = rest }

three_nums-written :
    (y m d : ℕ) (rest : Bytes)
    → y ≤ 9999
    → m ≤ 99
    → d ≤ 99
    → three_nums (four y) (two m) (two d) rest ≡ some (parts y m d rest)
unfolding three_nums
three_nums-written y m d rest hy hm hd = rw (three_nums, num-four y hy, num-two m hm, num-two d hd)

pub is_ascii-IsGraphic : (s : Bytes) → All IsGraphic s → is_ascii s ≡ true
is_ascii-IsGraphic [] h = refl
is_ascii-IsGraphic (c ∷ s) h = ground (arith, is_ascii-IsGraphic s h.1)

four-IsGraphic : (n : ℕ) → All IsGraphic (four n)
four-IsGraphic n = digits-IsGraphic (four n) (four-IsDigit n)

two-IsGraphic : (n : ℕ) → All IsGraphic (two n)
two-IsGraphic n = digits-IsGraphic (two n) (two-IsDigit n)

pub extended-IsGraphic :
    (y m d : ℕ) (rest : Bytes) → All IsGraphic rest → All IsGraphic (extended y m d rest)
extended-IsGraphic y m d rest h =
    All-append IsGraphic (four y) (b'-' ∷ (two m ++ (b'-' ∷ (two d ++ rest)))) (four-IsGraphic y) (
      omega arith,
      All-append IsGraphic (two m) (b'-' ∷ (two d ++ rest)) (two-IsGraphic m)
          (omega arith, All-append IsGraphic (two d) rest (two-IsGraphic d) h),
    )

pub basic-IsGraphic :
    (y m d : ℕ) (rest : Bytes) → All IsGraphic rest → All IsGraphic (basic y m d rest)
basic-IsGraphic y m d rest h =
    All-append IsGraphic (four y) (two m ++ (two d ++ rest)) (four-IsGraphic y) (
      All-append IsGraphic (two m) (two d ++ rest) (two-IsGraphic m)
        (All-append IsGraphic (two d) rest (two-IsGraphic d) h))

pub split_date-extended :
    (y m d : ℕ) (rest : Bytes)
    → y ≤ 9999
    → m ≤ 99
    → d ≤ 99
    → is_ascii (extended y m d rest) ≡ true
    → split_date (extended y m d rest) ≡ some (parts y m d rest)
unfolding split_date
split_date-extended y m d rest hy hm hd h =
    rw (h, le→leb 10 (length (extended y m d rest)) (omega arith))
      (three_nums-written y m d rest hy hm hd)

digit-ne-dash : (n : ℕ) → (digit n == b'-') ≡ false
digit-ne-dash n = ground arith

and-false : (b : Bool) → b && false ≡ false
and-false true = refl
and-false false = refl

pub split_date-basic :
    (y m d : ℕ) (rest : Bytes)
    → y ≤ 9999
    → m ≤ 99
    → d ≤ 99
    → is_ascii (basic y m d rest) ≡ true
    → split_date (basic y m d rest) ≡ some (parts y m d rest)
unfolding split_date
split_date-basic y m d rest hy hm hd h =
    let no_dash : (digit (m / 10) == b'-') ≡ false = digit-ne-dash (m / 10) in
    rw
      (
        h,
        no_dash,
        and-false (leb 10 (length (basic y m d rest))),
        le→leb 8 (length (basic y m d rest)) (omega arith),
        all-is_digit (take 8 (basic y m d rest)) (omega arith),
      )
      (three_nums-written y m d rest hy hm hd)

-- What `date_days` makes of the numbers: the days of a date of the calendar, and nothing else.
abbrev pub date_or_none : ℕ → ℕ → ℕ → Option ℤ
date_or_none y m d = if valid y m d then some (days_from_civil y m d) else none

date_days-split :
    (s rest : Bytes) (y m d : ℕ)
    → y ≤ 9999
    → trim s ≡ s
    → split_date s ≡ some (parts y m d rest)
    → date_days s ≡ date_or_none y m d
unfolding date_days
date_days-split s rest y m d small trimmed split = elim (Bool-cases (valid y m d)) [
  | inl date ↦ rw (trimmed, split, date) (to_i32-days y m d small ((valid_iff y m d).0 date))
  | inr other ↦ rw (trimmed, split, other)
]

-- A date written as `YYYY-MM-DD` or as `YYYYMMDD`, whatever visible text follows it, is read as
-- the number of its days, in 32 bits, if it is a date of the calendar, and as nothing if it is not.
pub date_days-written :
    (y m d : ℕ) (rest : Bytes)
    → y ≤ 9999
    → m ≤ 99
    → d ≤ 99
    → All IsGraphic rest
    → (date_days (extended y m d rest) ≡ date_or_none y m d)
      × (date_days (basic y m d rest) ≡ date_or_none y m d)
date_days-written y m d rest hy hm hd h =
    let long = extended-IsGraphic y m d rest h in
    let short = basic-IsGraphic y m d rest h in
    (
      date_days-split (extended y m d rest) rest y m d hy (trim_graphic (extended y m d rest) long)
          (split_date-extended y m d rest hy hm hd (is_ascii-IsGraphic (extended y m d rest) long)),
      date_days-split (basic y m d rest) rest y m d hy (trim_graphic (basic y m d rest) short)
          (split_date-basic y m d rest hy hm hd (is_ascii-IsGraphic (basic y m d rest) short)),
    )
