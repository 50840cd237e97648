-- ===== src/Temporal/NextDay.antt =====
-- `days_from_civil` on a day and on the next.
use quackiso.Base.{
  ℕ, zero, suc, ◌+◌, ◌*◌, ◌-◌, ◌/◌, ◌%◌, ◌≤◌, ◌<◌, ◌≡◌, ◌∙◌, ap, sym, true, some, ltb, leb,
  if◌then◌else◌, arith, Bool-cases, inl, inr, ltb→lt, ltb-false→le,
}
use quackiso.Base.Int.{ℤ, pos, sub_ℕ, ◌+ℤ◌, ◌-ℤ◌, ◌*ℤ◌, quot}
use quackiso.Temporal.Civil.{days_from_civil, valid, march_year, era_of, day_of_year, day_of_era}
use quackiso.Temporal.{to_i32}
use quackiso.Temporal.Calendar.{is_leap, month_days, month_days-le, IsDate, valid_iff}

-- The days before the date, counted from the first of March of the year -400.
abbrev pub serial_in : ℕ → ℕ → ℕ → ℕ
serial_in year m d =
    year / 400 * 146097
    + (year % 400 * 365
        + year % 400 / 4
        - year % 400 / 100
        + ((153 * ((m + 9) % 12) + 2) / 5 + d - 1))

abbrev pub shifted : ℕ → ℕ → ℕ
shifted y m = if leb m 2 then y + 399 else y + 400

era-serial : (y m : ℕ) → era_of (march_year y m) ≡ sub_ℕ (shifted y m / 400) 1
unfolding march_year era_of quot ◌-ℤ◌
era-serial y m = ground arith

yoe-serial :
    (y m : ℕ) → march_year y m -ℤ sub_ℕ (shifted y m / 400) 1 *ℤ 400 ≡ pos (shifted y m % 400)
unfolding march_year ◌-ℤ◌ ◌*ℤ◌
yoe-serial y m = ground arith

doe-serial :
    (r m d : ℕ)
    → 1 ≤ d
    → day_of_era (pos r) (day_of_year m d)
      ≡ pos (r * 365 + r / 4 - r / 100 + ((153 * ((m + 9) % 12) + 2) / 5 + d - 1))
unfolding day_of_era day_of_year quot ◌+ℤ◌ ◌-ℤ◌ ◌*ℤ◌
doe-serial r m d h = ground arith

total-serial :
    (e n : ℕ) → sub_ℕ e 1 *ℤ 146097 +ℤ pos n -ℤ pos 719468 ≡ sub_ℕ (e * 146097 + n) 865565
unfolding ◌+ℤ◌ ◌-ℤ◌ ◌*ℤ◌
total-serial e n = ground arith

pub days-serial :
    (y m d : ℕ) → 1 ≤ d → days_from_civil y m d ≡ sub_ℕ (serial_in (shifted y m) m d) 865565
unfolding days_from_civil
days-serial y m d h =
    rw (days_from_civil, era-serial y m, yoe-serial y m, doe-serial (shifted y m % 400) m d h)
      (total-serial (shifted y m / 400) _)

-- From the last day of February to the first of March.
february :
    (y : ℕ) → serial_in (y + 400) 3 1 ≡ serial_in (y + 399) 2 (if is_leap y then 29 else 28) + 1
february y = ground arith

month_end :
    (y m : ℕ)
    → 1 ≤ m
    → m < 12
    → serial_in (shifted y (m + 1)) (m + 1) 1 ≡ serial_in (shifted y m) m (month_days y m) + 1
month_end y zero lo hi = absurd (omega arith)
month_end y (suc zero) lo hi = ground arith
month_end y (suc (suc zero)) lo hi = february y
month_end y (suc (suc (suc zero))) lo hi = ground arith
month_end y (suc (suc (suc (suc zero)))) lo hi = ground arith
month_end y (suc (suc (suc (suc (suc zero))))) lo hi = ground arith
month_end y (suc (suc (suc (suc (suc (suc zero)))))) lo hi = ground arith
month_end y (suc (suc (suc (suc (suc (suc (suc zero))))))) lo hi = ground arith
month_end y (suc (suc (suc (suc (suc (suc (suc (suc zero)))))))) lo hi = ground arith
month_end y (suc (suc (suc (suc (suc (suc (suc (suc (suc zero))))))))) lo hi = ground arith
month_end y (suc (suc (suc (suc (suc (suc (suc (suc (suc (suc zero)))))))))) lo hi = ground arith
month_end y (suc (suc (suc (suc (suc (suc (suc (suc (suc (suc (suc zero))))))))))) lo hi =
    ground arith
month_end y (suc (suc (suc (suc (suc (suc (suc (suc (suc (suc (suc (suc k)))))))))))) lo hi =
    absurd (omega arith)

year_end : (y : ℕ) → serial_in (shifted (y + 1) 1) 1 1 ≡ serial_in (shifted y 12) 12 31 + 1
year_end y = ground arith

-- The day after a date.
abbrev pub next_date : ℕ × ℕ × ℕ → ℕ × ℕ × ℕ
next_date (y, m, d) =
    if ltb d (month_days y m)
    then (y, m, d + 1)
    else if ltb m 12
    then (y, m + 1, 1)
    else (y + 1, 1, 1)

abbrev pub days_of : ℕ × ℕ × ℕ → ℤ
days_of (y, m, d) = days_from_civil y m d

one_more : (n : ℕ) → sub_ℕ (n + 1) 865565 ≡ sub_ℕ n 865565 +ℤ pos 1
unfolding ◌+ℤ◌
one_more n = ground arith

serial_of : ℕ × ℕ × ℕ → ℕ
serial_of (y, m, d) = serial_in (shifted y m) m d

serial-next_date :
    (y m d : ℕ) → IsDate y m d → serial_of (next_date (y, m, d)) ≡ serial_of (y, m, d) + 1
unfolding serial_of
serial-next_date y m d h = elim (Bool-cases (ltb d (month_days y m))) [
  | inl inside ↦ rw inside (omega arith)
  | inr last ↦
      let e : d ≡ month_days y m = omega (arith, h.day_high, ltb-false→le _ _ last) in
      elim (Bool-cases (ltb m 12)) [
        | inl early ↦ rw (last, early, e) (month_end y m h.month_low (ltb→lt _ _ early))
        | inr december ↦
            let e' : m ≡ 12 = omega (arith, h.month_high, ltb-false→le _ _ december) in
            rw (last, december, e, e') (year_end y)
      ]
]

next_date-IsDate :
    (y m d : ℕ)
    → IsDate y m d
    → IsDate (next_date (y, m, d)).0 (next_date (y, m, d)).1 (next_date (y, m, d)).2
next_date-IsDate y m d h = ground arith

-- On a date of the calendar `valid` holds of the next date too, and the number of days grows by
-- one from the date to the next, over the ends of months, leap days and the ends of years.
pub days_from_civil-next_date :
    (y m d : ℕ)
    → valid y m d ≡ true
    → (valid (next_date (y, m, d)).0 (next_date (y, m, d)).1 (next_date (y, m, d)).2 ≡ true)
      × (days_of (next_date (y, m, d)) ≡ days_from_civil y m d +ℤ pos 1)
unfolding serial_of
days_from_civil-next_date y m d h =
    let date = (valid_iff y m d).0 h in
    let next = next_date-IsDate y m d date in
    let (y', m', d') = next_date (y, m, d) in
    (
      (valid_iff y' m' d').1 next,
      days-serial y' m' d' next.day_low
          ∙ ap (λ n. sub_ℕ n 865565) (serial-next_date y m d date)
          ∙ one_more (serial_of (y, m, d))
          ∙ ap (λ n. n +ℤ pos 1) (sym (days-serial y m d date.day_low)),
    )

serial-le : (z m d : ℕ) → z ≤ 10399 → d ≤ 31 → serial_in z m d ≤ 5_000_000
serial-le z m d small h = omega arith

to_i32-sub_ℕ : (n : ℕ) → n ≤ 5_000_000 → to_i32 (sub_ℕ n 865565) ≡ some (sub_ℕ n 865565)
unfolding to_i32
to_i32-sub_ℕ n h = ground arith

shifted-le : (y m : ℕ) → y ≤ 9999 → shifted y m ≤ 10399
shifted-le y m h = ground arith

-- Over the years that four digits write, a day is an `i32`.
pub to_i32-days :
    (y m d : ℕ)
    → y ≤ 9999
    → IsDate y m d
    → to_i32 (days_from_civil y m d) ≡ some (days_from_civil y m d)
to_i32-days y m d small h = rw (days-serial y m d h.day_low) (
    to_i32-sub_ℕ (serial_in (shifted y m) m d) (
      serial-le (shifted y m) m d (shifted-le y m small)
        (omega (arith, h.day_high, month_days-le y m))))
