-- ===== src/Mt/Dates/EntryDate.antt =====
-- The year of the entry date, which is not on the wire.
use quackiso.Base.{
  ℕ, ◌+◌, ◌-◌, ◌≤◌, ◌<◌, ◌≡◌, subst, ap, ◌∙◌, ◌⊎◌, inl, inr, true, false, Option, some, Bytes, ltb,
  leb, lt→ltb, le→ltb_false, leb→le, le→leb, lt→leb_false, arith, Bool-cases,
}
use quackiso.Base.Int.{ℤ, abs, sub_ℕ, ◌-ℤ◌, ltb_ℤ}
use quackiso.Text.Digits.{all-is_digit, digits-IsGraphic}
use quackiso.Text.Trim.{trim_graphic}
use quackiso.Temporal.Civil.{valid, days_from_civil}
use quackiso.Temporal.Calendar.{IsDate, valid_iff, month_days, month_days-le}
use quackiso.Temporal.NextDay.{days-serial, serial_in, shifted}
use quackiso.Temporal.Years.{same_day-next_year, leap_day-far, far-leap_day}
use quackiso.Mt.Dates.{entry_date, shift_year, candidate}
use quackiso.Mt.Dates.Pivot.{month_day, candidate-month_day}

-- Days apart, and which comes first, by the serial numbers of the days.
apart : (a b k : ℕ) → abs (sub_ℕ a k -ℤ sub_ℕ b k) ≡ (a - b) + (b - a)
unfolding ◌-ℤ◌
apart a b k = ground arith

before : (a b k : ℕ) → ltb_ℤ (sub_ℕ a k) (sub_ℕ b k) ≡ ltb a b
before a b k = ground arith

abbrev serial : ℕ → ℕ → ℕ → ℕ
serial y m d = serial_in (shifted y m) m d

days_apart :
    (y m d y' m' d' : ℕ)
    → 1 ≤ d
    → 1 ≤ d'
    → abs (days_from_civil y m d -ℤ days_from_civil y' m' d')
      ≡ (serial y m d - serial y' m' d') + (serial y' m' d' - serial y m d)
days_apart y m d y' m' d' h h' =
    rw (days-serial y m d h, days-serial y' m' d' h')
      (apart (serial y m d) (serial y' m' d') 865565)

days_before :
    (y m d y' m' d' : ℕ)
    → 1 ≤ d
    → 1 ≤ d'
    → ltb_ℤ (days_from_civil y m d) (days_from_civil y' m' d')
      ≡ ltb (serial y m d) (serial y' m' d')
days_before y m d y' m' d' h h' =
    rw (days-serial y m d h, days-serial y' m' d' h')
      (before (serial y m d) (serial y' m' d') 865565)

-- Only the leap day is a date of one year and not of another.
other_year : (y y' m d : ℕ) → IsDate y m d → ((m ≡ 2) × (d ≡ 29)) ⊎ IsDate y' m d
other_year y y' m d h = elim (Bool-cases (leb d (month_days y' m))) [
  | inl fits ↦ inr (record {
    month_low = h.month_low;
    month_high = h.month_high;
    day_low = h.day_low;
    day_high = leb→le _ _ fits;
  })
  | inr not_there ↦ inl (ground arith)
]

module _ (m d : ℕ) (hm : m ≤ 99) (hd : d ≤ 99) (value_days : ℤ) (year : ℕ)
    (small : year ≤ 9998) where
  candidate-date :
      (y : ℕ) → y ≤ 9999 → IsDate y m d → candidate (month_day m d) y ≡ some (days_from_civil y m d)
  candidate-date y h date = candidate-month_day y m d h hm hd ∙ rw ((valid_iff y m d).1 date)

  -- The year of the value date is tried first.
  entry_date-same_year :
      IsDate year m d
      → entry_date (month_day m d) value_days year
        ≡ some (shift_year (month_day m d) value_days year (days_from_civil year m d))
  unfolding entry_date
  entry_date-same_year date =
      let whole = trim_graphic (month_day m d) (digits-IsGraphic (month_day m d) (omega arith)) in
      rw (whole, all-is_digit (month_day m d) (omega arith), candidate-date year (omega arith) date)
        (ap (λ (s : Bytes). some (shift_year s value_days year (days_from_civil year m d))) whole)

  shift_year-near :
      (days : ℤ)
      → abs (days -ℤ value_days) < 330
      → shift_year (month_day m d) value_days year days ≡ days
  unfolding shift_year
  shift_year-near days h = rw (lt→leb_false 330 (abs (days -ℤ value_days)) h)

  shift_year-back :
      (days : ℤ)
      → 330 ≤ abs (days -ℤ value_days)
      → ltb_ℤ value_days days ≡ true
      → IsDate (year - 1) m d
      → shift_year (month_day m d) value_days year days ≡ days_from_civil (year - 1) m d
  unfolding shift_year
  shift_year-back days far later date = rw (
    le→leb 330 (abs (days -ℤ value_days)) far,
    later,
    candidate-date (year - 1) (omega arith) date,
  )

  shift_year-on :
      (days : ℤ)
      → 330 ≤ abs (days -ℤ value_days)
      → ltb_ℤ value_days days ≡ false
      → IsDate (year + 1) m d
      → shift_year (month_day m d) value_days year days ≡ days_from_civil (year + 1) m d
  unfolding shift_year
  shift_year-on days far later date = rw (
    le→leb 330 (abs (days -ℤ value_days)) far,
    later,
    candidate-date (year + 1) (omega arith) date,
  )

-- A booking within 35 days of the value date: `m` and `d` are those of the booking.
abbrev pub Near : ℕ → ℕ → ℕ → ℕ → ℕ → ℕ → Type 0
Near y m d year vm vd = abs (days_from_civil y m d -ℤ days_from_civil year vm vd) ≤ 35

module _ (m d year vm vd : ℕ) (small : year ≤ 9998) (value : IsDate year vm vd) where
  abbrev found : Option ℤ
  found = entry_date (month_day m d) (days_from_civil year vm vd) year

  this_year : IsDate year m d → Near year m d year vm vd → found ≡ some (days_from_civil year m d)
  this_year date near =
      let hd : d ≤ 99 = omega (arith, date.day_high, month_days-le year m) in
      let hm : m ≤ 99 = omega (arith, date.month_high) in
      entry_date-same_year m d hm hd (days_from_civil year vm vd) year small date
      ∙ ap some (
          shift_year-near m d hm hd (days_from_civil year vm vd) year small
            (days_from_civil year m d) (omega arith))

  -- Both distances by the serial numbers.
  Near-serial :
      (y : ℕ)
      → 1 ≤ d
      → Near y m d year vm vd
      → (serial y m d - serial year vm vd) + (serial year vm vd - serial y m d) ≤ 35
  Near-serial y low near = omega (arith, near, days_apart y m d year vm vd low value.day_low)

  day_before_last : (y : ℕ) → y + 1 ≡ year → (m ≡ 2) × (d ≡ 29) → Near y m d year vm vd → ⊥
  day_before_last y next (em, ed) near =
      let n = Near-serial y (omega (arith, ed)) near in
      let far : serial y 2 29 + 300 ≤ serial year vm vd =
        subst (λ (n : ℕ). IsDate n vm vd → serial y 2 29 + 300 ≤ serial n vm vd) next
          (leap_day-far y vm vd) value in
      absurd (omega (arith, rw (em, ed) at n, far))

  last_year :
      (y : ℕ)
      → y + 1 ≡ year
      → IsDate y m d
      → Near y m d year vm vd
      → found ≡ some (days_from_civil y m d)
  last_year y next date near = elim (other_year y year m d date) [
    | inl leap_day ↦ absurd (day_before_last y next leap_day near)
    | inr date' ↦
        let hd : d ≤ 99 = omega (arith, date.day_high, month_days-le y m) in
        let hm : m ≤ 99 = omega (arith, date.month_high) in
        let n = Near-serial y date.day_low near in
        let shifted_by : (serial y m d + 365 ≤ serial year m d)
            × (serial year m d ≤ serial y m d + 366) =
          subst
            (λ (n : ℕ). (serial y m d + 365 ≤ serial n m d) × (serial n m d ≤ serial y m d + 366))
            next (same_day-next_year y m d date.day_low) in
        let y_eq : year - 1 ≡ y = omega arith in
        entry_date-same_year m d hm hd (days_from_civil year vm vd) year small date'
        ∙ ap some (
            shift_year-back m d hm hd (days_from_civil year vm vd) year small
              (days_from_civil year m d)
              (omega (arith, days_apart year m d year vm vd date.day_low value.day_low))
              (days_before year vm vd year m d value.day_low date.day_low
                ∙ lt→ltb (serial year vm vd) (serial year m d) (omega arith))
              (rw y_eq date))
        ∙ ap (λ (n : ℕ). some (days_from_civil n m d)) y_eq
  ]

  day_after_next : (m ≡ 2) × (d ≡ 29) → Near (year + 1) m d year vm vd → ⊥
  day_after_next (em, ed) near =
      let n = Near-serial (year + 1) (omega (arith, ed)) near in
      absurd (omega (arith, rw (em, ed) at n, far-leap_day year vm vd value))

  next_year :
      IsDate (year + 1) m d
      → Near (year + 1) m d year vm vd
      → found ≡ some (days_from_civil (year + 1) m d)
  next_year date near = elim (other_year (year + 1) year m d date) [
    | inl leap_day ↦ absurd (day_after_next leap_day near)
    | inr date' ↦
        let hd : d ≤ 99 = omega (arith, date.day_high, month_days-le (year + 1) m) in
        let hm : m ≤ 99 = omega (arith, date.month_high) in
        let n = Near-serial (year + 1) date.day_low near in
        let moved = same_day-next_year year m d date.day_low in
        entry_date-same_year m d hm hd (days_from_civil year vm vd) year small date'
        ∙ ap some (
            shift_year-on m d hm hd (days_from_civil year vm vd) year small
              (days_from_civil year m d)
              (omega (arith, days_apart year m d year vm vd date.day_low value.day_low))
              (days_before year vm vd year m d value.day_low date.day_low
                ∙ le→ltb_false (serial year vm vd) (serial year m d) (omega arith))
              date)
  ]

-- The entry date of a statement line is the date of its booking, in whichever year that is, if the
-- booking is within 35 days of the value date and in the same year or a neighbouring one; the
-- line states only the month and the day.
pub entry_date-booking :
    (y m d year vm vd : ℕ)
    → year ≤ 9998
    → (y ≡ year) ⊎ ((y + 1 ≡ year) ⊎ (y ≡ year + 1))
    → valid y m d ≡ true
    → valid year vm vd ≡ true
    → Near y m d year vm vd
    → entry_date (month_day m d) (days_from_civil year vm vd) year ≡ some (days_from_civil y m d)
entry_date-booking y m d year vm vd small (inl same) date value near =
    let value' = (valid_iff year vm vd).0 value in
    rw same (
      this_year m d year vm vd small value' ((valid_iff year m d).0 (rw same at date))
        (rw same at near))
entry_date-booking y m d year vm vd small (inr (inl last)) date value near =
    last_year m d year vm vd small ((valid_iff year vm vd).0 value) y last
      ((valid_iff y m d).0 date) near
entry_date-booking y m d year vm vd small (inr (inr next)) date value near =
    let value' = (valid_iff year vm vd).0 value in
    rw next (
      next_year m d year vm vd small value' ((valid_iff (year + 1) m d).0 (rw next at date))
        (rw next at near))
