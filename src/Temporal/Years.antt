-- ===== src/Temporal/Years.antt =====
-- The same day of two years, and the distance between dates of neighbouring years.
use quackiso.Base.{ℕ, ◌+◌, ◌≤◌, arith}
use quackiso.Temporal.Calendar.{IsDate}
use quackiso.Temporal.NextDay.{serial_in, shifted}

abbrev serial : ℕ → ℕ → ℕ → ℕ
serial y m d = serial_in (shifted y m) m d

pub same_day-next_year :
    (y m d : ℕ)
    → 1 ≤ d
    → (serial y m d + 365 ≤ serial (y + 1) m d) × (serial (y + 1) m d ≤ serial y m d + 366)
same_day-next_year y m d h = ground arith

pub leap_day-far : (y m d : ℕ) → IsDate (y + 1) m d → serial y 2 29 + 300 ≤ serial (y + 1) m d
leap_day-far y m d h = ground arith

pub far-leap_day : (y m d : ℕ) → IsDate y m d → serial y m d + 60 ≤ serial (y + 1) 2 29
far-leap_day y m d h = ground arith
