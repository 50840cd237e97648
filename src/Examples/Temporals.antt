-- ===== src/Examples/Temporals.antt =====
-- The unit tests of src/temporal.rs.
use quackiso.Base.{◌≡◌, refl, codes, none, some, true, ◌↔◌, if◌then◌else◌, arith}
use quackiso.Base.Int.{pos, negsuc}
use quackiso.Base.Int.{◌+ℤ◌, ◌-ℤ◌, ◌*ℤ◌}
use quackiso.Text.{span}
use quackiso.Text.Digits.{number}
use quackiso.Text.Trim.{trim}
use quackiso.Temporal.Civil.{valid, days_from_civil}
use quackiso.Temporal.Calendar.{IsDate, valid_iff}
use quackiso.Temporal.NextDay.{days_of, days_from_civil-next_date}
use quackiso.Temporal.Dates.{extended, basic, date_or_none, date_days-written}
use quackiso.Temporal.Zones.{east, to_utc}
use quackiso.Temporal.Stamps.{stamp_text, time_micros, ts_micros-written}
use quackiso.Temporal.{
  date_days, ts_micros, num, three_nums, split_date, to_i32, offset_minutes, shift_by, with_zone,
  six_digits, with_fraction, with_seconds, with_time, strip_separator,
}

epoch_and_dates :
    (date_days (codes "1970-01-01") ≡ some (pos 0))
    × (date_days (codes "2026-07-29") ≡ some (pos 20663))
    × (date_days (codes "20260729") ≡ some (pos 20663))
    × (date_days (codes "not-a-date") ≡ none)
    × (date_days (codes "2026-13-01") ≡ none)
    × (date_days (codes "0000-01-01") ≡ some (negsuc 719527))
unfolding date_days trim num number three_nums split_date to_i32 valid days_from_civil
epoch_and_dates = (refl, refl, refl, refl, refl, refl)

timestamps_normalise_to_utc :
    (ts_micros (codes "1970-01-01T00:00:00.000000001") ≡ some (pos 0))
    × (ts_micros (codes "1970-01-01T01:00:00Z") ≡ some (pos 3_600_000_000))
    × (ts_micros (codes "1970-01-01T01:00:00+01:00") ≡ some (pos 0))
    × (ts_micros (codes "1970-01-01T00:00:00-01:00") ≡ some (pos 3_600_000_000))
    × (ts_micros (codes "1970-01-01T00:00:00.000001") ≡ some (pos 1))
unfolding ts_micros trim num number three_nums split_date valid days_from_civil span offset_minutes
    shift_by with_zone six_digits with_fraction with_seconds with_time strip_separator ◌+ℤ◌ ◌-ℤ◌
    ◌*ℤ◌
timestamps_normalise_to_utc = (refl, refl, refl, refl, refl)

a_day_that_does_not_exist_is_null :
    (date_days (codes "2019-02-29") ≡ none)
    × (date_days (codes "2020-02-29") ≡ some (pos 18321))
    × (date_days (codes "1900-02-29") ≡ none)
    × (date_days (codes "2000-02-29") ≡ some (pos 11016))
unfolding date_days trim num number three_nums split_date to_i32 valid days_from_civil
a_day_that_does_not_exist_is_null = (refl, refl, refl, refl)

valid_iff_example : (valid 2024 2 29 ≡ true) ↔ IsDate 2024 2 29
valid_iff_example = valid_iff 2024 2 29

leap_day : valid 2024 2 29 ≡ true
unfolding valid
leap_day = refl

days_from_civil-next_date_example :
    (valid 2024 3 1 ≡ true) × (days_of (2024, 3, 1) ≡ days_from_civil 2024 2 29 +ℤ pos 1)
days_from_civil-next_date_example = days_from_civil-next_date 2024 2 29 leap_day

date_days-written_example :
    (date_days (extended 2026 7 29 (codes "Z")) ≡ date_or_none 2026 7 29)
    × (date_days (basic 2026 7 29 (codes "Z")) ≡ date_or_none 2026 7 29)
date_days-written_example =
    date_days-written 2026 7 29 (codes "Z") (omega arith) (omega arith) (omega arith) (omega arith)

ts_micros-written_example : ts_micros (stamp_text 2015 3 10 18 43 50 (codes "25") (east 1 30)) ≡ (
    if valid 2015 3 10
    then some (
        to_utc
          (east 1 30)
          (days_from_civil 2015 3 10 *ℤ 86_400_000_000 +ℤ pos (time_micros 18 43 50 (codes "25"))))
    else none)
ts_micros-written_example =
    ts_micros-written 2015 3 10 18 43 50 (codes "25") (east 1 30) (omega arith) (omega arith)
      (omega arith) (omega arith) (omega arith) (omega arith) (omega arith) (omega arith)
