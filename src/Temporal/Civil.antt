-- ===== src/Temporal/Civil.antt =====
-- `days_from_civil` and `valid` of src/temporal.rs.
use quackiso.Base.{
  ℕ, ◌+◌, ◌*◌, ◌-◌, ◌/◌, ◌%◌, Bool, false, not, ◌&&◌, ◌||◌, List, [], ◌∷◌, ltb, leb, ◌==◌,
  if◌then◌else◌, get_or,
}
use quackiso.Base.Int.{ℤ, pos, sub_ℕ, ◌+ℤ◌, ◌-ℤ◌, ◌*ℤ◌, quot, ltb_ℤ}

-- The year that begins in March; it is -1 in January and February of the year 0.
unfoldable pub march_year : ℕ → ℕ → ℤ
march_year y m = if leb m 2 then sub_ℕ y 1 else pos y

unfoldable pub era_of : ℤ → ℤ
unfolding quot ◌-ℤ◌
era_of y = quot (if ltb_ℤ y (pos 0) then y -ℤ pos 399 else y) 400

-- The day of the year, from 0 on the first of March.
unfoldable pub day_of_year : ℕ → ℕ → ℤ
day_of_year m d = sub_ℕ ((153 * ((m + 9) % 12) + 2) / 5 + d) 1

-- Divisions of `yoe`, which lies in 0..400 since the era is taken off.
unfoldable pub day_of_era : ℤ → ℤ → ℤ
unfolding quot ◌+ℤ◌ ◌-ℤ◌ ◌*ℤ◌
day_of_era yoe doy = yoe *ℤ 365 +ℤ quot yoe 4 -ℤ quot yoe 100 +ℤ doy

unfoldable pub days_from_civil : ℕ → ℕ → ℕ → ℤ
unfolding march_year era_of day_of_year day_of_era ◌+ℤ◌ ◌-ℤ◌ ◌*ℤ◌
days_from_civil y m d =
    let y' = march_year y m in
    let era = era_of y' in
    let yoe = y' -ℤ era *ℤ 400 in era *ℤ 146097 +ℤ day_of_era yoe (day_of_year m d) -ℤ pos 719468

abbrev pub month_lengths : List ℕ
month_lengths = 31 ∷ 28 ∷ 31 ∷ 30 ∷ 31 ∷ 30 ∷ 31 ∷ 31 ∷ 30 ∷ 31 ∷ 30 ∷ 31 ∷ []

unfoldable pub valid : ℕ → ℕ → ℕ → Bool
valid y m d =
    if not (leb 1 m && leb m 12) || ltb d 1
    then false
    else let leap = m == 2 && (y % 4 == 0 && (not (y % 100 == 0) || y % 400 == 0)) in
      leb d (get_or month_lengths (m - 1) 0 + (if leap then 1 else 0))
