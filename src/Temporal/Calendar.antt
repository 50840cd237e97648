-- ===== src/Temporal/Calendar.antt =====
-- The Gregorian calendar, and `valid` against it.
use quackiso.Base.{
  ℕ, zero, suc, ◌+◌, ◌-◌, ◌%◌, ◌≤◌, ◌≡◌, Bool, true, not, ◌&&◌, ◌||◌, ◌==◌, if◌then◌else◌, arith,
  get_or, ◌↔◌,
}
use quackiso.Temporal.Civil.{valid, month_lengths}

-- The Gregorian calendar, as it is stated and not as the source computes it.
abbrev pub is_leap : ℕ → Bool
is_leap y = (y % 4 == 0 && not (y % 100 == 0)) || y % 400 == 0

abbrev pub month_days : ℕ → ℕ → ℕ
month_days y m =
    if m == 2
    then (if is_leap y then 29 else 28)
    else if m == 4 || (m == 6 || (m == 9 || m == 11))
    then 30
    else 31

pub record IsDate (y m d : ℕ) : Type 0 where
  pub month_low : 1 ≤ m
  pub month_high : m ≤ 12
  pub day_low : 1 ≤ d
  pub day_high : d ≤ month_days y m

-- The table of the source, with its leap day, against the calendar.
month_table :
    (y m : ℕ)
    → 1 ≤ m
    → m ≤ 12
    → get_or month_lengths (m - 1) 0
        + (if m == 2 && (y % 4 == 0 && (not (y % 100 == 0) || y % 400 == 0)) then 1 else 0)
      ≡ month_days y m
month_table y zero lo hi = absurd (omega arith)
month_table y (suc zero) lo hi = ground arith
month_table y (suc (suc zero)) lo hi = ground arith
month_table y (suc (suc (suc zero))) lo hi = ground arith
month_table y (suc (suc (suc (suc zero)))) lo hi = ground arith
month_table y (suc (suc (suc (suc (suc zero))))) lo hi = ground arith
month_table y (suc (suc (suc (suc (suc (suc zero)))))) lo hi = ground arith
month_table y (suc (suc (suc (suc (suc (suc (suc zero))))))) lo hi = ground arith
month_table y (suc (suc (suc (suc (suc (suc (suc (suc zero)))))))) lo hi = ground arith
month_table y (suc (suc (suc (suc (suc (suc (suc (suc (suc zero))))))))) lo hi = ground arith
month_table y (suc (suc (suc (suc (suc (suc (suc (suc (suc (suc zero)))))))))) lo hi = ground arith
month_table y (suc (suc (suc (suc (suc (suc (suc (suc (suc (suc (suc zero))))))))))) lo hi =
    ground arith
month_table y (suc (suc (suc (suc (suc (suc (suc (suc (suc (suc (suc (suc zero)))))))))))) lo hi =
    ground arith
month_table y (suc (suc (suc (suc (suc (suc (suc (suc (suc (suc (suc (suc (suc k))))))))))))) lo
      hi =
    absurd (omega arith)

valid_sound : (y m d : ℕ) → valid y m d ≡ true → IsDate y m d
unfolding valid
valid_sound y m d h =
    let lo : 1 ≤ m = ground arith in
    let hi : m ≤ 12 = ground arith in
    record {
      month_low = lo;
      month_high = hi;
      day_low = ground arith;
      day_high = rw (← month_table y m lo hi) (ground arith);
    }

valid_complete : (y m d : ℕ) → IsDate y m d → valid y m d ≡ true
unfolding valid
valid_complete y m d h =
    let short : d
        ≤ get_or month_lengths (m - 1) 0
          + (if m == 2 && (y % 4 == 0 && (not (y % 100 == 0) || y % 400 == 0)) then 1 else 0) =
      rw (month_table y m h.month_low h.month_high) h.day_high in
    ground arith

-- `valid` is true exactly of the dates of the calendar.
pub valid_iff : (y m d : ℕ) → (valid y m d ≡ true) ↔ IsDate y m d
valid_iff y m d = (valid_sound y m d, valid_complete y m d)

pub month_days-le : (y m : ℕ) → month_days y m ≤ 31
month_days-le y m = ground arith
