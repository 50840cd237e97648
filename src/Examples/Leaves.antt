-- ===== src/Examples/Leaves.antt =====
-- The leaf parsers of src/mt.rs: its unit tests on amounts, dates and statement lines.
use quackiso.Base.{
  ◌≡◌, refl, [], ◌∷◌, ◌++◌, codes, none, some, ok, err, true, false, inl, inr, replicate, arith,
  if◌then◌else◌, map_err, ◌>>=◌, ◌⊎◌, ◌≤◌, ◌+◌,
}
use quackiso.Base.Int.{pos, abs, ◌-ℤ◌}
use quackiso.Text.{span, split_once}
use quackiso.Text.Digits.{number}
use quackiso.Text.Trim.{trim, trim_end_matches}
use quackiso.Temporal.Civil.{valid, days_from_civil}
use quackiso.Temporal.{date_days, num, three_nums, split_date, to_i32}
use quackiso.Decimal.{scaled}
use quackiso.Decimal.Units.{units, in_column}
use quackiso.Mt.Error.{amount_error, point_in_amount}
use quackiso.Mt.Dates.{in_century, date2_full, date2, entry_date}
use quackiso.Mt.Dates.Pivot.{six, month_day, date2_full-written}
use quackiso.Mt.Dates.EntryDate.{Near, entry_date-booking}
use quackiso.Mt.Amount.{amount, count_commas, dotted}
use quackiso.Mt.Amount.Written.{comma_text, point_text, amount-written}
use quackiso.Mt.StatementLine.{
  statement_line, split_supplementary, mark_length, line_parts, line_amount,
}
use quackiso.Mt.StatementLine.Written.{reversed_credit, Written, IsWritten, line_text, digits_text}
use quackiso.Mt.StatementLine.RoundTrip.{fields_of, statement_line-written}

amounts_use_a_comma :
    (amount (codes "9,") ≡ ok (pos 900_000)) × (amount (codes "1234,56") ≡ ok (pos 123_456_000))
unfolding amount count_commas dotted trim trim_end_matches scaled
amounts_use_a_comma = (refl, refl)

the_year_pivot_is_fixed :
    (date2 (codes "680101") ≡ some (pos 35794))
    × (date2 (codes "690101") ≡ some (quackiso.Base.Int.negsuc 364))
unfolding date2 date2_full in_century date_days trim num number three_nums split_date to_i32 valid
    days_from_civil
the_year_pivot_is_fixed = (refl, refl)

booking_date : valid 2025 12 31 ≡ true
unfolding valid
booking_date = refl

value_date : valid 2026 1 2 ≡ true
unfolding valid
value_date = refl

booking-Near : Near 2025 12 31 2026 1 2
unfolding days_from_civil ◌-ℤ◌
booking-Near = omega arith

-- A booking of the last of December beside a value date in January.
entry_date-booking_example :
    entry_date (month_day 12 31) (days_from_civil 2026 1 2) 2026 ≡ some (days_from_civil 2025 12 31)
entry_date-booking_example =
    entry_date-booking 2025 12 31 2026 1 2 (omega arith) (inr (inl refl)) booking_date value_date
      booking-Near

date2_full-written_example :
    date2_full (six 68 2 29)
    ≡ (if valid 2068 2 29 then some (days_from_civil 2068 2 29, 2068) else none)
date2_full-written_example =
    date2_full-written 2068 2 29 (omega arith) (omega arith) (omega arith) (omega arith)

amount-written_example :
    amount (comma_text (codes "1250") (codes "5" ++ replicate 3 b'0'))
    ≡ in_column
        (point_text (codes "1250") (codes "5" ++ replicate 3 b'0'))
        false
        (units (codes "1250") (codes "5"))
amount-written_example =
    amount-written b'1' (codes "250") (codes "5") 3 (omega arith) (omega arith) (omega arith)

abbrev line : Written
line = record {
  yy = 26;
  month = 1;
  day = 2;
  booked = some (12, 31);
  mark = reversed_credit;
  funds = some b'R';
  first_digit = b'1';
  whole = codes "250";
  fraction = codes "5";
  kind = b'N';
  code = (b'T', b'R', b'F');
  customer = codes "INV7";
  bank = codes "B/9";
}

abbrev line-IsWritten : IsWritten line
line-IsWritten = record {
  year_le = omega arith;
  month_le = omega arith;
  day_le = omega arith;
  funds_letter = omega arith;
  whole_digits = omega arith;
  fraction_digits = omega arith;
  kind_letter = omega arith;
  code_graphic = omega arith;
  customer_graphic = omega arith;
  customer_slash = omega arith;
  bank_graphic = omega arith;
}

statement_line-written_example :
    statement_line (line_text line)
    ≡ (map_err amount_error (amount (digits_text line)) >>= λ n. ok (fields_of line n))
statement_line-written_example = statement_line-written line line-IsWritten

a_point_in_the_amount_is_refused :
    statement_line (codes "2401020102C125.50NMSC") ≡ err (point_in_amount (codes "125.50"))
unfolding statement_line split_supplementary line_parts line_amount split_once trim span mark_length
a_point_in_the_amount_is_refused = refl
