-- ===== src/Mt/StatementLine/RoundTrip.antt =====
-- `statement_line` on a written line.
use quackiso.Base.{
  ℕ, ◌≡◌, refl, ap, ◌≢◌, true, false, [], ◌∷◌, ◌++◌, Option, none, some, Bytes, All, All-append,
  All-map, length, take, drop, arith, ltb, if◌then◌else◌, take-append, append_assoc, map_err, ok,
  ◌>>=◌,
}
use quackiso.Base.Int.{ℤ}
use quackiso.Text.{is_ascii, span}
use quackiso.Text.Search.{span-append, span-all, split_once-missing}
use quackiso.Text.Digits.{IsDigit, digits-IsGraphic}
use quackiso.Text.Trim.{trim_graphic, IsGraphic}
use quackiso.Temporal.Civil.{valid, days_from_civil}
use quackiso.Temporal.Dates.{is_ascii-IsGraphic}
use quackiso.Mt.Error.{amount_error}
use quackiso.Mt.Dates.{pivot_year, entry_date}
use quackiso.Mt.Dates.Pivot.{six, month_day, date2_full-six}
use quackiso.Mt.Amount.{amount}
use quackiso.Mt.Amount.Written.{comma_text-IsGraphic}
use quackiso.Mt.StatementLine.{
  StatementLine, statement_line, numeric, split_supplementary, line_dates,
}
use quackiso.Mt.StatementLine.Parts.{line_parts-written, mark_stops, numeric-digits}
use quackiso.Mt.StatementLine.Written.{
  mark_text, funds_text, entry_text, Written, digits_text, refs_text, behind_digits, behind_dates,
  line_text, code_text, IsWritten,
}
use quackiso.Mt.StatementLine.Subfields.{
  text_or_none, split_refs-written, split_type-written, mark_length-text, funds_or_none,
  funds_code-text, mark-IsGraphic, line_amount-written,
}

-- The run of the dates: six digits, or ten with an entry date.
abbrev pub run_length : Option (ℕ × ℕ) → ℕ
run_length none = 6
run_length (some o) = 10

six-digits : (l : Written) → All IsDigit (six l.yy l.month l.day)
six-digits l = omega arith

run-written :
    (l : Written) (booked : Option (ℕ × ℕ))
    → length
        (span numeric (take 10 (six l.yy l.month l.day ++ (entry_text booked ++ behind_dates l)))).0
      ≡ run_length booked
run-written l none =
    let rest = funds_text l.funds ++ (digits_text l ++ behind_digits l) in
    let (c, t, e, stop, unpadded) = mark_stops l.mark rest in
    rw (
      append_assoc (mark_text l.mark) (funds_text l.funds) (digits_text l ++ behind_digits l),
      e,
      span-append numeric (six l.yy l.month l.day) c (take 3 t)
          (numeric-digits (six l.yy l.month l.day) (omega arith)) stop,
    )
run-written l (some (m, d)) =
    ap (λ (r : Bytes × Bytes). length r.0)
      (span-all numeric (six l.yy l.month l.day ++ month_day m d)
        (numeric-digits (six l.yy l.month l.day ++ month_day m d) (omega arith)))

drop_run :
    (l : Written) (booked : Option (ℕ × ℕ))
    → drop (run_length booked) (six l.yy l.month l.day ++ (entry_text booked ++ behind_dates l))
      ≡ behind_dates l
drop_run l none = refl
drop_run l (some (m, d)) = refl

-- The dates that a line names.
abbrev pub dates_of : Written → Option (ℕ × ℕ) → Option ℤ × Option ℤ
dates_of l booked =
    let year = pivot_year l.yy in
    let days = days_from_civil year l.month l.day in
    if valid year l.month l.day
    then (
      some days,
      elim booked [ none ↦ none | some (m, d) ↦ entry_date (month_day m d) days year ],
    )
    else (none, none)

line_dates-written :
    (l : Written) (booked : Option (ℕ × ℕ))
    → IsWritten l
    → line_dates
        (run_length booked)
        (six l.yy l.month l.day ++ (entry_text booked ++ behind_dates l))
      ≡ dates_of l booked
unfolding line_dates
line_dates-written l none w =
    rw (line_dates, date2_full-six l.yy l.month l.day w.year_le w.month_le w.day_le) (ground arith)
line_dates-written l (some (m, d)) w =
    rw (line_dates, date2_full-six l.yy l.month l.day w.year_le w.month_le w.day_le) (ground arith)

behind-IsGraphic : (l : Written) → IsWritten l → All IsGraphic (behind_dates l)
behind-IsGraphic l w =
    let mark = mark-IsGraphic l.mark l.funds w.funds_letter in
    let number =
      comma_text-IsGraphic (l.first_digit ∷ l.whole) l.fraction w.whole_digits w.fraction_digits in
    let letter = w.kind_letter in
    let kind : IsGraphic l.kind = omega arith in
    let slash : IsGraphic b'/' = omega arith in
    let refs =
      All-append IsGraphic l.customer (b'/' ∷ b'/' ∷ l.bank) w.customer_graphic
        (slash, (slash, w.bank_graphic)) in
    let rest : All IsGraphic (behind_digits l) =
      (kind, All-append IsGraphic (code_text l) (refs_text l) w.code_graphic refs) in
    All-append IsGraphic (mark_text l.mark ++ funds_text l.funds) (digits_text l ++ behind_digits l)
      mark (All-append IsGraphic (digits_text l) (behind_digits l) number rest)

line_text-IsGraphic : (l : Written) → IsWritten l → All IsGraphic (line_text l)
line_text-IsGraphic l w =
    All-append IsGraphic (six l.yy l.month l.day) (entry_text l.booked ++ behind_dates l)
      (digits-IsGraphic (six l.yy l.month l.day) (omega arith))
      (All-append IsGraphic (entry_text l.booked) (behind_dates l) (entry l.booked)
        (behind-IsGraphic l w))
  where
    entry : (booked : Option (ℕ × ℕ)) → All IsGraphic (entry_text booked)
    entry none = tt
    entry (some (m, d)) = digits-IsGraphic (month_day m d) (omega arith)

split_supplementary-written : (s : Bytes) → All IsGraphic s → split_supplementary s ≡ (s, none)
unfolding split_supplementary
split_supplementary-written s h = rw (
  split_supplementary,
  split_once-missing b'\n' s (All-map IsGraphic (λ c. c ≢ b'\n') (λ c g. omega arith) s h),
  trim_graphic s h,
)

run_length-ltb : (booked : Option (ℕ × ℕ)) → ltb (run_length booked) 6 ≡ false
run_length-ltb none = refl
run_length-ltb (some o) = refl

head_code-ascii : (l : Written) → IsWritten l → is_ascii (take 4 (behind_digits l)) ≡ true
head_code-ascii l w =
    let letter = w.kind_letter in
    let kind : IsGraphic l.kind = omega arith in
    is_ascii-IsGraphic (l.kind ∷ code_text l) (kind, w.code_graphic)

-- The subfields of a written line.
abbrev pub fields_of : Written → ℤ → StatementLine
fields_of l n = record {
  value_date = (dates_of l l.booked).0;
  entry_date = (dates_of l l.booked).1;
  credit_debit = mark_text l.mark;
  funds_code = funds_or_none l.funds;
  amount = n;
  transaction_type = some (l.kind ∷ []);
  transaction_code = some (code_text l);
  customer_ref = text_or_none l.customer;
  bank_ref = text_or_none l.bank;
  supplementary = none;
}

-- A `:61:` line written of its subfields, with or without an entry date and a funds code, is cut
-- back into exactly these subfields, and is refused only if its amount is, with the error of that
-- amount: every subfield is the text that was written, the value date is the date of the calendar
-- if there is one, and the entry date is then what `entry_date` makes of the month and day. The
-- subfields keep to visible characters, and the reference of the customer has no slash.
pub statement_line-written :
    (l : Written)
    → IsWritten l
    → statement_line (line_text l)
      ≡ (map_err amount_error (amount (digits_text l)) >>= λ n. ok (fields_of l n))
unfolding statement_line
statement_line-written l w = rw (
  statement_line,
  split_supplementary-written (line_text l) (line_text-IsGraphic l w),
  run-written l l.booked,
  run_length-ltb l.booked,
  line_parts-written (run_length l.booked) (line_text l) l w (drop_run l l.booked),
  line_amount-written (line_text l) l w,
  head_code-ascii l w,
  line_dates-written l l.booked w,
  mark_length-text l.mark l.funds,
  take-append (mark_text l.mark) (funds_text l.funds),
  funds_code-text l.mark l.funds,
  split_type-written l,
  split_refs-written l.customer l.bank w.customer_graphic w.customer_slash w.bank_graphic,
)
