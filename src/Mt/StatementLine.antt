-- ===== src/Mt/StatementLine.antt =====
-- A `:61:` line and its ten subfields.
pub mod Written
pub mod Parts
pub mod Subfields
pub mod RoundTrip
use quackiso.Base.{
  ℕ, ◌+◌, Bool, true, false, not, ◌&&◌, ◌||◌, [], ◌∷◌, ◌++◌, Option, none, some, Bytes, codes, ltb,
  leb, ◌==◌, if◌then◌else◌, length, take, drop, get_elem?, get_or, Result, ok, err, ◌>>=◌, map_err,
}
use quackiso.Base.Int.{ℤ}
use quackiso.Text.{is_digit, is_ascii, is_empty, span, find, split_once}
use quackiso.Text.Trim.{trim}
use quackiso.Temporal.{slice}
use quackiso.Mt.Error.{
  MtError, amount_error, no_value_date, not_a_statement_line, no_mark, no_amount, point_in_amount,
}
use quackiso.Mt.Dates.{date2_full, entry_date}
use quackiso.Mt.Amount.{amount}

pub record StatementLine : Type 0 where
  pub value_date : Option ℤ
  pub entry_date : Option ℤ
  pub credit_debit : Bytes
  pub funds_code : Option Bytes
  pub amount : ℤ
  pub transaction_type : Option Bytes
  pub transaction_code : Option Bytes
  pub customer_ref : Option Bytes
  pub bank_ref : Option Bytes
  pub supplementary : Option Bytes

abbrev pub numeric : ℕ → Bool
numeric c = is_digit c || c == b','

-- A text that is not empty once it is trimmed.
unfoldable pub some_text : Bytes → Option Bytes
some_text s = let t = trim s in if is_empty t then none else some t

-- `splitn(2, '\n')`: the line itself, trimmed, and the supplementary details under it.
unfoldable pub split_supplementary : Bytes → Bytes × Option Bytes
split_supplementary v = elim (split_once b'\n' v) [
  | none ↦ (trim v, none)
  | some (head, more) ↦ (trim head, some_text more)
]

-- The dates, of which the second is there if the run of digits is the whole ten characters.
unfoldable pub line_dates : ℕ → Bytes → Option ℤ × Option ℤ
line_dates run head = elim (date2_full (take 6 head)) [
  | none ↦ (none, none)
  | some (days, year) ↦
      (some days, if leb 10 run then entry_date (slice 6 10 head) days year else none)
]

-- An `R` or an `E` that opens the mark makes it two characters.
unfoldable pub mark_length : Bytes → ℕ
mark_length mark = if get_or mark 0 0 == b'R' || get_or mark 0 0 == b'E' then 2 else 1

-- The type, its code, and the references behind them.
unfoldable pub split_type : Bytes → Option Bytes × Option Bytes × Bytes
split_type rest =
    if leb 4 (length rest)
    then (some (take 1 rest), some (slice 1 4 rest), drop 4 rest)
    else (none, none, [])

-- The references split on the first `//`.
unfoldable pub split_refs : Bytes → Option Bytes × Option Bytes
split_refs refs = elim (find (codes "//") refs) [
  | none ↦ (some_text refs, none)
  | some at ↦ (some_text (take at refs), some_text (drop (at + 2) refs))
]

-- What stands behind the dates: the mark with a funds code, the amount, and the rest.
pub record LineParts : Type 0 where
  pub mark : Bytes
  pub digits : Bytes
  pub rest : Bytes

unfoldable pub line_parts : ℕ → Bytes → LineParts
line_parts run head =
    let unpadded = (span (λ c. c == b' ') (drop run head)).1 in
    let (mark, behind) = span (λ c. not (numeric c)) unpadded in
    let (digits, rest) = span numeric behind in record { mark = mark; digits = digits; rest = rest }

-- The checks on the parts, in the order in which they are made, up to the amount.
unfoldable pub line_amount : Bytes → LineParts → Result MtError ℤ
line_amount v p =
    if not (is_ascii p.mark)
    then err (not_a_statement_line v)
    else if ltb (length p.mark) (mark_length p.mark)
    then err (no_mark v)
    else if is_empty p.digits
    then err (no_amount v)
    else if get_or p.rest 0 0 == b'.'
    then err (point_in_amount (p.digits ++ (span (λ c. numeric c || c == b'.') p.rest).0))
    else map_err amount_error (amount p.digits)

unfoldable pub statement_line : Bytes → Result MtError StatementLine
statement_line v =
    let (head, supplementary) = split_supplementary v in
    let run = length (span numeric (take 10 head)).0 in
    if ltb run 6 then err (no_value_date v) else do
      let p = line_parts run head
      n ← line_amount v p
      if not (is_ascii (take 4 p.rest))
          then err (not_a_statement_line v)
          else ok (record {
            value_date = (line_dates run head).0;
            entry_date = (line_dates run head).1;
            credit_debit = take (mark_length p.mark) p.mark;
            funds_code =
                if ltb (mark_length p.mark) (length p.mark)
                then some (slice (mark_length p.mark) (mark_length p.mark + 1) p.mark)
                else none;
            amount = n;
            transaction_type = (split_type p.rest).0;
            transaction_code = (split_type p.rest).1;
            customer_ref = (split_refs (split_type p.rest).2).0;
            bank_ref = (split_refs (split_type p.rest).2).1;
            supplementary = supplementary;
          })
