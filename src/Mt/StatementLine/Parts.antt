-- ===== src/Mt/StatementLine/Parts.antt =====
-- The parts that `statement_line` cuts a written line into.
use quackiso.Base.{
  ℕ, ◌≡◌, refl, true, false, not, [], ◌∷◌, ◌++◌, Option, none, some, Bytes, All, drop, arith, ◌==◌,
  append_assoc,
}
use quackiso.Text.{all, span}
use quackiso.Text.Search.{span-append}
use quackiso.Text.Digits.{IsDigit}
use quackiso.Mt.Amount.Written.{comma_text}
use quackiso.Mt.StatementLine.{numeric, line_parts, LineParts}
use quackiso.Mt.StatementLine.Written.{
  Mark, credit, debit, reversed_credit, reversed_debit, expected_credit, expected_debit, mark_text,
  funds_text, IsFunds, Written, digits_text, refs_text, behind_digits, behind_dates, code_text,
  IsWritten,
}

pub numeric-digits : (s : Bytes) → All IsDigit s → all numeric s ≡ true
numeric-digits [] h = refl
numeric-digits (c ∷ s) h = ground (arith, numeric-digits s h.1)

numeric-comma_text :
    (i f : Bytes) → All IsDigit i → All IsDigit f → all numeric (comma_text i f) ≡ true
numeric-comma_text [] f hi hf = ground (arith, numeric-digits f hf)
numeric-comma_text (c ∷ i) f hi hf = ground (arith, numeric-comma_text i f hi.1 hf)

-- The mark and the funds code hold nothing numeric and no space, and are cut apart again.
mark-not-numeric :
    (m : Mark) (f : Option ℕ)
    → IsFunds f
    → all (λ c. not (numeric c)) (mark_text m ++ funds_text f) ≡ true
mark-not-numeric credit none h = refl
mark-not-numeric credit (some c) h = ground arith
mark-not-numeric debit none h = refl
mark-not-numeric debit (some c) h = ground arith
mark-not-numeric reversed_credit none h = refl
mark-not-numeric reversed_credit (some c) h = ground arith
mark-not-numeric reversed_debit none h = refl
mark-not-numeric reversed_debit (some c) h = ground arith
mark-not-numeric expected_credit none h = refl
mark-not-numeric expected_credit (some c) h = ground arith
mark-not-numeric expected_debit none h = refl
mark-not-numeric expected_debit (some c) h = ground arith

-- The first character of a mark stops the run of the dates, and is no padding.
pub mark_stops :
    (m : Mark) (s : Bytes)
    → (c : ℕ) × (t : Bytes) × (mark_text m ++ s ≡ c ∷ t)
      × (numeric c ≡ false)
      × ((c == b' ') ≡ false)
mark_stops credit s = (b'C', s, refl, refl, refl)
mark_stops debit s = (b'D', s, refl, refl, refl)
mark_stops reversed_credit s = (b'R', b'C' ∷ s, refl, refl, refl)
mark_stops reversed_debit s = (b'R', b'D' ∷ s, refl, refl, refl)
mark_stops expected_credit s = (b'E', b'C' ∷ s, refl, refl, refl)
mark_stops expected_debit s = (b'E', b'D' ∷ s, refl, refl, refl)

no_padding :
    (m : Mark) (s : Bytes) → span (λ c. c == b' ') (mark_text m ++ s) ≡ ([], mark_text m ++ s)
unfolding span
no_padding credit s = refl
no_padding debit s = refl
no_padding reversed_credit s = refl
no_padding reversed_debit s = refl
no_padding expected_credit s = refl
no_padding expected_debit s = refl

abbrev pub parts_of : Written → LineParts
parts_of l = record {
  mark = mark_text l.mark ++ funds_text l.funds;
  digits = digits_text l;
  rest = behind_digits l;
}

pub line_parts-written :
    (run : ℕ) (head : Bytes) (l : Written)
    → IsWritten l
    → drop run head ≡ behind_dates l
    → line_parts run head ≡ parts_of l
unfolding line_parts
line_parts-written run head l w e = rw (
  e,
  append_assoc (mark_text l.mark) (funds_text l.funds) (digits_text l ++ behind_digits l),
  no_padding l.mark (funds_text l.funds ++ (digits_text l ++ behind_digits l)),
  ← append_assoc (mark_text l.mark) (funds_text l.funds) (digits_text l ++ behind_digits l),
  span-append (λ c. not (numeric c)) (mark_text l.mark ++ funds_text l.funds) l.first_digit
      ((l.whole ++ b',' ∷ l.fraction) ++ behind_digits l)
      (mark-not-numeric l.mark l.funds w.funds_letter) first_numeric,
  span-append numeric (digits_text l) l.kind (code_text l ++ refs_text l)
      (numeric-comma_text (l.first_digit ∷ l.whole) l.fraction w.whole_digits w.fraction_digits)
      kind_stops,
)
  where
    first_numeric : not (numeric l.first_digit) ≡ false
    first_numeric = let d = w.whole_digits.0 in ground arith

    kind_stops : numeric l.kind ≡ false
    kind_stops = let k = w.kind_letter in ground arith
