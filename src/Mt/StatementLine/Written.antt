-- ===== src/Mt/StatementLine/Written.antt =====
-- A `:61:` line as it is written, and the subfields that come out of it.
use quackiso.Base.{ℕ, ◌≤◌, ◌≢◌, [], ◌∷◌, ◌++◌, Option, none, some, Bytes, codes, All}
use quackiso.Text.Digits.{IsDigit}
use quackiso.Text.Trim.{IsGraphic}
use quackiso.Mt.Dates.Pivot.{six, month_day}
use quackiso.Mt.Amount.Written.{comma_text}

-- The marks: credit or debit, and the reversal and the expected entry of each.
pub data Mark : Type 0 where
  credit debit reversed_credit reversed_debit expected_credit expected_debit : Mark

abbrev pub mark_text : Mark → Bytes
mark_text credit = codes "C"
mark_text debit = codes "D"
mark_text reversed_credit = codes "RC"
mark_text reversed_debit = codes "RD"
mark_text expected_credit = codes "EC"
mark_text expected_debit = codes "ED"

-- A letter that is no digit, such as the third letter of the currency.
abbrev pub IsLetter : ℕ → Type 0
IsLetter c = (b'A' ≤ c) × (c ≤ b'Z')

abbrev pub funds_text : Option ℕ → Bytes
funds_text none = []
funds_text (some c) = c ∷ []

abbrev pub IsFunds : Option ℕ → Type 0
IsFunds none = Unit
IsFunds (some c) = IsLetter c

abbrev pub entry_text : Option (ℕ × ℕ) → Bytes
entry_text none = []
entry_text (some (m, d)) = month_day m d

-- The subfields of a line, as they are written.
pub record Written : Type 0 where
  pub yy : ℕ
  pub month : ℕ
  pub day : ℕ
  pub booked : Option (ℕ × ℕ)
  pub mark : Mark
  pub funds : Option ℕ
  pub first_digit : ℕ
  pub whole : Bytes
  pub fraction : Bytes
  pub kind : ℕ
  pub code : ℕ × ℕ × ℕ
  pub customer : Bytes
  pub bank : Bytes

abbrev pub code_text : Written → Bytes
code_text l = l.code.0 ∷ l.code.1 ∷ l.code.2 ∷ []

abbrev pub digits_text : Written → Bytes
digits_text l = comma_text (l.first_digit ∷ l.whole) l.fraction

-- The two references with the two slashes between them.
abbrev pub refs_text : Written → Bytes
refs_text l = l.customer ++ b'/' ∷ b'/' ∷ l.bank

abbrev pub behind_digits : Written → Bytes
behind_digits l = l.kind ∷ (code_text l ++ refs_text l)

abbrev pub behind_dates : Written → Bytes
behind_dates l = (mark_text l.mark ++ funds_text l.funds) ++ (digits_text l ++ behind_digits l)

abbrev pub line_text : Written → Bytes
line_text l = six l.yy l.month l.day ++ (entry_text l.booked ++ behind_dates l)

-- What a bank has to keep to: visible characters, an entry date of digits, a type that is a letter, and
-- references that are there, the customer's without a slash.
pub record IsWritten (l : Written) : Type 0 where
  pub year_le : l.yy ≤ 99
  pub month_le : l.month ≤ 99
  pub day_le : l.day ≤ 99
  pub funds_letter : IsFunds l.funds
  pub whole_digits : All IsDigit (l.first_digit ∷ l.whole)
  pub fraction_digits : All IsDigit l.fraction
  pub kind_letter : IsLetter l.kind
  pub code_graphic : All IsGraphic (code_text l)
  pub customer_graphic : All IsGraphic l.customer
  pub customer_slash : All (λ c. c ≢ b'/') l.customer
  pub bank_graphic : All IsGraphic l.bank
