-- ===== src/Mt/Amount.antt =====
-- Amounts, and the fields of a currency and an amount.
pub mod Written
use quackiso.Base.{
  ℕ, zero, suc, ◌+◌, ◌^◌, Bool, true, false, not, ◌&&◌, ◌||◌, [], ◌∷◌, Option, none, some, Bytes,
  codes, ltb, leb, ◌==◌, if◌then◌else◌, length, take, drop, get_or, Result, ok, err, ◌>>=◌, map_err,
}
use quackiso.Base.Int.{ℤ, pos, neg}
use quackiso.Text.{all, is_digit, is_alpha, is_ascii, is_empty, span, split_once}
use quackiso.Text.Digits.{number}
use quackiso.Text.Trim.{trim, trim_end_matches}
use quackiso.Temporal.{slice}
use quackiso.Decimal.{AmountError, empty_amount, not_an_amount, scaled, split_sign}
use quackiso.Mt.Error.{
  MtError, tagged, amount_error, not_a_balance, not_a_mark, not_a_date_ccy_amount, not_a_currency,
  not_a_ccy_amount, not_a_count_ccy_amount,
}
use quackiso.Mt.Dates.{date2}

-- The commas of an amount, if it has nothing but digits beside them.
unfoldable pub count_commas : Bytes → Option ℕ
count_commas [] = some 0
count_commas (b ∷ s) =
    let rest = count_commas s in
    if b == b','
    then elim rest [ none ↦ none | some n ↦ some (n + 1) ]
    else if is_digit b
    then rest
    else none

-- `replace(',', ".")`
unfoldable pub dotted : Bytes → Bytes
dotted [] = []
dotted (b ∷ s) = (if b == b',' then b'.' else b) ∷ dotted s

unfoldable pub amount : Bytes → Result AmountError ℤ
amount text =
    let s = trim text in
    if is_empty s then err empty_amount else elim (count_commas s) [
      | none ↦ err (not_an_amount text)
      | some commas ↦
          if ltb 1 commas
          then err (not_an_amount text)
          else scaled (trim_end_matches b'.' (dotted s))
    ]

pub record Balance : Type 0 where
  pub dc : Bytes
  pub date : Option ℤ
  pub currency : Bytes
  pub amount : ℤ

-- `amount` with the tag of its field in front of the message.
abbrev pub tagged_amount : Bytes → Bytes → Result MtError ℤ
tagged_amount tag text = map_err (λ e. tagged tag (amount_error e)) (amount text)

unfoldable pub balance : Bytes → Bytes → Result MtError Balance
balance tag v =
    let s = trim v in
    if not (is_ascii s) || ltb (length s) 11
    then err (tagged tag (not_a_balance v))
    else if not (get_or s 0 0 == b'C') && not (get_or s 0 0 == b'D')
    then err (tagged tag (not_a_mark (take 1 s)))
    else do
      n ← tagged_amount tag (drop 10 s)
      ok (record { dc = take 1 s; date = date2 (slice 1 7 s); currency = slice 7 10 s; amount = n })

unfoldable pub date_ccy_amount : Bytes → Result MtError (Option ℤ × Bytes × ℤ)
date_ccy_amount v =
    let s = trim v in
    if not (is_ascii s) || ltb (length s) 10
    then err (not_a_date_ccy_amount v)
    else if not (all is_alpha (slice 6 9 s))
    then err (not_a_currency (slice 6 9 s))
    else do n ← map_err amount_error (amount (drop 9 s)); ok (date2 (take 6 s), slice 6 9 s, n)

unfoldable pub ccy_amount : Bytes → Bytes → Result MtError (Bytes × ℤ)
ccy_amount tag v =
    let s = trim v in
    if not (is_ascii s) || ltb (length s) 4
    then err (tagged tag (not_a_ccy_amount v))
    else if not (all is_alpha (take 3 s))
    then err (tagged tag (not_a_currency (take 3 s)))
    else do n ← tagged_amount tag (drop 3 s); ok (take 3 s, n)

-- `parse::<i64>()`: an optional sign, digits, and 64 bits.
unfoldable pub parse_i64 : Bytes → Option ℤ
parse_i64 s =
    let (negative, digits) = split_sign s in
    if is_empty digits || not (all is_digit digits)
    then none
    else if negative
    then (if leb (number digits) (2 ^ 63) then some (neg (pos (number digits))) else none)
    else if ltb (number digits) (2 ^ 63)
    then some (pos (number digits))
    else none

unfoldable pub count_ccy_amount : Bytes → Result MtError (Option ℤ × Bytes × ℤ)
count_ccy_amount v =
    let s = trim v in
    if not (is_ascii s) then err (not_a_count_ccy_amount v) else do
      let (digits, rest) = span is_digit s
      r ← ccy_amount (codes "90") rest
      ok (parse_i64 digits, r.0, r.1)

-- A number, and one behind the first slash.
unfoldable pub statement_number : Bytes → Option ℤ × Option ℤ
statement_number v =
    let s = trim v in
    elim (split_once b'/' s) [
      | none ↦ (parse_i64 (trim s), none)
      | some (n, page) ↦ (parse_i64 (trim n), parse_i64 (trim page))
    ]

unfoldable pub index_total : Bytes → Option ℤ × Option ℤ
index_total value = elim (split_once b'/' (trim value)) [
  | none ↦ (parse_i64 (trim value), parse_i64 [])
  | some (index, total) ↦ (parse_i64 index, parse_i64 total)
]
