-- ===== src/Decimal.antt =====
-- src/decimal.rs: amounts as integers scaled by 10^5, read from the text on the wire.
pub mod Units
pub mod Exact
pub mod Sound
use quackiso.Base.{
  ℕ, ◌+◌, ◌-◌, ◌*◌, ◌^◌, Bool, true, false, ◌&&◌, [], ◌∷◌, Option, none, some, Bytes, ltb, leb,
  ◌==◌, if◌then◌else◌, length, Result, ok, err, ◌>>=◌,
}
use quackiso.Base.Int.{ℤ, pos, neg}
use quackiso.Text.{is_digit, split_once, is_empty}
use quackiso.Text.Trim.{trim, trim_end_matches}

abbrev pub scale : ℕ
scale = 5

abbrev pub width : ℕ
width = 38

-- `POW10[n]`; the table has the powers up to `scale`.
abbrev pub pow10 : ℕ → ℕ
pow10 n = 10 ^ n

abbrev pub max_scaled : ℕ
max_scaled = 10 ^ width - 1

-- The messages of `decimal` and of the leaf parsers of `mt`, with what they quote.
pub data AmountError : Type 0 where
  empty_amount : AmountError
  not_a_number : Bytes → AmountError
  too_precise : Bytes → ℕ → AmountError
  too_large : Bytes → AmountError
  not_an_amount : Bytes → AmountError

-- An `i128` that is not negative: `checked_mul` and `checked_add` are `none` from 2^127 on.
abbrev pub i128_limit : ℕ
i128_limit = 2 ^ 127

unfoldable pub checked : ℕ → Option ℕ
checked n = if ltb n i128_limit then some n else none

-- `value.checked_mul(10).and_then(|v| v.checked_add(d)).ok_or_else(…)`
unfoldable pub push_digit : Bytes → ℕ → ℕ → Result AmountError ℕ
unfolding checked
push_digit text value d = elim (checked (value * 10)) [
  | none ↦ err (too_large text)
  | some v ↦ elim (checked (v + d)) [ none ↦ err (too_large text) | some w ↦ ok w ]
]

-- The inner loop, over the bytes of one part.
unfoldable pub read_digits : Bytes → ℕ → Bytes → Result AmountError ℕ
read_digits text value [] = ok value
read_digits text value (b ∷ s) =
    if is_digit b
    then (push_digit text value (b - b'0') >>= λ v. read_digits text v s)
    else err (not_a_number text)

-- The sign of the amount, and what follows it.
unfoldable pub split_sign : Bytes → Bool × Bytes
split_sign [] = (false, [])
split_sign (c ∷ s) =
    if c == b'-' then (true, s) else if c == b'+' then (false, s) else (false, c ∷ s)

-- `digits.split_once('.')`, with no fraction where there is no point
unfoldable pub split_point : Bytes → Bytes × Bytes
unfolding split_once
split_point digits = elim (split_once b'.' digits) [ none ↦ (digits, []) | some p ↦ p ]

-- The scaling by `POW10`, the range of the column, and the sign.
unfoldable pub to_column : Bytes → Bool → Option ℕ → Result AmountError ℤ
unfolding neg
to_column text negative none = err (too_large text)
to_column text negative (some v) =
    if ltb max_scaled v then err (too_large text) else ok (if negative then neg (pos v) else pos v)

-- From the two loops to the end.
unfoldable pub scale_parts : Bytes → Bool → Bytes → Bytes → Result AmountError ℤ
unfolding read_digits push_digit checked to_column
scale_parts text negative int_part frac = do
  whole ← read_digits text 0 int_part
  value ← read_digits text whole frac
  to_column text negative (checked (value * pow10 (scale - length frac)))

-- The two early returns between the sign and the loops.
unfoldable pub check_parts : Bytes → Bool → Bytes → Bytes → Result AmountError ℤ
unfolding scale_parts trim_end_matches
check_parts text negative int_part frac_part =
    if is_empty int_part && is_empty frac_part
    then err (not_a_number text)
    else let frac = trim_end_matches b'0' frac_part in
      if ltb scale (length frac)
      then err (too_precise text (length frac))
      else scale_parts text negative int_part frac

unfoldable pub scaled : Bytes → Result AmountError ℤ
unfolding trim split_sign split_point check_parts
scaled text =
    let s = trim text in
    if is_empty s
    then err empty_amount
    else let (negative, digits) = split_sign s in
      let (int_part, frac_part) = split_point digits in check_parts text negative int_part frac_part

unfoldable pub scaled_opt : Option Bytes → Result AmountError (Option ℤ)
unfolding scaled trim
scaled_opt none = ok none
scaled_opt (some t) = if is_empty (trim t) then ok none else (scaled t >>= λ v. ok (some v))
