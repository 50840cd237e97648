-- ===== src/Mt/Error.antt =====
-- The messages of the leaf parsers, with what they quote.
use quackiso.Base.{Bytes, ℕ}
use quackiso.Decimal.{AmountError}

pub data MtError : Type 0 where
  -- `:{tag}: ` in front of a message
  tagged : Bytes → MtError → MtError
  -- the `path:line` of a field in front of a message, as the path and the line
  located : Bytes × ℕ → MtError → MtError
  amount_error : AmountError → MtError
  not_a_balance : Bytes → MtError
  not_a_floor_limit : Bytes → MtError
  not_an_amount : Bytes → MtError
  not_a_mark : Bytes → MtError
  not_a_date_ccy_amount : Bytes → MtError
  not_a_currency : Bytes → MtError
  not_a_ccy_amount : Bytes → MtError
  not_a_count_ccy_amount : Bytes → MtError
  not_a_datetime : Bytes → MtError
  not_an_offset : Bytes → MtError
  no_value_date : Bytes → MtError
  not_a_statement_line : Bytes → MtError
  no_mark : Bytes → MtError
  no_amount : Bytes → MtError
  point_in_amount : Bytes → MtError
