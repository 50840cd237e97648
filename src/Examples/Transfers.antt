-- ===== src/Examples/Transfers.antt =====
-- The row of a small credit transfer.
use quackiso.Base.{is_some, ℕ, ◌≡◌, refl, [], ◌∷◌, codes, none, some, ok, Bytes, List}
use quackiso.Base.Int.{pos}
use quackiso.Mt.Fields.{Field, find, find_last}
use quackiso.Mt103.{Mt103Row, row_of, row_from_message}
use quackiso.Mt103.Amounts.{row_from_message-is_some}

abbrev fields : List Field
fields =
    record { tag = codes "32A"; value = codes "240102EUR12,5"; line = 1 }
    ∷ record { tag = codes "71F"; value = codes "EUR1,"; line = 2 }
    ∷ record { tag = codes "71F"; value = codes "EUR2,"; line = 3 }
    ∷ []

abbrev at_source : Field → Bytes × ℕ
at_source f = (codes "a.fin", f.line)

-- The last `:71F:` gives the sender's charges.
abbrev row : Mt103Row
row =
    row_of [] fields (codes "a.fin") (some (pos 19724), some (codes "EUR"), some (pos 1_250_000))
      (none, none) (some (codes "EUR"), some (pos 200_000)) (none, none)

last_charges : row_from_message [] fields (codes "a.fin") at_source ≡ ok row
unfolding row_from_message quackiso.Mt103.date_ccy_amount quackiso.Mt103.date_of
    quackiso.Mt103.ccy_amount quackiso.Mt.Fields.find quackiso.Mt.Fields.find_last
    quackiso.Mt.Line.matches_key quackiso.Mt.Amount.date_ccy_amount quackiso.Mt.Amount.ccy_amount
    quackiso.Mt.Amount.amount quackiso.Mt.Amount.count_commas quackiso.Mt.Amount.dotted
    quackiso.Text.Trim.trim quackiso.Text.Trim.trim_end_matches quackiso.Text.span
    quackiso.Decimal.scaled quackiso.Mt.Dates.date2 quackiso.Mt.Dates.date2_full
    quackiso.Mt.Dates.in_century quackiso.Temporal.date_days quackiso.Temporal.three_nums
    quackiso.Temporal.split_date quackiso.Temporal.to_i32 quackiso.Temporal.num
    quackiso.Temporal.Civil.valid quackiso.Temporal.Civil.days_from_civil
    quackiso.Text.Digits.number
last_charges = refl

row_from_message-is_some_example :
    (is_some row.amount ≡ is_some (find fields (codes "32A")))
    × (is_some row.instructed_amount ≡ is_some (find fields (codes "33B")))
    × (is_some row.sender_charges ≡ is_some (find_last fields (codes "71F")))
    × (is_some row.receiver_charges ≡ is_some (find fields (codes "71G")))
row_from_message-is_some_example =
    row_from_message-is_some [] fields (codes "a.fin") at_source row last_charges
