-- ===== src/Examples/Statements.antt =====
-- The rows of a small statement.
use quackiso.Base.{◌≡◌, refl, [], ◌∷◌, codes, none, some, ok, length, Bytes, List, ◌+◌, true, false}
use quackiso.Base.Int.{pos, ◌+ℤ◌, ◌-ℤ◌, ◌*ℤ◌}
use quackiso.Text.{span, split_once, split_on, first_line}
use quackiso.Text
use quackiso.Mt.StatementLine.{StatementLine}
use quackiso.Mt.Entries.{initial}
use quackiso.Mt.Fields.{without_entries}
use quackiso.Mt940.BaseRow.{Carried, Mt940Row, BalanceColumns, no_balance, base_row}
use quackiso.Mt940.{Statement, Mt940Stream, fresh, entry_key}
use quackiso.Mt940.Rows.{drain, drain-fresh, AreRows, Calls, opened}

abbrev body : Bytes
body = codes ":61:2401020102C125,5NMSCREF//B\n:86:note"

abbrev nothing_known : Carried
nothing_known = record {
  direction = none;
  message_type = none;
  sender_bic = none;
  receiver_bic = none;
  uetr = none;
  validation_flag = none;
  mur = none;
  tx_ref = none;
  related_ref = none;
  account = none;
  account_bic = none;
  statement_number = none;
  sequence_number = none;
  opening_balance_kind = none;
  opening_balance = no_balance;
  closing_balance_kind = none;
  closing_balance = no_balance;
  available_balance = no_balance;
  forward_available = no_balance;
  statement_narrative = none;
  source_file = none;
}

abbrev stream : Mt940Stream
stream = record {
  reader = record { input = []; pending = none; limit = 100; taken = 0; line = 1 };
  source = codes "a.sta";
  saw_my_type = true;
  open_statement = none;
}

abbrev the_row : Mt940Row
the_row = record {
  carried = nothing_known;
  entry = some (record {
    entry_index = 1;
    line = record {
      value_date = some (pos 19724);
      entry_date = some (pos 19724);
      credit_debit = codes "C";
      funds_code = none;
      amount = pos 12_550_000;
      transaction_type = some (codes "N");
      transaction_code = some (codes "MSC");
      customer_ref = some (codes "REF");
      bank_ref = some (codes "B");
      supplementary = none;
    };
    narrative = some (codes "note");
  });
}

abbrev emptied : Statement
emptied = record (fresh body 1 1 nothing_known) {
  cursor = record { at = 40; seen = 2; opened = none };
  emitted = 1;
}

one_row :
    drain (length body + 2) stream.source (fresh body 1 1 nothing_known)
    ≡ ok (the_row ∷ [], emptied)
unfolding drain quackiso.Mt940.next_entry quackiso.Mt940.emit quackiso.Mt940.row_from_entry
    quackiso.Mt940.row_of_field quackiso.Mt940.BaseRow.append_all
    quackiso.Mt940.BaseRow.append_joined quackiso.Mt.Entries.next_site quackiso.Mt.Entries.loop
    quackiso.Mt.Entries.after_round quackiso.Mt.Entries.next_round quackiso.Mt.Entries.round
    quackiso.Mt.Entries.closed quackiso.Mt.Line.classify quackiso.Mt.Line.line_body
    quackiso.Mt.Line.split_field quackiso.Mt.Line.tag_end quackiso.Mt.Line.classify_field
    quackiso.Mt.Line.matches_key quackiso.Text.Trim.trim_blank quackiso.Text.Trim.trim_end_matches
    quackiso.Text.Trim.trim quackiso.Text.Trim.trim_start quackiso.Text.first_line
    quackiso.Text.span quackiso.Text.split_once quackiso.Text.split_on quackiso.Text.find
    quackiso.Mt.Fields.parse quackiso.Mt.Fields.without_entries quackiso.Mt.Fields.walk
    quackiso.Mt.Fields.walk_line quackiso.Mt.Fields.new_field quackiso.Mt.Fields.extend_last
    quackiso.Mt.Fields.extend_field quackiso.Mt.Fields.find quackiso.Mt.Fields.all
    quackiso.Mt.Fields.all_in quackiso.Mt.Fields.get_range quackiso.Mt.Fields.values
    quackiso.Mt.StatementLine.statement_line quackiso.Mt.StatementLine.split_supplementary
    quackiso.Mt.StatementLine.line_dates quackiso.Mt.StatementLine.mark_length
    quackiso.Mt.StatementLine.split_type quackiso.Mt.StatementLine.split_refs
    quackiso.Mt.StatementLine.some_text quackiso.Mt.StatementLine.line_parts
    quackiso.Mt.StatementLine.line_amount quackiso.Mt.Amount.amount quackiso.Mt.Amount.count_commas
    quackiso.Mt.Amount.dotted quackiso.Decimal.scaled quackiso.Mt.Dates.date2_full
    quackiso.Mt.Dates.in_century quackiso.Mt.Dates.entry_date quackiso.Mt.Dates.candidate
    quackiso.Mt.Dates.shift_year quackiso.Temporal.date_days quackiso.Temporal.three_nums
    quackiso.Temporal.split_date quackiso.Temporal.to_i32 quackiso.Temporal.num
    quackiso.Temporal.Civil.valid quackiso.Temporal.Civil.days_from_civil
    quackiso.Text.Digits.number quackiso.Base.Int.◌+ℤ◌ quackiso.Base.Int.◌-ℤ◌ quackiso.Base.Int.◌*ℤ◌
one_row = refl

drain-fresh_example :
    (length (the_row ∷ []) ≡ (without_entries body entry_key).1)
    × AreRows nothing_known 1 (the_row ∷ [])
    × Calls (opened stream (fresh body 1 1 nothing_known)) (the_row ∷ []) (opened stream emptied)
drain-fresh_example = drain-fresh stream body 1 1 nothing_known emptied (the_row ∷ []) one_row
