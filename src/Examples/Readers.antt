-- ===== src/Examples/Readers.antt =====
-- A request for transfer, a transfer between institutions with its cover, and the streams that read them.
use quackiso.Base.{
  ℕ, ◌≡◌, refl, Bool, true, false, List, [], ◌∷◌, ◌++◌, Option, none, some, Bytes, codes, Result,
  ok, inr,
}
use quackiso.Mt.Fields.{Field, parse}
use quackiso.Mt.Fields.Ranges.{Sequence, all_fields}
use quackiso.Mt.Headers.{claims}
use quackiso.Mt.Take.{MtReader, chunk}
use quackiso.Mt.Reader.{next_message}
use quackiso.Mt.Stream.{StreamError, NextRow, body_of, place}
use quackiso.Mt.Stream.Queue
use quackiso.Mt101
use quackiso.Mt101.{Mt101Row, rows_from_message, template_of, stated, effective, transaction_of}
use quackiso.Mt101.Rows.{request_rows-sequences, rows_of_parts}
use quackiso.Mt104
use quackiso.Mt104.Rows.{debits_of_parts, debit_rows-parts}
use quackiso.Mt104.Settlement.{Debit}
use quackiso.Mt202
use quackiso.Mt202.Sequences.{transfer_row-sequences, row_of_sequences}
use quackiso.Mt940.BaseRow.{Mt940Row}
use quackiso.Mt940.{Mt940Stream}
use quackiso.Mt940
use quackiso.Mt940.Ends.{statement_row_returns}
use quackiso.Mt942.{Mt942Stream}
use quackiso.Mt942
use quackiso.Mt942.Rows.{report_row_returns}

abbrev at_source : Field → Bytes × ℕ
at_source f = (codes "a.fin", f.line)

abbrev field_at : ℕ → Bytes → Bytes → Field
field_at line tag value = record { tag = tag; value = value; line = line }

abbrev header : List Field
header = field_at 1 (codes "20") (codes "A") ∷ field_at 2 (codes "50H") (codes "/1\nJOHN") ∷ []

-- Two transactions, of which only the second names the customer.
abbrev transactions : List Sequence
transactions =
    record {
      opening = field_at 3 (codes "21") (codes "B");
      more = field_at 4 (codes "32B") (codes "EUR1,") ∷ [];
    }
    ∷ record {
      opening = field_at 5 (codes "21") (codes "C");
      more =
          field_at 6 (codes "32B") (codes "EUR2,")
          ∷ field_at 7 (codes "50H") (codes "/2\nJANE")
          ∷ [];
    }
    ∷ []

request_rows-sequences_example :
    rows_from_message [] (header ++ all_fields transactions) (codes "a.fin") at_source
    ≡ rows_of_parts [] header (codes "a.fin") at_source transactions
request_rows-sequences_example =
    request_rows-sequences [] header transactions (codes "a.fin") at_source (refl, (refl, tt))
      ((refl, (refl, tt)), ((refl, (refl, (refl, tt))), tt))

-- Two direct debits, and a settlement with its sum and its own amount.
abbrev first_debit : Sequence
first_debit = record {
  opening = field_at 3 (codes "21") (codes "B");
  more = field_at 4 (codes "32B") (codes "EUR1,") ∷ [];
}

abbrev last_debit : Debit
last_debit =
    let opening = field_at 5 (codes "21") (codes "C") in
    let amount = field_at 6 (codes "32B") (codes "EUR2,") in
    let charges = field_at 7 (codes "71F") (codes "EUR1,") in
    record {
      debit = record { opening = opening; more = amount ∷ charges ∷ [] };
      before = opening ∷ [];
      amount = amount;
      after = charges ∷ [];
    }

abbrev settlement : List Field
settlement = field_at 8 (codes "32B") (codes "EUR3,") ∷ field_at 9 (codes "19") (codes "4,") ∷ []

debit_rows-parts_example :
    Mt104.rows_from_message []
      (header ++ (all_fields (first_debit ∷ last_debit.debit ∷ []) ++ settlement))
      (codes "a.fin")
      at_source
    ≡ debits_of_parts [] header
        (first_debit ∷ last_debit.debit ∷ [])
        settlement
        (codes "a.fin")
        at_source
debit_rows-parts_example =
    debit_rows-parts [] header (first_debit ∷ []) last_debit settlement (codes "a.fin") at_source
      (refl, (refl, tt)) ((refl, (refl, tt)), tt) (refl, (refl, (refl, tt)))
      (refl, (refl, (refl, (refl, tt))), (refl, tt), refl, (refl, tt)) (refl, (refl, tt)) (inr refl)

abbrev transfer : List Field
transfer =
    field_at 1 (codes "20") (codes "A") ∷ field_at 2 (codes "32A") (codes "240102EUR12,5") ∷ []

abbrev cover : List Field
cover = field_at 3 (codes "50K") (codes "JOHN") ∷ field_at 4 (codes "33B") (codes "USD3,") ∷ []

transfer_row-sequences_example :
    Mt202.row_from_message [] (transfer ++ cover) (codes "a.fin") at_source
    ≡ row_of_sequences [] transfer cover (codes "a.fin") at_source
unfolding quackiso.Mt.Fields.matches_any quackiso.Mt.Line.matches_key
transfer_row-sequences_example =
    transfer_row-sequences [] transfer cover (codes "a.fin") at_source (refl, (refl, tt)) refl

abbrev request : Bytes
request = codes "{1:F01AAAABEBBAXXX0000000000}{2:I101BARCGB22XXXXN}{4:\n:20:A\n:21:B\n:21:C\n-}\n"

abbrev reader : MtReader
reader = record { input = chunk request ∷ []; pending = none; limit = 100; taken = 0; line = 1 }

abbrev behind : MtReader
behind = record reader { input = []; taken = 5 }

found : next_message reader ≡ ok (some request, behind)
unfolding next_message quackiso.Mt.Reader.message_loop quackiso.Mt.Take.take_line
    quackiso.Mt.Take.read_line quackiso.Mt.Take.cut_chunk quackiso.Mt.Take.after_cr
    quackiso.Mt.Take.as_text quackiso.Mt.Take.utf8_from quackiso.Mt.Reader.on_line
    quackiso.Mt.Reader.boundary quackiso.Mt.Reader.on_body_line quackiso.Mt.Reader.push_line
    quackiso.Mt.Line.line_body quackiso.Text.Trim.trim_blank quackiso.Text.Trim.trim_end_newlines
    quackiso.Text.Trim.trim quackiso.Text.span quackiso.Text.find quackiso.Mt.Reader.finished
found = refl

abbrev body : Bytes
body = codes ":20:A\n:21:B\n:21:C"

request_body : body_of request ≡ (body, 2)
unfolding body_of quackiso.Mt.Blocks.block_at quackiso.Mt.Blocks.block_span
    quackiso.Mt.Blocks.block_start quackiso.Mt.Blocks.text_span quackiso.Mt.Blocks.text_end
    quackiso.Mt.Blocks.close_brace quackiso.Mt.Blocks.close_from quackiso.Mt.Blocks.line_of
    quackiso.Mt.Blocks.count_newlines quackiso.Text.find quackiso.Text.Trim.trim_end_newlines
    quackiso.Text.Trim.trim_start_newlines quackiso.Text.Trim.strip quackiso.Text.span
request_body = refl

abbrev request_fields : List Field
request_fields =
    field_at 1 (codes "20") (codes "A")
    ∷ field_at 2 (codes "21") (codes "B")
    ∷ field_at 3 (codes "21") (codes "C")
    ∷ []

body_fields : parse body ≡ request_fields
unfolding parse quackiso.Mt.Fields.without_entries quackiso.Mt.Fields.walk
    quackiso.Mt.Fields.walk_line quackiso.Mt.Fields.new_field quackiso.Mt.Line.classify
    quackiso.Mt.Line.line_body quackiso.Mt.Line.split_field quackiso.Mt.Line.tag_end
    quackiso.Mt.Line.classify_field quackiso.Mt.Line.matches_key quackiso.Text.Trim.trim_blank
    quackiso.Text.Trim.trim_end_matches quackiso.Text.Trim.trim quackiso.Text.Trim.trim_start
    quackiso.Text.span quackiso.Text.split_on quackiso.Text.find
body_fields = refl

is_claimed : claims request request_fields (codes "101") ≡ true
unfolding claims quackiso.Mt.Headers.message_type quackiso.Mt.Headers.type_of
    quackiso.Mt.Headers.get_str quackiso.Mt.Blocks.block quackiso.Mt.Blocks.block_at
    quackiso.Mt.Blocks.block_span quackiso.Mt.Blocks.block_start quackiso.Mt.Blocks.close_brace
    quackiso.Mt.Blocks.close_from quackiso.Mt.Blocks.line_of quackiso.Mt.Blocks.count_newlines
    quackiso.Text.find
is_claimed = refl

-- The row of the transaction that stands at these fields.
abbrev row_at : ℕ × ℕ → Mt101Row
row_at span = record {
  template = template_of request request_fields (codes "a.fin") (0, 1);
  effective = effective (stated request_fields (0, 1)) (stated request_fields span);
  transaction = some (transaction_of request_fields span (none, none) (none, none));
}

abbrev place_of : Field → Bytes × ℕ
place_of = place (codes "a.fin") 1 2

request_rows :
    rows_from_message request request_fields (codes "a.fin") place_of
    ≡ ok (row_at (1, 2) ∷ row_at (2, 3) ∷ [])
unfolding rows_from_message quackiso.Mt101.head_span quackiso.Mt101.rows_or_header
    quackiso.Mt101.rows_of_spans quackiso.Mt101.row_of_span quackiso.Mt.Fields.sequences
    quackiso.Mt.Fields.starts quackiso.Mt.Fields.ranges quackiso.Mt.Parties.ccy_amount_in
    quackiso.Mt.Fields.find_in quackiso.Mt.Fields.get_range quackiso.Mt.Fields.find
    quackiso.Mt.Line.matches_key
request_rows = refl

abbrev request_stream : MtReader → Bool → Queue.Stream Mt101Row
request_stream r seen = record {
  reader = r;
  source = codes "a.fin";
  saw_my_type = seen;
  queue = [];
}

-- Two calls return the two rows.
Calls-message_example :
    Queue.Calls
      (codes "101")
      rows_from_message
      (request_stream reader false)
      (row_at (1, 2) ∷ row_at (2, 3) ∷ [])
      (request_stream behind true)
Calls-message_example =
    Queue.Calls-message (codes "101") rows_from_message reader behind (codes "a.fin") request false
      (row_at (1, 2)) (row_at (2, 3) ∷ []) found (rw (request_body, body_fields) is_claimed)
      (rw (request_body, body_fields) request_rows)

queued_row_returns_example :
    (out : Result StreamError (Option Mt101Row × Queue.Stream Mt101Row)) × NextRow Mt101.round
      (request_stream reader false)
      out
unfolding Mt101.round
queued_row_returns_example =
    Queue.queued_row_returns (codes "101") rows_from_message (request_stream reader false)

abbrev statements : Mt940Stream
statements = record {
  reader = reader;
  source = codes "a.sta";
  saw_my_type = false;
  open_statement = none;
}

-- The file has no statement, so the call fails.
statement_row_returns_example :
    (out : Result StreamError (Option Mt940Row × Mt940Stream)) × NextRow Mt940.round statements out
statement_row_returns_example = statement_row_returns statements

abbrev reports : Mt942Stream
reports = record {
  reader = reader;
  source = codes "a.fin";
  saw_my_type = false;
  open_report = none;
}

report_row_returns_example :
    (out : Result StreamError (Option Mt942.Mt942Row × Mt942Stream)) × NextRow Mt942.round reports
      out
report_row_returns_example = report_row_returns reports
