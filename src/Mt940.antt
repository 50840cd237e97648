-- ===== src/Mt940.antt =====
-- src/mt940.rs: the rows of customer statements, one for each `:61:` line.
pub mod BaseRow
pub mod Rows
pub mod Ends
use quackiso.Base.{
  ℕ, zero, suc, ◌+◌, Bool, true, false, not, List, [], ◌∷◌, ◌++◌, Option, none, some, Bytes, codes,
  ◌==◌, if◌then◌else◌, length, drop, and_then, Result, ok, err, ◌>>=◌, map_err, ◌≡◌,
}
use quackiso.Base.Int.{ℤ}
use quackiso.Text.{starts_with, str_eq}
use quackiso.Text.Trim.{trim, trim_start}
use quackiso.Temporal.{slice}
use quackiso.Mt.Error.{MtError, located}
use quackiso.Mt.Amount.{Balance, balance, statement_number}
use quackiso.Mt.StatementLine.{StatementLine, statement_line, some_text}
use quackiso.Mt.Fields.{Field, without_entries, parse, find, value, all}
use quackiso.Mt.Entries.{EntrySite, EntryCursor, initial, next_site}
use quackiso.Mt.Blocks.{block_span, at}
use quackiso.Mt.Headers.{
  direction, message_type, sender_bic, receiver_bic, user_header_field, claims, get_str,
}
use quackiso.Mt.Parties.{account_field}
use quackiso.Mt.Take.{MtReader, ReadError}
use quackiso.Mt.Reader.{next_message}
use quackiso.Mt.Stream.{
  StreamError, read_error, field_error, no_message, no_statement_line, Round, return, go_on,
}
use quackiso.Mt940.BaseRow.{
  BalanceColumns, Carried, Entry, Mt940Row, append_joined, append_all, behind_closing, exact_values,
  statement_narrative, starts_blank, word, account, place, parse_balance, kind, no_balance, columns,
  balance_of, account_of, numbers_of, base_row,
}

-- The statement that is being emitted.
pub record Statement : Type 0 where
  pub body : Bytes
  pub body_line : ℕ
  pub message_line : ℕ
  pub base : Carried
  pub cursor : EntryCursor
  pub emitted : ℕ

-- The row of the `:61:` that the fields of a region hold.
unfoldable pub row_of_field :
    Carried → ℕ → Bytes × ℕ → List Field → Option Field → Result StreamError Mt940Row
row_of_field base index where_ fields none = err (no_statement_line where_)
row_of_field base index where_ fields (some f) =
    map_err (λ e. field_error (located where_ e)) (statement_line f.value) >>= λ line. ok (record {
      carried = base;
      entry = some (record {
        entry_index = index;
        line = line;
        narrative = append_all none (all fields (codes "86"));
      });
    })

unfoldable pub row_from_entry : Bytes → Statement → ℕ → EntrySite → Result StreamError Mt940Row
row_from_entry source s index site =
    let fields = parse (slice site.from site.to s.body) in
    row_of_field s.base index (source, at s.message_line s.body_line site.line) fields
      (find fields (codes "61"))

pub record Mt940Stream : Type 0 where
  pub reader : MtReader
  pub source : Bytes
  pub saw_my_type : Bool
  pub open_statement : Option Statement

abbrev pub entry_key : Bytes
entry_key = codes "61"

unfoldable pub emit :
    Bytes
    → Statement
    → Option EntrySite × EntryCursor
    → Result StreamError (Option (Mt940Row × Statement))
emit source s (none, cursor) = ok none
emit source s (some site, cursor) =
    let s' = record s { cursor = cursor; emitted = s.emitted + 1 } in
    row_from_entry source s' (s.emitted + 1) site >>= λ row. ok (some (row, s'))

-- The row of the next entry of an open statement, if it has one more.
unfoldable pub next_entry : Bytes → Statement → Result StreamError (Option (Mt940Row × Statement))
next_entry source s = emit source s (next_site s.body entry_key s.cursor)

-- Block 4 with its line, or the whole message.
unfoldable pub body_of : Bytes → Bytes × ℕ
body_of msg = elim (block_span msg 4) [
  | none ↦ (msg, 1)
  | some (range, line) ↦ (slice range.0 range.1 msg, line)
]

abbrev pub after_entry : Mt940Stream → Option (Mt940Row × Statement) → Round Mt940Row Mt940Stream
after_entry st none = go_on (record st { open_statement = none })
after_entry st (some (row, s)) = return (some row) (record st { open_statement = some s })

-- A statement of which no row has been emitted.
abbrev pub fresh : Bytes → ℕ → ℕ → Carried → Statement
fresh body body_line message_line base = record {
  body = body;
  body_line = body_line;
  message_line = message_line;
  base = base;
  cursor = initial;
  emitted = 0;
}

-- A statement that is claimed: one row if it has no entries, or else it is open.
unfoldable pub open_or_return : Mt940Stream → Bytes × ℕ → ℕ → Carried → Round Mt940Row Mt940Stream
open_or_return st (body, line) entries base =
    if entries == 0
    then return (some (record { carried = base; entry = none })) st
    else go_on (record st { open_statement = some (fresh body line st.reader.line base) })

unfoldable pub on_message : Mt940Stream → Bytes → Result StreamError (Round Mt940Row Mt940Stream)
on_message st msg =
    let (body, line) = body_of msg in
    let (fields, entries) = without_entries body entry_key in
    if not (claims msg fields (codes "940"))
    then ok (go_on st)
    else base_row msg fields st.source (place st.source st.reader.line line) >>= λ base.
        ok (open_or_return (record st { saw_my_type = true }) (body, line) entries base)

unfoldable pub after_message :
    Mt940Stream → Option Bytes × MtReader → Result StreamError (Round Mt940Row Mt940Stream)
after_message st (none, r) =
    if st.saw_my_type
    then ok (return none (record st { reader = r }))
    else err (no_message (codes "940") st.source)
after_message st (some msg, r) = on_message (record st { reader = r }) msg

-- One round of the loop.
unfoldable pub round : Mt940Stream → Result StreamError (Round Mt940Row Mt940Stream)
round st = elim st.open_statement [
  | some s ↦ next_entry st.source s >>= λ r. ok (after_entry st r)
  | none ↦ map_err read_error (next_message st.reader) >>= after_message st
]
