-- ===== src/Mt942.antt =====
-- src/mt942.rs: the rows of interim transaction reports, one for each `:61:` line.
pub mod Context
pub mod Rows
use quackiso.Base.{
  ℕ, ◌+◌, Bool, true, false, not, List, [], ◌∷◌, Option, none, some, Bytes, codes, ◌==◌,
  if◌then◌else◌, Result, ok, err, ◌>>=◌, map_err,
}
use quackiso.Temporal.{slice}
use quackiso.Mt.Error.{MtError, located, tagged}
use quackiso.Mt.StatementLine.{StatementLine, statement_line}
use quackiso.Mt.Fields.{Field, without_entries, parse, find, all}
use quackiso.Mt.Entries.{EntrySite, EntryCursor, initial, next_site}
use quackiso.Mt.Blocks.{block_span, at}
use quackiso.Mt.Headers.{claims}
use quackiso.Mt.Take.{MtReader}
use quackiso.Mt.Reader.{next_message}
use quackiso.Mt.Stream.{
  StreamError, read_error, field_error, no_message, no_statement_line, Round, return, go_on, place,
}
use quackiso.Mt942.Context.{Mt942Ctx, ctx_from_message, join_values}

-- A row: the report's columns, and those of the entry with its number and its narrative.
pub record Mt942Row : Type 0 where
  pub ctx : Mt942Ctx
  pub entry_index : ℕ
  pub line : StatementLine
  pub narrative : Option Bytes
  pub source_file : Bytes

-- The report that is being emitted.
pub record Report : Type 0 where
  pub body : Bytes
  pub body_line : ℕ
  pub message_line : ℕ
  pub ctx : Mt942Ctx
  pub cursor : EntryCursor
  pub emitted : ℕ

abbrev pub entry_key : Bytes
entry_key = codes "61"

-- The row of the `:61:` that the fields of a region hold.
unfoldable pub row_of_field :
    Mt942Ctx → ℕ → Bytes → Bytes × ℕ → List Field → Option Field → Result StreamError Mt942Row
row_of_field ctx index source where_ fields none = err (no_statement_line where_)
row_of_field ctx index source where_ fields (some f) =
    map_err (λ e. field_error (located where_ (tagged entry_key e))) (statement_line f.value)
    >>= λ line. ok (record {
      ctx = ctx;
      entry_index = index;
      line = line;
      narrative = join_values (all fields (codes "86"));
      source_file = source;
    })

unfoldable pub row_from_entry : Bytes → Report → ℕ → EntrySite → Result StreamError Mt942Row
row_from_entry source open_report index site =
    let fields = parse (slice site.from site.to open_report.body) in
    row_of_field open_report.ctx index source
      (source, at open_report.message_line open_report.body_line site.line) fields
      (find fields entry_key)

pub record Mt942Stream : Type 0 where
  pub reader : MtReader
  pub source : Bytes
  pub saw_my_type : Bool
  pub open_report : Option Report

-- The row of the site that the cursor found, if there is one more.
unfoldable pub emit :
    Mt942Stream
    → Report
    → Option EntrySite × EntryCursor
    → Result StreamError (Round Mt942Row Mt942Stream)
emit st open_report (none, cursor) = ok (go_on (record st { open_report = none }))
emit st open_report (some site, cursor) =
    let emitting = record open_report { cursor = cursor; emitted = open_report.emitted + 1 } in
    row_from_entry st.source emitting (open_report.emitted + 1) site >>= λ row.
    ok (return (some row) (record st { open_report = some emitting }))

-- Block 4 with its line, or the whole message.
unfoldable pub body_of : Bytes → Bytes × ℕ
body_of msg = elim (block_span msg 4) [
  | none ↦ (msg, 1)
  | some (range, line) ↦ (slice range.0 range.1 msg, line)
]

-- A report that is claimed is open, unless it has no entries.
unfoldable pub open_or_skip : Mt942Stream → Bytes × ℕ → ℕ → Mt942Ctx → Mt942Stream
open_or_skip st (body, line) entries ctx = if entries == 0 then st else record st {
  open_report = some (record {
    body = body;
    body_line = line;
    message_line = st.reader.line;
    ctx = ctx;
    cursor = initial;
    emitted = 0;
  });
}

unfoldable pub on_message : Mt942Stream → Bytes → Result StreamError (Round Mt942Row Mt942Stream)
on_message st msg =
    let (body, line) = body_of msg in
    let (fields, entries) = without_entries body entry_key in
    if not (claims msg fields (codes "942"))
    then ok (go_on st)
    else map_err field_error (ctx_from_message msg fields (place st.source st.reader.line line))
      >>= λ ctx.
          ok (go_on (open_or_skip (record st { saw_my_type = true }) (body, line) entries ctx))

unfoldable pub after_message :
    Mt942Stream → Option Bytes × MtReader → Result StreamError (Round Mt942Row Mt942Stream)
after_message st (none, r) =
    if st.saw_my_type
    then ok (return none (record st { reader = r }))
    else err (no_message (codes "942") st.source)
after_message st (some msg, r) = on_message (record st { reader = r }) msg

-- The next entry of the open report, or else a message is read.
unfoldable pub emit_or_read :
    Mt942Stream → Option Report → Result StreamError (Round Mt942Row Mt942Stream)
emit_or_read st (some open_report) =
    emit st open_report (next_site open_report.body entry_key open_report.cursor)
emit_or_read st none = map_err read_error (next_message st.reader) >>= after_message st

-- One round of the loop of `next_row`.
unfoldable pub round : Mt942Stream → Result StreamError (Round Mt942Row Mt942Stream)
unfolding emit_or_read
round st = emit_or_read st st.open_report
