-- ===== src/Mt942/Rows.antt =====
-- The calls of `next_row` on the rows of a report.
use quackiso.Base.{
  true, ℕ, ◌+◌, ◌*◌, ◌<◌, ◌≤◌, ◌≡◌, refl, ap, subst, arith, not, Option, none, some, Bytes, codes,
  ◌==◌, Result, ok, err, map_err, ◌>>=◌, Bool-cases, inl, inr,
}
use quackiso.Mt.Fields.{without_entries}
use quackiso.Mt.Entries.{EntrySite, EntryCursor, next_site}
use quackiso.Mt.Headers.{claims}
use quackiso.Mt.Take.{MtReader}
use quackiso.Mt.Take.Mass.{mass}
use quackiso.Mt.Stream.{
  StreamError, read_error, field_error, Round, return, go_on, place, NextRow, NextRow-ends,
}
use quackiso.Mt.Stream.Moves.{Keeps, Keeps-if, Stops-if, message_round-smaller}
use quackiso.Mt942.Context.{Mt942Ctx, ctx_from_message}
use quackiso.Mt942.{
  Mt942Row, Mt942Stream, Report, entry_key, emit, row_from_entry, body_of, open_or_skip, on_message,
  after_message, emit_or_read, round,
}

abbrev reader_of : Mt942Stream → MtReader
reader_of st = st.reader

-- An open report takes one more round.
abbrev held : Option Report → ℕ
held none = 0
held (some open_report) = 1

held-le : (o : Option Report) → held o ≤ 1
held-le none = omega arith
held-le (some r) = omega arith

abbrev measure : Mt942Stream → ℕ
measure st = 2 * mass st.reader + held st.open_report

-- A round that goes on has shut the report, and left the file alone.
abbrev Shuts : Mt942Stream → Result StreamError (Round Mt942Row Mt942Stream) → Type 0
Shuts st (err e) = Unit
Shuts st (ok (return row st')) = Unit
Shuts st (ok (go_on st')) = measure st' ≡ 2 * mass st.reader

returns-Shuts :
    (st st' : Mt942Stream) (m : Result StreamError Mt942Row)
    → Shuts st (m >>= λ row. ok (return (some row) st'))
returns-Shuts st st' (err e) = tt
returns-Shuts st st' (ok row) = tt

emit-Shuts :
    (st : Mt942Stream) (r : Report) (found : Option EntrySite × EntryCursor)
    → Shuts st (emit st r found)
unfolding emit
emit-Shuts st r (none, cursor) = omega arith
emit-Shuts st r (some site, cursor) =
    let emitting = record r { cursor = cursor; emitted = r.emitted + 1 } in
    returns-Shuts st (record st { open_report = some emitting })
      (row_from_entry st.source emitting (r.emitted + 1) site)

open_or_skip-reader :
    (st : Mt942Stream) (body : Bytes × ℕ) (entries : ℕ) (ctx : Mt942Ctx)
    → (open_or_skip st body entries ctx).reader ≡ st.reader
unfolding open_or_skip
open_or_skip-reader st body entries ctx = elim (Bool-cases (entries == 0)) [
  | inl none_there ↦ rw none_there refl
  | inr some_there ↦ rw some_there refl
]

opens-Keeps :
    (st : Mt942Stream) (body : Bytes × ℕ) (entries : ℕ) (m : Result StreamError Mt942Ctx)
    → Keeps {Row = Mt942Row} reader_of st.reader
        (m >>= λ ctx. ok (go_on (open_or_skip st body entries ctx)))
opens-Keeps st body entries (err e) = tt
opens-Keeps st body entries (ok ctx) = open_or_skip-reader st body entries ctx

on_message-Keeps : (st : Mt942Stream) (msg : Bytes) → Keeps reader_of st.reader (on_message st msg)
unfolding on_message
on_message-Keeps st msg =
    let (body, line) = body_of msg in
    let (fields, entries) = without_entries body entry_key in
    Keeps-if reader_of (not (claims msg fields (codes "942"))) st.reader _ _ refl (
      opens-Keeps (record st { saw_my_type = true }) (body, line) entries
        (map_err field_error (ctx_from_message msg fields (place st.source st.reader.line line))))

emit_or_read-smaller :
    (st st' : Mt942Stream) (o : Option Report)
    → st.open_report ≡ o
    → emit_or_read st o ≡ ok (go_on st')
    → measure st' < measure st
unfolding emit_or_read after_message
emit_or_read-smaller st st' (some r) h e =
    let one : held st.open_report ≡ 1 = ap held h in
    omega (arith, one, subst (Shuts st) e (emit-Shuts st r (next_site r.body entry_key r.cursor)))
emit_or_read-smaller st st' none h e = omega (
  arith,
  message_round-smaller reader_of read_error (after_message st)
      (λ r. Stops-if reader_of st.saw_my_type _ _ tt tt)
      (λ msg r. on_message-Keeps (record st { reader = r }) msg) st.reader st' e,
  held-le st'.open_report,
)

round-smaller : (st st' : Mt942Stream) → round st ≡ ok (go_on st') → measure st' < measure st
unfolding round
round-smaller st st' e = emit_or_read-smaller st st' st.open_report refl e

-- Every call of `next_row` on a stream of reports comes to an end, in
-- whatever state the stream is: it returns a row or the end of the file, or it fails.
pub report_row_returns :
    (st : Mt942Stream)
    → (out : Result StreamError (Option Mt942Row × Mt942Stream)) × NextRow round st out
report_row_returns = NextRow-ends round measure round-smaller
