-- ===== src/Mt940/Ends.antt =====
-- The rounds of `Mt940Stream::next_row` and what they leave of a file.
use quackiso.Base.{
  true, ℕ, ◌+◌, ◌*◌, ◌<◌, ◌≤◌, ◌≡◌, refl, ap, subst, arith, not, Option, none, some, Bytes, codes,
  ◌==◌, Result, ok, err, map_err, ◌>>=◌, Bool-cases, inl, inr,
}
use quackiso.Mt.Fields.{without_entries}
use quackiso.Mt.Headers.{claims}
use quackiso.Mt.Take.{MtReader}
use quackiso.Mt.Take.Mass.{mass}
use quackiso.Mt.Reader.{next_message}
use quackiso.Mt.Stream.{StreamError, read_error, Round, return, go_on, NextRow, NextRow-ends}
use quackiso.Mt.Stream.Moves.{Keeps, Keeps-if, Stops-if, message_round-smaller}
use quackiso.Mt940.BaseRow.{Carried, Mt940Row, base_row, place}
use quackiso.Mt940.{
  Mt940Stream, Statement, entry_key, next_entry, after_entry, body_of, open_or_return, on_message,
  after_message, round,
}

abbrev reader_of : Mt940Stream → MtReader
reader_of st = st.reader

-- An open statement takes one more round.
abbrev held : Option Statement → ℕ
held none = 0
held (some s) = 1

held-le : (o : Option Statement) → held o ≤ 1
held-le none = omega arith
held-le (some s) = omega arith

abbrev measure : Mt940Stream → ℕ
measure st = 2 * mass st.reader + held st.open_statement

-- A round that goes on has shut the statement, and left the file alone.
abbrev Shuts : Mt940Stream → Result StreamError (Round Mt940Row Mt940Stream) → Type 0
Shuts st (err e) = Unit
Shuts st (ok (return row st')) = Unit
Shuts st (ok (go_on st')) = measure st' ≡ 2 * mass st.reader

after_entry-Shuts :
    (st : Mt940Stream) (m : Result StreamError (Option (Mt940Row × Statement)))
    → Shuts st (m >>= λ r. ok (after_entry st r))
after_entry-Shuts st (err e) = tt
after_entry-Shuts st (ok none) = omega arith
after_entry-Shuts st (ok (some (row, s))) = tt

opens-Keeps :
    (st : Mt940Stream) (body : Bytes × ℕ) (entries : ℕ) (m : Result StreamError Carried)
    → Keeps reader_of st.reader (m >>= λ base. ok (open_or_return st body entries base))
unfolding open_or_return
opens-Keeps st body entries (err e) = tt
opens-Keeps st (body, line) entries (ok base) = elim (Bool-cases (entries == 0)) [
  | inl none_there ↦ rw none_there tt
  | inr some_there ↦ rw some_there refl
]

on_message-Keeps : (st : Mt940Stream) (msg : Bytes) → Keeps reader_of st.reader (on_message st msg)
unfolding on_message
on_message-Keeps st msg =
    let (body, line) = body_of msg in
    let (fields, entries) = without_entries body entry_key in
    Keeps-if reader_of (not (claims msg fields (codes "940"))) st.reader _ _ refl (
      opens-Keeps (record st { saw_my_type = true }) (body, line) entries
        (base_row msg fields st.source (place st.source st.reader.line line)))

-- A round, by whether a statement is open.
abbrev round_with : Mt940Stream → Option Statement → Result StreamError (Round Mt940Row Mt940Stream)
round_with st o = elim o [
  | some s ↦ next_entry st.source s >>= λ r. ok (after_entry st r)
  | none ↦ map_err read_error (next_message st.reader) >>= after_message st
]

round_with-smaller :
    (st st' : Mt940Stream) (o : Option Statement)
    → st.open_statement ≡ o
    → round_with st o ≡ ok (go_on st')
    → measure st' < measure st
unfolding after_message
round_with-smaller st st' (some s) h e =
    let one : held st.open_statement ≡ 1 = ap held h in
    omega (arith, one, subst (Shuts st) e (after_entry-Shuts st (next_entry st.source s)))
round_with-smaller st st' none h e = omega (
  arith,
  message_round-smaller reader_of read_error (after_message st)
      (λ r. Stops-if reader_of st.saw_my_type _ _ tt tt)
      (λ msg r. on_message-Keeps (record st { reader = r }) msg) st.reader st' e,
  held-le st'.open_statement,
)

round-smaller : (st st' : Mt940Stream) → round st ≡ ok (go_on st') → measure st' < measure st
unfolding round
round-smaller st st' e = round_with-smaller st st' st.open_statement refl e

-- Every call of `next_row` on a stream of statements comes to an end, in
-- whatever state the stream is: it returns a row or the end of the file, or it fails.
pub statement_row_returns :
    (st : Mt940Stream)
    → (out : Result StreamError (Option Mt940Row × Mt940Stream)) × NextRow round st out
statement_row_returns = NextRow-ends round measure round-smaller
