-- ===== src/Mt/Stream/Queue.antt =====
-- Streams that make several rows of a message and hand them out one by one: `Mt101Stream` and
-- `Mt104Stream`.
use quackiso.Base.{
  ℕ, ◌<◌, ◌≡◌, refl, ap, ◌∙◌, ◌++◌, Bool, true, not, List, [], ◌∷◌, Option, none, some, Bytes,
  if◌then◌else◌, Result, ok, err, map_err, ◌>>=◌,
}
use quackiso.Mt.Error.{MtError}
use quackiso.Mt.Fields.{Field, parse}
use quackiso.Mt.Headers.{claims}
use quackiso.Mt.Take.{MtReader}
use quackiso.Mt.Take.Mass.{mass}
use quackiso.Mt.Reader.{next_message}
use quackiso.Mt.Stream.Moves.{Keeps, Keeps-if, Stops-if, message_round-smaller}
use quackiso.Mt.Stream.{
  StreamError, read_error, field_error, no_message, Round, return, go_on, body_of, place, NextRow,
  returns, again, NextRow-ends,
}

-- `queue` has the rows of the message that was read last, the next one first.
pub record Stream (Row : Type 0) : Type 0 where
  pub reader : MtReader
  pub source : Bytes
  pub saw_my_type : Bool
  pub queue : List Row

-- `number` is the reader's message type, and `read` its `rows_from_message`.
module _ {Row : Type 0} (number : Bytes)
    (read : Bytes → List Field → Bytes → (Field → Bytes × ℕ) → Result MtError (List Row)) where
  -- The queue is empty when a message is read.
  unfoldable pub on_message : Stream Row → Bytes → Result StreamError (Round Row (Stream Row))
  on_message st msg =
      let (body, line) = body_of msg in
      let fields = parse body in
      if not (claims msg fields number)
      then ok (go_on st)
      else map_err field_error (read msg fields st.source (place st.source st.reader.line line))
        >>= λ rows. ok (go_on (record st { saw_my_type = true; queue = st.queue ++ rows }))

  unfoldable pub after_message :
      Stream Row → Option Bytes × MtReader → Result StreamError (Round Row (Stream Row))
  after_message st (none, r) =
      if st.saw_my_type
      then ok (return none (record st { reader = r }))
      else err (no_message number st.source)
  after_message st (some msg, r) = on_message (record st { reader = r }) msg

  -- The front of the queue, or else a message is read.
  unfoldable pub pop_or_read : Stream Row → List Row → Result StreamError (Round Row (Stream Row))
  pop_or_read st (row ∷ rows) = ok (return (some row) (record st { queue = rows }))
  pop_or_read st [] = map_err read_error (next_message st.reader) >>= after_message st

  -- One round of the loop.
  unfoldable pub round : Stream Row → Result StreamError (Round Row (Stream Row))
  unfolding pop_or_read
  round st = pop_or_read st st.queue

  abbrev reader_of : Stream Row → MtReader
  reader_of st = st.reader

  pushes-Keeps :
      (st : Stream Row) (m : Result StreamError (List Row))
      → Keeps {Row = Row} reader_of st.reader
          (m >>= λ rows. ok (go_on (record st { saw_my_type = true; queue = st.queue ++ rows })))
  pushes-Keeps st (err e) = tt
  pushes-Keeps st (ok rows) = refl

  on_message-Keeps : (st : Stream Row) (msg : Bytes) → Keeps reader_of st.reader (on_message st msg)
  unfolding on_message
  on_message-Keeps st msg =
      let (body, line) = body_of msg in
      Keeps-if reader_of (not (claims msg (parse body) number)) st.reader _ _ refl (
        pushes-Keeps st (
          map_err field_error
            (read msg (parse body) st.source (place st.source st.reader.line line))))

  pop_or_read-smaller :
      (st st' : Stream Row) (queue : List Row)
      → pop_or_read st queue ≡ ok (go_on st')
      → mass st'.reader < mass st.reader
  unfolding pop_or_read after_message
  pop_or_read-smaller st st' (row ∷ rows) e = cc
  pop_or_read-smaller st st' [] e =
      message_round-smaller reader_of read_error (after_message st)
        (λ r. Stops-if reader_of st.saw_my_type _ _ tt tt)
        (λ msg r. on_message-Keeps (record st { reader = r }) msg) st.reader st' e

  round-smaller :
      (st st' : Stream Row) → round st ≡ ok (go_on st') → mass st'.reader < mass st.reader
  unfolding round
  round-smaller st st' e = pop_or_read-smaller st st' st.queue e

  -- Every call of `next_row` on a stream that queues the rows of a message comes to an end, in
  -- whatever state the stream is: it returns a row or the end of the file, or it fails.
  pub queued_row_returns :
      (st : Stream Row)
      → (out : Result StreamError (Option Row × Stream Row)) × NextRow round st out
  queued_row_returns = NextRow-ends round (λ st. mass st.reader) round-smaller

  -- Calls that return a row each.
  pub data Calls : Stream Row → List Row → Stream Row → Type 0 where
    stop : (st : Stream Row) → Calls st [] st
    call :
        (st st' st'' : Stream Row) (row : Row) (rows : List Row)
        → NextRow round st (ok (some row, st'))
        → Calls st' rows st''
        → Calls st (row ∷ rows) st''

  -- The rows in the queue are what the next calls return, in order, before the file is read further.
  pub Calls-queue :
      (st : Stream Row) (rows : List Row)
      → Calls (record st { queue = rows }) rows (record st { queue = [] })
  unfolding round
  Calls-queue st [] = stop (record st { queue = [] })
  Calls-queue st (row ∷ rows) =
      call (record st { queue = row ∷ rows }) (record st { queue = rows })
        (record st { queue = [] }) row rows
        (returns (record st { queue = row ∷ rows }) (record st { queue = rows }) (some row) refl)
        (Calls-queue st rows)

  on_message-pushes :
      (st : Stream Row) (msg : Bytes) (rows : List Row)
      → claims msg (parse (body_of msg).0) number ≡ true
      → read msg (parse (body_of msg).0) st.source (place st.source st.reader.line (body_of msg).1)
        ≡ ok rows
      → on_message st msg ≡ ok (go_on (record st { saw_my_type = true; queue = st.queue ++ rows }))
  unfolding on_message
  on_message-pushes st msg rows mine made = rw (on_message, mine, made) refl

  -- When the queue is empty and the next message of the file is of the stream's type and makes rows,
  -- then as many calls of `next_row` return these rows in their order, and leave the file behind that
  -- message and the queue empty.
  pub Calls-message :
      (r r' : MtReader) (source msg : Bytes) (seen : Bool) (row : Row) (rows : List Row)
      → next_message r ≡ ok (some msg, r')
      → claims msg (parse (body_of msg).0) number ≡ true
      → read msg (parse (body_of msg).0) source (place source r'.line (body_of msg).1)
        ≡ ok (row ∷ rows)
      → Calls
          (record { reader = r; source = source; saw_my_type = seen; queue = [] })
          (row ∷ rows)
          (record { reader = r'; source = source; saw_my_type = true; queue = [] })
  unfolding round pop_or_read after_message
  Calls-message r r' source msg seen row rows found mine made =
      let st : Stream Row = record {
        reader = r;
        source = source;
        saw_my_type = seen;
        queue = [];
      } in
      let st' : Stream Row = record {
        reader = r';
        source = source;
        saw_my_type = seen;
        queue = [];
      } in
      let full : Stream Row = record {
        reader = r';
        source = source;
        saw_my_type = true;
        queue = row ∷ rows;
      } in
      let left : Stream Row = record {
        reader = r';
        source = source;
        saw_my_type = true;
        queue = rows;
      } in
      call st left (record left { queue = [] }) row rows
        (again st full (ok (some row, left))
          (ap (λ m. map_err read_error m >>= after_message st) found
            ∙ on_message-pushes st' msg (row ∷ rows) mine made)
          (returns full left (some row) refl))
        (Calls-queue left rows)
