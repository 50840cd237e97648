-- ===== src/Mt/Stream/Single.antt =====
-- Streams that make one row of each message of their type: `Mt103Stream` and `Mt202Stream`.
use quackiso.Base.{
  ℕ, ◌<◌, ◌≡◌, refl, Bool, true, not, List, Option, none, some, Bytes, if◌then◌else◌, Result, ok,
  err, map_err, ◌>>=◌,
}
use quackiso.Mt.Error.{MtError}
use quackiso.Mt.Fields.{Field, parse}
use quackiso.Mt.Headers.{claims}
use quackiso.Mt.Take.{MtReader}
use quackiso.Mt.Take.Mass.{mass}
use quackiso.Mt.Reader.{next_message}
use quackiso.Mt.Stream.Moves.{Keeps, Keeps-if, Stops-if, message_round-smaller}
use quackiso.Mt.Stream.{
  StreamError, read_error, field_error, no_message, Round, return, go_on, body_of, place, NextRow,
  NextRow-ends,
}

pub record Stream : Type 0 where
  pub reader : MtReader
  pub source : Bytes
  pub saw_my_type : Bool

abbrev reader_of : Stream → MtReader
reader_of st = st.reader

-- `number` is the reader's message type, and `read` its `row_from_message`.
module _ {Row : Type 0} (number : Bytes)
    (read : Bytes → List Field → Bytes → (Field → Bytes × ℕ) → Result MtError Row) where
  unfoldable pub on_message : Stream → Bytes → Result StreamError (Round Row Stream)
  on_message st msg =
      let (body, line) = body_of msg in
      let fields = parse body in
      if not (claims msg fields number)
      then ok (go_on st)
      else map_err field_error (read msg fields st.source (place st.source st.reader.line line))
        >>= λ row. ok (return (some row) (record st { saw_my_type = true }))

  unfoldable pub after_message :
      Stream → Option Bytes × MtReader → Result StreamError (Round Row Stream)
  after_message st (none, r) =
      if st.saw_my_type
      then ok (return none (record st { reader = r }))
      else err (no_message number st.source)
  after_message st (some msg, r) = on_message (record st { reader = r }) msg

  -- One round of the loop.
  unfoldable pub round : Stream → Result StreamError (Round Row Stream)
  round st = map_err read_error (next_message st.reader) >>= after_message st

  returns-Keeps :
      (st : Stream) (r : MtReader) (m : Result StreamError Row)
      → Keeps reader_of r (m >>= λ row. ok (return (some row) st))
  returns-Keeps st r (err e) = tt
  returns-Keeps st r (ok row) = tt

  on_message-Keeps : (st : Stream) (msg : Bytes) → Keeps reader_of st.reader (on_message st msg)
  unfolding on_message
  on_message-Keeps st msg =
      let (body, line) = body_of msg in
      Keeps-if reader_of (not (claims msg (parse body) number)) st.reader _ _ refl (
        returns-Keeps (record st { saw_my_type = true }) st.reader
          (map_err field_error
            (read msg (parse body) st.source (place st.source st.reader.line line))))

  round-smaller : (st st' : Stream) → round st ≡ ok (go_on st') → mass st'.reader < mass st.reader
  unfolding round after_message
  round-smaller st st' e =
      message_round-smaller reader_of read_error (after_message st)
        (λ r. Stops-if reader_of st.saw_my_type _ _ tt tt)
        (λ msg r. on_message-Keeps (record st { reader = r }) msg) st.reader st' e

  -- Every call of `next_row` on a stream that makes one row of each message comes to an end, in
  -- whatever state the stream is: it returns a row or the end of the file, or it fails.
  pub single_row_returns :
      (st : Stream) → (out : Result StreamError (Option Row × Stream)) × NextRow round st out
  single_row_returns = NextRow-ends round (λ st. mass st.reader) round-smaller
