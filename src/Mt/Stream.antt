-- ===== src/Mt/Stream.antt =====
-- The loops of `next_row` of the readers of the message types: rounds on the state of a stream, up to
-- one that returns or fails.
pub mod Moves
pub mod Single
pub mod Queue
use quackiso.Base.{
  ℕ, zero, suc, ◌+◌, ◌<◌, ◌≤◌, ◌≡◌, refl, arith, Option, none, some, Bytes, Result, ok, err,
  if◌then◌else◌,
}
use quackiso.Mt.Error.{MtError}
use quackiso.Mt.Take.{ReadError}
use quackiso.Mt.Blocks.{block_at, at}
use quackiso.Mt.Fields.{Field}

-- What fails a call: `no_message` is the text that there is no message of that number in the file, and
-- `no_statement_line` that a region has no `:61:`.
pub data StreamError : Type 0 where
  read_error : ReadError → StreamError
  field_error : MtError → StreamError
  no_message : Bytes → Bytes → StreamError
  no_statement_line : Bytes × ℕ → StreamError

-- What a round does: it returns a row or the end, or goes on.
pub data Round (Row S : Type 0) : Type 0 where
  return : Option Row → S → Round Row S
  go_on : S → Round Row S

-- Block 4 with its line, or the whole message.
unfoldable pub body_of : Bytes → Bytes × ℕ
body_of msg = elim (block_at msg 4) [ none ↦ (msg, 1) | some found ↦ found ]

-- `path:line` of a field
abbrev pub place : Bytes → ℕ → ℕ → Field → Bytes × ℕ
place source message_line body_line f = (source, at message_line body_line f.line)

module _ {Row S E : Type 0} (round : S → Result E (Round Row S)) where
  -- A call of `next_row`.
  pub data NextRow : S → Result E (Option Row × S) → Type 0 where
    returns :
        (st st' : S) (row : Option Row)
        → round st ≡ ok (return row st')
        → NextRow st (ok (row, st'))
    fails : (st : S) (e : E) → round st ≡ err e → NextRow st (err e)
    again :
        (st st' : S) (out : Result E (Option Row × S))
        → round st ≡ ok (go_on st')
        → NextRow st' out
        → NextRow st out

  -- With a measure that every round that goes on makes smaller, a call comes to an end.
  module _ (measure : S → ℕ)
      (smaller : (st st' : S) → round st ≡ ok (go_on st') → measure st' < measure st) where
    ends_within :
        (n : ℕ) (st : S) → measure st < n → (out : Result E (Option Row × S)) × NextRow st out
    ends_within zero st h = absurd (omega arith)
    ends_within (suc n) st h = split (round st) refl (ends_within n)
      where
        split :
            (r : Result E (Round Row S))
            → round st ≡ r
            → ((st' : S) → measure st' < n → (out : Result E (Option Row × S)) × NextRow st' out)
            → (out : Result E (Option Row × S)) × NextRow st out
        split (err e) h' more = (err e, fails st e h')
        split (ok (return row st')) h' more = (ok (row, st'), returns st st' row h')
        split (ok (go_on st')) h' more =
            let (out, rest) = more st' (omega (arith, smaller st st' h')) in
            (out, again st st' out h' rest)

    pub NextRow-ends : (st : S) → (out : Result E (Option Row × S)) × NextRow st out
    NextRow-ends st = ends_within (suc (measure st)) st (omega arith)
