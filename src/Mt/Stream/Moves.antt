-- ===== src/Mt/Stream/Moves.antt =====
-- The rounds of a stream that read a message, and what they leave of the file.
use quackiso.Base.{
  ◌<◌, ◌≡◌, refl, subst, Bool, true, false, Option, none, some, Bytes, if◌then◌else◌, Result, ok,
  err, map_err, ◌>>=◌,
}
use quackiso.Mt.Take.{MtReader, ReadError}
use quackiso.Mt.Take.Mass.{mass}
use quackiso.Mt.Reader.{next_message}
use quackiso.Mt.Reader.Progress.{next_message-takes}
use quackiso.Mt.Stream.{Round, return, go_on}

module _ {Row S E : Type 0} (reader_of : S → MtReader) where
  -- A round that goes on has this reader.
  abbrev pub Keeps : MtReader → Result E (Round Row S) → Type 0
  Keeps r (err e) = Unit
  Keeps r (ok (return row st)) = Unit
  Keeps r (ok (go_on st)) = reader_of st ≡ r

  -- A round that does not go on.
  abbrev pub Stops : Result E (Round Row S) → Type 0
  Stops (err e) = Unit
  Stops (ok (return row st)) = Unit
  Stops (ok (go_on st)) = ⊥

  pub Keeps-if :
      (b : Bool) (r : MtReader) (x y : Result E (Round Row S))
      → Keeps r x
      → Keeps r y
      → Keeps r (if b then x else y)
  Keeps-if true r x y hx hy = hx
  Keeps-if false r x y hx hy = hy

  pub Stops-if :
      (b : Bool) (x y : Result E (Round Row S)) → Stops x → Stops y → Stops (if b then x else y)
  Stops-if true x y hx hy = hx
  Stops-if false x y hx hy = hy

  -- A round that goes on with less of the file.
  abbrev Less : MtReader → Result E (Round Row S) → Type 0
  Less r (err e) = Unit
  Less r (ok (return row st)) = Unit
  Less r (ok (go_on st)) = mass (reader_of st) < mass r

  Keeps→Less :
      (r r' : MtReader) (out : Result E (Round Row S))
      → mass r' < mass r
      → Keeps r' out
      → Less r out
  Keeps→Less r r' (err e) h k = tt
  Keeps→Less r r' (ok (return row st)) h k = tt
  Keeps→Less r r' (ok (go_on st)) h k = rw k h

  Stops→Less : (r : MtReader) (out : Result E (Round Row S)) → Stops out → Less r out
  Stops→Less r (err e) k = tt
  Stops→Less r (ok (return row st)) k = tt
  Stops→Less r (ok (go_on st)) k = absurd k

  module _ (wrap : ReadError → E) (next : Option Bytes × MtReader → Result E (Round Row S))
      (at_end : (r' : MtReader) → Stops (next (none, r')))
      (at_message : (msg : Bytes) (r' : MtReader) → Keeps r' (next (some msg, r'))) where
    found-Less :
        (r : MtReader) (found : Result ReadError (Option Bytes × MtReader))
        → next_message r ≡ found
        → Less r (map_err wrap found >>= next)
    found-Less r (err e) h = tt
    found-Less r (ok (none, r')) h = Stops→Less r (next (none, r')) (at_end r')
    found-Less r (ok (some msg, r')) h =
        Keeps→Less r r' (next (some msg, r')) (next_message-takes r r' msg h) (at_message msg r')

    -- A round that reads a message and goes on has taken something of the file.
    pub message_round-smaller :
        (r : MtReader) (st : S)
        → map_err wrap (next_message r) >>= next ≡ ok (go_on st)
        → mass (reader_of st) < mass r
    message_round-smaller r st e = subst (Less r) e (found-Less r (next_message r) refl)
