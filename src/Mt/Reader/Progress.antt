-- ===== src/Mt/Reader/Progress.antt =====
-- How much of a file a message takes.
use quackiso.Base.{
  ℕ, zero, suc, ◌+◌, ◌≤◌, ◌<◌, ◌≡◌, ◌⊎◌, subst, refl, Option, none, some, Bytes, length, arith,
  Result, ok, err, ◌>>=◌, inl, inr,
}
use quackiso.Text.Trim.{trim}
use quackiso.Mt.Take.{ReadError, MtReader, take_line, size}
use quackiso.Mt.Take.Mass.{mass, Outcome, take_line-Outcome}
use quackiso.Mt.Reader.Moves.{started, Moves, on_line-Moves, started-le}
use quackiso.Mt.Reader.{
  Draft, no_draft, Step, complete, too_long, go_on, on_line, after_step, after_line, message_loop,
  next_message, finished,
}

-- What a call that returned a message has left.
abbrev Leaves : ℕ → MtReader → Result ReadError (Option Bytes × MtReader) → Type 0
Leaves k r (err e) = Unit
Leaves k r (ok (none, r')) = Unit
Leaves k r (ok (some msg, r')) = mass r' + k ≤ mass r

Leaves-le :
    (k l : ℕ) (r r' : MtReader) (out : Result ReadError (Option Bytes × MtReader))
    → mass r + l ≤ mass r' + k
    → Leaves k r out
    → Leaves l r' out
Leaves-le k l r r' (err e) h m = tt
Leaves-le k l r r' (ok (none, r'')) h m = tt
Leaves-le k l r r' (ok (some msg, r'')) h m = omega (arith, h, m)

module _ (fuel : ℕ) (again : (d : Draft) (r : MtReader) → Leaves 0 r (message_loop fuel d r)) where
  after_step-Leaves :
      (n : ℕ) (d : Draft) (s : Step) (r r1 : MtReader)
      → Moves n d s r1
      → mass r1 + n + 1 ≤ mass r
      → Leaves (started d) r (after_step s (message_loop fuel))
  after_step-Leaves n d (complete msg r') r r1 m cost = omega (arith, m, cost)
  after_step-Leaves n d too_long r r1 m cost = tt
  after_step-Leaves n d (go_on d' r') r r1 m cost =
      Leaves-le 0 (started d) r' r (message_loop fuel d' r') (omega (arith, m, cost, started-le d))
        (again d' r')

  at_end-Leaves :
      (k : ℕ) (r r' : MtReader) (text : Option Bytes)
      → (text ≡ none) ⊎ (k ≡ 0)
      → mass r' ≤ mass r
      → Leaves k r (ok (text, r'))
  at_end-Leaves k r r' none fresh less = tt
  at_end-Leaves k r r' (some msg) (inl same) less = cc
  at_end-Leaves k r r' (some msg) (inr zero_cost) less = omega arith

  after_line-Leaves :
      (k : ℕ) (d : Draft) (r : MtReader) (found : Result ReadError (Option Bytes × MtReader))
      → k ≤ started d
      → (finished d.msg ≡ none) ⊎ (k ≡ 0)
      → Outcome r found
      → Leaves k r (found >>= after_line d (message_loop fuel))
  after_line-Leaves k d r (err e) small fresh o = tt
  after_line-Leaves k d r (ok (none, r')) small fresh o =
      at_end-Leaves k r r' (finished d.msg) fresh o.1
  after_line-Leaves k d r (ok (some raw, r')) small fresh o =
      Leaves-le (started d) k r r (after_step (on_line raw d r') (message_loop fuel))
        (omega (arith, small))
        (after_step-Leaves (length raw) d (on_line raw d r') r r' (on_line-Moves raw d r' o.0) o.1)

message_loop-Leaves : (fuel : ℕ) (d : Draft) (r : MtReader) → Leaves 0 r (message_loop fuel d r)
unfolding message_loop
message_loop-Leaves zero d r = tt
message_loop-Leaves (suc fuel) d r =
    after_line-Leaves fuel (message_loop-Leaves fuel) 0 d r (take_line r) (omega arith) (inr refl)
      (take_line-Outcome r)

next_message-Leaves : (r : MtReader) → Leaves 1 r (next_message r)
unfolding next_message message_loop finished trim
next_message-Leaves r =
    after_line-Leaves (size r) (message_loop-Leaves (size r)) 1 no_draft r (take_line r)
      (omega arith) (inl refl) (take_line-Outcome r)

-- A call of `next_message` that returns a message leaves less of the file: the bytes and the fills
-- that are left to read, together with a line that is held, are fewer than before.
pub next_message-takes :
    (r r' : MtReader) (msg : Bytes) → next_message r ≡ ok (some msg, r') → mass r' < mass r
next_message-takes r r' msg e = omega (
  arith,
  subst (λ (out : Result ReadError (Option Bytes × MtReader)). Leaves 1 r out) e
      (next_message-Leaves r),
)
