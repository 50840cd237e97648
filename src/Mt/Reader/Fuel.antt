-- ===== src/Mt/Reader/Fuel.antt =====
-- The loop of `next_message` comes to an end before its fuel does.
use quackiso.Base.{
  ℕ, zero, suc, ◌+◌, ◌<◌, ◌≡◌, refl, Bool, true, false, not, ◌&&◌, Option, none, some, Bytes, codes,
  ltb, if◌then◌else◌, length, arith, Result, ok, err, ◌>>=◌, Bool-cases, inl, inr,
}
use quackiso.Text.{is_empty, str_eq, starts_with}
use quackiso.Text.Trim.{trim, trim_end_newlines}
use quackiso.Mt.Line.{line_body}
use quackiso.Mt.Take.{ReadError, MtReader, take_line, size, no_boundary}
use quackiso.Mt.Reader.{
  Draft, Step, complete, too_long, go_on, mark_line, split_at, end_or_skip, push_line, on_body_line,
  on_line, after_step, after_line, message_loop, boundary, contains, finished, no_draft,
  next_message,
}
use quackiso.Mt.Take.Weight.{take_line-takes}

-- A step that goes on leaves what the reader has.
abbrev Keeps : Step → MtReader → Type 0
Keeps (complete msg r') r = Unit
Keeps too_long r = Unit
Keeps (go_on d r') r = size r' ≡ size r

mark_line-size : (d : Draft) (r : MtReader) → size (mark_line d r) ≡ size r
mark_line-size d r = ground arith

Keeps-if :
    (b : Bool) (s t : Step) (r : MtReader) → Keeps s r → Keeps t r → Keeps (if b then s else t) r
Keeps-if true s t r hs ht = hs
Keeps-if false s t r hs ht = ht

split_at-Keeps : (at : ℕ) (line : Bytes) (d : Draft) (r : MtReader) → Keeps (split_at at line d r) r
unfolding split_at
split_at-Keeps at line d r = elim (Bool-cases (ltb 0 at)) [ inl h ↦ rw h tt | inr h ↦ rw h tt ]

end_or_skip-Keeps : (d : Draft) (r : MtReader) → Keeps (end_or_skip d r) r
end_or_skip-Keeps d r = elim (Bool-cases (is_empty (trim d.msg))) [
  | inl skip ↦ rw skip refl
  | inr end ↦ rw end tt
]

push_line-Keeps : (line : Bytes) (d : Draft) (r : MtReader) → Keeps (push_line line d r) r
unfolding push_line
push_line-Keeps line d r = elim (Bool-cases (ltb r.limit (length d.msg + length line))) [
  | inl long ↦ rw long tt
  | inr fits ↦ rw fits (mark_line-size d r)
]

on_body_line-Keeps : (line : Bytes) (d : Draft) (r : MtReader) → Keeps (on_body_line line d r) r
unfolding on_body_line
on_body_line-Keeps line d r =
    Keeps-if (not d.has_block1 && (d.has_field20 && starts_with (codes ":20:") line)) _ _ _ tt (
      Keeps-if
        (is_empty d.msg
          && (not (contains (codes "{1:") line) && not (starts_with (codes ":20:") line)))
        _ _ _ refl
        (Keeps-if (not d.has_block1 && str_eq (line_body line) (codes "-")) _ _ _
          (end_or_skip-Keeps d r) (push_line-Keeps line d r)))

on_line-Keeps : (raw : Bytes) (d : Draft) (r : MtReader) → Keeps (on_line raw d r) r
unfolding on_line
on_line-Keeps raw d r =
    Keeps-if (str_eq (line_body (trim_end_newlines raw)) (codes "$")) _ _ _ (end_or_skip-Keeps d r)
      (at_boundary (boundary d.has_block1 (trim_end_newlines raw)))
  where
    at_boundary :
        (b : Option ℕ)
        → Keeps
            (elim b [
              | none ↦ on_body_line (trim_end_newlines raw) d r
              | some at ↦ split_at at (trim_end_newlines raw) d r
            ])
            r
    at_boundary none = on_body_line-Keeps (trim_end_newlines raw) d r
    at_boundary (some at) = split_at-Keeps at (trim_end_newlines raw) d r

-- A run of the loop of `next_message`, round by round, with what it comes to. No fuel is in it: a loop
-- that did not end would have no run.
pub data Run : Draft → MtReader → Result ReadError (Option Bytes × MtReader) → Type 0 where
  fails : (d : Draft) (r : MtReader) (e : ReadError) → take_line r ≡ err e → Run d r (err e)
  at_end :
      (d : Draft) (r r' : MtReader)
      → take_line r ≡ ok (none, r')
      → Run d r (ok (finished d.msg, r'))
  completes :
      (d : Draft) (r r' r'' : MtReader) (raw msg : Bytes)
      → take_line r ≡ ok (some raw, r')
      → on_line raw d r' ≡ complete msg r''
      → Run d r (ok (some msg, r''))
  outgrows :
      (d : Draft) (r r' : MtReader) (raw : Bytes)
      → take_line r ≡ ok (some raw, r')
      → on_line raw d r' ≡ too_long
      → Run d r (err no_boundary)
  next_round :
      (d d' : Draft) (r r' r'' : MtReader) (raw : Bytes)
      (out : Result ReadError (Option Bytes × MtReader))
      → take_line r ≡ ok (some raw, r')
      → on_line raw d r' ≡ go_on d' r''
      → Run d' r'' out
      → Run d r out

module _ (n : ℕ)
    (again : (d : Draft) (r : MtReader) → size r < n → Run d r (message_loop n d r)) where
  step-Run :
      (d : Draft) (r r' : MtReader) (raw : Bytes) (s : Step)
      → take_line r ≡ ok (some raw, r')
      → on_line raw d r' ≡ s
      → Keeps s r'
      → size r' < n
      → Run d r (after_step s (message_loop n))
  step-Run d r r' raw (complete msg r'') h e keeps less = completes d r r' r'' raw msg h e
  step-Run d r r' raw too_long h e keeps less = outgrows d r r' raw h e
  step-Run d r r' raw (go_on d' r'') h e keeps less =
      next_round d d' r r' r'' raw (message_loop n d' r'') h e (again d' r'' (omega (arith, keeps)))

  line-Run :
      (d : Draft) (r : MtReader) (found : Result ReadError (Option Bytes × MtReader))
      → take_line r ≡ found
      → size r < suc n
      → Run d r (found >>= after_line d (message_loop n))
  line-Run d r (err e) h enough = fails d r e h
  line-Run d r (ok (none, r')) h enough = at_end d r r' h
  line-Run d r (ok (some raw, r')) h enough =
      step-Run d r r' raw (on_line raw d r') h refl (on_line-Keeps raw d r')
        (omega (arith, take_line-takes r raw r' h))

message_loop-Run : (n : ℕ) (d : Draft) (r : MtReader) → size r < n → Run d r (message_loop n d r)
unfolding message_loop
message_loop-Run zero d r h = absurd (omega (arith, h))
message_loop-Run (suc n) d r h = line-Run n (message_loop-Run n) d r (take_line r) refl h

-- The loop of `next_message` ends, whatever the file is, and in whatever state the reader is: what
-- `next_message` returns is what a run of finitely many rounds comes to, that takes a line in each and
-- stops at a failed read, at the end of the file, at a complete message or at one that is too long.
pub next_message-Run : (r : MtReader) → Run no_draft r (next_message r)
unfolding next_message
next_message-Run r = message_loop-Run (suc (size r)) no_draft r (omega arith)
