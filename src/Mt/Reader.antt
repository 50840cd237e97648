-- ===== src/Mt/Reader.antt =====
-- `MtReader`: one message at a time out of the lines of a file.
pub mod Fuel
pub mod Moves
pub mod Progress
use quackiso.Base.{
  ℕ, zero, suc, ◌+◌, Bool, true, false, not, ◌&&◌, ◌||◌, List, [], ◌∷◌, ◌++◌, Option, none, some,
  Bytes, codes, ltb, leb, ◌==◌, if◌then◌else◌, length, take, drop, Result, ok, err, ◌>>=◌,
}
use quackiso.Text.{find, is_empty, span, starts_with, str_eq}
use quackiso.Text.Trim.{trim, trim_end_newlines}
use quackiso.Mt.Line.{line_body}
use quackiso.Mt.Take.{
  Fill, ReadError, not_eol, put_back, after_cr, behind_eol, cut_chunk, read_line, lead, utf8_from,
  bom, MtReader, with_limit, without_bom, as_text, take_from, take_line, weight, held, size, chunk,
  interrupted, failed, io_error, no_boundary, not_utf8,
}

unfoldable pub finished : Bytes → Option Bytes
finished msg = if is_empty (trim msg) then none else some msg

-- Where the next message begins in a line: behind its own block 1, if it has not been set yet.
unfoldable pub boundary : Bool → Bytes → Option ℕ
boundary true line = find (codes "{1:") line
boundary false line = elim (find (codes "{1:") line) [
  | none ↦ none
  | some own ↦ elim (find (codes "{1:") (drop (own + 3) line)) [
    | none ↦ none
    | some at ↦ some (own + 3 + at)
  ]
]

-- The message under construction.
pub record Draft : Type 0 where
  pub msg : Bytes
  pub has_block1 : Bool
  pub has_field20 : Bool

-- What a line does: the message is complete, it is too long, or the loop goes on.
pub data Step : Type 0 where
  complete : Bytes → MtReader → Step
  too_long : Step
  go_on : Draft → MtReader → Step

abbrev pub contains : Bytes → Bytes → Bool
contains p s = elim (find p s) [ none ↦ false | some at ↦ true ]

-- The line of the file that the message began at, if this is its first.
abbrev pub mark_line : Draft → MtReader → MtReader
mark_line d r = if is_empty d.msg then record r { line = r.taken } else r

-- What is in front of the boundary belongs to this message, and the rest is held.
unfoldable pub split_at : ℕ → Bytes → Draft → MtReader → Step
split_at at line d r =
    if ltb 0 at
    then complete (d.msg ++ (take at line ++ b'\n' ∷ []))
        (record (mark_line d r) { pending = some (drop at line) })
    else complete d.msg (record r { pending = some (drop at line) })

-- A message that has text is complete, and otherwise the line is passed over.
abbrev pub end_or_skip : Draft → MtReader → Step
end_or_skip d r = if is_empty (trim d.msg) then go_on d r else complete d.msg r

-- The line is the message's.
unfoldable pub push_line : Bytes → Draft → MtReader → Step
push_line line d r =
    if ltb r.limit (length d.msg + length line)
    then too_long
    else go_on
        (record {
          msg = d.msg ++ (line ++ b'\n' ∷ []);
          has_block1 = d.has_block1 || contains (codes "{1:") line;
          has_field20 = d.has_field20 || starts_with (codes ":20:") line;
        })
        (mark_line d r)

-- The tests behind the one for a boundary.
unfoldable pub on_body_line : Bytes → Draft → MtReader → Step
on_body_line line d r =
    if not d.has_block1 && (d.has_field20 && starts_with (codes ":20:") line)
    then complete d.msg (record r { pending = some line })
    else if is_empty d.msg
        && (not (contains (codes "{1:") line) && not (starts_with (codes ":20:") line))
    then go_on d r
    else if not d.has_block1 && str_eq (line_body line) (codes "-")
    then end_or_skip d r
    else push_line line d r

-- One round of the loop on a line.
unfoldable pub on_line : Bytes → Draft → MtReader → Step
on_line raw d r =
    let line = trim_end_newlines raw in
    if str_eq (line_body line) (codes "$")
    then end_or_skip d r
    else elim (boundary d.has_block1 line) [
      | some at ↦ split_at at line d r
      | none ↦ on_body_line line d r
    ]

abbrev pub after_step :
    Step
    → (Draft → MtReader → Result ReadError (Option Bytes × MtReader))
    → Result ReadError (Option Bytes × MtReader)
after_step (complete msg r) again = ok (some msg, r)
after_step too_long again = err no_boundary
after_step (go_on d r) again = again d r

abbrev pub after_line :
    Draft
    → (Draft → MtReader → Result ReadError (Option Bytes × MtReader))
    → Option Bytes × MtReader
    → Result ReadError (Option Bytes × MtReader)
after_line d again (none, r) = ok (finished d.msg, r)
after_line d again (some raw, r) = after_step (on_line raw d r) again

-- The loop, on fuel: each round takes a line.
unfoldable pub message_loop : ℕ → Draft → MtReader → Result ReadError (Option Bytes × MtReader)
message_loop zero d r = ok (none, r)
message_loop (suc fuel) d r = take_line r >>= after_line d (message_loop fuel)

abbrev pub no_draft : Draft
no_draft = record { msg = []; has_block1 = false; has_field20 = false }

unfoldable pub next_message : MtReader → Result ReadError (Option Bytes × MtReader)
next_message r = message_loop (suc (size r)) no_draft r
