-- ===== src/Mt/Blocks.antt =====
-- The five blocks of a message: `{1:}{2:}{3:}{4:}{5:}`.
pub mod Nesting
pub mod Written
pub mod Body
use quackiso.Base.{
  ℕ, ◌+◌, ◌-◌, Bool, true, false, ◌&&◌, [], ◌∷◌, Option, none, some, Bytes, codes, ◌==◌,
  if◌then◌else◌, length, take, drop,
}
use quackiso.Text.{starts_with, find}
use quackiso.Text.Trim.{trim_start_newlines, trim_end_newlines}
use quackiso.Temporal.{slice}

-- The depth behind a byte; `saturating_sub` where nothing is open.
abbrev pub depth_after : ℕ → ℕ → ℕ
depth_after c depth = if c == b'{' then depth + 1 else if c == b'}' then depth - 1 else depth

-- `{n:`
abbrev pub pattern : ℕ → Bytes
pattern n = b'{' ∷ (b'0' + n) ∷ b':' ∷ []

-- Where the content of the block starts: behind the first pattern at depth 0.
unfoldable pub block_start : Bytes → ℕ → ℕ → Bytes → Option ℕ
block_start p depth i [] = none
block_start p depth i (c ∷ s) =
    let rest = block_start p (depth_after c depth) (i + 1) s in
    if depth == 0 && starts_with p (c ∷ s) then some (i + 3) else rest

-- The `}` that takes the depth back to 0; the depth is not 0 on the way.
unfoldable pub close_from : ℕ → ℕ → Bytes → Option ℕ
close_from depth i [] = none
close_from depth i (c ∷ s) =
    let rest = close_from (depth_after c depth) (i + 1) s in
    if c == b'}' && depth_after c depth == 0 then some i else rest

unfoldable pub close_brace : Bytes → ℕ → Option ℕ
close_brace msg from = close_from 1 from (drop from msg)

unfoldable pub count_newlines : Bytes → ℕ
count_newlines [] = 0
count_newlines (c ∷ s) = let n = count_newlines s in if c == b'\n' then n + 1 else n

unfoldable pub line_of : Bytes → ℕ → ℕ
line_of msg offset = count_newlines (take offset msg) + 1

-- Where the next `-}` behind `start` begins, or the end.
unfoldable pub text_end : Bytes → ℕ → ℕ
text_end msg start = elim (find (codes "-}") (drop start msg)) [
  | none ↦ length msg
  | some at ↦ start + at
]

-- The text of block 4: up to `-}`, or to the end, without the line ends around it.
unfoldable pub text_span : Bytes → ℕ → ℕ × ℕ
text_span msg start =
    let raw = slice start (text_end msg start) msg in
    let led = length raw - length (trim_start_newlines raw) in
    let kept = length (trim_end_newlines (trim_start_newlines raw)) in
    (start + led, start + led + kept)

-- The range of the content of block `n`, and the line of the message that it starts on.
unfoldable pub block_span : Bytes → ℕ → Option ((ℕ × ℕ) × ℕ)
block_span msg n = elim (block_start (pattern n) 0 0 msg) [
  | none ↦ none
  | some start ↦
      if n == 4
      then some (text_span msg start, line_of msg (text_span msg start).0)
      else elim (close_brace msg start) [
        | none ↦ none
        | some end ↦ some ((start, end), line_of msg start)
      ]
]

unfoldable pub block_at : Bytes → ℕ → Option (Bytes × ℕ)
block_at msg n = elim (block_span msg n) [
  | none ↦ none
  | some (range, line) ↦ some (slice range.0 range.1 msg, line)
]

unfoldable pub block : Bytes → ℕ → Option Bytes
block msg n = elim (block_at msg n) [ none ↦ none | some (content, line) ↦ some content ]

-- The line of the file, from the lines of a message, its body and a field; each of them is from 1 on.
unfoldable pub at : ℕ → ℕ → ℕ → ℕ
at message_line body_line field_line = message_line + body_line + field_line - 2
