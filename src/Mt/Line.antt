-- ===== src/Mt/Line.antt =====
-- One line of a message body: whether a field starts on it, and what it is to a walk over the body.
use quackiso.Base.{
  ℕ, ◌+◌, Bool, not, ◌&&◌, ◌||◌, Option, none, some, Bytes, codes, ltb, ◌==◌, if◌then◌else◌, length,
  get_or, take, drop,
}
use quackiso.Text.{is_digit, is_upper, is_empty, str_eq, starts_with}
use quackiso.Text.Trim.{trim_blank}

-- A key of two characters is a field number, with any option letter; a longer one is the tag.
unfoldable pub matches_key : Bytes → Bytes → Bool
matches_key tag key = if length key == 2 then starts_with key tag else str_eq tag key

-- Where the tag of a field that starts on the line ends, if one does: before a second colon.
unfoldable pub tag_end : Bytes → Option ℕ
tag_end b =
    if not (get_or b 0 0 == b':') || ltb (length b) 4
    then none
    else if not (is_digit (get_or b 1 0) && is_digit (get_or b 2 0))
    then none
    else if get_or b 3 0 == b':'
    then some 3
    else if not (ltb (length b) 5) && (is_upper (get_or b 3 0) && get_or b 4 0 == b':')
    then some 4
    else none

-- The tag and the value of a field that starts on the line.
unfoldable pub split_field : Bytes → Option (Bytes × Bytes)
split_field line = elim (tag_end line) [
  | none ↦ none
  | some end ↦ some (drop 1 (take end line), drop (end + 1) line)
]

-- A line without white space and control characters around it.
unfoldable pub line_body : Bytes → Bytes
line_body = trim_blank

pub data Line : Type 0 where
  terminator entry narrative blank continuation : Line
  field : Bytes → Bytes → Line

unfoldable pub classify_field : Bytes → Bool → Bytes → Bytes → Line
classify_field key inside tag value =
    if matches_key tag key
    then entry
    else if str_eq tag (codes "86") && inside
    then narrative
    else field tag value

-- `line` has had its carriage returns taken off, and `trimmed` is its `line_body`.
unfoldable pub classify : Bytes → Bytes → Bytes → Bool → Line
classify line trimmed key inside =
    if starts_with (codes "-}") trimmed || str_eq trimmed (codes "-")
    then terminator
    else elim (split_field line) [
      | none ↦ if is_empty trimmed then blank else continuation
      | some (tag, value) ↦ classify_field key inside tag value
    ]
