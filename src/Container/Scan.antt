-- ===== src/Container/Scan.antt =====
-- The byte helpers of src/container.rs.
use quackiso.Base.{
  ℕ, ◌+◌, Bool, true, false, not, ◌&&◌, ◌||◌, [], ◌∷◌, none, some, Bytes, ◌==◌, if◌then◌else◌, take,
  drop,
}
use quackiso.Text.{starts_with, is_digit, is_upper, is_alpha, is_empty, find, span}

-- `u8::is_ascii_whitespace`: space, tab, line feed, form feed, carriage return
abbrev pub is_space : ℕ → Bool
is_space c = c == 32 || (c == 9 || (c == 10 || (c == 12 || c == 13)))

-- `u8::to_ascii_lowercase`
abbrev pub lower : ℕ → ℕ
lower c = if is_upper c then c + 32 else c

-- `w.eq_ignore_ascii_case(needle)` of the window that opens the text
unfoldable pub starts_with_case : Bytes → Bytes → Bool
starts_with_case [] s = true
starts_with_case (p ∷ ps) [] = false
starts_with_case (p ∷ ps) (c ∷ s) = lower p == lower c && starts_with_case ps s

unfoldable pub contains_ascii_case : Bytes → Bytes → Bool
unfolding starts_with_case
contains_ascii_case [] needle = is_empty needle
contains_ascii_case (c ∷ s) needle = starts_with_case needle (c ∷ s) || contains_ascii_case s needle

-- `strip_prefix(b"\xEF\xBB\xBF").unwrap_or(haystack)`
unfoldable pub strip_bom : Bytes → Bytes
strip_bom s = if starts_with (0xef ∷ 0xbb ∷ 0xbf ∷ []) s then drop 3 s else s

-- `&body[at..]` for the first `at` that is no white space
unfoldable pub skip_space : Bytes → Bytes
skip_space [] = []
skip_space (c ∷ s) = let rest = skip_space s in if is_space c then rest else c ∷ s

unfoldable pub document_starts_with : Bytes → Bytes → Bool
unfolding strip_bom skip_space
document_starts_with haystack needle = starts_with needle (skip_space (strip_bom haystack))

abbrev is_header_name : ℕ → Bool
is_header_name c = is_alpha c || (is_digit c || c == b'-')

-- The block up to its blank line, if it has one.
unfoldable pub up_to_blank : Bytes → Bytes
up_to_blank s = elim (find (13 ∷ 10 ∷ 13 ∷ 10 ∷ []) s) [
  | some end ↦ take end s
  | none ↦ elim (find (10 ∷ 10 ∷ []) s) [ some end ↦ take end s | none ↦ s ]
]

abbrev opens_with_colon : Bytes → Bool
opens_with_colon [] = false
opens_with_colon (c ∷ s) = c == b':'

-- `name == 0 || haystack.get(name) != Some(&b':')` refuses.
unfoldable pub mime_headers : Bytes → Bytes
unfolding up_to_blank
mime_headers haystack =
    let (name, rest) = span is_header_name haystack in
    if is_empty name || not (opens_with_colon rest) then [] else up_to_blank haystack
