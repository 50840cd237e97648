-- ===== src/Mt/Take.antt =====
-- `take_line`: the lines of a file, out of what `fill_buf` gives.
pub mod Lines
pub mod Weight
pub mod Mass
use quackiso.Base.{
  ℕ, zero, suc, ◌+◌, Bool, true, false, not, ◌&&◌, ◌||◌, List, [], ◌∷◌, ◌++◌, Option, none, some,
  Bytes, codes, ltb, leb, ◌==◌, if◌then◌else◌, length, take, drop, Result, ok, err, ◌>>=◌,
}
use quackiso.Text.{find, is_empty, span, starts_with, str_eq}
use quackiso.Text.Trim.{trim, trim_end_newlines}
use quackiso.Mt.Line.{line_body}

-- What the next `fill_buf` of the file gives. Bytes that are not consumed are given again, and at the
-- end of the list the file has ended, as it has with no bytes.
pub data Fill : Type 0 where
  chunk : Bytes → Fill
  interrupted failed : Fill

pub data ReadError : Type 0 where
  io_error no_boundary not_utf8 : ReadError

abbrev pub not_eol : ℕ → Bool
not_eol c = not (c == b'\n' || c == b'\r')

-- The rest of a chunk in front of the fills that follow.
abbrev pub put_back : Bytes → List Fill → List Fill
put_back [] fills = fills
put_back (c ∷ s) fills = chunk (c ∷ s) ∷ fills

-- Behind a CR: the LF of a CRLF is consumed, if it is in what the next fill gives.
unfoldable pub after_cr : List Fill → Result ReadError (List Fill)
after_cr [] = ok []
after_cr (interrupted ∷ fills) = ok fills
after_cr (failed ∷ fills) = err io_error
after_cr (chunk [] ∷ fills) = ok (chunk [] ∷ fills)
after_cr (chunk (c ∷ s) ∷ fills) =
    if c == b'\n' then ok (put_back s fills) else ok (chunk (c ∷ s) ∷ fills)

abbrev pub behind_eol : ℕ → List Fill → Result ReadError (List Fill)
behind_eol c fills = if c == b'\r' then after_cr fills else ok fills

-- What is done with a chunk that was searched: `head` is the part without a line end, and `more` the
-- loop on the fills that follow.
unfoldable pub cut_chunk :
    ℕ
    → Bytes
    → Bytes × Bytes
    → List Fill
    → Result ReadError (Option Bytes × List Fill)
    → Result ReadError (Option Bytes × List Fill)
cut_chunk limit line (head, []) fills more =
    if ltb limit (length line + length head) then err no_boundary else more
cut_chunk limit line (head, c ∷ rest) fills more =
    if ltb limit (length line + length head)
    then err no_boundary
    else behind_eol c (put_back rest fills) >>= λ left. ok (some (line ++ head), left)

-- The loop of `take_line`: the line so far, and whether a byte was seen.
unfoldable pub read_line :
    ℕ → Bytes → Bool → List Fill → Result ReadError (Option Bytes × List Fill)
read_line limit line seen [] = ok (if seen then some line else none, [])
read_line limit line seen (interrupted ∷ fills) = read_line limit line seen fills
read_line limit line seen (failed ∷ fills) = err io_error
read_line limit line seen (chunk [] ∷ fills) =
    ok (if seen then some line else none, chunk [] ∷ fills)
read_line limit line seen (chunk (b ∷ buf) ∷ fills) =
    cut_chunk limit line (span not_eol (b ∷ buf)) fills
      (read_line limit (line ++ (span not_eol (b ∷ buf)).0) true fills)

-- How many bytes follow the first byte of a character, and the range of the first of them.
abbrev pub lead : ℕ → Option (ℕ × ℕ × ℕ)
lead c =
    if leb 0xc2 c && leb c 0xdf
    then some (1, 0x80, 0xbf)
    else if c == 0xe0
    then some (2, 0xa0, 0xbf)
    else if c == 0xed
    then some (2, 0x80, 0x9f)
    else if leb 0xe1 c && leb c 0xef
    then some (2, 0x80, 0xbf)
    else if c == 0xf0
    then some (3, 0x90, 0xbf)
    else if leb 0xf1 c && leb c 0xf3
    then some (3, 0x80, 0xbf)
    else if c == 0xf4
    then some (3, 0x80, 0x8f)
    else none

-- `String::from_utf8`: `missing` bytes of a character are to come, the next in the range.
unfoldable pub utf8_from : ℕ → ℕ → ℕ → Bytes → Bool
utf8_from zero low high [] = true
utf8_from (suc missing) low high [] = false
utf8_from zero low high (c ∷ s) = elim (ltb c 128) [
  | true ↦ utf8_from zero low high s
  | false ↦ elim (lead c) [
    | none ↦ false
    | some (missing, low', high') ↦ utf8_from missing low' high' s
  ]
]
utf8_from (suc missing) low high (c ∷ s) = elim (leb low c && leb c high) [
  | true ↦ utf8_from missing 0x80 0xbf s
  | false ↦ false
]

abbrev pub bom : Bytes
bom = 0xef ∷ 0xbb ∷ 0xbf ∷ []

pub record MtReader : Type 0 where
  pub input : List Fill
  pub pending : Option Bytes
  pub limit : ℕ
  pub taken : ℕ
  pub line : ℕ

unfoldable pub with_limit : List Fill → ℕ → MtReader
with_limit fills limit = record {
  input = fills;
  pending = none;
  limit = limit;
  taken = 0;
  line = 1;
}

abbrev pub without_bom : Bool → Bytes → Bytes
without_bom first text = if first && starts_with bom text then drop 3 text else text

-- A line that was read: counted, checked, and without a BOM if it is the first.
unfoldable pub as_text :
    MtReader → Option Bytes × List Fill → Result ReadError (Option Bytes × MtReader)
as_text r (none, left) = ok (none, record r { input = left })
as_text r (some line, left) =
    if utf8_from 0 0 0 line
    then ok (some (without_bom (r.taken == 0) line), record r { input = left; taken = r.taken + 1 })
    else err not_utf8

-- The line that is held, or else the next of the file.
abbrev pub take_from : MtReader → Option Bytes → Result ReadError (Option Bytes × MtReader)
take_from r (some held) = ok (some held, record r { pending = none })
take_from r none = read_line r.limit [] false r.input >>= as_text r

unfoldable pub take_line : MtReader → Result ReadError (Option Bytes × MtReader)
take_line r = take_from r r.pending

-- The bytes and the fills that are left: a line takes at least one of them, or what is held.
abbrev pub weight : List Fill → ℕ
weight [] = 0
weight (chunk s ∷ fills) = suc (length s + weight fills)
weight (interrupted ∷ fills) = suc (weight fills)
weight (failed ∷ fills) = suc (weight fills)

abbrev pub held : Option Bytes → ℕ
held none = 0
held (some s) = 1

abbrev pub size : MtReader → ℕ
size r = weight r.input + held r.pending
