-- ===== src/Encoding.antt =====
-- src/encoding.rs: the encoding that a file declares.
pub mod Declaration
use quackiso.Base.{
  ℕ, ◌+◌, Bool, true, false, not, ◌||◌, [], ◌∷◌, Option, none, some, Bytes, codes, ◌==◌,
  if◌then◌else◌, length, take, drop, and_then, Result, ok, err,
}
use quackiso.Text.{starts_with, str_eq, find}
use quackiso.Container.Scan.{strip_bom, skip_space}

abbrev pub declaration_bytes : ℕ
declaration_bytes = 512

abbrev pub is_quote : ℕ → Bool
is_quote c = c == b'"' || c == b'\''

-- The value that the quote at its front opens, up to the next such quote.
unfoldable pub quoted : Bytes → Option Bytes
quoted [] = none
quoted (q ∷ value) =
    if is_quote q
    then elim (find (q ∷ []) value) [ none ↦ none | some n ↦ some (take n value) ]
    else none

-- Behind the word `encoding`.
unfoldable pub behind_equals : Bytes → Option Bytes
behind_equals [] = none
behind_equals (c ∷ s) = if c == b'=' then quoted (skip_space s) else none

-- `&head[..find(b"?>").unwrap_or(head.len())]`
unfoldable pub declaration : Bytes → Bytes
declaration head = elim (find (codes "?>") head) [ none ↦ head | some n ↦ take n head ]

unfoldable pub label_in : Bytes → Option Bytes
label_in decl = elim (find (codes "encoding") decl) [
  | none ↦ none
  | some n ↦ behind_equals (skip_space (drop (n + 8) decl))
]

unfoldable pub declaration_label : Bytes → Option Bytes
declaration_label head =
    let text = strip_bom (take declaration_bytes head) in
    if starts_with (codes "<?xml") text then label_in (declaration text) else none

-- What a declaration is refused for, with the label.
pub data Refused : Type 0 where
  unsupported : Bytes → Refused
  utf16_without_mark : Bytes → Refused

-- The crate `encoding_rs`: its encodings with their names, the one that a byte order mark or a label
-- means, with the mark's length, and the one that an encoding's text is written in.
pub record Encodings : Type 1 where
  pub Encoding : Type 0
  pub name : Encoding → Bytes
  pub for_bom : Bytes → Option (Encoding × ℕ)
  pub for_label : Bytes → Option Encoding
  pub output_encoding : Encoding → Encoding
  pub utf_8 : Encoding
  pub utf_16le : Encoding
  pub utf_16be : Encoding

module _ (e : Encodings) where
  abbrev pub is : e.Encoding → e.Encoding → Bool
  is a b = str_eq (e.name a) (e.name b)

  -- An encoding that a label means.
  unfoldable pub accepted : Bytes → e.Encoding → Result Refused (Option (e.Encoding × ℕ))
  accepted label enc =
      if is enc e.utf_8
      then ok none
      else if not (is (e.output_encoding enc) enc)
      then (if is enc e.utf_16le || is enc e.utf_16be
          then err (utf16_without_mark label)
          else err (unsupported label))
      else ok (some (enc, 0))

  unfoldable pub of_label : Option Bytes → Result Refused (Option (e.Encoding × ℕ))
  of_label none = ok none
  of_label (some label) = elim (e.for_label label) [
    | none ↦ err (unsupported label)
    | some enc ↦ accepted label enc
  ]

  unfoldable pub declared : Bytes → Result Refused (Option (e.Encoding × ℕ))
  declared prefix = elim (e.for_bom prefix) [
    | some (enc, bom) ↦ if is enc e.utf_8 then ok none else ok (some (enc, bom))
    | none ↦ of_label (declaration_label prefix)
  ]
