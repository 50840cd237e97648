-- ===== src/Container/Xml.antt =====
-- The scan of src/container.rs for the root start tag: comments, processing instructions and a
-- doctype are stepped over. An index into the prefix is here what stands from it on.
pub mod Prolog
pub mod Ends
use quackiso.Base.{
  ℕ, zero, suc, ◌+◌, ◌-◌, Bool, true, false, ◌&&◌, ◌||◌, [], ◌∷◌, Option, none, some, Bytes, codes,
  leb, ◌==◌, if◌then◌else◌, length, take, drop,
}
use quackiso.Text.{starts_with, find}
use quackiso.Temporal.{slice}

abbrev pub is_quote : ℕ → Bool
is_quote c = c == b'"' || c == 39

-- The loop of `tag_end` from the index `at` on, with the quote that is open.
unfoldable pub tag_end_from : Option ℕ → ℕ → Bytes → Option ℕ
tag_end_from quote at [] = none
tag_end_from (some open_quote) at (c ∷ s) =
    tag_end_from (if c == open_quote then none else some open_quote) (suc at) s
tag_end_from none at (c ∷ s) =
    let rest = tag_end_from (if is_quote c then some c else none) (suc at) s in
    if is_quote c then rest else if c == b'>' then some at else rest

unfoldable pub tag_end : Bytes → Option ℕ
unfolding tag_end_from
tag_end bytes = tag_end_from none 1 (drop 1 bytes)

-- The loop of `doctype_end`: the open brackets and the index.
unfoldable pub doctype_end_from : ℕ → ℕ → Bytes → Option ℕ
doctype_end_from depth at [] = none
doctype_end_from depth at (c ∷ s) =
    let rest =
      doctype_end_from (if c == b'[' then depth + 1 else if c == b']' then depth - 1 else depth)
        (suc at) s in
    if c == b'>' && depth == 0 then some (at + 1) else rest

unfoldable pub doctype_end : Bytes → Option ℕ
unfolding doctype_end_from
doctype_end = doctype_end_from 0 0

-- From the first `<` on.
unfoldable pub from_open : Bytes → Option Bytes
from_open [] = none
from_open (c ∷ s) = let rest = from_open s in if c == b'<' then some (c ∷ s) else rest

-- A round of the loop returns, or goes on with what is left.
pub data Scan : Type 0 where
  return : Option Bytes → Scan
  go_on : Bytes → Scan

-- Behind a construct that ends so many bytes on; `?` returns where the end is missing.
abbrev pub step_over : ℕ → Option ℕ → Bytes → Scan
step_over extra none rest = return none
step_over extra (some n) rest = go_on (drop (n + extra) rest)

abbrev pub start_tag : Option ℕ → Bytes → Option Bytes
start_tag none rest = none
start_tag (some end) rest = some (slice 1 end rest)

unfoldable pub at_open : Bytes → Scan
unfolding tag_end doctype_end
at_open rest =
    if starts_with (codes "<!--") rest
    then step_over 7 (find (codes "-->") (drop 4 rest)) rest
    else if starts_with (codes "<?") rest
    then step_over 4 (find (codes "?>") (drop 2 rest)) rest
    else if starts_with (codes "<!") rest
    then step_over 2 (doctype_end (drop 2 rest)) rest
    else if starts_with (codes "</") rest
    then return none
    else return (start_tag (tag_end rest) rest)

abbrev pub scan_from : Option Bytes → Scan
scan_from none = return none
scan_from (some rest) = at_open rest

unfoldable pub root_round : Bytes → Scan
unfolding from_open at_open
root_round s = scan_from (from_open s)

-- The loop on fuel; the outer `none` is that it ran out.
unfoldable pub root_loop : ℕ → Bytes → Option (Option Bytes)
unfolding root_round
root_loop zero s = none
root_loop (suc fuel) s = elim (root_round s) [
  | return tag ↦ some tag
  | go_on rest ↦ root_loop fuel rest
]

abbrev pub returned {ℓ} : {A : Type ℓ} → A → Option A → A
returned d none = d
returned d (some a) = a

-- Every round that goes on leaves fewer bytes.
unfoldable pub root_start_tag : Bytes → Option Bytes
unfolding root_loop
root_start_tag prefix = returned none (root_loop (suc (length prefix)) prefix)
