-- ===== src/Container/Ebics.antt =====
-- The EBICS root tag of src/container.rs: its local name and its namespace declarations.
pub mod Attributes
pub mod Ends
pub mod Written
pub mod Root
use quackiso.Base.{
  ℕ, zero, suc, Bool, true, false, not, ◌&&◌, ◌||◌, List, [], ◌∷◌, Option, none, some, Bytes, codes,
  ◌==◌, if◌then◌else◌, length, drop,
}
use quackiso.Text.{starts_with, span, is_empty, behind_last}
use quackiso.Container.Scan.{is_space, skip_space}
use quackiso.Container.Zip.{starts_with_any}
use quackiso.Container.Xml.{is_quote, root_start_tag, returned}

abbrev pub ebics_namespaces : List Bytes
ebics_namespaces = codes "urn:org:ebics:" ∷ codes "http://www.ebics.org/" ∷ []

abbrev pub is_gap : ℕ → Bool
is_gap c = is_space c || c == b'/'

unfoldable pub skip_gap : Bytes → Bytes
skip_gap [] = []
skip_gap (c ∷ s) = let rest = skip_gap s in if is_gap c then rest else c ∷ s

abbrev pub in_name : ℕ → Bool
in_name c = not (c == b'=') && not (is_space c)

-- A round of the attribute loop returns, or goes on with the attributes left.
pub data Walk : Type 0 where
  return : Bool → Walk
  go_on : Bytes → Walk

unfoldable pub binds_ebics : Bytes → Bytes → Bool
binds_ebics name value = starts_with (codes "xmlns") name && starts_with_any ebics_namespaces value

-- With the quote, the value and what stands from the closing quote on.
abbrev pub quoted_value : Bytes → ℕ → Bytes × Bytes → Walk
quoted_value name quote (value, rest) =
    if not (is_quote quote)
    then return false
    else if binds_ebics name value
    then return true
    else go_on (drop 1 rest)

-- The quoted value, behind the `=` and white space.
unfoldable pub at_value : Bytes → Bytes → Walk
unfolding binds_ebics
at_value name [] = return false
at_value name (quote ∷ s) = quoted_value name quote (span (λ c. not (c == quote)) s)

-- Behind the name and white space.
unfoldable pub behind_name : Bytes → Bytes → Walk
unfolding at_value skip_space
behind_name name [] = go_on []
behind_name name (c ∷ s) = if c == b'=' then at_value name (skip_space s) else go_on (c ∷ s)

abbrev pub at_name : Bytes × Bytes → Walk
at_name (name, rest) = if is_empty name then return false else behind_name name (skip_space rest)

unfoldable pub attribute_round : Bytes → Walk
unfolding skip_gap behind_name
attribute_round [] = return false
attribute_round (c ∷ s) = at_name (span in_name (skip_gap (c ∷ s)))

-- The loop on fuel; `none` is that it ran out.
unfoldable pub attribute_loop : ℕ → Bytes → Option Bool
unfolding attribute_round
attribute_loop zero s = none
attribute_loop (suc fuel) s = elim (attribute_round s) [
  | return found ↦ some found
  | go_on rest ↦ attribute_loop fuel rest
]

-- Every round that goes on leaves fewer bytes.
unfoldable pub has_ebics_namespace : Bytes → Bool
unfolding attribute_loop
has_ebics_namespace attributes =
    returned false (attribute_loop (suc (length attributes)) attributes)

-- Behind the last colon, or the whole name.
unfoldable pub local_name : Bytes → Bytes
local_name name = returned name (behind_last b':' name)

abbrev pub is_ebics_tag : Bytes × Bytes → Bool
is_ebics_tag (name, attributes) =
    starts_with (codes "ebics") (local_name name) && has_ebics_namespace attributes

abbrev pub ebics_of : Option Bytes → Bool
ebics_of none = false
ebics_of (some tag) = is_ebics_tag (span (λ c. not (is_gap c)) tag)

unfoldable pub is_ebics : Bytes → Bool
unfolding root_start_tag local_name has_ebics_namespace
is_ebics prefix = ebics_of (root_start_tag prefix)
