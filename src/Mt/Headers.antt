-- ===== src/Mt/Headers.antt =====
-- What the headers in blocks 1 to 3 say of a message, and which reader it is for.
pub mod Terminals
pub mod Written
use quackiso.Base.{
  is_some, ℕ, ◌+◌, ◌-◌, Bool, true, false, not, ◌&&◌, ◌||◌, List, [], ◌∷◌, ◌++◌, Option, none, some,
  Bytes, codes, leb, ◌==◌, if◌then◌else◌, length, get_or, take, drop, and_then,
}
use quackiso.Text.{all, find, is_ascii, is_digit, is_empty, str_eq}
use quackiso.Text.Trim.{trim}
use quackiso.Temporal.{slice}
use quackiso.Mt.Blocks.{block}
use quackiso.Mt.Fields.{Field}
use quackiso.Mt.Fields

-- `is_char_boundary`: not inside the bytes of a character
abbrev pub is_boundary : ℕ → Bytes → Bool
is_boundary i s =
    i == 0 || (i == length s || not (leb 128 (get_or s i 128) && leb (get_or s i 128) 191))

-- `get(lo..hi)` of a text
unfoldable pub get_str : ℕ → ℕ → Bytes → Option Bytes
get_str lo hi s =
    if (leb lo hi && leb hi (length s)) && (is_boundary lo s && is_boundary hi s)
    then some (slice lo hi s)
    else none

-- By the first character of block 2, or else by its length.
unfoldable pub direction_of : Bytes → Option Bytes
direction_of [] = none
direction_of (c ∷ s) =
    if c == b'I'
    then some (codes "I")
    else if c == b'O'
    then some (codes "O")
    else if leb (length (c ∷ s)) 23
    then some (codes "I")
    else some (codes "O")

unfoldable pub direction : Bytes → Option Bytes
direction msg = and_then (block msg 2) direction_of

unfoldable pub type_of : Bytes → Option Bytes
type_of [] = none
type_of (c ∷ s) =
    let start = if c == b'I' || c == b'O' then 1 else 0 in
    and_then (get_str start (start + 3) (c ∷ s)) λ mt. if all is_digit mt then some mt else none

unfoldable pub message_type : Bytes → Option Bytes
message_type msg = and_then (block msg 2) type_of

unfoldable pub logical_terminal : Bytes → Option Bytes
logical_terminal msg = and_then (block msg 1) (get_str 3 15)

-- The ninth character is the terminal's and not part of the BIC.
unfoldable pub bic11 : Bytes → Option Bytes
bic11 lt = if length lt == 12 && is_ascii lt then some (take 8 lt ++ slice 9 12 lt) else none

unfoldable pub sender_bic : Bytes → Option Bytes
sender_bic msg = and_then (direction msg) λ d.
    if str_eq d (codes "I")
    then and_then (logical_terminal msg) bic11
    else and_then (block msg 2) λ b2. and_then (get_str 14 26 b2) bic11

unfoldable pub receiver_bic : Bytes → Option Bytes
receiver_bic msg = and_then (direction msg) λ d.
    if str_eq d (codes "I")
    then (and_then (block msg 2) λ b2. and_then (get_str 4 16 b2) bic11)
    else and_then (logical_terminal msg) bic11

-- The trimmed value, if it is not empty, up to the next brace.
unfoldable pub header_value : Bytes → Option Bytes
header_value s =
    and_then (find (codes "}") s)
      λ end. let value = trim (take end s) in if is_empty value then none else some value

-- The value of a `{tag:value}` field of block 3.
unfoldable pub user_header_field : Bytes → Bytes → Option Bytes
user_header_field msg tag =
    let open_tag = b'{' ∷ (tag ++ b':' ∷ []) in
    and_then (block msg 3)
      λ b3. and_then (find open_tag b3) λ at. header_value (drop (at + length open_tag) b3)

-- The field that only a body of this number has.
abbrev pub own_field : List Field → Bytes → Bool
own_field fields mt =
    if str_eq mt (codes "103")
    then is_some (Fields.find fields (codes "23B"))
    else if str_eq mt (codes "202")
    then is_some (Fields.find fields (codes "58"))
    else if str_eq mt (codes "940")
    then is_some (Fields.find fields (codes "60"))
    else if str_eq mt (codes "942")
    then is_some (Fields.find fields (codes "34F"))
    else false

unfoldable pub claims : Bytes → List Field → Bytes → Bool
claims msg fields mt = elim (message_type msg) [
  | some found ↦ str_eq found mt
  | none ↦ if is_some (block msg 1) then false else own_field fields mt
]

unfoldable pub first_claim : Bytes → List Field → List Bytes → Option Bytes
first_claim msg fields [] = none
first_claim msg fields (n ∷ ns) =
    let rest = first_claim msg fields ns in if claims msg fields n then some n else rest

unfoldable pub message_number : Bytes → List Field → Option Bytes
message_number msg fields = elim (message_type msg) [
  | some found ↦ some found
  | none ↦ first_claim msg fields (codes "940" ∷ codes "942" ∷ codes "103" ∷ codes "202" ∷ [])
]
