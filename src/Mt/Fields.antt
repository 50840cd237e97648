-- ===== src/Mt/Fields.antt =====
-- The fields of a message body in the order in which they are written, and how they are found.
pub mod Ranges
use quackiso.Base.{
  ℕ, suc, ◌+◌, Bool, true, false, ◌&&◌, ◌||◌, List, [], ◌∷◌, ◌++◌, reverse, Option, none, some,
  Bytes, codes, leb, if◌then◌else◌, length, take, drop,
}
use quackiso.Text.{split_on, str_eq}
use quackiso.Text.Trim.{trim, trim_end_matches}
use quackiso.Mt.Line.{
  Line, terminator, entry, narrative, blank, continuation, field, classify, line_body, matches_key,
}

pub record Field : Type 0 where
  pub tag : Bytes
  pub value : Bytes
  pub line : ℕ

-- What the walk of `without_entries` has so far.
pub record Walk : Type 0 where
  pub out : List Field
  pub entries : ℕ
  pub inside : Bool

-- A continuation outside an entry: raw behind an 86, trimmed and on a line of its own elsewhere.
unfoldable pub extend_field : Bytes → Bytes → Field → Field
extend_field line trimmed f =
    if str_eq f.tag (codes "86")
    then record f { value = f.value ++ line }
    else record f { value = f.value ++ b'\n' ∷ trimmed }

-- `out.last_mut()`
unfoldable pub extend_last : Bytes → Bytes → List Field → List Field
extend_last line trimmed [] = []
extend_last line trimmed (f ∷ []) = extend_field line trimmed f ∷ []
extend_last line trimmed (f ∷ g ∷ fs) = f ∷ extend_last line trimmed (g ∷ fs)

unfoldable pub new_field : ℕ → Bytes → Bytes → Field
new_field index tag value = record {
  tag = tag;
  value = if str_eq tag (codes "86") then value else trim value;
  line = index;
}

-- One round of the loop on a line that is no terminator.
unfoldable pub walk_line : Line → ℕ → Bytes → Bytes → Walk → Walk
walk_line terminator index line trimmed w = w
walk_line entry index line trimmed w = record w { entries = w.entries + 1; inside = true }
walk_line narrative index line trimmed w = w
walk_line (field tag value) index line trimmed w = record w {
  out = w.out ++ new_field index tag value ∷ [];
  inside = false;
}
walk_line blank index line trimmed w = w
walk_line continuation index line trimmed w =
    if w.inside then w else record w { out = extend_last line trimmed w.out }

-- The loop over the lines that are left; `index` is the number of the next one, from 1.
unfoldable pub walk : Bytes → ℕ → Walk → List Bytes → Walk
walk key index w [] = w
walk key index w (raw ∷ lines) =
    let line = trim_end_matches b'\r' raw in
    let trimmed = line_body line in
    elim (classify line trimmed key w.inside) [
      | terminator ↦ w
      | other ↦ walk key (index + 1) (walk_line other index line trimmed w) lines
    ]

abbrev pub start : Walk
start = record { out = []; entries = 0; inside = false }

unfoldable pub without_entries : Bytes → Bytes → List Field × ℕ
without_entries body key = let w = walk key 1 start (split_on b'\n' body) in (w.out, w.entries)

unfoldable pub parse : Bytes → List Field
parse body = (without_entries body []).0

unfoldable pub find : List Field → Bytes → Option Field
find [] key = none
find (f ∷ fs) key = if matches_key f.tag key then some f else find fs key

unfoldable pub find_last : List Field → Bytes → Option Field
find_last fs key = find (reverse fs) key

-- `get(range)` of a slice
unfoldable pub get_range {ℓ} : {A : Type ℓ} → List A → ℕ × ℕ → Option (List A)
get_range xs (from, to) =
    if leb from to && leb to (length xs) then some (drop from (take to xs)) else none

unfoldable pub find_in : List Field → ℕ × ℕ → Bytes → Option Field
find_in fs range key = elim (get_range fs range) [ none ↦ none | some part ↦ find part key ]

unfoldable pub values : List Field → Bytes → List Bytes
values [] key = []
values (f ∷ fs) key =
    let rest = values fs key in if matches_key f.tag key then f.value ∷ rest else rest

unfoldable pub all_in : List Field → ℕ × ℕ → Bytes → List Bytes
all_in fs range key = elim (get_range fs range) [ none ↦ [] | some part ↦ values part key ]

unfoldable pub value : List Field → Bytes → Option Bytes
value fs key = elim (find fs key) [ none ↦ none | some f ↦ some f.value ]

unfoldable pub all : List Field → Bytes → List Bytes
all fs key = all_in fs (0, length fs) key

unfoldable pub matches_any : Bytes → List Bytes → Bool
matches_any tag [] = false
matches_any tag (key ∷ keys) = matches_key tag key || matches_any tag keys

unfoldable pub position : List Field → List Bytes → Option ℕ
position [] keys = none
position (f ∷ fs) keys =
    if matches_any f.tag keys
    then some 0
    else elim (position fs keys) [ none ↦ none | some n ↦ some (suc n) ]

-- `sequences`: the ranges that the exact tag opens, each up to the next.
unfoldable pub starts : List Field → Bytes → ℕ → List ℕ
starts [] tag index = []
starts (f ∷ fs) tag index =
    let rest = starts fs tag (index + 1) in if str_eq f.tag tag then index ∷ rest else rest

unfoldable pub ranges : List ℕ → ℕ → List (ℕ × ℕ)
ranges [] end = []
ranges (from ∷ []) end = (from, end) ∷ []
ranges (from ∷ next ∷ more) end = (from, next) ∷ ranges (next ∷ more) end

unfoldable pub sequences : List Field → Bytes → List (ℕ × ℕ)
sequences fs tag = ranges (starts fs tag 0) (length fs)
