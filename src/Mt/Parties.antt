-- ===== src/Mt/Parties.antt =====
-- Party fields, and the helpers that the readers call on the fields of a range.
pub mod Written
pub mod Ranges
use quackiso.Base.{
  is_some, ℕ, ◌+◌, Bool, true, false, not, ◌&&◌, ◌||◌, List, [], ◌∷◌, ◌++◌, Option, none, some,
  Bytes, codes, ltb, ◌==◌, if◌then◌else◌, length, get_or, get_elem?, take, drop, and_then, Result,
  ok, err, ◌>>=◌, map_err,
}
use quackiso.Base.Int.{ℤ}
use quackiso.Text.{is_empty, split_on, split_once, starts_with, str_eq}
use quackiso.Text.Trim.{trim, trim_start_matches}
use quackiso.Mt.Error.{MtError, located}
use quackiso.Mt.Amount.{ccy_amount}
use quackiso.Mt.StatementLine.{some_text}
use quackiso.Mt.Fields.{Field, find_in}
use quackiso.Mt.Headers.{get_str}

pub data Identifies : Type 0 where
  bic name location nothing : Identifies

-- The byte behind the number of the tag.
abbrev pub option_of : Bytes → Option ℕ
option_of tag = get_elem? tag 2

abbrev pub is_option : ℕ → Option ℕ → Bool
is_option letter none = false
is_option letter (some c) = c == letter

abbrev pub is_fifty : Bytes → Bool
is_fifty tag = elim (get_str 0 2 tag) [ none ↦ false | some number ↦ str_eq number (codes "50") ]

unfoldable pub identifies : Bytes → Identifies
identifies tag =
    let option = option_of tag in
    if is_option b'A' option || is_option b'G' option
    then bic
    else if is_fifty tag && is_option b'C' option
    then bic
    else if is_option b'C' option
    then nothing
    else if is_option b'B' option
    then location
    else name

pub record PartyField : Type 0 where
  pub account : Option Bytes
  pub mark : Option Bytes
  pub identifier : Option Bytes
  pub lines : List Bytes
  pub town : Option Bytes
  pub country : Option Bytes

-- `PartyField::default()`
abbrev pub no_party : PartyField
no_party = record {
  account = none;
  mark = none;
  identifier = none;
  lines = [];
  town = none;
  country = none;
}

abbrev pub one_if : Bool → ℕ
one_if b = if b then 1 else 0

unfoldable pub structured : PartyField → ℕ
structured p = one_if (is_some p.town) + one_if (is_some p.country)

-- The trimmed lines that are not empty.
unfoldable pub kept_lines : List Bytes → List Bytes
kept_lines [] = []
kept_lines (l ∷ ls) =
    let rest = kept_lines ls in let t = trim l in if is_empty t then rest else t ∷ rest

unfoldable pub non_empty : Bytes → Option Bytes
non_empty s = let t = trim s in if is_empty t then none else some t

-- A text that is not empty, as it is.
abbrev pub filled : Bytes → Option Bytes
filled s = if is_empty s then none else some s

unfoldable pub split_account : List Bytes → Option Bytes × List Bytes
split_account [] = (none, [])
split_account (first ∷ rest) =
    if starts_with (codes "/") first
    then (non_empty (trim_start_matches b'/' first), rest)
    else (none, first ∷ rest)

-- The mark, the account, and the lines behind it.
unfoldable pub split_marked_account : List Bytes → Option Bytes × Option Bytes × List Bytes
split_marked_account [] = (none, none, [])
split_marked_account (first ∷ rest) =
    if not (starts_with (codes "/") first)
    then (none, none, first ∷ rest)
    else if ltb 3 (length first)
        && ((get_or first 1 0 == b'C' || get_or first 1 0 == b'D') && get_or first 2 0 == b'/')
    then (some (take 1 (drop 1 first)), non_empty (drop 3 first), rest)
    else (none, non_empty (trim_start_matches b'/' first), rest)

-- `line.get(2..).unwrap_or("")`
unfoldable pub behind_number : Bytes → Bytes
behind_number line = elim (get_str 2 (length line) line) [ none ↦ [] | some s ↦ s ]

abbrev pub first_of {ℓ} : {A : Type ℓ} → List A → Option A
first_of [] = none
first_of (x ∷ xs) = some x

-- `3/country/town`
unfoldable pub set_place : Bytes → PartyField → PartyField
set_place rest p = elim (split_once b'/' rest) [
  | some (country, town) ↦ record p { country = some country; town = filled town }
  | none ↦ record p { country = filled rest }
]

-- One numbered line of option F.
unfoldable pub numbered_line : Bytes → PartyField → PartyField
numbered_line line p =
    let number = get_or line 0 0 in
    let text = behind_number line in
    if number == b'1'
    then (if is_some p.identifier then p else record p { identifier = some text })
    else if number == b'2'
    then record p { lines = p.lines ++ text ∷ [] }
    else if number == b'3'
    then set_place text p
    else p

unfoldable pub numbered_lines : List Bytes → PartyField → PartyField
numbered_lines [] p = p
numbered_lines (l ∷ ls) p = numbered_lines ls (numbered_line l p)

-- The lines of a party that has neither a name, nor a line, nor a country by its numbers.
unfoldable pub unnumbered : List Bytes → PartyField → PartyField
unnumbered rest p =
    if not (is_some p.identifier) && (is_empty p.lines && not (is_some p.country))
    then record p { identifier = first_of rest; lines = drop 1 rest }
    else p

unfoldable pub option_f : List Bytes → PartyField
option_f lines =
    let (account, rest) = split_account lines in
    unnumbered rest (numbered_lines rest (record no_party { account = account }))

unfoldable pub option_c : Bytes → Bytes → PartyField
option_c tag line = elim (identifies tag) [
  | bic ↦ record no_party { identifier = some (trim_start_matches b'/' line) }
  | other ↦ record no_party { account = some (trim_start_matches b'/' line) }
]

abbrev pub is_name : Identifies → Bool
is_name name = true
is_name _ = false

-- An optional account, the identifier, and the address where the identifier is a name.
unfoldable pub plain_option : Bytes → List Bytes → PartyField
plain_option tag lines =
    let option = option_of tag in
    let marked = is_option b'A' option || (is_option b'B' option || is_option b'D' option) in
    let (mark, account, rest) =
      if marked
      then split_marked_account lines
      else (none, (split_account lines).0, (split_account lines).1) in
    record {
      account = account;
      mark = mark;
      identifier = first_of rest;
      lines = if is_name (identifies tag) then drop 1 rest else [];
      town = none;
      country = none;
    }

unfoldable pub party_of_lines : Bytes → List Bytes → PartyField
party_of_lines tag [] = no_party
party_of_lines tag (first ∷ more) =
    if is_option b'C' (option_of tag)
    then option_c tag first
    else if is_option b'F' (option_of tag)
    then option_f (first ∷ more)
    else plain_option tag (first ∷ more)

unfoldable pub party_field : Bytes → Bytes → PartyField
party_field tag v = party_of_lines tag (kept_lines (split_on b'\n' v))

-- The identifier, the account, and the mark.
unfoldable pub party : Bytes → Bytes → Option Bytes × Option Bytes × Option Bytes
party tag v =
    let field = party_field tag v in
    (and_then field.identifier some_text, and_then field.account some_text, field.mark)

-- The letter as a text; a tag is ASCII.
unfoldable pub option_letter : Bytes → Option Bytes
option_letter tag = elim (option_of tag) [ none ↦ none | some c ↦ some (c ∷ []) ]

-- `find_map` over the tags
unfoldable pub first_in : List Field → ℕ × ℕ → List Bytes → Option Field
first_in fs range [] = none
first_in fs range (tag ∷ tags) =
    let rest = first_in fs range tags in
    elim (find_in fs range tag) [ none ↦ rest | some f ↦ some f ]

unfoldable pub instructing_party : List Field → ℕ × ℕ → Option Bytes
instructing_party fs range =
    and_then (first_in fs range (codes "50C" ∷ codes "50L" ∷ [])) λ f. (party f.tag f.value).0

-- The option letter, the identifier, and the account.
unfoldable pub with_option : Option Field → Option Bytes × Option Bytes × Option Bytes
with_option none = (none, none, none)
with_option (some f) = (option_letter f.tag, (party f.tag f.value).0, (party f.tag f.value).1)

unfoldable pub customer :
    List Field → ℕ × ℕ → List Bytes → Option Bytes × Option Bytes × Option Bytes
customer fs range tags = with_option (first_in fs range tags)

unfoldable pub party_with_option :
    List Field → ℕ × ℕ → Bytes → Option Bytes × Option Bytes × Option Bytes
party_with_option fs range key = with_option (find_in fs range key)

unfoldable pub party_in : List Field → ℕ × ℕ → Bytes → Option Bytes × Option Bytes
party_in fs range key = elim (find_in fs range key) [
  | none ↦ (none, none)
  | some f ↦ ((party f.tag f.value).0, (party f.tag f.value).1)
]

-- `at` is the position of a field in its file, as the caller writes it.
unfoldable pub ccy_amount_in :
    List Field → ℕ × ℕ → Bytes → (Field → Bytes × ℕ) → Result MtError (Option Bytes × Option ℤ)
ccy_amount_in fs range tag at = elim (find_in fs range tag) [
  | none ↦ ok (none, none)
  | some f ↦ map_err (located (at f)) (ccy_amount tag f.value) >>= λ r. ok (some r.0, some r.1)
]

-- `join("\n")`
unfoldable pub join_lines : List Bytes → Bytes
join_lines [] = []
join_lines (s ∷ []) = s
join_lines (s ∷ t ∷ ss) = s ++ b'\n' ∷ join_lines (t ∷ ss)

unfoldable pub joined : List Bytes → Option Bytes
joined values = if is_empty values then none else some (join_lines values)

unfoldable pub text : Option Field → Option Bytes
text none = none
text (some f) = some f.value

unfoldable pub account_field : Bytes → Bytes
account_field = trim
