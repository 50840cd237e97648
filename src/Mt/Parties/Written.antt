-- ===== src/Mt/Parties/Written.antt =====
-- `party_field` on a party that is written line by line.
use quackiso.Base.{
  ℕ, ◌-◌, ◌≡◌, refl, ap, ◌∙◌, ◌≢◌, true, false, ◌&&◌, List, [], ◌∷◌, ◌++◌, Option, none, some,
  Bytes, leb, if◌then◌else◌, length, arith, All, append_assoc, take-length, append-nil, le→leb,
}
use quackiso.Text.{is_empty, split_on}
use quackiso.Text.Trim.{trim, trim_start_matches, strip_stop, strip, one_of}
use quackiso.Text.Search.{split_once-behind}
use quackiso.Mt.Headers.{get_str, is_boundary}
use quackiso.Mt.Parties.{
  PartyField, party_field, party_of_lines, kept_lines, join_lines, option_f, split_account,
  non_empty, numbered_line, numbered_lines, unnumbered, behind_number, set_place, no_party,
  is_option, option_of,
}

-- A line that is kept as it is: it is not empty, has no white space around it, and no line end in it.
pub record IsLine (s : Bytes) : Type 0 where
  pub nonempty : s ≢ []
  pub trimmed : trim s ≡ s
  pub one_line : All (λ c. c ≢ b'\n') s

split_on-missing : (s : Bytes) → All (λ c. c ≢ b'\n') s → split_on b'\n' s ≡ s ∷ []
unfolding split_on
split_on-missing [] h = refl
split_on-missing (c ∷ s) h = ground (arith, split_on-missing s h.1)

split_on-behind :
    (s t : Bytes) → All (λ c. c ≢ b'\n') s → split_on b'\n' (s ++ b'\n' ∷ t) ≡ s ∷ split_on b'\n' t
unfolding split_on
split_on-behind [] t h = ground arith
split_on-behind (c ∷ s) t h = ground (arith, split_on-behind s t h.1)

kept_lines-IsLine :
    (s : Bytes) (ls : List Bytes) → IsLine s → kept_lines (s ∷ ls) ≡ s ∷ kept_lines ls
unfolding kept_lines
kept_lines-IsLine [] ls h = absurd (h.nonempty refl)
kept_lines-IsLine (c ∷ s) ls h = rw (h.trimmed) refl

-- Lines that are joined are split again into the same lines.
lines-join_lines :
    (s : Bytes) (ls : List Bytes)
    → All IsLine (s ∷ ls)
    → kept_lines (split_on b'\n' (join_lines (s ∷ ls))) ≡ s ∷ ls
unfolding join_lines kept_lines
lines-join_lines s [] h = rw (split_on-missing s h.0.one_line) (kept_lines-IsLine s [] h.0)
lines-join_lines s (t ∷ ls) h = rw (split_on-behind s (join_lines (t ∷ ls)) h.0.one_line) (
    kept_lines-IsLine s (split_on b'\n' (join_lines (t ∷ ls))) h.0
    ∙ ap (λ rest. s ∷ rest) (lines-join_lines t ls h.1))

-- A text that does not begin inside the bytes of a character.
abbrev pub StartsChar : Bytes → Type 0
StartsChar [] = Unit
StartsChar (c ∷ s) = (leb 128 c && leb c 191) ≡ false

end-is_boundary : (s : Bytes) → is_boundary (length s) s ≡ true
end-is_boundary s = ground arith

behind_number-line : (n : ℕ) (s : Bytes) → StartsChar s → behind_number (n ∷ b'/' ∷ s) ≡ s
unfolding behind_number get_str
behind_number-line n [] h = refl
behind_number-line n (c ∷ s) h =
    let line = n ∷ b'/' ∷ c ∷ s in
    let low : leb 2 (length line) ≡ true = le→leb 2 (length line) (omega arith) in
    let whole : leb (length line) (length line) ≡ true =
      le→leb (length line) (length line) (omega arith) in
    let inside : is_boundary 2 line ≡ true = ground (arith, h) in
    let size : length line - 2 ≡ length (c ∷ s) = omega arith in
    rw (behind_number, get_str, low, whole, inside, end-is_boundary line, size, take-length (c ∷ s))

-- A party of option F: an account if there is one, a name, the lines of the street, and the place.
pub record Numbered : Type 0 where
  pub account : Option Bytes
  pub name : Bytes
  pub street : List Bytes
  pub country : Bytes
  pub town : Bytes

abbrev pub account_lines : Option Bytes → List Bytes
account_lines none = []
account_lines (some a) = (b'/' ∷ a) ∷ []

abbrev pub street_lines : List Bytes → List Bytes → List Bytes
street_lines [] rest = rest
street_lines (s ∷ ss) rest = (b'2' ∷ b'/' ∷ s) ∷ street_lines ss rest

abbrev pub place_line : Numbered → Bytes
place_line p = b'3' ∷ b'/' ∷ (p.country ++ b'/' ∷ p.town)

abbrev pub numbered_text : Numbered → List Bytes
numbered_text p = (b'1' ∷ b'/' ∷ p.name) ∷ street_lines p.street (place_line p ∷ [])

abbrev pub IsAccount : Option Bytes → Type 0
IsAccount none = Unit
IsAccount (some a) = (a ≢ []) × (trim a ≡ a) × (one_of b'/' b'/' a ≡ 0)

pub record IsNumbered (p : Numbered) : Type 0 where
  pub account : IsAccount p.account
  pub name_char : StartsChar p.name
  pub street_char : All StartsChar p.street
  pub place_char : StartsChar (p.country ++ b'/' ∷ p.town)
  pub country_slash : All (λ c. c ≢ b'/') p.country

street-numbered_lines :
    (ss rest : List Bytes) (p : PartyField)
    → All StartsChar ss
    → numbered_lines (street_lines ss rest) p
      ≡ numbered_lines rest (record p { lines = p.lines ++ ss })
unfolding numbered_lines numbered_line
street-numbered_lines [] rest p h = rw (append-nil p.lines) refl
street-numbered_lines (s ∷ ss) rest p h =
    rw (numbered_lines, behind_number-line b'2' s h.0)
      (street-numbered_lines ss rest (record p { lines = p.lines ++ s ∷ [] }) h.1
        ∙ ap (λ lines. numbered_lines rest (record p { lines = lines }))
            (append_assoc p.lines (s ∷ []) ss))

-- The parts that come out of it.
abbrev pub party_of : Numbered → PartyField
party_of p = record {
  account = p.account;
  mark = none;
  identifier = some p.name;
  lines = p.street;
  town = if is_empty p.town then none else some p.town;
  country = some p.country;
}

non_empty-trimmed : (s : Bytes) → s ≢ [] → trim s ≡ s → non_empty s ≡ some s
unfolding non_empty
non_empty-trimmed [] h e = absurd (h refl)
non_empty-trimmed (c ∷ s) h e = rw e refl

split_account-written :
    (a : Option Bytes) (p : Numbered)
    → IsAccount a
    → split_account (account_lines a ++ numbered_text p) ≡ (a, numbered_text p)
unfolding split_account trim_start_matches strip
split_account-written none p h = refl
split_account-written (some a) p h =
    rw (strip_stop (one_of b'/' b'/') a h.2)
      (ap (λ t. (t, numbered_text p)) (non_empty-trimmed a h.0 h.1))

abbrev named : Numbered → PartyField
named p = record no_party { account = p.account; identifier = some p.name }

numbered_lines-written :
    (p : Numbered)
    → IsNumbered p
    → numbered_lines (numbered_text p) (record no_party { account = p.account }) ≡ party_of p
unfolding numbered_lines numbered_line set_place
numbered_lines-written p h =
    rw (numbered_lines, behind_number-line b'1' p.name h.name_char)
      (street-numbered_lines p.street (place_line p ∷ []) (named p) h.street_char
        ∙ rw
            (
              numbered_lines,
              behind_number-line b'3' (p.country ++ b'/' ∷ p.town) h.place_char,
              set_place,
              split_once-behind b'/' p.country p.town h.country_slash,
            )
            refl)

option_f-written :
    (a : Option Bytes) (p : Numbered)
    → IsAccount a
    → numbered_lines (numbered_text p) (record no_party { account = a })
      ≡ record (party_of p) { account = a }
    → option_f (account_lines a ++ numbered_text p) ≡ record (party_of p) { account = a }
unfolding option_f unnumbered
option_f-written a p h e = rw (split_account-written a p h, e) refl

is_option-other : (o : Option ℕ) → is_option b'F' o ≡ true → is_option b'C' o ≡ false
is_option-other none h = refl
is_option-other (some c) h = ground arith

party_of_lines-f :
    (tag first : Bytes) (more : List Bytes)
    → is_option b'F' (option_of tag) ≡ true
    → party_of_lines tag (first ∷ more) ≡ option_f (first ∷ more)
unfolding party_of_lines
party_of_lines-f tag first more f = rw (is_option-other (option_of tag) f, f)

field-f :
    (tag : Bytes) (ls : List Bytes)
    → is_option b'F' (option_of tag) ≡ true
    → ls ≢ []
    → All IsLine ls
    → party_field tag (join_lines ls) ≡ option_f ls
unfolding party_field
field-f tag [] f full h = absurd (full refl)
field-f tag (s ∷ ls) f full h = rw (lines-join_lines s ls h) (party_of_lines-f tag s ls f)

written-full : (a : Option Bytes) (p : Numbered) → account_lines a ++ numbered_text p ≢ []
written-full none p e = cc
written-full (some a) p e = cc

-- A party field of option F, written line by line, is taken apart into exactly what was written: the
-- account if there is one, the name, the street lines in their order, the country, and the town unless
-- it is empty. The lines have no white space around them, the account and the country no slash where
-- one would be taken off or split at.
pub party_field-numbered :
    (tag : Bytes) (p : Numbered)
    → is_option b'F' (option_of tag) ≡ true
    → IsNumbered p
    → All IsLine (account_lines p.account ++ numbered_text p)
    → party_field tag (join_lines (account_lines p.account ++ numbered_text p)) ≡ party_of p
party_field-numbered tag p f h lines =
    field-f tag (account_lines p.account ++ numbered_text p) f (written-full p.account p) lines
    ∙ option_f-written p.account p h.account (numbered_lines-written p h)
