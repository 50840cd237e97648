-- ===== src/Text.antt =====
-- The operations of Rust's `str` and `[u8]` that the program calls, on the bytes of a text. A
-- `str` is UTF-8, so a character that is not ASCII stands there as its two to four bytes.
pub mod Trim
pub mod TrimEnd
pub mod Lines
pub mod Search
pub mod Digits
use quackiso.Base.{
  ℕ, zero, suc, ◌+◌, Bool, true, false, ◌&&◌, ◌||◌, List, [], ◌∷◌, Option, none, some, Bytes, leb,
  ◌==◌, if◌then◌else◌, drop, length, ltb,
}

-- `==` of two texts
abbrev pub str_eq : Bytes → Bytes → Bool
str_eq [] [] = true
str_eq (x ∷ xs) (y ∷ ys) = x == y && str_eq xs ys
str_eq _ _ = false

-- `s.starts_with(p)`, as `starts_with p s`
abbrev pub starts_with : Bytes → Bytes → Bool
starts_with [] s = true
starts_with (p ∷ ps) [] = false
starts_with (p ∷ ps) (c ∷ s) = p == c && starts_with ps s

abbrev pub is_digit : ℕ → Bool
is_digit c = leb b'0' c && leb c b'9'

abbrev pub is_upper : ℕ → Bool
is_upper c = leb b'A' c && leb c b'Z'

abbrev pub is_alpha : ℕ → Bool
is_alpha c = is_upper c || (leb b'a' c && leb c b'z')

-- `bytes().all(p)`
abbrev pub all : (ℕ → Bool) → Bytes → Bool
all p [] = true
all p (c ∷ s) = p c && all p s

-- `is_ascii`
abbrev pub is_ascii : Bytes → Bool
is_ascii = all (λ c. ltb c 128)

abbrev pub is_empty {ℓ} : {A : Type ℓ} → List A → Bool
is_empty [] = true
is_empty (c ∷ s) = false

-- `split_once(b)`, at the first byte `b`
unfoldable pub split_once : ℕ → Bytes → Option (Bytes × Bytes)
split_once b [] = none
split_once b (c ∷ s) =
    if c == b
    then some ([], s)
    else elim (split_once b s) [ none ↦ none | some (l, r) ↦ some (c ∷ l, r) ]

-- `find(p)`: where the first occurrence of `p` begins
unfoldable pub find : Bytes → Bytes → Option ℕ
find p [] = if is_empty p then some 0 else none
find p (c ∷ s) =
    if starts_with p (c ∷ s)
    then some 0
    else elim (find p s) [ none ↦ none | some n ↦ some (suc n) ]

-- `take_while(p)` and what is left
unfoldable pub span : (ℕ → Bool) → Bytes → Bytes × Bytes
span p [] = ([], [])
span p (c ∷ s) = let (l, r) = span p s in if p c then (c ∷ l, r) else ([], c ∷ s)

abbrev pub prepend : ℕ → List Bytes → List Bytes
prepend c [] = (c ∷ []) ∷ []
prepend c (p ∷ ps) = (c ∷ p) ∷ ps

-- `split(b)`: the pieces between the bytes `b`
unfoldable pub split_on : ℕ → Bytes → List Bytes
split_on b [] = [] ∷ []
split_on b (c ∷ s) = let rest = split_on b s in if c == b then [] ∷ rest else prepend c rest

-- `split('\n').next()`
unfoldable pub first_line : Bytes → Bytes
first_line [] = []
first_line (c ∷ s) = let rest = first_line s in if c == b'\n' then [] else c ∷ rest

-- What stands behind the last byte `b`, if there is one.
unfoldable pub behind_last : ℕ → Bytes → Option Bytes
behind_last b [] = none
behind_last b (c ∷ s) = elim (behind_last b s) [
  | some r ↦ some r
  | none ↦ if c == b then some s else none
]
