-- ===== src/Text/Trim.antt =====
-- `trim`, `trim_start_matches` and `trim_end_matches`. A class of characters is the function that
-- says how many bytes the character of the class that opens a text takes, 0 if none does.
use mathlib.Core.List.{reverse-reverse}
use quackiso.Base.{
  ℕ, zero, suc, ◌<◌, ◌≡◌, refl, ap, ◌∙◌, Bool, ◌&&◌, ◌||◌, [], ◌∷◌, reverse, Bytes, leb, ◌==◌,
  if◌then◌else◌, arith, All, All-reverse,
}

-- Drops characters of the class from the front; `skip` bytes of one are still to go.
unfoldable pub strip : (Bytes → ℕ) → ℕ → Bytes → Bytes
strip w skip [] = []
strip w (suc skip) (c ∷ s) = strip w skip s
strip w zero (c ∷ s) = elim (w (c ∷ s)) [ zero ↦ c ∷ s | suc n ↦ strip w n s ]

-- The bytes of U+1680, U+2000 to U+200A, U+2028, U+2029, U+202F, U+205F and U+3000.
abbrev is_wide_space : ℕ → ℕ → ℕ → Bool
is_wide_space a b c =
    (a == 0xe1 && (b == 0x9a && c == 0x80))
    || ((a == 0xe2
          && ((b == 0x80 && ((leb 0x80 c && leb c 0x8a) || (c == 0xa8 || (c == 0xa9 || c == 0xaf))))
              || (b == 0x81 && c == 0x9f)))
        || (a == 0xe3 && (b == 0x80 && c == 0x80)))

abbrev is_ascii_space : ℕ → Bool
is_ascii_space c = (leb 9 c && leb c 13) || c == 32

abbrev is_ascii_control : ℕ → Bool
is_ascii_control c = leb c 31 || c == 127

-- A class by its ASCII characters and by the second bytes of those from U+0080 to U+00BF; the
-- longer ones are the wide spaces.
front : (ℕ → Bool) → (ℕ → Bool) → Bytes → ℕ
front ascii latin [] = 0
front ascii latin (a ∷ []) = if ascii a then 1 else 0
front ascii latin (a ∷ b ∷ []) = if ascii a then 1 else if a == 0xc2 && latin b then 2 else 0
front ascii latin (a ∷ b ∷ c ∷ s) =
    if ascii a then 1 else if a == 0xc2 && latin b then 2 else if is_wide_space a b c then 3 else 0

-- The same for the last character of a text whose bytes are given backwards.
back : (ℕ → Bool) → (ℕ → Bool) → Bytes → ℕ
back ascii latin [] = 0
back ascii latin (c ∷ []) = if ascii c then 1 else 0
back ascii latin (c ∷ b ∷ []) = if ascii c then 1 else if b == 0xc2 && latin c then 2 else 0
back ascii latin (c ∷ b ∷ a ∷ s) =
    if ascii c then 1 else if b == 0xc2 && latin c then 2 else if is_wide_space a b c then 3 else 0

abbrev is_latin_space : ℕ → Bool
is_latin_space b = b == 0x85 || b == 0xa0

unfoldable pub trim_start : Bytes → Bytes
unfolding strip front
trim_start = strip (front is_ascii_space is_latin_space) 0

unfoldable pub trim_end : Bytes → Bytes
unfolding strip back
trim_end s = reverse (strip (back is_ascii_space is_latin_space) 0 (reverse s))

-- `str::trim`
unfoldable pub trim : Bytes → Bytes
unfolding trim_start trim_end
trim s = trim_end (trim_start s)

abbrev is_latin_blank : ℕ → Bool
is_latin_blank b = (leb 0x80 b && leb b 0x9f) || b == 0xa0

abbrev is_ascii_blank : ℕ → Bool
is_ascii_blank c = is_ascii_space c || is_ascii_control c

-- `trim_matches(|c| c.is_whitespace() || c.is_control())`
unfoldable pub trim_blank : Bytes → Bytes
unfolding strip front back
trim_blank s = reverse (
    strip (back is_ascii_blank is_latin_blank) 0
      (reverse (strip (front is_ascii_blank is_latin_blank) 0 s)))

-- The class of one ASCII character, and of two.
abbrev pub one_of : ℕ → ℕ → Bytes → ℕ
one_of b d [] = 0
one_of b d (c ∷ s) = if c == b || c == d then 1 else 0

unfoldable pub trim_start_matches : ℕ → Bytes → Bytes
unfolding strip
trim_start_matches b = strip (one_of b b) 0

unfoldable pub trim_end_matches : ℕ → Bytes → Bytes
unfolding strip
trim_end_matches b s = reverse (strip (one_of b b) 0 (reverse s))

-- `trim_matches(['\n', '\r'])` and its two halves
unfoldable pub trim_start_newlines : Bytes → Bytes
unfolding strip
trim_start_newlines = strip (one_of b'\n' b'\r') 0

unfoldable pub trim_end_newlines : Bytes → Bytes
unfolding strip
trim_end_newlines s = reverse (strip (one_of b'\n' b'\r') 0 (reverse s))

-- A text that begins with no character of the class is left alone.
pub strip_stop : (w : Bytes → ℕ) (s : Bytes) → w s ≡ 0 → strip w 0 s ≡ s
unfolding strip
strip_stop w [] h = refl
strip_stop w (c ∷ s) h = rw (h, strip)

-- A byte that opens no white space and closes none: printable ASCII but the space.
abbrev pub IsGraphic : ℕ → Type 0
IsGraphic c = (32 < c) × (c < 127)

front_graphic : (s : Bytes) → All IsGraphic s → front is_ascii_space is_latin_space s ≡ 0
unfolding front
front_graphic [] h = refl
front_graphic (a ∷ []) h = ground arith
front_graphic (a ∷ b ∷ []) h = ground arith
front_graphic (a ∷ b ∷ c ∷ s) h = ground arith

back_graphic : (s : Bytes) → All IsGraphic s → back is_ascii_space is_latin_space s ≡ 0
unfolding back
back_graphic [] h = refl
back_graphic (a ∷ []) h = ground arith
back_graphic (a ∷ b ∷ []) h = ground arith
back_graphic (a ∷ b ∷ c ∷ s) h = ground arith

-- `trim` leaves a text of graphic characters alone.
pub trim_graphic : (s : Bytes) → All IsGraphic s → trim s ≡ s
unfolding trim
trim_graphic s h = rw (strip_stop (front is_ascii_space is_latin_space) s (front_graphic s h)) (
    ap reverse (
      strip_stop (back is_ascii_space is_latin_space) (reverse s)
        (back_graphic (reverse s) (All-reverse IsGraphic s h)))
    ∙ reverse-reverse s)
