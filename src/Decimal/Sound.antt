-- ===== src/Decimal/Sound.antt =====
-- What a text that `scaled` accepts looks like, and the amount that comes out of it.
use native.Mathlib.Decide.{ℕ_discrete}
use quackiso.Base.{
  ℕ, subst, ◌-◌, ◌≤◌, ◌≡◌, refl, sym, ap, ◌∙◌, Bool, [], ◌∷◌, ◌++◌, Bytes, All, if◌then◌else◌,
  length, length-append, length-replicate, replicate, ◌+◌, ok, >>=-eq-ok, arith, some, Bool-cases,
  Option-cases, inl, inr, ◌⊎◌,
}
use quackiso.Base.Int.{ℤ, pos, neg}
use quackiso.Text.{split_once, is_digit}
use quackiso.Text.Digits.{IsDigit}
use quackiso.Text.Trim.{trim, trim_end_matches}
use quackiso.Text.TrimEnd.{trim_end_matches_split, trim_end_matches-EndsOtherThan}
use quackiso.Decimal.{
  max_scaled, push_digit, read_digits, split_sign, split_point, scale_parts, check_parts, scaled,
}
use quackiso.Decimal.Units.{units, in_column, scale_parts-units}
use quackiso.Decimal.Exact.{
  Sign, unsigned, plus, minus, sign_text, is_minus, written, written_whole,
}

-- The digits of the two parts of an accepted text, and its amount.
pub record Reads (sign : Sign) (i g : Bytes) (v : ℤ) : Type 0 where
  pub whole_digits : All IsDigit i
  pub fraction_digits : All IsDigit g
  pub short : length g ≤ 5
  pub bounded : units i g ≤ max_scaled
  pub amount : v ≡ (if is_minus sign then neg (pos (units i g)) else pos (units i g))

-- The trimmed text with its amount: `i` and `g` are the digits before and after the point; there is at
-- least one digit.
pub data Accepted (s : Bytes) (v : ℤ) : Type 0 where
  with_point :
      (sign : Sign) (i g : Bytes) (k : ℕ)
      → s ≡ written sign i (g ++ replicate k b'0')
      → 1 ≤ length i + (length g + k)
      → Reads sign i g v
      → Accepted s v
  whole :
      (sign : Sign) (i : Bytes)
      → s ≡ written_whole sign i
      → 1 ≤ length i
      → Reads sign i [] v
      → Accepted s v

read_digits-ok :
    (text : Bytes) (v : ℕ) (s : Bytes) {w : ℕ} → read_digits text v s ≡ ok w → All IsDigit s
unfolding read_digits
read_digits-ok text v [] h = tt
read_digits-ok text v (c ∷ s) h = elim (Bool-cases (is_digit c)) [
  | inl digit ↦
      let (v', _, rest) =
        >>=-eq-ok (push_digit text v (c - b'0')) (λ n. read_digits text n s) (rw digit at h) in
      (ground arith, read_digits-ok text v' s rest)
  | inr other ↦ ground arith
]

in_column-ok :
    (text : Bytes) (sign : Sign) (i g : Bytes) {v : ℤ}
    → All IsDigit i
    → All IsDigit g
    → length g ≤ 5
    → in_column text (is_minus sign) (units i g) ≡ ok v
    → Reads sign i g v
in_column-ok text sign i g hi hg short h = record {
  whole_digits = hi;
  fraction_digits = hg;
  short = short;
  bounded = ground arith;
  amount = ground arith;
}

scale_parts-ok :
    (text : Bytes) (sign : Sign) (i g : Bytes) {v : ℤ}
    → length g ≤ 5
    → scale_parts text (is_minus sign) i g ≡ ok v
    → Reads sign i g v
unfolding scale_parts
scale_parts-ok text sign i g short h =
    let (n, reads, rest) = >>=-eq-ok (read_digits text 0 i) _ h in
    let (value, reads', _) = >>=-eq-ok (read_digits text n g) _ rest in
    let hi = read_digits-ok text 0 i reads in
    let hg = read_digits-ok text n g reads' in
    in_column-ok text sign i g hi hg short
      (sym (scale_parts-units text (is_minus sign) i g hi short hg) ∙ h)

split_sign-inverse :
    (s : Bytes) {negative : Bool} {digits : Bytes}
    → split_sign s ≡ (negative, digits)
    → (sign : Sign) × (negative ≡ is_minus sign) × (s ≡ sign_text sign ++ digits)
unfolding split_sign
split_sign-inverse [] h = (unsigned, ground arith, ground arith)
split_sign-inverse (c ∷ s) h = elim (ℕ_discrete c b'-') [
  | yes e ↦ (minus, ground arith, ground arith)
  | no e ↦ elim (ℕ_discrete c b'+') [
    | yes e' ↦ (plus, ground arith, ground arith)
    | no e' ↦ (unsigned, ground arith, ground arith)
  ]
]

split_once-inverse :
    (b : ℕ) (s : Bytes) {l r : Bytes} → split_once b s ≡ some (l, r) → s ≡ l ++ b ∷ r
unfolding split_once
split_once-inverse b [] h = cc
split_once-inverse b (c ∷ s) h = elim (ℕ_discrete c b) [
  | yes e ↦ ground arith
  | no e ↦ elim (Option-cases (split_once b s)) [
    | inl missed ↦ ground arith
    | inr ((l, r), found) ↦ ground (arith, split_once-inverse b s found)
  ]
]

-- Nothing but the two parts is in the text behind the sign.
split_point-inverse :
    (s : Bytes) {i f : Bytes} → split_point s ≡ (i, f) → (s ≡ i ++ b'.' ∷ f) ⊎ ((s ≡ i) × (f ≡ []))
unfolding split_point
split_point-inverse s h = elim (Option-cases (split_once b'.' s)) [
  | inl missed ↦ inr (ground arith, ground arith)
  | inr ((l, r), found) ↦ inl (ground (arith, split_once-inverse b'.' s found))
]

check_parts-ok :
    (text : Bytes) (negative : Bool) (i f : Bytes) {v : ℤ}
    → check_parts text negative i f ≡ ok v
    → (1 ≤ length i + length f)
      × (length (trim_end_matches b'0' f) ≤ 5)
      × (scale_parts text negative i (trim_end_matches b'0' f) ≡ ok v)
unfolding check_parts
check_parts-ok text negative [] [] h = cc
check_parts-ok text negative [] (c ∷ f) h = (omega arith, ground arith, ground arith)
check_parts-ok text negative (c ∷ i) f h = (omega arith, ground arith, ground arith)

scaled-ok :
    (text : Bytes) {v : ℤ}
    → scaled text ≡ ok v
    → check_parts text
        (split_sign (trim text)).0
        (split_point (split_sign (trim text)).1).0
        (split_point (split_sign (trim text)).1).1
      ≡ ok v
unfolding scaled
scaled-ok text h = ground arith

Accepted-parts :
    (s digits i f : Bytes) (sign : Sign) (v : ℤ)
    → s ≡ sign_text sign ++ digits
    → split_point digits ≡ (i, f)
    → 1 ≤ length i + length f
    → Reads sign i (trim_end_matches b'0' f) v
    → Accepted s v
Accepted-parts s digits i f sign v signed point some_digit reads =
    elim (split_point-inverse digits point) [
      | inl e ↦
          let (k, h) = trim_end_matches_split b'0' f in
          with_point sign i (trim_end_matches b'0' f) k
            (signed
              ∙ ap (λ (t : Bytes). sign_text sign ++ t) (e ∙ ap (λ (t : Bytes). i ++ b'.' ∷ t) h))
            (omega (
              arith,
              some_digit,
              ap length h,
              length-append (trim_end_matches b'0' f) (replicate k b'0'),
              length-replicate {A = ℕ} k b'0',
            ))
            reads
      | inr (e, none_left) ↦
          whole sign i (signed ∙ ap (λ (t : Bytes). sign_text sign ++ t) e)
            (omega (arith, some_digit, ap length none_left))
            (subst (λ (g : Bytes). Reads sign i g v)
              (ap (trim_end_matches b'0') none_left ∙ trim_end_matches-EndsOtherThan b'0' [] tt)
              reads)
    ]

-- An amount that `scaled` accepts is, once trimmed, a sign, digits and perhaps a point with at most
-- five digits and then zeros behind it, at least one digit in all; the value is what these write, in units of 10^-5, and it is
-- at most 10^38 - 1 in size.
pub scaled-Accepted : (text : Bytes) (v : ℤ) → scaled text ≡ ok v → Accepted (trim text) v
scaled-Accepted text v h =
    let parts = split_sign (trim text) in
    let (sign, same, signed) =
      split_sign-inverse (trim text) {negative = parts.0} {digits = parts.1} refl in
    let (some_digit, short, scale) = check_parts-ok text parts.0 _ _ (scaled-ok text h) in
    Accepted-parts (trim text) parts.1 _ _ sign v signed refl some_digit
      (scale_parts-ok text sign _ _ short (rw same at scale))
