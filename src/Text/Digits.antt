-- ===== src/Text/Digits.antt =====
-- Decimal digits and the number that they write.
use quackiso.Base.{
  ℕ, ◌+◌, ◌*◌, ◌-◌, ◌≤◌, ◌≡◌, refl, [], ◌∷◌, ◌++◌, Bytes, All, All-map, arith, true, some, none,
  ◌⊎◌,
}
use quackiso.Text.{is_digit, all, split_once}
use quackiso.Text.Trim.{IsGraphic}

abbrev pub IsDigit : ℕ → Type 0
IsDigit c = (b'0' ≤ c) × (c ≤ b'9')

-- The number that the digits write, after those that wrote `n`.
unfoldable pub number_from : ℕ → Bytes → ℕ
number_from n [] = n
number_from n (c ∷ s) = number_from (n * 10 + (c - b'0')) s

unfoldable pub number : Bytes → ℕ
unfolding number_from
number = number_from 0

pub le-number_from : (n : ℕ) (s : Bytes) → n ≤ number_from n s
unfolding number_from
le-number_from n [] = omega arith
le-number_from n (c ∷ s) = omega (arith, le-number_from (n * 10 + (c - b'0')) s)

pub number_from-append :
    (n : ℕ) (s t : Bytes) → number_from n (s ++ t) ≡ number_from (number_from n s) t
unfolding number_from
number_from-append n [] t = refl
number_from-append n (c ∷ s) t = number_from-append (n * 10 + (c - b'0')) s t

pub digits-IsGraphic : (s : Bytes) → All IsDigit s → All IsGraphic s
digits-IsGraphic = All-map IsDigit IsGraphic (λ c h. omega arith)

pub all-is_digit : (s : Bytes) → All IsDigit s → all is_digit s ≡ true
all-is_digit [] h = refl
all-is_digit (c ∷ s) h = ground (arith, all-is_digit s h.1)

-- Splitting at a byte that is no digit, when digits stand in front of it.
pub split_once-digits :
    (b : ℕ) (s t : Bytes)
    → (b ≤ 47) ⊎ (58 ≤ b)
    → All IsDigit s
    → split_once b (s ++ b ∷ t) ≡ some (s, t)
unfolding split_once
split_once-digits b [] t out h = ground arith
split_once-digits b (c ∷ s) t out h = ground (arith, split_once-digits b s t out h.1)

pub split_once-digits_none :
    (b : ℕ) (s : Bytes) → (b ≤ 47) ⊎ (58 ≤ b) → All IsDigit s → split_once b s ≡ none
unfolding split_once
split_once-digits_none b [] out h = refl
split_once-digits_none b (c ∷ s) out h = ground (arith, split_once-digits_none b s out h.1)
