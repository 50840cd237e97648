-- ===== src/Decimal/Units.antt =====
-- The amount that digits, a point and digits stand for, and what the loops make of it.
use native.Mathlib.Nat.{pow-suc}
use quackiso.Base.{
  ℕ, zero, suc, ◌+◌, ◌-◌, ◌*◌, ◌^◌, ◌≤◌, ◌<◌, ◌≡◌, refl, sym, ◌∙◌, Bool, false, [], ◌∷◌, ◌++◌,
  Bytes, All, ltb, leb, if◌then◌else◌, length, length-append, Result, ok, err, arith, ltb→lt,
  ltb-false→le, Bool-cases, inl, inr,
}
use quackiso.Base.Int.{ℤ, pos, neg}
use quackiso.Text.Digits.{IsDigit, number_from, number, le-number_from}
use quackiso.Text.TrimEnd.{trim_end_matches_induction}
use quackiso.Text.Trim.{trim_end_matches}
use quackiso.Decimal.{
  AmountError, too_large, max_scaled, i128_limit, checked, push_digit, read_digits, to_column,
  scale_parts,
}

-- A number if it is an `i128`.
abbrev fits : Bytes → ℕ → Result AmountError ℕ
fits text n = if ltb n i128_limit then ok n else err (too_large text)

push_digit-fits : (text : Bytes) (v d : ℕ) → push_digit text v d ≡ fits text (v * 10 + d)
unfolding push_digit checked
push_digit-fits text v d = ground arith

-- The loop over digits is the number that they write, or overflow.
read_digits-fits :
    (text : Bytes) (v : ℕ) (s : Bytes)
    → v < i128_limit
    → All IsDigit s
    → read_digits text v s ≡ fits text (number_from v s)
unfolding read_digits number_from
read_digits-fits text v [] small h = ground arith
read_digits-fits text v (c ∷ s) small h = elim (Bool-cases (ltb (v * 10 + (c - b'0')) i128_limit)) [
  | inl less ↦ ground (
    arith,
    push_digit-fits text v (c - b'0'),
    read_digits-fits text (v * 10 + (c - b'0')) s (ground arith) h.1,
  )
  | inr more ↦
      ground (arith, push_digit-fits text v (c - b'0'), le-number_from (v * 10 + (c - b'0')) s)
]

-- The amount in units of 10^-5: `i` whole, and the fraction `g` of at most five digits.
abbrev pub units : Bytes → Bytes → ℕ
units i g = number i * 10 ^ 5 + number g * 10 ^ (5 - length g)

-- A value of the column, or the refusal of one that is too large for it.
abbrev pub in_column : Bytes → Bool → ℕ → Result AmountError ℤ
in_column text negative n =
    if leb n max_scaled then ok (if negative then neg (pos n) else pos n) else err (too_large text)

scaling :
    (n : ℕ) (g : Bytes)
    → length g ≤ 5
    → number_from n g * 10 ^ (5 - length g) ≡ n * 10 ^ 5 + number g * 10 ^ (5 - length g)
unfolding number
scaling n [] h = omega arith
scaling n (a ∷ []) h = unfold number_from in omega arith
scaling n (a ∷ b ∷ []) h = unfold number_from in omega arith
scaling n (a ∷ b ∷ c ∷ []) h = unfold number_from in omega arith
scaling n (a ∷ b ∷ c ∷ d ∷ []) h = unfold number_from in omega arith
scaling n (a ∷ b ∷ c ∷ d ∷ e ∷ []) h = unfold number_from in omega arith
scaling n (a ∷ b ∷ c ∷ d ∷ e ∷ f ∷ s) h = absurd (omega arith)

-- A last zero of the fraction is not counted in its digits and not in the amount.
units-snoc : (i g : Bytes) → length g < 5 → units i (g ++ b'0' ∷ []) ≡ units i g
unfolding number
units-snoc i [] h = unfold number_from in omega arith
units-snoc i (a ∷ []) h = unfold number_from in omega arith
units-snoc i (a ∷ b ∷ []) h = unfold number_from in omega arith
units-snoc i (a ∷ b ∷ c ∷ []) h = unfold number_from in omega arith
units-snoc i (a ∷ b ∷ c ∷ d ∷ []) h = unfold number_from in omega arith
units-snoc i (a ∷ b ∷ c ∷ d ∷ e ∷ s) h = absurd (omega arith)

-- The fraction `g` has at most five digits, and with `i` it stands for the amount `n`.
abbrev Stands : Bytes → ℕ → Bytes → Type 0
Stands i n g = (length g ≤ 5) × (units i g ≡ n) × All IsDigit g

Stands-snoc : (i : Bytes) (n : ℕ) (g : Bytes) → Stands i n (g ++ b'0' ∷ []) → Stands i n g
Stands-snoc i n g (short, same, digits) =
    let less : length g < 5 = omega (arith, length-append g (b'0' ∷ [])) in
    (omega arith, sym (units-snoc i g less) ∙ same, All-init g digits)
  where
    All-init : (s : Bytes) → All IsDigit (s ++ b'0' ∷ []) → All IsDigit s
    All-init [] h = tt
    All-init (c ∷ s) (p, h) = (p, All-init s h)

pub Stands-trim :
    (i g : Bytes) → length g ≤ 5 → All IsDigit g → Stands i (units i g) (trim_end_matches b'0' g)
Stands-trim i g short digits =
    trim_end_matches_induction (Stands i (units i g)) b'0' (Stands-snoc i (units i g)) g
      (short, refl, digits)

pow10_pos : (n : ℕ) → 0 < 10 ^ n
pow10_pos zero = omega arith
pow10_pos (suc n) = rw (pow-suc 10 n) (omega (arith, pow10_pos n))

to_column-fits :
    (text : Bytes) (negative : Bool) (n : ℕ)
    → to_column text negative (checked n) ≡ in_column text negative n
unfolding to_column checked
to_column-fits text negative n = ground arith

in_column-large :
    (text : Bytes) (negative : Bool) (n : ℕ)
    → max_scaled < n
    → in_column text negative n ≡ err (too_large text)
in_column-large text negative n h = ground arith

le-mul : (a p : ℕ) → 0 < p → a ≤ a * p
le-mul a p h = grind arith

units-large :
    (i g : Bytes)
    → length g ≤ 5
    → ltb (number_from (number i) g) i128_limit ≡ false
    → max_scaled < units i g
units-large i g short large = omega (
  arith,
  scaling (number i) g short,
  le-mul (number_from (number i) g) (10 ^ (5 - length g)) (pow10_pos (5 - length g)),
  ltb-false→le _ _ large,
)

-- The loops and the scaling give the amount, or say that it is too large for the column.
pub scale_parts-units :
    (text : Bytes) (negative : Bool) (i g : Bytes)
    → All IsDigit i
    → length g ≤ 5
    → All IsDigit g
    → scale_parts text negative i g ≡ in_column text negative (units i g)
unfolding scale_parts number
scale_parts-units text negative i g hi short hg =
    rw (read_digits-fits text 0 i (omega arith) hi) (elim (Bool-cases (ltb (number i) i128_limit)) [
      | inl small ↦
          rw (small, read_digits-fits text (number i) g (ltb→lt _ _ small) hg)
            (elim (Bool-cases (ltb (number_from (number i) g) i128_limit)) [
              | inl small' ↦
                  rw (small', scaling (number i) g short) (to_column-fits text negative (units i g))
              | inr large ↦
                  rw
                    (large, in_column-large text negative (units i g) (units-large i g short large))
            ])
      | inr large ↦
          rw (
            large,
            in_column-large text negative (units i g) (omega (arith, ltb-false→le _ _ large)),
          )
    ])
