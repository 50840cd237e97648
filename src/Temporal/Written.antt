-- ===== src/Temporal/Written.antt =====
-- Numbers of two and four digits as they are written, and how `num` reads them back.
use quackiso.Base.{ℕ, ◌+◌, ◌/◌, ◌%◌, ◌≤◌, ◌≡◌, [], ◌∷◌, some, Bytes, All, arith}
use quackiso.Text.Digits.{IsDigit, number, number_from}
use quackiso.Temporal.{num}

abbrev pub digit : ℕ → ℕ
digit n = b'0' + n % 10

abbrev pub two : ℕ → Bytes
two n = digit (n / 10) ∷ digit n ∷ []

abbrev pub four : ℕ → Bytes
four n = digit (n / 1000) ∷ digit (n / 100) ∷ digit (n / 10) ∷ digit n ∷ []

pub digit-IsDigit : (n : ℕ) → IsDigit (digit n)
digit-IsDigit n = omega arith

pub two-IsDigit : (n : ℕ) → All IsDigit (two n)
two-IsDigit n = omega arith

pub four-IsDigit : (n : ℕ) → All IsDigit (four n)
four-IsDigit n = omega arith

pub num-two : (n : ℕ) → n ≤ 99 → num (two n) ≡ some n
unfolding num number number_from
num-two n h = ground arith

pub num-four : (n : ℕ) → n ≤ 9999 → num (four n) ≡ some n
unfolding num number number_from
num-four n h = ground arith
