-- ===== src/Container/Tar/Written.antt =====
-- The numeric fields of TAR headers as archivers write them, and `tar_octal` of them.
use quackiso.Base.{
  ℕ, zero, suc, ◌+◌, ◌-◌, ◌*◌, ◌^◌, ◌≤◌, ◌<◌, ◌≡◌, ◌≢◌, refl, ◌⊎◌, true, [], ◌∷◌, ◌++◌, some, Bytes,
  All, arith, length, replicate,
}
use quackiso.Text.{all}
use quackiso.Container.Tar.Octal.{is_padding, skip_spaces, push_octal, read_octal, tar_octal}

abbrev pub IsOctal : ℕ → Type 0
IsOctal c = (b'0' ≤ c) × (c ≤ b'7')

abbrev pub IsPadding : ℕ → Type 0
IsPadding c = (c ≡ 0) ⊎ (c ≡ 32)

-- The number that octal digits write, after those that wrote `n`.
unfoldable pub octal_from : ℕ → Bytes → ℕ
octal_from n [] = n
octal_from n (c ∷ s) = octal_from (n * 8 + (c - b'0')) s

-- Spaces, digits from the first on, and what fills the field.
pub record OctalText : Type 0 where
  pub spaces : ℕ
  pub first : ℕ
  pub digits : Bytes
  pub padding : Bytes

abbrev pub octal_text : OctalText → Bytes
octal_text o = replicate o.spaces 32 ++ (o.first ∷ (o.digits ++ o.padding))

abbrev pub octal_value : OctalText → ℕ
octal_value o = octal_from 0 (o.first ∷ o.digits)

pub record IsOctalText (o : OctalText) : Type 0 where
  pub octal : All IsOctal (o.first ∷ o.digits)
  pub padded : All IsPadding o.padding
  pub small : octal_value o < 2 ^ 63

le-octal_from : (n : ℕ) (s : Bytes) → n ≤ octal_from n s
unfolding octal_from
le-octal_from n [] = omega arith
le-octal_from n (c ∷ s) = omega (arith, le-octal_from (n * 8 + (c - b'0')) s)

push_octal-small : (n d : ℕ) → n * 8 + d < 2 ^ 63 → push_octal n d ≡ some (n * 8 + d)
unfolding push_octal
push_octal-small n d h = ground arith

read_octal-written :
    (n digits : ℕ) (s padding : Bytes)
    → All IsOctal s
    → All IsPadding padding
    → octal_from n s < 2 ^ 63
    → read_octal n digits (s ++ padding) ≡ some (octal_from n s, length s + digits, padding)
unfolding read_octal octal_from
read_octal-written n digits [] [] h p small = ground arith
read_octal-written n digits [] (c ∷ padding) h p small = ground (arith, p.0)
read_octal-written n digits (c ∷ s) padding h p small = ground (
  arith,
  push_octal-small n (c - b'0') (omega (arith, le-octal_from (n * 8 + (c - b'0')) s)),
  read_octal-written (n * 8 + (c - b'0')) (suc digits) s padding h.1 p small,
)

skip_spaces-written :
    (k c : ℕ) (s : Bytes) → c ≢ 32 → skip_spaces (replicate k 32 ++ (c ∷ s)) ≡ c ∷ s
unfolding skip_spaces
skip_spaces-written zero c s h = ground arith
skip_spaces-written (suc k) c s h = ground (arith, skip_spaces-written k c s h)

all-is_padding : (s : Bytes) → All IsPadding s → all is_padding s ≡ true
all-is_padding [] h = refl
all-is_padding (c ∷ s) h = ground (arith, h.0, all-is_padding s h.1)

-- A numeric field that is written as spaces, octal digits and padding is read as the number that
-- the digits write, if that is an i64.
pub tar_octal-written :
    (o : OctalText) → IsOctalText o → tar_octal (octal_text o) ≡ some (octal_value o)
unfolding tar_octal
tar_octal-written o h = ground (
  arith,
  h.octal.0,
  skip_spaces-written o.spaces o.first (o.digits ++ o.padding) (omega (arith, h.octal.0)),
  read_octal-written 0 0 (o.first ∷ o.digits) o.padding h.octal h.padded h.small,
  all-is_padding o.padding h.padded,
)
