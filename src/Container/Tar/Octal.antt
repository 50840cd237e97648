-- ===== src/Container/Tar/Octal.antt =====
-- The numeric fields of a TAR header in src/container.rs: `tar_octal` and `tar_size_field`.
use quackiso.Base.{
  is_some, ℕ, suc, ◌+◌, ◌-◌, ◌*◌, ◌^◌, Bool, true, false, ◌&&◌, ◌||◌, [], ◌∷◌, Option, none, some,
  Bytes, and_then, leb, ltb, ◌==◌, if◌then◌else◌,
}
use quackiso.Text.{all}

abbrev pub is_octal : ℕ → Bool
is_octal c = leb b'0' c && leb c b'7'

abbrev pub is_padding : ℕ → Bool
is_padding c = c == 0 || c == 32

-- `while field.get(at) == Some(&b' ')`
unfoldable pub skip_spaces : Bytes → Bytes
skip_spaces [] = []
skip_spaces (c ∷ s) = let rest = skip_spaces s in if c == 32 then rest else c ∷ s

-- `value.checked_mul(8)?.checked_add(digit)?` of an `i64` that is not negative
unfoldable pub push_octal : ℕ → ℕ → Option ℕ
push_octal value digit = if leb (2 ^ 63) (value * 8 + digit) then none else some (value * 8 + digit)

-- The value, the count of digits, and `&field[at..]`.
unfoldable pub read_octal : ℕ → ℕ → Bytes → Option (ℕ × ℕ × Bytes)
unfolding push_octal
read_octal value digits [] = some (value, digits, [])
read_octal value digits (c ∷ s) = elim (is_octal c) [
  | true ↦ and_then (push_octal value (c - b'0')) (λ next. read_octal next (suc digits) s)
  | false ↦ if is_padding c then some (value, digits, c ∷ s) else none
]

abbrev checked_field : ℕ × ℕ × Bytes → Option ℕ
checked_field (value, digits, rest) =
    if all is_padding rest then if ltb 0 digits then some value else none else none

unfoldable pub tar_octal : Bytes → Option ℕ
unfolding skip_spaces read_octal
tar_octal field = and_then (read_octal 0 0 (skip_spaces field)) checked_field

-- `byte & 0x80 != 0` of a byte
abbrev pub has_high_bit : Bytes → Bool
has_high_bit [] = false
has_high_bit (c ∷ s) = leb 128 c

unfoldable pub tar_size_field : Bytes → Bool
unfolding tar_octal
tar_size_field field = has_high_bit field || is_some (tar_octal field)
