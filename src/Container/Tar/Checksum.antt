-- ===== src/Container/Tar/Checksum.antt =====
-- The checksum of a TAR header that is given as the bytes in front of its field, the field, and
-- the bytes behind it.
use quackiso.Base.{
  ℕ, suc, ◌+◌, ◌*◌, ◌≤◌, ◌<◌, ◌≡◌, refl, ap, ◌∙◌, true, false, [], ◌∷◌, ◌++◌, Bytes, All,
  All-append, arith, if◌then◌else◌, length,
}
use quackiso.Base.Int.{pos, ◌+ℤ◌}
use quackiso.Container.Tar.Sums.{in_checksum, sum_from, tar_checksum}

-- The sum of bytes.
unfoldable pub bytes_sum : Bytes → ℕ
bytes_sum [] = 0
bytes_sum (byte ∷ bytes) = byte + bytes_sum bytes

abbrev pub IsSevenBit : Bytes → Type 0
IsSevenBit = All (λ c. c < 128)

-- What the byte at an index adds where its sign does not matter.
abbrev cell : ℕ → ℕ → ℕ
cell i byte = if in_checksum i then 32 else byte

cells : ℕ → Bytes → ℕ
cells i [] = 0
cells i (byte ∷ bytes) = cell i byte + cells (suc i) bytes

unsigned-cells : (i : ℕ) (s : Bytes) → sum_from false i s ≡ pos (cells i s)
unfolding sum_from cells ◌+ℤ◌
unsigned-cells i [] = refl
unsigned-cells i (c ∷ s) = ground (arith, unsigned-cells (suc i) s)

signed-cells : (i : ℕ) (s : Bytes) → IsSevenBit s → sum_from true i s ≡ pos (cells i s)
unfolding sum_from cells ◌+ℤ◌
signed-cells i [] h = refl
signed-cells i (c ∷ s) h = ground (arith, signed-cells (suc i) s h.1)

cells-append : (i j : ℕ) (s t : Bytes) → i + length s ≡ j → cells i (s ++ t) ≡ cells i s + cells j t
unfolding cells
cells-append i j [] t e = let e' : i ≡ j = omega arith in rw e' (omega arith)
cells-append i j (c ∷ s) t e = ground (arith, cells-append (suc i) j s t (omega arith))

cells_before : (i : ℕ) (s : Bytes) → i + length s ≤ 148 → cells i s ≡ bytes_sum s
unfolding cells bytes_sum
cells_before i [] h = refl
cells_before i (c ∷ s) h = ground (arith, cells_before (suc i) s (omega arith))

cells_behind : (i : ℕ) (s : Bytes) → 156 ≤ i → cells i s ≡ bytes_sum s
unfolding cells bytes_sum
cells_behind i [] h = refl
cells_behind i (c ∷ s) h = ground (arith, cells_behind (suc i) s (omega arith))

cells_inside : (i : ℕ) (s : Bytes) → 148 ≤ i → i + length s ≤ 156 → cells i s ≡ 32 * length s
unfolding cells
cells_inside i [] h k = refl
cells_inside i (c ∷ s) h k = ground (arith, cells_inside (suc i) s (omega arith) (omega arith))

module _ (front field back : Bytes) (front_length : length front ≡ 148)
    (field_length : length field ≡ 8) where
  cells_whole : cells 0 (front ++ (field ++ back)) ≡ bytes_sum front + 256 + bytes_sum back
  cells_whole = omega (
    arith,
    cells-append 0 148 front (field ++ back) (omega arith),
    cells-append 148 156 field back (omega arith),
    cells_before 0 front (omega arith),
    cells_inside 148 field (omega arith) (omega arith),
    cells_behind 156 back (omega arith),
  )

  pub tar_checksum_unsigned :
      tar_checksum (front ++ (field ++ back)) false ≡ pos (bytes_sum front + 256 + bytes_sum back)
  unfolding tar_checksum
  tar_checksum_unsigned = unsigned-cells 0 (front ++ (field ++ back)) ∙ ap pos cells_whole

  -- Of seven-bit bytes both sums are the same.
  pub tar_checksum_signed :
      IsSevenBit front
      → IsSevenBit field
      → IsSevenBit back
      → tar_checksum (front ++ (field ++ back)) true ≡ pos (bytes_sum front + 256 + bytes_sum back)
  unfolding tar_checksum
  tar_checksum_signed f g h =
      signed-cells 0 (front ++ (field ++ back)) (
        All-append (λ c. c < 128) front (field ++ back) f
          (All-append (λ c. c < 128) field back g h))
      ∙ ap pos cells_whole
