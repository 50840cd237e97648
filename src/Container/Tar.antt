-- ===== src/Container/Tar.antt =====
-- The TAR header block of src/container.rs.
mod Octal
mod Sums
pub mod Written
pub mod Checksum
pub mod Header
unfoldable pub use Octal.*
unfoldable pub use Sums.*
use quackiso.Base.{
  ℕ, ◌-◌, Bool, true, false, not, ◌&&◌, ◌||◌, [], ◌∷◌, none, some, Bytes, leb, ltb, ◌==◌,
  if◌then◌else◌, length, take, drop, get_or,
}
use quackiso.Base.Int.{ℤ, pos, negsuc, eq_ℤ}
use quackiso.Temporal.{slice}

unfoldable pub tar_type_flag : ℕ → Bool
tar_type_flag flag =
    flag == 0
    || (is_octal flag
        || (flag == b'x'
            || (flag == b'g'
                || (flag == b'L'
                    || (flag == b'K'
                        || (flag == b'S'
                            || (flag == b'V'
                                || (flag == b'M' || (flag == b'D' || flag == b'N')))))))))

-- The tests on a whole header with a stored checksum.
unfoldable pub accepts : Bytes → ℕ → Bool
unfolding tar_size_field tar_checksum tar_type_flag
accepts header stored =
    not (get_or header 0 0 == 0)
    && (tar_size_field (slice 124 136 header)
        && (tar_type_flag (get_or header 156 0)
            && (eq_ℤ (pos stored) (tar_checksum header false)
                || eq_ℤ (pos stored) (tar_checksum header true))))

unfoldable pub is_tar_header : Bytes → Bool
unfolding tar_octal accepts
is_tar_header header = elim (tar_octal (slice 148 156 header)) [
  | none ↦ false
  | some stored ↦ accepts header stored
]

unfoldable pub is_tar : Bytes → Bool
unfolding is_tar_header
is_tar prefix = leb 512 (length prefix) && is_tar_header (take 512 prefix)
