-- ===== src/Container/Tar/Sums.antt =====
-- The checksum of a TAR header in src/container.rs, with bytes read as unsigned or as signed.
use quackiso.Base.{ℕ, suc, ◌-◌, Bool, ◌&&◌, [], ◌∷◌, Bytes, leb, ltb, if◌then◌else◌}
use quackiso.Base.Int.{ℤ, pos, negsuc, ◌+ℤ◌}

-- `TAR_CHECKSUM.contains(&i)`
abbrev pub in_checksum : ℕ → Bool
in_checksum i = leb 148 i && ltb i 156

-- `i64::from(*byte as i8)`
abbrev pub as_i8 : ℕ → ℤ
as_i8 byte = if ltb byte 128 then pos byte else negsuc (255 - byte)

abbrev pub summand : Bool → ℕ → ℕ → ℤ
summand signed i byte = if in_checksum i then pos 32 else if signed then as_i8 byte else pos byte

-- The sum of the bytes from the index `i` on.
unfoldable pub sum_from : Bool → ℕ → Bytes → ℤ
sum_from signed i [] = pos 0
sum_from signed i (byte ∷ bytes) = summand signed i byte +ℤ sum_from signed (suc i) bytes

unfoldable pub tar_checksum : Bytes → Bool → ℤ
unfolding sum_from
tar_checksum header signed = sum_from signed 0 header
