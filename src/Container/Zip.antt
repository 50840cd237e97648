-- ===== src/Container/Zip.antt =====
-- The ZIP signatures of src/container.rs.
use quackiso.Base.{Bool, false, ◌||◌, List, [], ◌∷◌, Bytes}
use quackiso.Text.{starts_with}

abbrev pub zip_signatures : List Bytes
zip_signatures =
    (b'P' ∷ b'K' ∷ 3 ∷ 4 ∷ [])
    ∷ (b'P' ∷ b'K' ∷ 5 ∷ 6 ∷ [])
    ∷ (b'P' ∷ b'K' ∷ 7 ∷ 8 ∷ [])
    ∷ (b'P' ∷ b'K' ∷ 6 ∷ 6 ∷ [])
    ∷ (b'P' ∷ b'K' ∷ 6 ∷ 7 ∷ [])
    ∷ (b'P' ∷ b'K' ∷ b'0' ∷ b'0' ∷ [])
    ∷ []

-- `iter().any(|p| s.starts_with(p))`
abbrev pub starts_with_any : List Bytes → Bytes → Bool
starts_with_any [] s = false
starts_with_any (p ∷ ps) s = starts_with p s || starts_with_any ps s

-- A text that starts with four given bytes has four.
unfoldable pub is_zip : Bytes → Bool
is_zip prefix = starts_with_any zip_signatures prefix
