-- ===== src/Container/Der.antt =====
-- One step of DER in src/container.rs, and the CMS ContentInfo. A `usize` has 64 bits.
pub mod Written
pub mod Bounds
use quackiso.Base.{
  ℕ, ◌+◌, ◌-◌, ◌*◌, ◌^◌, Bool, true, false, ◌&&◌, ◌||◌, [], ◌∷◌, Option, none, some, Bytes,
  and_then, leb, ltb, ◌==◌, if◌then◌else◌, length, take, drop, get_elem?,
}
use quackiso.Text.{starts_with}
use quackiso.Container.Scan.{document_starts_with, contains_ascii_case, mime_headers}
use quackiso.Temporal.{slice}

-- `usize::checked_add`
abbrev pub checked_add : ℕ → ℕ → Option ℕ
checked_add a b = if ltb (a + b) (2 ^ 64) then some (a + b) else none

-- `fold(0, |acc, b| (acc << 8) | usize::from(*b))`
unfoldable pub big_endian : ℕ → Bytes → ℕ
big_endian acc [] = acc
big_endian acc (b ∷ bytes) = big_endian (acc * 256 + b) bytes

-- `bytes.get(lo..hi)`
abbrev pub get_range : ℕ → ℕ → Bytes → Option Bytes
get_range lo hi s = if leb hi (length s) then some (slice lo hi s) else none

-- Where the contents start, and their stated length.
unfoldable pub der_length : Bytes → ℕ → Option (ℕ × ℕ)
unfolding big_endian
der_length bytes first =
    if first == 0x80
    then some (2, length bytes - 2)
    else if ltb first 0x80
    then some (2, first)
    else if first - 0x80 == 0 || ltb 4 (first - 0x80)
    then none
    else and_then (get_range 2 (2 + (first - 0x80)) bytes)
        λ raw. some (2 + (first - 0x80), big_endian 0 raw)

abbrev pub min_ℕ : ℕ → ℕ → ℕ
min_ℕ a b = if leb a b then a else b

-- The range of the contents: up to their stated end, or to the end of the bytes.
unfoldable pub der_range : Bytes → ℕ × ℕ → Option (ℕ × ℕ)
der_range bytes (start, len) =
    and_then (checked_add start len) λ end. some (start, min_ℕ end (length bytes))

-- The range at which `Der::tagged` cuts the bytes.
unfoldable pub tagged_range : Bytes → ℕ → Option (ℕ × ℕ)
unfolding der_length der_range
tagged_range bytes tag = and_then (get_elem? bytes 0) λ byte.
    if byte == tag
    then and_then (get_elem? bytes 1) (λ first. and_then (der_length bytes first) (der_range bytes))
    else none

-- `&bytes[start..end]`, and `&bytes[end..]` that is left. Both are defined on a range inside the bytes
-- only.
abbrev pub sliced : Bytes → ℕ × ℕ → Option (Bytes × Bytes)
sliced bytes (start, end) = some (slice start end bytes, drop end bytes)

-- `Der::tagged`, with the bytes that the cursor keeps.
unfoldable pub tagged : Bytes → ℕ → Option (Bytes × Bytes)
unfolding tagged_range
tagged bytes tag = and_then (tagged_range bytes tag) (sliced bytes)

abbrev pub cms_arc : Bytes
cms_arc = 0x2a ∷ 0x86 ∷ 0x48 ∷ 0x86 ∷ 0xf7 ∷ 0x0d ∷ 0x01 ∷ 0x07 ∷ []

abbrev pub is_content_type : Bytes → Bool
is_content_type oid = ltb (length cms_arc) (length oid) && starts_with cms_arc oid

abbrev pub content_type_of : Option (Bytes × Bytes) → Bool
content_type_of none = false
content_type_of (some (oid, rest)) = is_content_type oid

abbrev pub content_info_of : Option (Bytes × Bytes) → Bool
content_info_of none = false
content_info_of (some (body, rest)) = content_type_of (tagged body 0x06)

unfoldable pub der_content_info : Bytes → Bool
unfolding tagged
der_content_info prefix = content_info_of (tagged prefix 0x30)
