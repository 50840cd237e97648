-- ===== src/Container/Der/Bounds.antt =====
-- Where `tagged` cuts the bytes that it is given.
use quackiso.Base.{
  ℕ, ◌≤◌, ◌≡◌, inl, inr, [], ◌∷◌, some, Option-cases, Bytes, arith, ◌==◌, length, Bool-cases,
}
use quackiso.Container.Der.{tagged_range, der_length, der_range}

-- The contents start at the third byte or within six, and not behind the end.
der_length-le :
    (bytes : Bytes) (first start n : ℕ)
    → 2 ≤ length bytes
    → der_length bytes first ≡ some (start, n)
    → (2 ≤ start) × (start ≤ 6) × (start ≤ length bytes)
unfolding der_length
der_length-le bytes first start n h e = ground arith

der_range-le :
    (bytes : Bytes) (start n from to : ℕ)
    → start ≤ length bytes
    → der_range bytes (start, n) ≡ some (from, to)
    → (from ≡ start) × (start ≤ to) × (to ≤ length bytes)
unfolding der_range
der_range-le bytes start n from to inside e = ground arith

-- Both slices that `Der::tagged` takes, `[start..end]` and `[end..]`, are within the bytes, so that
-- neither of them panics: the contents start behind a tag and one to five length octets, all of which
-- are there, and they end at or behind their start and not behind the last byte, whatever length is
-- stated.
pub tagged_range-bounds :
    (bytes : Bytes) (tag start end : ℕ)
    → tagged_range bytes tag ≡ some (start, end)
    → (2 ≤ start) × (start ≤ 6) × (start ≤ end) × (end ≤ length bytes)
unfolding tagged_range
tagged_range-bounds [] tag start end e = cc
tagged_range-bounds (byte ∷ []) tag start end e = ground arith
tagged_range-bounds (byte ∷ first ∷ bytes) tag start end e = elim (Bool-cases (byte == tag)) [
  | inr other ↦ absurd (ground arith)
  | inl same ↦ elim (Option-cases (der_length (byte ∷ first ∷ bytes) first)) [
    | inl none_stated ↦ absurd (ground arith)
    | inr ((at, n), stated) ↦
        let (lo, hi, inside) =
          der_length-le (byte ∷ first ∷ bytes) first at n (omega arith) stated in
        let (same_start, late, early) =
          der_range-le (byte ∷ first ∷ bytes) at n start end inside (rw stated at (rw same at e)) in
        (
          omega (arith, lo, same_start),
          omega (arith, hi, same_start),
          omega (arith, late, same_start),
          early,
        )
  ]
]
