-- ===== src/Container/Der/Written.antt =====
-- DER elements as they are encoded, and `tagged` of them.
use quackiso.Base.{
  ℕ, ◌+◌, ◌-◌, ◌*◌, ◌/◌, ◌%◌, ◌^◌, ◌≤◌, ◌<◌, ◌≡◌, refl, sym, ap, ◌∙◌, inl, inr, ◌&&◌, [], ◌∷◌, ◌++◌,
  some, Bytes, arith, leb, ltb, if◌then◌else◌, length, take, drop, length-append, and_then,
  Bool-cases, get_elem?, take-append_add, take-append, append_assoc, take_past, drop_past,
  drop-append_add, drop-append_at, lt→ltb,
}
use quackiso.Text.{starts_with}
use quackiso.Container.Der.{
  tagged, tagged_range, der_length, der_range, sliced, big_endian, der_content_info,
  is_content_type, content_type_of, content_info_of, cms_arc, min_ℕ,
}

-- The octets of a definite length, in the shortest form.
unfoldable pub length_octets : ℕ → Bytes
length_octets n =
    if ltb n 128
    then n ∷ []
    else if ltb n 256
    then 0x81 ∷ n ∷ []
    else if ltb n (256 * 256)
    then 0x82 ∷ n / 256 ∷ n % 256 ∷ []
    else if ltb n (256 * 256 * 256)
    then 0x83 ∷ n / (256 * 256) ∷ n / 256 % 256 ∷ n % 256 ∷ []
    else 0x84 ∷ n / (256 * 256 * 256) ∷ n / (256 * 256) % 256 ∷ n / 256 % 256 ∷ n % 256 ∷ []

-- The length octets are read back, with where the contents start.
der_length-written :
    (tag n : ℕ) (s : Bytes)
    → n < 2 ^ 32
    → and_then (get_elem? (length_octets n ++ s) 0) (der_length (tag ∷ (length_octets n ++ s)))
      ≡ some (1 + length (length_octets n), n)
unfolding length_octets der_length big_endian
der_length-written tag n s h = ground arith

tagged-steps :
    (tag : ℕ) (s : Bytes)
    → tagged (tag ∷ s) tag
      ≡ and_then
          (and_then (and_then (get_elem? s 0) (der_length (tag ∷ s))) (der_range (tag ∷ s)))
          (sliced (tag ∷ s))
unfolding tagged tagged_range
tagged-steps tag [] = ground arith
tagged-steps tag (c ∷ s) = ground arith

-- A length past the end is cut to what is there.
take-min : (k n l : ℕ) (s : Bytes) → l ≡ k + length s → take (min_ℕ (k + n) l - k) s ≡ take n s
take-min k n l s e = elim (Bool-cases (leb (k + n) l)) [
  | inl fits ↦ let same : min_ℕ (k + n) l - k ≡ n = ground arith in rw same refl
  | inr long ↦
      let same : min_ℕ (k + n) l - k ≡ length s = ground arith in
      rw (same, take_past n s (ground arith)) (take_past (length s) s (omega arith))
]

drop-min :
    (k n : ℕ) (hd s : Bytes)
    → length hd ≡ k
    → drop (min_ℕ (k + n) (length (hd ++ s))) (hd ++ s) ≡ drop n s
drop-min k n hd s e = elim (Bool-cases (leb (k + n) (length (hd ++ s)))) [
  | inl fits ↦ rw fits (drop-append_add (k + n) n hd s (omega arith))
  | inr long ↦ rw long (
      drop_past (length (hd ++ s)) (hd ++ s) (omega arith)
      ∙ sym (drop_past n s (ground (arith, length-append hd s))))
]

der_range-append :
    (k n : ℕ) (hd s : Bytes)
    → length hd ≡ k
    → k ≤ 6
    → n < 2 ^ 32
    → and_then (der_range (hd ++ s) (k, n)) (sliced (hd ++ s)) ≡ some (take n s, drop n s)
unfolding der_range
der_range-append k n hd s e small h =
    rw
      (
        lt→ltb (k + n) (2 ^ 64) (omega arith),
        drop-append_at k hd s (sym e),
        take-min k n (length (hd ++ s)) s (omega (arith, length-append hd s)),
        drop-min k n hd s e,
      )
      refl

length-length_octets : (n : ℕ) → length (length_octets n) ≤ 5
unfolding length_octets
length-length_octets n = ground arith

-- An element of a stated length is read as that many bytes, or as those that are there; what is
-- behind them is left.
pub tagged-written :
    (tag n : ℕ) (s : Bytes)
    → n < 2 ^ 32
    → tagged (tag ∷ (length_octets n ++ s)) tag ≡ some (take n s, drop n s)
tagged-written tag n s h =
    tagged-steps tag (length_octets n ++ s)
    ∙ rw (der_length-written tag n s h) (
        der_range-append (1 + length (length_octets n)) n (tag ∷ length_octets n) s (omega arith)
          (omega (arith, length-length_octets n)) h)

-- The contents of a ContentInfo: the content type as an OID, and what follows.
abbrev pub oid_element : Bytes → Bytes
oid_element oid = 0x06 ∷ (length_octets (length oid) ++ oid)

-- A SEQUENCE that opens with an OID, whole or cut behind the OID, is taken for CMS exactly if the
-- OID is longer than the arc of the CMS content types and begins with it.
pub der_content_info-written :
    (n : ℕ) (oid rest : Bytes)
    → length oid < 2 ^ 32
    → n < 2 ^ 32
    → length (oid_element oid) ≤ n
    → der_content_info (0x30 ∷ (length_octets n ++ (oid_element oid ++ rest)))
      ≡ (ltb (length cms_arc) (length oid) && starts_with cms_arc oid)
unfolding der_content_info
der_content_info-written n oid rest small h fits =
    ap content_info_of (tagged-written 0x30 n (oid_element oid ++ rest) h)
    ∙ ap content_type_of (
        ap (λ s. tagged s 0x06)
          (take-append_add n (n - length (oid_element oid)) (oid_element oid) rest (omega arith)
            ∙ ap (λ (t : Bytes). 0x06 ∷ t)
                (append_assoc (length_octets (length oid)) oid
                  (take (n - length (oid_element oid)) rest)))
        ∙ tagged-written 0x06 (length oid) (oid ++ take (n - length (oid_element oid)) rest) small)
    ∙ ap is_content_type (take-append oid (take (n - length (oid_element oid)) rest))
