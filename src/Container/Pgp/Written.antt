-- ===== src/Container/Pgp/Written.antt =====
-- OpenPGP packet headers as they are written, in the format of RFC 4880 and later.
use quackiso.Base.{
  ℕ, suc, ◌+◌, ◌-◌, ◌*◌, ◌/◌, ◌%◌, ◌^◌, ◌≤◌, ◌<◌, ◌≡◌, refl, ◌∙◌, inl, inr, true, [], ◌∷◌, ◌++◌,
  some, Bytes, ltb, ◌==◌, if◌then◌else◌, length, get_elem?, get_elem?-append_at, drop-append_add,
  length-append, arith, Bool-cases, lt→ltb, le→leb, le→ltb_false,
}
use quackiso.Container.Der.{big_endian, get_range}
use quackiso.Container.Pgp.{new_header, pgp_header}

-- The octets of a definite length: one, two or five.
unfoldable pub packet_length : ℕ → Bytes
packet_length n =
    if ltb n 192
    then n ∷ []
    else if ltb n 8384
    then ((n - 192) / 256 + 192) ∷ (n - 192) % 256 ∷ []
    else 255 ∷ n / (256 * 256 * 256) ∷ n / (256 * 256) % 256 ∷ n / 256 % 256 ∷ n % 256 ∷ []

get_range-append :
    (at : ℕ) (before s : Bytes) (a b c d e f : ℕ)
    → at ≡ length before
    → get_range (at + 2) (at + 6) (before ++ (a ∷ b ∷ c ∷ d ∷ e ∷ f ∷ s))
      ≡ some (c ∷ d ∷ e ∷ f ∷ [])
get_range-append at before s a b c d e f h =
    rw
      (
        le→leb (at + 6) (length (before ++ (a ∷ b ∷ c ∷ d ∷ e ∷ f ∷ s)))
            (omega (arith, length-append before (a ∷ b ∷ c ∷ d ∷ e ∷ f ∷ s))),
        drop-append_add (at + 2) 2 before (a ∷ b ∷ c ∷ d ∷ e ∷ f ∷ s) (omega arith),
        four,
      )
      refl
  where
    four : at + 6 - (at + 2) ≡ 4
    four = omega arith

-- A header behind other packets is read back.
new_header-written :
    (at b n : ℕ) (before s : Bytes)
    → at ≡ length before
    → n < 2 ^ 32
    → new_header (before ++ (b ∷ (packet_length n ++ s))) at b
      ≡ some (b % 64, at + 1 + length (packet_length n), some n)
unfolding new_header packet_length big_endian
new_header-written at b n before s h small = elim (Bool-cases (ltb n 192)) [
  | inl one ↦
      rw (one, get_elem?-append_at (at + 1) 1 before (b ∷ n ∷ s) (omega arith)) (ground arith)
  | inr more ↦ elim (Bool-cases (ltb n 8384)) [
    | inl two ↦
        rw
          (
            more,
            two,
            get_elem?-append_at (at + 1) 1 before
                (b ∷ ((n - 192) / 256 + 192) ∷ (n - 192) % 256 ∷ s) (omega arith),
            get_elem?-append_at (at + 2) 2 before
                (b ∷ ((n - 192) / 256 + 192) ∷ (n - 192) % 256 ∷ s) (omega arith),
          )
          (ground arith)
    | inr five ↦
        rw
          (
            more,
            five,
            get_elem?-append_at (at + 1) 1 before
                (b
                  ∷ 255
                  ∷ n / (256 * 256 * 256)
                  ∷ n / (256 * 256) % 256
                  ∷ n / 256 % 256
                  ∷ n % 256
                  ∷ s)
                (omega arith),
            get_range-append at before s b 255 (n / (256 * 256 * 256)) (n / (256 * 256) % 256)
                (n / 256 % 256) (n % 256) h,
          )
          (ground arith)
  ]
]

pub length-packet_length : (n : ℕ) → length (packet_length n) ≤ 5
unfolding packet_length
length-packet_length n = ground arith

eq→== : (a b : ℕ) → a ≡ b → a == b ≡ true
eq→== a b h = ground arith

pub pgp_header-written :
    (tag n : ℕ) (before s : Bytes)
    → tag < 64
    → n < 2 ^ 32
    → length before < 2 ^ 63
    → pgp_header (before ++ ((192 + tag) ∷ (packet_length n ++ s))) (length before)
      ≡ some (record {
        tag = tag;
        body = length before + 1 + length (packet_length n);
        next = some (length before + 1 + length (packet_length n) + n);
      })
unfolding pgp_header
pgp_header-written tag n before s t small short =
    rw
      (
        get_elem?-append_at (length before) 0 before ((192 + tag) ∷ (packet_length n ++ s))
            (omega arith),
        le→ltb_false (192 + tag) 128 (omega arith),
        eq→== ((192 + tag) / 64 % 2) 1 (omega arith),
        new_header-written (length before) (192 + tag) n before s refl small,
        lt→ltb (length before + 1 + length (packet_length n) + n) (2 ^ 64)
            (omega (arith, length-packet_length n)),
        same,
      )
      refl
  where
    same : (192 + tag) % 64 ≡ tag
    same = omega arith

-- The first byte of the body, at the place that the header gives.
pub version-written :
    (b n v : ℕ) (before s : Bytes)
    → get_elem?
        (before ++ (b ∷ (packet_length n ++ v ∷ s)))
        (length before + 1 + length (packet_length n))
      ≡ some v
version-written b n v before s =
    get_elem?-append_at (length before + 1 + length (packet_length n))
      (suc (length (packet_length n))) before (b ∷ (packet_length n ++ v ∷ s)) (omega arith)
    ∙ get_elem?-append_at (length (packet_length n)) 0 (packet_length n) (v ∷ s) (omega arith)
