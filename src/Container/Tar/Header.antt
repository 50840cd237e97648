-- ===== src/Container/Tar/Header.antt =====
-- Whole TAR headers: those that an archiver writes, and what the checksum keeps out.
use quackiso.Base.{
  ℕ, ◌+◌, ◌-◌, ◌≡◌, ◌≢◌, refl, sym, ap, ◌∙◌, ◌⊎◌, inl, inr, Bool, true, false, not, ◌&&◌, ◌||◌, [],
  ◌∷◌, ◌++◌, some, none, Bytes, arith, le→leb, ◌==◌, length, get_or, append_assoc, length-append,
  take-append_at, drop-append_at, is_some,
}
use quackiso.Base.Int.{ℤ, pos, eq_ℤ}
use quackiso.Temporal.{slice}
use quackiso.Container.Tar.{
  has_high_bit, tar_octal, tar_size_field, tar_type_flag, accepts, tar_checksum, is_tar_header,
  is_tar,
}
use quackiso.Container.Tar.Written.{
  OctalText, octal_text, octal_value, IsOctalText, tar_octal-written,
}
use quackiso.Container.Tar.Checksum.{
  bytes_sum, IsSevenBit, tar_checksum_unsigned, tar_checksum_signed,
}

-- The fields of a header: the name's first byte, what follows up to the size, the size, the times,
-- the checksum, the type flag and the rest.
pub record HeaderText : Type 0 where
  pub first : ℕ
  pub name : Bytes
  pub file_size : OctalText
  pub times : Bytes
  pub sum : OctalText
  pub flag : ℕ
  pub tail : Bytes

abbrev pub front : HeaderText → Bytes
front h = h.first ∷ (h.name ++ (octal_text h.file_size ++ h.times))

abbrev pub back : HeaderText → Bytes
back h = h.flag ∷ h.tail

abbrev pub header_text : HeaderText → Bytes
header_text h = front h ++ (octal_text h.sum ++ back h)

pub record IsHeader (h : HeaderText) : Type 0 where
  pub named : h.first ≢ 0
  pub name_length : length h.name ≡ 123
  pub size_length : length (octal_text h.file_size) ≡ 12
  pub times_length : length h.times ≡ 12
  pub sum_length : length (octal_text h.sum) ≡ 8
  pub tail_length : length h.tail ≡ 355
  pub size_octal : IsOctalText h.file_size
  pub sum_octal : IsOctalText h.sum
  pub flagged : tar_type_flag h.flag ≡ true
  pub summed : octal_value h.sum ≡ bytes_sum (front h) + 256 + bytes_sum (back h)

get_or-append_at :
    (n d : ℕ) (xs : Bytes) (y : ℕ) (ys : Bytes) → n ≡ length xs → get_or (xs ++ y ∷ ys) n d ≡ y
get_or-append_at n d [] y ys e = rw e refl
get_or-append_at n d (x ∷ xs) y ys e = rw e (get_or-append_at (length xs) d xs y ys refl)

slice-append_at :
    (lo hi : ℕ) (xs ys zs : Bytes)
    → lo ≡ length xs
    → hi - lo ≡ length ys
    → slice lo hi (xs ++ (ys ++ zs)) ≡ ys
slice-append_at lo hi xs ys zs e f =
    rw (drop-append_at lo xs (ys ++ zs) e) (take-append_at (hi - lo) ys zs f)

last_test : (a b c x y : Bool) → a && (b && (c && (x || y))) ≡ true → (x ≡ true) ⊎ (y ≡ true)
last_test a b c x y h = ground arith

eq_ℤ-pos : (n m : ℕ) (z : ℤ) → z ≡ pos m → eq_ℤ (pos n) z ≡ true → n ≡ m
eq_ℤ-pos n m z e h = ground (arith, e)

eq_ℤ-refl : (n : ℕ) (z : ℤ) → z ≡ pos n → eq_ℤ (pos n) z ≡ true
eq_ℤ-refl n z e = ground (arith, e)

-- A header is accepted with no number but a sum of its bytes.
accepts-sum :
    (header : Bytes) (stored n : ℕ)
    → tar_checksum header false ≡ pos n
    → tar_checksum header true ≡ pos n
    → accepts header stored ≡ true
    → stored ≡ n
unfolding accepts
accepts-sum header stored n e f a =
    elim (last_test (not (get_or header 0 0 == 0)) (tar_size_field (slice 124 136 header))
      (tar_type_flag (get_or header 156 0)) (eq_ℤ (pos stored) (tar_checksum header false))
      (eq_ℤ (pos stored) (tar_checksum header true)) a) [
        | inl unsigned ↦ eq_ℤ-pos stored n (tar_checksum header false) e unsigned
        | inr signed ↦ eq_ℤ-pos stored n (tar_checksum header true) f signed
      ]

accepts-written :
    (header : Bytes) (stored : ℕ)
    → get_or header 0 0 == 0 ≡ false
    → tar_size_field (slice 124 136 header) ≡ true
    → tar_type_flag (get_or header 156 0) ≡ true
    → tar_checksum header false ≡ pos stored
    → accepts header stored ≡ true
unfolding accepts
accepts-written header stored named size flag e =
    rw (named, size, flag, eq_ℤ-refl stored (tar_checksum header false) e) refl

module _ (front field back : Bytes) (front_length : length front ≡ 148)
    (field_length : length field ≡ 8) (back_length : length back ≡ 356) where
  whole_length : length (front ++ (field ++ back)) ≡ 512
  whole_length = omega (arith, length-append front (field ++ back), length-append field back)

  -- `is_tar` of a block with more behind it is about the block.
  is_tar-block :
      (rest : Bytes)
      → is_tar ((front ++ (field ++ back)) ++ rest) ≡ is_tar_header (front ++ (field ++ back))
  unfolding is_tar
  is_tar-block rest = rw (
    take-append_at 512 (front ++ (field ++ back)) rest (sym whole_length),
    le→leb 512 (length ((front ++ (field ++ back)) ++ rest))
        (omega (arith, whole_length, length-append (front ++ (field ++ back)) rest)),
  )

  is_tar_header-parts : is_tar_header (front ++ (field ++ back)) ≡ elim (tar_octal field) [
    | none ↦ false
    | some stored ↦ accepts (front ++ (field ++ back)) stored
  ]
  unfolding is_tar_header
  is_tar_header-parts =
      ap
        (λ (s : Bytes). elim (tar_octal s) [
          | none ↦ false
          | some stored ↦ accepts (front ++ (field ++ back)) stored
        ])
        (slice-append_at 148 156 front field back (omega arith) (omega arith))

  -- A seven-bit block that is taken for a TAR header states the sum of its bytes.
  pub is_tar-sum :
      (rest : Bytes)
      → IsSevenBit front
      → IsSevenBit field
      → IsSevenBit back
      → is_tar ((front ++ (field ++ back)) ++ rest) ≡ true
      → tar_octal field ≡ some (bytes_sum front + 256 + bytes_sum back)
  is_tar-sum rest f g h e =
      stored (tar_octal field) refl (sym is_tar_header-parts ∙ sym (is_tar-block rest) ∙ e)
    where
      agrees :
          (n : ℕ)
          → accepts (front ++ (field ++ back)) n ≡ true
          → n ≡ bytes_sum front + 256 + bytes_sum back
      agrees n a =
          accepts-sum (front ++ (field ++ back)) n (bytes_sum front + 256 + bytes_sum back)
            (tar_checksum_unsigned front field back front_length field_length)
            (tar_checksum_signed front field back front_length field_length f g h) a

      stored :
          (o : _)
          → tar_octal field ≡ o
          → elim o [ none ↦ false | some n ↦ accepts (front ++ (field ++ back)) n ] ≡ true
          → tar_octal field ≡ some (bytes_sum front + 256 + bytes_sum back)
      stored none o a = cc
      stored (some n) o a = o ∙ ap some (agrees n a)

or_right : (a b : Bool) → b ≡ true → a || b ≡ true
or_right a b h = ground arith

tar_size_field-written : (o : OctalText) → IsOctalText o → tar_size_field (octal_text o) ≡ true
unfolding tar_size_field
tar_size_field-written o h =
    or_right (has_high_bit (octal_text o)) (is_some (tar_octal (octal_text o)))
      (ap is_some (tar_octal-written o h))

module _ (h : HeaderText) (v : IsHeader h) where
  length-front : length (front h) ≡ 148
  length-front = omega (
    arith,
    v.name_length,
    v.size_length,
    v.times_length,
    length-append h.name (octal_text h.file_size ++ h.times),
    length-append (octal_text h.file_size) h.times,
  )

  size_of : slice 124 136 (header_text h) ≡ octal_text h.file_size
  size_of =
      ap (slice 124 136)
        (regroup h.name (octal_text h.file_size) h.times (octal_text h.sum ++ back h))
      ∙ slice-append_at 124 136 (h.first ∷ h.name) (octal_text h.file_size)
          (h.times ++ (octal_text h.sum ++ back h)) (omega (arith, v.name_length))
          (omega (arith, v.size_length))
    where
      regroup :
          (a b c d : Bytes)
          → ◌≡◌ {A = Bytes} (h.first ∷ (a ++ (b ++ c)) ++ d) (h.first ∷ (a ++ (b ++ (c ++ d))))
      regroup a b c d =
          ap (λ (t : Bytes). h.first ∷ t)
            (append_assoc a (b ++ c) d ∙ ap (λ t. a ++ t) (append_assoc b c d))

  flag_of : get_or (header_text h) 156 0 ≡ h.flag
  flag_of =
      ap (λ t. get_or t 156 0) (sym (append_assoc (front h) (octal_text h.sum) (back h)))
      ∙ get_or-append_at 156 0 (front h ++ octal_text h.sum) h.flag h.tail
          (omega (arith, length-front, v.sum_length, length-append (front h) (octal_text h.sum)))

  -- A header that states the sum of its bytes is taken for a TAR archive, whatever follows it.
  pub is_tar-written : (rest : Bytes) → is_tar (header_text h ++ rest) ≡ true
  is_tar-written rest =
      is_tar-block (front h) (octal_text h.sum) (back h) length-front v.sum_length back_length rest
      ∙ (is_tar_header-parts (front h) (octal_text h.sum) (back h) length-front v.sum_length
            back_length
          ∙ rw (tar_octal-written h.sum v.sum_octal) (
              accepts-written (header_text h) (octal_value h.sum) (ground (arith, v.named))
                (rw size_of (tar_size_field-written h.file_size v.size_octal))
                (rw flag_of v.flagged) summed))
    where
      back_length : length (back h) ≡ 356
      back_length = omega (arith, v.tail_length)

      summed : tar_checksum (header_text h) false ≡ pos (octal_value h.sum)
      summed =
          tar_checksum_unsigned (front h) (octal_text h.sum) (back h) length-front v.sum_length
          ∙ ap pos (sym v.summed)
