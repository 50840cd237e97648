-- ===== src/Decimal/Exact.antt =====
-- The amount of a text of sign, digits, point and digits.
use quackiso.Base.{
  ℕ, zero, suc, ◌+◌, ◌*◌, ◌^◌, ◌≤◌, ◌<◌, ◌≡◌, refl, ap, ◌∙◌, Bool, true, false, ◌&&◌, [], ◌∷◌, ◌++◌,
  Bytes, All, All-append, All-replicate, length, replicate, err, arith, inl, inr, ◌⊎◌,
}
use quackiso.Text.{is_empty}
use quackiso.Text.Digits.{
  IsDigit, number_from, number, split_once-digits, split_once-digits_none, digits-IsGraphic,
}
use quackiso.Text.TrimEnd.{
  EndsOtherThan, trim_end_matches-EndsOtherThan, trim_end_matches-replicate,
}
use quackiso.Text.Trim.{trim, trim_end_matches, trim_graphic, IsGraphic}
use quackiso.Decimal.{too_precise, split_sign, split_point, scale_parts, check_parts, scaled}
use quackiso.Decimal.Units.{units, in_column, Stands-trim, scale_parts-units}

-- The texts of an amount: a sign, digits, and a point with more digits.
pub data Sign : Type 0 where
  unsigned plus minus : Sign

abbrev pub sign_text : Sign → Bytes
sign_text unsigned = []
sign_text plus = b'+' ∷ []
sign_text minus = b'-' ∷ []

abbrev pub is_minus : Sign → Bool
is_minus minus = true
is_minus _ = false

sign_text-IsGraphic : (sign : Sign) → All IsGraphic (sign_text sign)
sign_text-IsGraphic unsigned = tt
sign_text-IsGraphic plus = (omega arith, tt)
sign_text-IsGraphic minus = (omega arith, tt)

split_sign-text :
    (sign : Sign) (c : ℕ) (s : Bytes)
    → (b'0' ≤ c) ⊎ (c ≡ b'.')
    → split_sign (sign_text sign ++ c ∷ s) ≡ (is_minus sign, c ∷ s)
unfolding split_sign
split_sign-text unsigned c s h = ground arith
split_sign-text plus c s h = refl
split_sign-text minus c s h = refl

-- A written amount with a point, and one without.
abbrev pub written : Sign → Bytes → Bytes → Bytes
written sign i f = sign_text sign ++ (i ++ b'.' ∷ f)

abbrev pub written_whole : Sign → Bytes → Bytes
written_whole sign i = sign_text sign ++ i

written-IsGraphic :
    (sign : Sign) (i f : Bytes) → All IsDigit i → All IsDigit f → All IsGraphic (written sign i f)
written-IsGraphic sign i f hi hf =
    All-append IsGraphic (sign_text sign) (i ++ b'.' ∷ f) (sign_text-IsGraphic sign) (
      All-append IsGraphic i (b'.' ∷ f) (digits-IsGraphic i hi)
        (omega arith, digits-IsGraphic f hf))

split_sign-written :
    (sign : Sign) (i f : Bytes)
    → All IsDigit i
    → split_sign (written sign i f) ≡ (is_minus sign, i ++ b'.' ∷ f)
split_sign-written sign [] f h = split_sign-text sign b'.' f (inr refl)
split_sign-written sign (c ∷ i) f h = split_sign-text sign c (i ++ b'.' ∷ f) (inl h.0.0)

-- `scaled` in terms of the parts that it finds.
scaled-parts :
    (text s digits i f : Bytes) (negative : Bool)
    → trim text ≡ s
    → is_empty s ≡ false
    → split_sign s ≡ (negative, digits)
    → split_point digits ≡ (i, f)
    → scaled text ≡ check_parts text negative i f
unfolding scaled
scaled-parts text s digits i f negative trimmed nonempty sign point = ground arith

sign_text-nonempty :
    (sign : Sign) (s : Bytes) → is_empty s ≡ false → is_empty (sign_text sign ++ s) ≡ false
sign_text-nonempty unsigned s h = h
sign_text-nonempty plus s h = refl
sign_text-nonempty minus s h = refl

point-nonempty : (i f : Bytes) → is_empty (i ++ b'.' ∷ f) ≡ false
point-nonempty [] f = refl
point-nonempty (c ∷ i) f = refl

split_point-written : (i f : Bytes) → All IsDigit i → split_point (i ++ b'.' ∷ f) ≡ (i, f)
unfolding split_point
split_point-written i f h = rw (split_once-digits b'.' i f (inl (omega arith)) h, split_point)

scaled-written_parts :
    (sign : Sign) (i f : Bytes)
    → All IsDigit i
    → All IsDigit f
    → scaled (written sign i f) ≡ check_parts (written sign i f) (is_minus sign) i f
scaled-written_parts sign i f hi hf =
    scaled-parts (written sign i f) (written sign i f) (i ++ b'.' ∷ f) i f (is_minus sign)
      (trim_graphic (written sign i f) (written-IsGraphic sign i f hi hf))
      (sign_text-nonempty sign (i ++ b'.' ∷ f) (point-nonempty i f))
      (split_sign-written sign i f hi) (split_point-written i f hi)

check_parts-short :
    (text : Bytes) (negative : Bool) (i f g : Bytes)
    → is_empty i && is_empty f ≡ false
    → trim_end_matches b'0' f ≡ g
    → length g ≤ 5
    → check_parts text negative i f ≡ scale_parts text negative i g
unfolding check_parts
check_parts-short text negative i f g nonempty trimmed short = ground arith

check_parts-long :
    (text : Bytes) (negative : Bool) (i f g : Bytes)
    → is_empty i && is_empty f ≡ false
    → trim_end_matches b'0' f ≡ g
    → 5 < length g
    → check_parts text negative i f ≡ err (too_precise text (length g))
unfolding check_parts
check_parts-long text negative i f g nonempty trimmed long = ground arith

some_digits :
    (i g : Bytes) (k : ℕ)
    → 0 < length i + length g + k
    → is_empty i && is_empty (g ++ replicate k b'0') ≡ false
some_digits [] [] zero h = absurd (omega arith)
some_digits [] [] (suc k) h = refl
some_digits [] (c ∷ g) k h = refl
some_digits (c ∷ i) g k h = refl

-- A written amount whose fraction is at most five digits and then any number of zeros is read as
-- exactly the amount that it states, in units of 10^-5 and with its sign, if that is at most
-- 10^38 - 1, and is refused as too large if it is more.
pub scaled-written :
    (sign : Sign) (i g : Bytes) (k : ℕ)
    → All IsDigit i
    → All IsDigit g
    → length g ≤ 5
    → 0 < length i + length g + k
    → scaled (written sign i (g ++ replicate k b'0'))
      ≡ in_column (written sign i (g ++ replicate k b'0')) (is_minus sign) (units i g)
scaled-written sign i g k hi hg short some_digit =
    let (short', same, digits) = Stands-trim i g short hg in
    let text = written sign i (g ++ replicate k b'0') in
    scaled-written_parts sign i (g ++ replicate k b'0') hi
      (All-append IsDigit g (replicate k b'0') hg (All-replicate IsDigit k b'0' (omega arith)))
    ∙ check_parts-short text (is_minus sign) i (g ++ replicate k b'0') (trim_end_matches b'0' g)
        (some_digits i g k some_digit) (trim_end_matches-replicate b'0' k g) short'
    ∙ scale_parts-units text (is_minus sign) i (trim_end_matches b'0' g) hi short' digits
    ∙ ap (in_column text (is_minus sign)) same

-- A written amount with more than five digits after the point, the last of them not zero, is
-- refused with the number of those digits, however many zeros follow.
pub scaled-too_precise :
    (sign : Sign) (i g : Bytes) (k : ℕ)
    → All IsDigit i
    → All IsDigit g
    → 5 < length g
    → EndsOtherThan b'0' g
    → scaled (written sign i (g ++ replicate k b'0'))
      ≡ err (too_precise (written sign i (g ++ replicate k b'0')) (length g))
scaled-too_precise sign i g k hi hg long last =
    scaled-written_parts sign i (g ++ replicate k b'0') hi
      (All-append IsDigit g (replicate k b'0') hg (All-replicate IsDigit k b'0' (omega arith)))
    ∙ check_parts-long (written sign i (g ++ replicate k b'0')) (is_minus sign) i
        (g ++ replicate k b'0') g (some_digits i g k (omega arith))
        (trim_end_matches-replicate b'0' k g ∙ trim_end_matches-EndsOtherThan b'0' g last) long

split_point-whole : (i : Bytes) → All IsDigit i → split_point i ≡ (i, [])
unfolding split_point
split_point-whole i h = rw (split_once-digits_none b'.' i (inl (omega arith)) h, split_point)

-- A written whole number is read as 10^5 times that number, with its sign, if that is at most
-- 10^38 - 1, and is refused as too large if it is more.
pub scaled-written_whole :
    (sign : Sign) (c : ℕ) (i : Bytes)
    → All IsDigit (c ∷ i)
    → scaled (written_whole sign (c ∷ i))
      ≡ in_column (written_whole sign (c ∷ i)) (is_minus sign) (number (c ∷ i) * 10 ^ 5)
unfolding number
scaled-written_whole sign c i h =
    scaled-parts text text (c ∷ i) (c ∷ i) [] (is_minus sign)
      (trim_graphic text (
        All-append IsGraphic (sign_text sign) (c ∷ i) (sign_text-IsGraphic sign)
          (digits-IsGraphic (c ∷ i) h)))
      (sign_text-nonempty sign (c ∷ i) refl) (split_sign-text sign c i (inl h.0.0))
      (split_point-whole (c ∷ i) h)
    ∙ check_parts-short text (is_minus sign) (c ∷ i) [] [] refl
        (trim_end_matches-EndsOtherThan b'0' [] tt) (omega arith)
    ∙ scale_parts-units text (is_minus sign) (c ∷ i) [] h (omega arith) tt
    ∙ ap (in_column text (is_minus sign)) (unfold number_from in omega arith)
  where
    text : Bytes
    text = written_whole sign (c ∷ i)
