-- ===== src/Mt/StatementLine/Subfields.antt =====
-- The subfields of a written line, cut out of its parts one by one.
use native.Mathlib.Nat.{suc-add}
use quackiso.Base.{
  ℕ, ◌+◌, ◌-◌, ◌≡◌, refl, ◌≢◌, false, [], ◌∷◌, ◌++◌, Option, none, some, Bytes, All, length,
  length-append, take, drop, arith, ◌==◌, ltb, if◌then◌else◌, le→leb, le→ltb_false, take-append,
  map_err,
}
use quackiso.Text.Search.{find-behind}
use quackiso.Text.Trim.{trim_graphic, IsGraphic}
use quackiso.Temporal.Dates.{is_ascii-IsGraphic}
use quackiso.Mt.Error.{amount_error}
use quackiso.Mt.Amount.{amount}
use quackiso.Mt.StatementLine.{some_text, mark_length, split_type, split_refs, line_amount}
use quackiso.Mt.StatementLine.Parts.{parts_of}
use quackiso.Mt.StatementLine.Written.{
  Mark, credit, debit, reversed_credit, reversed_debit, expected_credit, expected_debit, mark_text,
  funds_text, IsFunds, Written, digits_text, refs_text, behind_digits, code_text, IsWritten,
}

-- A text, if there is one.
abbrev pub text_or_none : Bytes → Option Bytes
text_or_none [] = none
text_or_none (c ∷ s) = some (c ∷ s)

some_text-IsGraphic : (s : Bytes) → All IsGraphic s → some_text s ≡ text_or_none s
unfolding some_text
some_text-IsGraphic [] h = rw (trim_graphic [] tt)
some_text-IsGraphic (c ∷ s) h = rw (trim_graphic (c ∷ s) h)

pub split_refs-written :
    (s t : Bytes)
    → All IsGraphic s
    → All (λ c. c ≢ b'/') s
    → All IsGraphic t
    → split_refs (s ++ b'/' ∷ b'/' ∷ t) ≡ (text_or_none s, text_or_none t)
unfolding split_refs
split_refs-written s t hs slash ht =
    let cut : drop (length s + 2) (s ++ b'/' ∷ b'/' ∷ t) ≡ t = drop_two s t in
    rw (
      split_refs,
      find-behind b'/' b'/' s t slash,
      take-append s (b'/' ∷ b'/' ∷ t),
      cut,
      some_text-IsGraphic s hs,
      some_text-IsGraphic t ht,
    )
  where
    drop_two : (s t : Bytes) → drop (length s + 2) (s ++ b'/' ∷ b'/' ∷ t) ≡ t
    drop_two [] t = refl
    drop_two (c ∷ s) t = rw suc-add (drop_two s t)

pub split_type-written :
    (l : Written)
    → split_type (behind_digits l) ≡ (some (l.kind ∷ []), some (code_text l), refs_text l)
unfolding split_type
split_type-written l = rw (le→leb 4 (length (behind_digits l)) (omega arith))

-- The credit or debit mark, and the funds code behind it.
pub mark_length-text :
    (m : Mark) (f : Option ℕ) → mark_length (mark_text m ++ funds_text f) ≡ length (mark_text m)
unfolding mark_length
mark_length-text credit f = refl
mark_length-text debit f = refl
mark_length-text reversed_credit f = refl
mark_length-text reversed_debit f = refl
mark_length-text expected_credit f = refl
mark_length-text expected_debit f = refl

abbrev pub funds_or_none : Option ℕ → Option Bytes
funds_or_none none = none
funds_or_none (some c) = some (c ∷ [])

pub funds_code-text :
    (m : Mark) (f : Option ℕ)
    → (if ltb (length (mark_text m)) (length (mark_text m ++ funds_text f))
        then some (
            take
              (length (mark_text m) + 1 - length (mark_text m))
              (drop (length (mark_text m)) (mark_text m ++ funds_text f)))
        else none)
      ≡ funds_or_none f
funds_code-text credit none = refl
funds_code-text credit (some c) = refl
funds_code-text debit none = refl
funds_code-text debit (some c) = refl
funds_code-text reversed_credit none = refl
funds_code-text reversed_credit (some c) = refl
funds_code-text reversed_debit none = refl
funds_code-text reversed_debit (some c) = refl
funds_code-text expected_credit none = refl
funds_code-text expected_credit (some c) = refl
funds_code-text expected_debit none = refl
funds_code-text expected_debit (some c) = refl

pub mark-IsGraphic :
    (m : Mark) (f : Option ℕ) → IsFunds f → All IsGraphic (mark_text m ++ funds_text f)
mark-IsGraphic credit none h = omega arith
mark-IsGraphic credit (some c) h = omega arith
mark-IsGraphic debit none h = omega arith
mark-IsGraphic debit (some c) h = omega arith
mark-IsGraphic reversed_credit none h = omega arith
mark-IsGraphic reversed_credit (some c) h = omega arith
mark-IsGraphic reversed_debit none h = omega arith
mark-IsGraphic reversed_debit (some c) h = omega arith
mark-IsGraphic expected_credit none h = omega arith
mark-IsGraphic expected_credit (some c) h = omega arith
mark-IsGraphic expected_debit none h = omega arith
mark-IsGraphic expected_debit (some c) h = omega arith

pub line_amount-written :
    (v : Bytes) (l : Written)
    → IsWritten l
    → line_amount v (parts_of l) ≡ map_err amount_error (amount (digits_text l))
unfolding line_amount
line_amount-written v l w =
    let mark = mark_text l.mark ++ funds_text l.funds in
    let letter = w.kind_letter in
    let no_point : (l.kind == b'.') ≡ false = ground arith in
    rw (
      is_ascii-IsGraphic mark (mark-IsGraphic l.mark l.funds w.funds_letter),
      mark_length-text l.mark l.funds,
      le→ltb_false (length mark) (length (mark_text l.mark))
          (omega (arith, length-append {0} (mark_text l.mark) (funds_text l.funds))),
      no_point,
    )
