-- ===== src/Text/Lines.antt =====
-- The lines of a text one after the other.
use Prim.Native.Nat.add
use native.Mathlib.Nat.{suc-add}
use quackiso.Base.{
  ℕ, zero, suc, ◌+◌, ◌-◌, ◌≤◌, ◌≡◌, refl, ap, ◌∙◌, Bool, List, [], ◌∷◌, Bytes, ltb, if◌then◌else◌,
  length, drop, length-drop, arith, sym, le→ltb_false, ltb-false→le, Bool-cases, inl, inr,
}
use quackiso.Text.{split_on, first_line, prepend}

-- The lines from the offset on: none when it is past the end of the text.
abbrev pub lines_from : Bytes → ℕ → List Bytes
lines_from s at = if ltb (length s) at then [] else split_on b'\n' (drop at s)

split_on-first_line :
    (s : Bytes) → split_on b'\n' s ≡ first_line s ∷ lines_from s (suc (length (first_line s)))
unfolding split_on first_line
split_on-first_line [] = refl
split_on-first_line (c ∷ s) = ground (arith, split_on-first_line s)

drop-nil : (n : ℕ) → drop {A = ℕ} n [] ≡ []
drop-nil zero = refl
drop-nil (suc n) = refl

pub drop-drop : (n k : ℕ) (s : Bytes) → drop n (drop k s) ≡ drop (k + n) s
drop-drop n zero s = rw add.zero
drop-drop n (suc k) [] = drop-nil n ∙ sym (drop-nil (suc k + n))
drop-drop n (suc k) (c ∷ s) = rw suc-add (drop-drop n k s)

lines_from-drop :
    (s : Bytes) (at n : ℕ) → at ≤ length s → lines_from (drop at s) n ≡ lines_from s (at + n)
lines_from-drop s at n h = rw (drop-drop n at s, length-drop at s) (ground arith)

pub lines_from-step :
    (s : Bytes) (at : ℕ)
    → at ≤ length s
    → lines_from s at
      ≡ first_line (drop at s) ∷ lines_from s (at + length (first_line (drop at s)) + 1)
lines_from-step s at h =
    let raw = first_line (drop at s) in
    let next : at + length raw + 1 ≡ at + suc (length raw) = omega arith in
    rw (le→ltb_false (length s) at h, next)
      (split_on-first_line (drop at s)
        ∙ ap (λ t. raw ∷ t) (lines_from-drop s at (suc (length raw)) h))

length-prepend : (c : ℕ) (ps : List Bytes) → length (prepend c ps) ≤ length ps + 1
length-prepend c [] = omega arith
length-prepend c (p ∷ ps) = omega arith

pub length-split_on : (s : Bytes) → length (split_on b'\n' s) ≤ length s + 1
unfolding split_on
length-split_on [] = omega arith
length-split_on (c ∷ s) = ground (arith, length-split_on s, length-prepend c (split_on b'\n' s))

pub length-lines_from : (s : Bytes) (at : ℕ) → length (lines_from s at) ≤ length s + 1 - at
length-lines_from s at = elim (Bool-cases (ltb (length s) at)) [
  | inl past ↦ rw past (omega arith)
  | inr inside ↦
      rw inside
        (omega (arith, length-split_on (drop at s), length-drop at s, ltb-false→le _ _ inside))
]

length-first_line : (s : Bytes) → length (first_line s) ≤ length s
unfolding first_line
length-first_line [] = omega arith
length-first_line (c ∷ s) = ground (arith, length-first_line s)

-- A line with the lines behind it is one of the text: it lies inside, and the others follow it.
pub record IsLineAt (s : Bytes) (at : ℕ) (raw : Bytes) (lines : List Bytes) : Type 0 where
  pub inside : at + length raw ≤ length s
  pub same : raw ≡ first_line (drop at s)
  pub behind : lines ≡ lines_from s (at + length raw + 1)

pub lines_from-IsLineAt :
    (s : Bytes) (at : ℕ) (raw : Bytes) (lines : List Bytes)
    → raw ∷ lines ≡ lines_from s at
    → IsLineAt s at raw lines
lines_from-IsLineAt s at raw lines e = elim (Bool-cases (ltb (length s) at)) [
  | inl past ↦ cc (e, ap (λ (b : Bool). if b then [] else split_on b'\n' (drop at s)) past)
  | inr inside ↦
      let at_le : at ≤ length s = ltb-false→le _ _ inside in
      let both : raw ∷ lines
          ≡ first_line (drop at s) ∷ lines_from s (at + length (first_line (drop at s)) + 1) =
        e ∙ lines_from-step s at at_le in
      let head : raw ≡ first_line (drop at s) = cc both in
      record {
        inside = omega (arith, ap length head, length-first_line (drop at s), length-drop at s);
        same = head;
        behind = rw head (cc both);
      }
]
