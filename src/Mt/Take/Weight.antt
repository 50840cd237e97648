-- ===== src/Mt/Take/Weight.antt =====
-- How much a line takes of what a file has left.
use quackiso.Base.{
  ℕ, suc, ◌+◌, ◌≤◌, ◌<◌, ◌≡◌, refl, sym, ap, ◌∙◌, Bool, true, false, List, [], ◌∷◌, ◌++◌, Option,
  none, some, Bytes, ltb, length, arith, Result, ok, err, ◌>>=◌, >>=-eq-ok, Bool-cases, inl, inr,
}
use quackiso.Text.{span}
use quackiso.Mt.Take.{
  Fill, chunk, interrupted, failed, ReadError, not_eol, put_back, after_cr, behind_eol, cut_chunk,
  read_line, MtReader, as_text, take_from, take_line, utf8_from, weight, held, size,
}

pub weight-put_back :
    (s : Bytes) (fills : List Fill) → weight (put_back s fills) ≤ suc (length s + weight fills)
weight-put_back [] fills = omega arith
weight-put_back (c ∷ s) fills = omega arith

weight-after_cr :
    (fills : List Fill) {left : List Fill} → after_cr fills ≡ ok left → weight left ≤ weight fills
unfolding after_cr
weight-after_cr [] h = ground arith
weight-after_cr (interrupted ∷ fills) h = ground arith
weight-after_cr (failed ∷ fills) h = ground arith
weight-after_cr (chunk [] ∷ fills) h = ground arith
weight-after_cr (chunk (c ∷ s) ∷ fills) h = ground (arith, weight-put_back s fills)

pub weight-behind_eol :
    (c : ℕ) (fills : List Fill) {left : List Fill}
    → behind_eol c fills ≡ ok left
    → weight left ≤ weight fills
weight-behind_eol c fills {left = left} h = ground (arith, weight-after_cr fills {left = left})

length-span : (p : ℕ → Bool) (s : Bytes) → length (span p s).1 ≤ length s
unfolding span
length-span p [] = omega arith
length-span p (c ∷ s) = ground (arith, length-span p s)

weight-cut_chunk :
    (limit : ℕ) (line s : Bytes) (parts : Bytes × Bytes) (fills left : List Fill)
    (more : Result ReadError (Option Bytes × List Fill)) (l : Option Bytes)
    → length parts.1 ≤ length s
    → ((l' : Option Bytes) (left' : List Fill)
        → more ≡ ok (l', left')
        → weight left' ≤ weight fills)
    → cut_chunk limit line parts fills more ≡ ok (l, left)
    → weight left < suc (length s + weight fills)
unfolding cut_chunk
weight-cut_chunk limit line s (head, []) fills left more l short again h =
    ground (arith, again l left)
weight-cut_chunk limit line s (head, c ∷ rest) fills left more l short again h =
    elim (Bool-cases (ltb limit (length line + length head))) [
      | inl long ↦ cc (long, h)
      | inr fits ↦
          let (left', e, e') =
            >>=-eq-ok (behind_eol c (put_back rest fills))
              (λ (f : List Fill). ok (some (line ++ head), f)) (rw fits at h) in
          ground (
            arith,
            weight-behind_eol c (put_back rest fills) {left = left'} e,
            weight-put_back rest fills,
            e',
          )
    ]

pub weight-read_line :
    (limit : ℕ) (line : Bytes) (seen : Bool) (fills left : List Fill) (l : Option Bytes)
    → read_line limit line seen fills ≡ ok (l, left)
    → weight left ≤ weight fills
unfolding read_line
weight-read_line limit line seen [] left l h = ground arith
weight-read_line limit line seen (interrupted ∷ fills) left l h =
    omega (arith, weight-read_line limit line seen fills left l h)
weight-read_line limit line seen (failed ∷ fills) left l h = ground arith
weight-read_line limit line seen (chunk [] ∷ fills) left l h = ground arith
weight-read_line limit line seen (chunk (b ∷ buf) ∷ fills) left l h =
    let less =
      weight-cut_chunk limit line (b ∷ buf) (span not_eol (b ∷ buf)) fills left
        (read_line limit (line ++ (span not_eol (b ∷ buf)).0) true fills) l
        (length-span not_eol (b ∷ buf))
        (λ l' left'.
          weight-read_line limit (line ++ (span not_eol (b ∷ buf)).0) true fills left' l')
        h in
    omega (arith, less)

-- A line that was read has taken something.
read_line-takes :
    (limit : ℕ) (line : Bytes) (fills left : List Fill) (l : Bytes)
    → read_line limit line false fills ≡ ok (some l, left)
    → weight left < weight fills
unfolding read_line
read_line-takes limit line [] left l h = ground arith
read_line-takes limit line (interrupted ∷ fills) left l h =
    omega (arith, read_line-takes limit line fills left l h)
read_line-takes limit line (failed ∷ fills) left l h = ground arith
read_line-takes limit line (chunk [] ∷ fills) left l h = ground arith
read_line-takes limit line (chunk (b ∷ buf) ∷ fills) left l h =
    weight-cut_chunk limit line (b ∷ buf) (span not_eol (b ∷ buf)) fills left
      (read_line limit (line ++ (span not_eol (b ∷ buf)).0) true fills) (some l)
      (length-span not_eol (b ∷ buf))
      (λ l' left'. weight-read_line limit (line ++ (span not_eol (b ∷ buf)).0) true fills left' l')
      h

-- The size of the reader of a result.
abbrev size_of : Result ReadError (Option Bytes × MtReader) → ℕ
size_of (ok (l, r)) = size r
size_of (err e) = 0

size-as_text :
    (r : MtReader) (line : Bytes) (left : List Fill) (text : Bytes) (r' : MtReader)
    → as_text r (some line, left) ≡ ok (some text, r')
    → size r' ≡ weight left + held r.pending
unfolding as_text
size-as_text r line left text r' h = elim (Bool-cases (utf8_from 0 0 0 line)) [
  | inl good ↦ sym (ap size_of (rw good at h))
  | inr bad ↦ cc (bad, h)
]

pub take_line-held :
    (r : MtReader) (text : Bytes)
    → r.pending ≡ some text
    → take_line r ≡ ok (some text, record r { pending = none })
unfolding take_line
take_line-held r text e = ap (take_from r) e

pub take_line-read :
    (r : MtReader)
    → r.pending ≡ none
    → take_line r ≡ (read_line r.limit [] false r.input >>= as_text r)
unfolding take_line
take_line-read r e = ap (take_from r) e

as_text-takes :
    (r : MtReader) (l : Option Bytes) (left : List Fill) (text : Bytes) (r' : MtReader)
    → read_line r.limit [] false r.input ≡ ok (l, left)
    → as_text r (l, left) ≡ ok (some text, r')
    → size r' < size r
unfolding as_text
as_text-takes r none left text r' e h = cc h
as_text-takes r (some line) left text r' e h =
    omega
      (arith, size-as_text r line left text r' h, read_line-takes r.limit [] r.input left line e)

-- A line takes something of what the reader has left.
pub take_line-takes :
    (r : MtReader) (text : Bytes) (r' : MtReader)
    → take_line r ≡ ok (some text, r')
    → size r' < size r
take_line-takes r text r' h = go r.pending refl
  where
    go : (p : Option Bytes) → r.pending ≡ p → size r' < size r
    go (some text') e =
        let same : weight r.input + 0 ≡ size r' = ap size_of (sym (take_line-held r text' e) ∙ h) in
        let one : held r.pending ≡ 1 = ap held e in omega (arith, same, one)
    go none e =
        let (found, e1, e2) =
          >>=-eq-ok (read_line r.limit [] false r.input) (as_text r)
            (sym (take_line-read r e) ∙ h) in
        as_text-takes r found.0 found.1 text r' e1 e2
