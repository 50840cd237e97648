-- ===== src/Mt/Take/Mass.antt =====
-- The bytes that a file has left, with a line that is held, and what a line takes of them.
use quackiso.Base.{
  ℕ, suc, ◌+◌, ◌≤◌, ◌<◌, ◌≡◌, refl, ap, Bool, true, false, List, [], ◌∷◌, ◌++◌, Option, none, some,
  Bytes, ltb, ◌==◌, ◌&&◌, length, length-append, length-drop, arith, Result, ok, err, ◌>>=◌,
  >>=-eq-ok, Bool-cases, inl, inr,
}
use quackiso.Text.{span, starts_with}
use quackiso.Mt.Take.{
  Fill, chunk, interrupted, failed, ReadError, not_eol, put_back, behind_eol, cut_chunk, read_line,
  MtReader, as_text, take_line, utf8_from, weight, without_bom, bom,
}
use quackiso.Mt.Take.Weight.{
  weight-put_back, weight-behind_eol, weight-read_line, take_line-held, take_line-read,
}

-- A held line counts with its end, as it does in the file.
abbrev pub held_bytes : Option Bytes → ℕ
held_bytes none = 0
held_bytes (some s) = suc (length s)

abbrev pub mass : MtReader → ℕ
mass r = weight r.input + held_bytes r.pending

abbrev line_cost : Bool → ℕ
line_cost true = 0
line_cost false = 1

length-span_parts :
    (p : ℕ → Bool) (s : Bytes) → length (span p s).0 + length (span p s).1 ≡ length s
unfolding span
length-span_parts p [] = omega arith
length-span_parts p (c ∷ s) = ground (arith, length-span_parts p s)

mass-cut_chunk :
    (limit : ℕ) (line s : Bytes) (parts : Bytes × Bytes) (fills left : List Fill)
    (more : Result ReadError (Option Bytes × List Fill)) (l : Bytes)
    → length parts.0 + length parts.1 ≡ length s
    → 0 < length s
    → ((left' : List Fill)
        → more ≡ ok (some l, left')
        → weight left' + length l ≤ weight fills + (length line + length parts.0))
    → cut_chunk limit line parts fills more ≡ ok (some l, left)
    → weight left + length l + 1 ≤ suc (length s + weight fills) + length line
unfolding cut_chunk
mass-cut_chunk limit line s (head, []) fills left more l short some_bytes again h =
    ground (arith, again left)
mass-cut_chunk limit line s (head, c ∷ rest) fills left more l short some_bytes again h =
    elim (Bool-cases (ltb limit (length line + length head))) [
      | inl long ↦ cc (long, h)
      | inr fits ↦
          let (left', e, e') =
            >>=-eq-ok (behind_eol c (put_back rest fills))
              (λ (f : List Fill). ok (some (line ++ head), f)) (rw fits at h) in
          ground (
            arith,
            weight-behind_eol c (put_back rest fills) {left = left'} e,
            weight-put_back rest fills,
            length-append line head,
            e',
          )
    ]

mass-read_line :
    (limit : ℕ) (line : Bytes) (seen : Bool) (fills left : List Fill) (l : Bytes)
    → read_line limit line seen fills ≡ ok (some l, left)
    → weight left + length l + line_cost seen ≤ weight fills + length line
unfolding read_line
mass-read_line limit line true [] left l h = ground arith
mass-read_line limit line false [] left l h = ground arith
mass-read_line limit line seen (interrupted ∷ fills) left l h =
    omega (arith, mass-read_line limit line seen fills left l h)
mass-read_line limit line seen (failed ∷ fills) left l h = ground arith
mass-read_line limit line true (chunk [] ∷ fills) left l h = ground arith
mass-read_line limit line false (chunk [] ∷ fills) left l h = ground arith
mass-read_line limit line seen (chunk (b ∷ buf) ∷ fills) left l h =
    let bound =
      mass-cut_chunk limit line (b ∷ buf) (span not_eol (b ∷ buf)) fills left
        (read_line limit (line ++ (span not_eol (b ∷ buf)).0) true fills) l
        (length-span_parts not_eol (b ∷ buf)) (omega arith)
        (λ left' e. omega (
          arith,
          mass-read_line limit (line ++ (span not_eol (b ∷ buf)).0) true fills left' l e,
          length-append line (span not_eol (b ∷ buf)).0,
        ))
        h in
    weaken seen bound
  where
    weaken :
        (seen' : Bool)
        → weight left + length l + 1 ≤ suc (suc (length buf) + weight fills) + length line
        → weight left + length l + line_cost seen'
          ≤ suc (suc (length buf) + weight fills) + length line
    weaken true bound = omega (arith, bound)
    weaken false bound = bound

length-without_bom : (first : Bool) (s : Bytes) → length (without_bom first s) ≤ length s
length-without_bom first s = elim (Bool-cases (first && starts_with bom s)) [
  | inl opens ↦ rw opens (omega (arith, length-drop 3 s))
  | inr other ↦ rw other (omega arith)
]

-- What a line took, and that nothing is held behind it; at the end of the file nothing came back.
abbrev pub Outcome : MtReader → Result ReadError (Option Bytes × MtReader) → Type 0
Outcome r (err e) = Unit
Outcome r (ok (none, r')) = (r'.pending ≡ none) × (mass r' ≤ mass r)
Outcome r (ok (some l, r')) = (r'.pending ≡ none) × (mass r' + length l + 1 ≤ mass r)

as_text-Outcome :
    (r : MtReader) (line : Bytes) (left : List Fill)
    → r.pending ≡ none
    → weight left + length line + 1 ≤ weight r.input
    → Outcome r (as_text r (some line, left))
unfolding as_text
as_text-Outcome r line left p w = elim (Bool-cases (utf8_from 0 0 0 line)) [
  | inr bad ↦ rw bad tt
  | inl good ↦
      let none_held : held_bytes r.pending ≡ 0 = ap held_bytes p in
      rw good (p, omega (arith, none_held, length-without_bom (r.taken == 0) line))
]

read-Outcome :
    (r : MtReader) (found : Result ReadError (Option Bytes × List Fill))
    → r.pending ≡ none
    → read_line r.limit [] false r.input ≡ found
    → Outcome r (found >>= as_text r)
unfolding as_text
read-Outcome r (err why) p e = tt
read-Outcome r (ok (none, left)) p e =
    (p, omega (arith, weight-read_line r.limit [] false r.input left none e))
read-Outcome r (ok (some line, left)) p e =
    as_text-Outcome r line left p
      (omega (arith, mass-read_line r.limit [] false r.input left line e))

pub take_line-Outcome : (r : MtReader) → Outcome r (take_line r)
take_line-Outcome r = go r.pending refl
  where
    go : (p : Option Bytes) → r.pending ≡ p → Outcome r (take_line r)
    go none e = rw (take_line-read r e) (read-Outcome r (read_line r.limit [] false r.input) e refl)
    go (some text) e =
        let held : held_bytes r.pending ≡ suc (length text) = ap held_bytes e in
        rw (take_line-held r text e) (refl, omega (arith, held))
