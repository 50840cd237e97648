-- ===== src/Mt/Reader/Moves.antt =====
-- What a step of the loop of `next_message` leaves of a file, on a line that was taken.
use quackiso.Base.{
  ℕ, zero, suc, ◌+◌, ◌-◌, ◌≤◌, ◌≡◌, refl, ap, Bool, true, false, not, ◌&&◌, [], ◌∷◌, reverse,
  length-reverse, Option, none, some, Bytes, codes, ltb, if◌then◌else◌, length, length-drop, drop,
  arith, Option-cases, inl, inr, ◌||◌,
}
use quackiso.Text.{is_empty, str_eq, starts_with, find}
use quackiso.Text.Trim.{trim, trim_end_newlines, strip, one_of}
use quackiso.Mt.Line.{line_body}
use quackiso.Mt.Take.{MtReader, weight}
use quackiso.Mt.Take.Mass.{mass, held_bytes}
use quackiso.Mt.Reader.{
  Draft, Step, complete, too_long, go_on, mark_line, split_at, end_or_skip, push_line, on_body_line,
  on_line, boundary, contains,
}

-- Whether the draft is the empty one: then a message that is complete has taken something.
abbrev pub started : Draft → ℕ
started d = if d.has_block1 || d.has_field20 then 0 else 1

length-strip : (w : Bytes → ℕ) (n : ℕ) (s : Bytes) → length (strip w n s) ≤ length s
unfolding strip
length-strip w n [] = omega arith
length-strip w (suc n) (c ∷ s) = omega (arith, length-strip w n s)
length-strip w zero (c ∷ s) =
    elim (w (c ∷ s))
      as (λ n.
        length (elim n as (λ _. Bytes) [ zero ↦ c ∷ s | suc k ↦ strip w k s ]) ≤ suc (length s)) [
          | zero ↦ omega arith
          | suc k ↦ omega (arith, length-strip w k s)
        ]

length-trim_end_newlines : (s : Bytes) → length (trim_end_newlines s) ≤ length s
unfolding trim_end_newlines
length-trim_end_newlines s = omega (
  arith,
  length-reverse (strip (one_of b'\n' b'\r') 0 (reverse s)),
  length-strip (one_of b'\n' b'\r') 0 (reverse s),
  length-reverse s,
)

-- A step on a line of so many bytes, from a reader that holds nothing.
abbrev pub Moves : ℕ → Draft → Step → MtReader → Type 0
Moves n d (complete msg r') r = mass r' + started d ≤ mass r + n + 1
Moves n d too_long r = Unit
Moves n d (go_on d' r') r = mass r' ≤ mass r

find-le : (p s : Bytes) (n : ℕ) → find p s ≡ some n → n ≤ length s
unfolding find
find-le p [] n e = ground arith
find-le p (c ∷ s) n e = ground (arith, find-le p s (n - 1))

length-starts_with : (p s : Bytes) → starts_with p s ≡ true → length p ≤ length s
length-starts_with [] s e = omega arith
length-starts_with (c ∷ p) [] e = cc
length-starts_with (c ∷ p) (d ∷ s) e = ground (arith, length-starts_with p s)

find-longer : (p s : Bytes) (n : ℕ) → find p s ≡ some n → n + length p ≤ length s
unfolding find
find-longer [] [] n e = ground arith
find-longer (x ∷ p) [] n e = cc
find-longer p (c ∷ s) n e = ground (arith, find-longer p s (n - 1), length-starts_with p (c ∷ s))

abbrev pub behind_own : Bool → ℕ
behind_own true = 0
behind_own false = 3

-- A boundary lies in the line, and behind the message's own block 1 if that is in it.
boundary-le :
    (b : Bool) (line : Bytes) (at : ℕ)
    → boundary b line ≡ some at
    → (behind_own b ≤ at) × (at ≤ length line)
unfolding boundary
boundary-le true line at e = omega (arith, find-le (codes "{1:") line at e)
boundary-le false line at e = elim (Option-cases (find (codes "{1:") line)) [
  | inl missing ↦ absurd (ground arith)
  | inr (own, first) ↦ elim (Option-cases (find (codes "{1:") (drop (own + 3) line))) [
    | inl missing ↦ absurd (ground arith)
    | inr (later, second) ↦ ground (
      arith,
      find-longer (codes "{1:") line own first,
      find-le (codes "{1:") (drop (own + 3) line) later second,
      length-drop (own + 3) line,
    )
  ]
]

mass-mark_line : (d : Draft) (r : MtReader) → mass (mark_line d r) ≡ mass r
mass-mark_line d r = ground arith

input-mark_line : (d : Draft) (r : MtReader) → weight (mark_line d r).input ≡ weight r.input
input-mark_line d r = ground arith

pub started-le : (d : Draft) → (started d ≤ behind_own d.has_block1) × (started d ≤ 1)
started-le d = ground arith

Moves-if :
    (n : ℕ) (d : Draft) (b : Bool) (s t : Step) (r : MtReader)
    → (b ≡ true → Moves n d s r)
    → (b ≡ false → Moves n d t r)
    → Moves n d (if b then s else t) r
Moves-if n d true s t r hs ht = hs refl
Moves-if n d false s t r hs ht = ht refl

split_at-Moves :
    (at : ℕ) (line : Bytes) (d : Draft) (r : MtReader)
    → r.pending ≡ none
    → boundary d.has_block1 line ≡ some at
    → Moves (length line) d (split_at at line d r) r
unfolding split_at
split_at-Moves at line d r p e =
    let (later, inside) = boundary-le d.has_block1 line at e in
    let nothing : held_bytes r.pending ≡ 0 = ap held_bytes p in
    let fresh = started-le d in
    let marked = mass-mark_line d r in
    Moves-if (length line) d (ltb 0 at) _ _ r
      (λ _. omega (arith, later, inside, nothing, fresh, length-drop at line, input-mark_line d r))
      (λ _. omega (arith, later, inside, nothing, fresh, length-drop at line))

end_or_skip-Moves : (n : ℕ) (d : Draft) (r : MtReader) → Moves n d (end_or_skip d r) r
end_or_skip-Moves n d r =
    Moves-if n d (is_empty (trim d.msg)) _ _ r (λ _. omega arith) (λ _. omega (arith, started-le d))

push_line-Moves :
    (n : ℕ) (line : Bytes) (d : Draft) (r : MtReader) → Moves n d (push_line line d r) r
unfolding push_line
push_line-Moves n line d r =
    Moves-if n d (ltb r.limit (length d.msg + length line)) _ _ r (λ _. tt)
      (λ _. omega (arith, mass-mark_line d r))

started-field20 :
    (d : Draft) (b : Bool) → not d.has_block1 && (d.has_field20 && b) ≡ true → started d ≡ 0
started-field20 d b e = ground arith

Moves-le : (n m : ℕ) (d : Draft) (s : Step) (r : MtReader) → n ≤ m → Moves n d s r → Moves m d s r
Moves-le n m d (complete msg r') r h k = omega (arith, h, k)
Moves-le n m d too_long r h k = tt
Moves-le n m d (go_on d' r') r h k = k

on_body_line-Moves :
    (line : Bytes) (d : Draft) (r : MtReader)
    → r.pending ≡ none
    → Moves (length line) d (on_body_line line d r) r
unfolding on_body_line
on_body_line-Moves line d r p =
    let nothing : held_bytes r.pending ≡ 0 = ap held_bytes p in
    Moves-if (length line) d
      (not d.has_block1 && (d.has_field20 && starts_with (codes ":20:") line)) _ _ r
      (λ e. omega (arith, nothing, started-field20 d (starts_with (codes ":20:") line) e))
      (λ _.
        Moves-if (length line) d
          (is_empty d.msg
            && (not (contains (codes "{1:") line) && not (starts_with (codes ":20:") line)))
          _ _ r (λ _. omega arith)
          (λ _.
            Moves-if (length line) d (not d.has_block1 && str_eq (line_body line) (codes "-")) _ _ r
              (λ _. end_or_skip-Moves (length line) d r)
              (λ _. push_line-Moves (length line) line d r)))

at_boundary-Moves :
    (b : Option ℕ) (line : Bytes) (d : Draft) (r : MtReader)
    → r.pending ≡ none
    → boundary d.has_block1 line ≡ b
    → Moves
        (length line)
        d
        (elim b [ none ↦ on_body_line line d r | some at ↦ split_at at line d r ])
        r
at_boundary-Moves none line d r p e = on_body_line-Moves line d r p
at_boundary-Moves (some at) line d r p e = split_at-Moves at line d r p e

pub on_line-Moves :
    (raw : Bytes) (d : Draft) (r : MtReader)
    → r.pending ≡ none
    → Moves (length raw) d (on_line raw d r) r
unfolding on_line
on_line-Moves raw d r p =
    Moves-le (length (trim_end_newlines raw)) (length raw) d _ r (length-trim_end_newlines raw) (
      Moves-if (length (trim_end_newlines raw)) d
        (str_eq (line_body (trim_end_newlines raw)) (codes "$")) _ _ r
        (λ _. end_or_skip-Moves (length (trim_end_newlines raw)) d r)
        (λ _.
          at_boundary-Moves (boundary d.has_block1 (trim_end_newlines raw)) (trim_end_newlines raw)
            d r p refl))
