-- ===== src/Mt/Take/Lines.antt =====
-- The lines that `read_line` cuts out of the chunks that a file arrives in.
use quackiso.Base.{
  ℕ, ◌+◌, ◌≤◌, ◌≡◌, refl, sym, ap, ◌∙◌, ◌≢◌, Bool, true, false, List, [], ◌∷◌, ◌++◌, Option, none,
  some, Bytes, ltb, ◌==◌, if◌then◌else◌, length, length-append, arith, append_assoc, append-nil,
  Result, ok, err, ◌>>=◌, Bool-cases, inl, inr, All, ltb-false→le, ltb→lt, lt→ltb, le→ltb_false,
}
use quackiso.Text.{is_empty, span}
use quackiso.Mt.Take.{
  Fill, chunk, interrupted, failed, ReadError, no_boundary, not_eol, put_back, after_cr, behind_eol,
  cut_chunk, read_line,
}

abbrev pub IsChunk : Fill → Type 0
IsChunk (chunk s) = s ≢ []
IsChunk interrupted = ⊥
IsChunk failed = ⊥

abbrev pub bytes_of : List Fill → Bytes
bytes_of [] = []
bytes_of (chunk s ∷ fills) = s ++ bytes_of fills
bytes_of (_ ∷ fills) = bytes_of fills

abbrev skip_lf : Bytes → Bytes
skip_lf [] = []
skip_lf (c ∷ s) = if c == b'\n' then s else c ∷ s

-- What is left behind the end of a line: LF, CR or CRLF.
abbrev pub after_eol : Bytes → Bytes
after_eol [] = []
after_eol (c ∷ s) = if c == b'\r' then skip_lf s else s

-- The line that goes on from `line`, and what is left.
abbrev pub cut_from : ℕ → Bytes → Bytes → Result ReadError (Option Bytes × Bytes)
cut_from limit line s =
    let (head, behind) = span not_eol s in
    if ltb limit (length line + length head)
    then err no_boundary
    else ok (some (line ++ head), after_eol behind)

-- The first line of a text: up to the first line end, and none of a text that is empty.
abbrev pub cut_line : ℕ → Bytes → Result ReadError (Option Bytes × Bytes)
cut_line limit s = if is_empty s then ok (none, []) else cut_from limit [] s

module _ (p : ℕ → Bool) where
  span_all-append :
      (s t : Bytes)
      → (span p s).1 ≡ []
      → ((span p s).0 ≡ s) × (span p (s ++ t) ≡ (s ++ (span p t).0, (span p t).1))
  unfolding span
  span_all-append [] t h = (refl, refl)
  span_all-append (c ∷ s) t h = ground (arith, span_all-append s t)

  span_stop-append :
      (s t : Bytes) (c : ℕ) (r : Bytes)
      → (span p s).1 ≡ c ∷ r
      → span p (s ++ t) ≡ ((span p s).0, c ∷ (r ++ t))
  unfolding span
  span_stop-append [] t c r h = cc
  span_stop-append (x ∷ s) t c r h = ground (arith, span_stop-append s t c r)

bytes_of-put_back :
    (s : Bytes) (fills : List Fill) → bytes_of (put_back s fills) ≡ s ++ bytes_of fills
bytes_of-put_back [] fills = refl
bytes_of-put_back (c ∷ s) fills = refl

put_back-IsChunk :
    (s : Bytes) (fills : List Fill) → All IsChunk fills → All IsChunk (put_back s fills)
put_back-IsChunk [] fills h = h
put_back-IsChunk (c ∷ s) fills h = ((λ e. cc), h)

-- The outcome of a step on chunks: the bytes that are left, which are in chunks again.
abbrev pub Leaves : Result ReadError (List Fill) → Bytes → Type 0
Leaves (ok left) s = (bytes_of left ≡ s) × All IsChunk left
Leaves (err e) s = ⊥

after_cr-skip_lf :
    (fills : List Fill) → All IsChunk fills → Leaves (after_cr fills) (skip_lf (bytes_of fills))
unfolding after_cr
after_cr-skip_lf [] h = (refl, tt)
after_cr-skip_lf (interrupted ∷ fills) h = absurd h.0
after_cr-skip_lf (failed ∷ fills) h = absurd h.0
after_cr-skip_lf (chunk [] ∷ fills) h = absurd (h.0 refl)
after_cr-skip_lf (chunk (c ∷ s) ∷ fills) h = elim (Bool-cases (c == b'\n')) [
  | inl lf ↦ rw (lf) (bytes_of-put_back s fills, put_back-IsChunk s fills h.1)
  | inr other ↦ rw (other) (refl, h)
]

behind_eol-after_eol :
    (c : ℕ) (r : Bytes) (fills : List Fill)
    → All IsChunk fills
    → Leaves (behind_eol c (put_back r fills)) (after_eol (c ∷ (r ++ bytes_of fills)))
behind_eol-after_eol c r fills h = elim (Bool-cases (c == b'\r')) [
  | inl cr ↦
      rw (cr, ← bytes_of-put_back r fills)
        (after_cr-skip_lf (put_back r fills) (put_back-IsChunk r fills h))
  | inr other ↦ rw other (bytes_of-put_back r fills, put_back-IsChunk r fills h)
]

-- The same line or the same error, and the same bytes left, in chunks again.
abbrev pub Cuts :
    Result ReadError (Option Bytes × List Fill) → Result ReadError (Option Bytes × Bytes) → Type 0
Cuts (ok (line, left)) (ok (line', s)) = (line ≡ line') × (bytes_of left ≡ s) × All IsChunk left
Cuts (err e) (err e') = e ≡ e'
Cuts (ok _) (err _) = ⊥
Cuts (err _) (ok _) = ⊥

Cuts-line :
    (line : Bytes) (left : Result ReadError (List Fill)) (s : Bytes)
    → Leaves left s
    → Cuts (left >>= λ fills. ok (some line, fills)) (ok (some line, s))
Cuts-line line (ok left) s h = (refl, h.0, h.1)
Cuts-line line (err e) s h = h

-- The outcome of `cut_from` by the parts of the text.
abbrev cut_at : ℕ → Bytes → Bytes → Bytes → Result ReadError (Option Bytes × Bytes)
cut_at limit line head behind =
    if ltb limit (length line + length head)
    then err no_boundary
    else ok (some (line ++ head), after_eol behind)

cut_at-append :
    (limit : ℕ) (line s head behind : Bytes)
    → cut_at limit (line ++ s) head behind ≡ cut_at limit line (s ++ head) behind
cut_at-append limit line s head behind =
    let size : length (line ++ s) + length head ≡ length line + length (s ++ head) =
      omega (arith, length-append {0} line s, length-append {0} s head) in
    rw (size, append_assoc line s head) refl

cut_at-long :
    (limit : ℕ) (line s head behind : Bytes)
    → ltb limit (length line + length s) ≡ true
    → cut_at limit line (s ++ head) behind ≡ err no_boundary
cut_at-long limit line s head behind h =
    rw
      (lt→ltb limit (length line + length (s ++ head))
        (omega (arith, ltb→lt limit (length line + length s) h, length-append {0} s head)))
      refl

-- A chunk that was searched, if the loop on the rest does as it should.
cut_chunk-Cuts :
    (limit : ℕ) (line s : Bytes) (parts : Bytes × Bytes) (fills : List Fill)
    (more : Result ReadError (Option Bytes × List Fill))
    → All IsChunk fills
    → span not_eol s ≡ parts
    → (length (line ++ parts.0) ≤ limit
        → Cuts more (cut_from limit (line ++ parts.0) (bytes_of fills)))
    → Cuts (cut_chunk limit line parts fills more) (cut_from limit line (s ++ bytes_of fills))
unfolding cut_chunk
cut_chunk-Cuts limit line s (head, []) fills more h e again =
    let (all, append) =
      span_all-append not_eol s (bytes_of fills) (ap (λ (q : Bytes × Bytes). q.1) e) in
    let same : head ≡ s = sym (ap (λ (q : Bytes × Bytes). q.0) e) ∙ all in
    elim (Bool-cases (ltb limit (length line + length s))) [
      | inl long ↦
          rw
            (
              append,
              same,
              long,
              cut_at-long limit line s (span not_eol (bytes_of fills)).0
                  (span not_eol (bytes_of fills)).1 long,
            )
            refl
      | inr short ↦
          let fits : length (line ++ head) ≤ limit = rw same (
            omega (
              arith,
              ltb-false→le limit (length line + length s) short,
              length-append {0} line s,
            )) in
          rw
            (
              append,
              same,
              short,
              ← cut_at-append limit line s (span not_eol (bytes_of fills)).0
                  (span not_eol (bytes_of fills)).1,
            )
            (rw same at (again fits))
    ]
cut_chunk-Cuts limit line s (head, c ∷ rest) fills more h e again =
    let append =
      span_stop-append not_eol s (bytes_of fills) c rest (ap (λ (q : Bytes × Bytes). q.1) e) in
    let same : (span not_eol s).0 ≡ head = ap (λ (q : Bytes × Bytes). q.0) e in
    elim (Bool-cases (ltb limit (length line + length head))) [
      | inl long ↦ rw (append, same, long) refl
      | inr short ↦
          rw (append, same, short)
            (Cuts-line (line ++ head) (behind_eol c (put_back rest fills))
              (after_eol (c ∷ (rest ++ bytes_of fills))) (behind_eol-after_eol c rest fills h))
    ]

read_line-cut_from :
    (limit : ℕ) (line : Bytes) (fills : List Fill)
    → All IsChunk fills
    → length line ≤ limit
    → Cuts (read_line limit line true fills) (cut_from limit line (bytes_of fills))
unfolding read_line
read_line-cut_from limit line [] h short =
    unfold span in
    rw (le→ltb_false limit (length line + 0) (omega arith), append-nil line) (refl, refl, tt)
read_line-cut_from limit line (interrupted ∷ fills) h short = absurd h.0
read_line-cut_from limit line (failed ∷ fills) h short = absurd h.0
read_line-cut_from limit line (chunk [] ∷ fills) h short = absurd (h.0 refl)
read_line-cut_from limit line (chunk (b ∷ buf) ∷ fills) h short =
    cut_chunk-Cuts limit line (b ∷ buf) (span not_eol (b ∷ buf)) fills
      (read_line limit (line ++ (span not_eol (b ∷ buf)).0) true fills) h.1 refl
      (read_line-cut_from limit (line ++ (span not_eol (b ∷ buf)).0) fills h.1)

-- A line is read out of a file as if the file came in one piece, whatever chunks it comes in: it ends at
-- the first LF, CR or CRLF, even one that two chunks share, or at the end of the file, and is refused
-- exactly if it is longer than the limit; the bytes that are left are those behind the line end, in
-- chunks again. No fill fails or is interrupted.
pub read_line-cut_line :
    (limit : ℕ) (fills : List Fill)
    → All IsChunk fills
    → Cuts (read_line limit [] false fills) (cut_line limit (bytes_of fills))
unfolding read_line
read_line-cut_line limit [] h = (refl, refl, tt)
read_line-cut_line limit (interrupted ∷ fills) h = absurd h.0
read_line-cut_line limit (failed ∷ fills) h = absurd h.0
read_line-cut_line limit (chunk [] ∷ fills) h = absurd (h.0 refl)
read_line-cut_line limit (chunk (b ∷ buf) ∷ fills) h =
    read_line-cut_from limit [] (chunk (b ∷ buf) ∷ fills) h (omega arith)
