-- ===== src/Mt/Blocks/Body.antt =====
-- The fourth block, which is text: its braces count for nothing, and it ends at `-}`.
use mathlib.Core.List.{reverse-append, reverse-reverse}
use quackiso.Base.{
  ℕ, ◌+◌, ◌-◌, ◌≡◌, refl, sym, ap, ◌∙◌, ◌≢◌, ◌⊎◌, List, [], ◌∷◌, ◌++◌, none, some, Bytes, codes,
  length, drop, arith, take-append, drop-append, All, All-reverse, length-append, reverse,
  append_assoc,
}
use quackiso.Text.{find}
use quackiso.Text.Trim.{trim_start_newlines, trim_end_newlines, one_of, strip, strip_stop}
use quackiso.Text.Lines.{drop-drop}
use quackiso.Temporal.{slice}
use quackiso.Mt.Blocks.{pattern, block_start, block_span, block_at, line_of, text_end, text_span}
use quackiso.Mt.Blocks.Written.{
  blocks_then, blocks_length, IsOther, start_of, start_behind, drop_blocks,
}

abbrev pub IsNewline : ℕ → Type 0
IsNewline c = (c ≡ b'\n') ⊎ (c ≡ b'\r')

-- A text that begins with no line end.
abbrev pub StartsInside : Bytes → Type 0
StartsInside s = one_of b'\n' b'\r' s ≡ 0

abbrev pub body_then : Bytes → Bytes → Bytes
body_then raw t = b'{' ∷ b'4' ∷ b':' ∷ (raw ++ b'-' ∷ b'}' ∷ t)

find-closing :
    (s t : Bytes)
    → find (codes "-}") s ≡ none
    → find (codes "-}") (s ++ b'-' ∷ b'}' ∷ t) ≡ some (length s)
unfolding find
find-closing [] t h = refl
find-closing (c ∷ []) t h = ground arith
find-closing (c ∷ d ∷ s) t h = ground (arith, find-closing (d ∷ s) t)

strip-newlines :
    (l s : Bytes) → All IsNewline l → StartsInside s → strip (one_of b'\n' b'\r') 0 (l ++ s) ≡ s
unfolding strip
strip-newlines [] s h inside = strip_stop (one_of b'\n' b'\r') s inside
strip-newlines (c ∷ l) s h inside = ground (arith, strip-newlines l s h.1 inside)

trim_end-newlines :
    (s l : Bytes) → All IsNewline l → StartsInside (reverse s) → trim_end_newlines (s ++ l) ≡ s
unfolding trim_end_newlines
trim_end-newlines s l h inside =
    rw
      (
        reverse-append s l,
        strip-newlines (reverse l) (reverse s) (All-reverse IsNewline l h) inside,
      )
      (reverse-reverse s)

StartsInside-append : (s t : Bytes) → s ≢ [] → StartsInside s → StartsInside (s ++ t)
StartsInside-append [] t nonempty h = absurd (nonempty refl)
StartsInside-append (c ∷ s) t nonempty h = h

-- A body as it is written: line ends around the text, which has none at its ends.
pub record IsBody (lead text trail : Bytes) : Type 0 where
  pub lead_newlines : All IsNewline lead
  pub trail_newlines : All IsNewline trail
  pub nonempty : text ≢ []
  pub first_inside : StartsInside text
  pub last_inside : StartsInside (reverse text)
  pub not_closed : find (codes "-}") (lead ++ (text ++ trail)) ≡ none

module _ (lead text trail t msg : Bytes) (start : ℕ) (body : IsBody lead text trail) where
  abbrev raw : Bytes
  raw = lead ++ (text ++ trail)

  text_end-raw : drop start msg ≡ raw ++ b'-' ∷ b'}' ∷ t → text_end msg start ≡ start + length raw
  unfolding text_end
  text_end-raw e = rw (text_end, e, find-closing raw t body.not_closed)

  slice-raw : drop start msg ≡ raw ++ b'-' ∷ b'}' ∷ t → slice start (text_end msg start) msg ≡ raw
  slice-raw e =
      let size : start + length raw - start ≡ length raw = omega arith in
      rw (text_end-raw e, size, e) (take-append raw (b'-' ∷ b'}' ∷ t))

  trimmed : trim_start_newlines raw ≡ text ++ trail
  unfolding trim_start_newlines
  trimmed =
      strip-newlines lead (text ++ trail) body.lead_newlines
        (StartsInside-append text trail body.nonempty body.first_inside)

  pub text_span-body :
      drop start msg ≡ raw ++ b'-' ∷ b'}' ∷ t
      → text_span msg start ≡ (start + length lead, start + length lead + length text)
  unfolding text_span
  text_span-body e =
      let led : length raw - length (text ++ trail) ≡ length lead =
        omega (arith, length-append {0} lead (text ++ trail)) in
      rw (
        text_span,
        slice-raw e,
        trimmed,
        trim_end-newlines text trail body.trail_newlines body.last_inside,
        led,
      )

  pub drop-lead :
      drop start msg ≡ raw ++ b'-' ∷ b'}' ∷ t
      → drop (start + length lead) msg ≡ text ++ (trail ++ b'-' ∷ b'}' ∷ t)
  drop-lead e =
      sym (drop-drop (length lead) start msg)
      ∙ ap (drop (length lead)) (e ∙ append_assoc lead (text ++ trail) (b'-' ∷ b'}' ∷ t))
      ∙ drop-append lead ((text ++ trail) ++ b'-' ∷ b'}' ∷ t)
      ∙ append_assoc text trail (b'-' ∷ b'}' ∷ t)

-- The fourth block, behind any blocks of other numbers, is found with exactly its text: without the line
-- ends around it, whatever braces it holds, and whatever stands behind it, with the line of the message
-- that the text starts on. The text does not hold the `-}` that ends it.
pub block_at-body :
    (bs : List (ℕ × Bytes)) (lead text trail t : Bytes)
    → All (IsOther 4) bs
    → IsBody lead text trail
    → let msg = blocks_then bs (body_then (lead ++ (text ++ trail)) t) in
      block_at msg 4 ≡ some (text, line_of msg (blocks_length bs + 3 + length lead))
unfolding block_at block_span
block_at-body bs lead text trail t h body =
    let msg = blocks_then bs (body_then (lead ++ (text ++ trail)) t) in
    let from = blocks_length bs + 3 in
    let behind : drop from msg ≡ (lead ++ (text ++ trail)) ++ b'-' ∷ b'}' ∷ t =
      drop_blocks bs (body_then (lead ++ (text ++ trail)) t) 3 in
    let found : block_start (pattern 4) 0 0 msg ≡ some from =
      start_behind 4 bs 0 (body_then (lead ++ (text ++ trail)) t) h
      ∙ start_of 4 (0 + blocks_length bs) ((lead ++ (text ++ trail)) ++ b'-' ∷ b'}' ∷ t)
      ∙ ap some (omega arith) in
    let size : from + length lead + length text - (from + length lead) ≡ length text =
      omega arith in
    rw (
      block_at,
      block_span,
      found,
      text_span-body lead text trail t msg from body behind,
      size,
      drop-lead lead text trail t msg from body behind,
      take-append text (trail ++ b'-' ∷ b'}' ∷ t),
    )
