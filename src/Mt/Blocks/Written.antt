-- ===== src/Mt/Blocks/Written.antt =====
-- `block` on a message that is written block by block.
use native.Mathlib.Nat.{suc-add}
use quackiso.Base.{
  ℕ, ◌+◌, ◌-◌, ◌≤◌, ◌≡◌, ap, ◌∙◌, ◌≢◌, false, List, [], ◌∷◌, ◌++◌, some, Bytes, ◌==◌, length, drop,
  arith, take-append, All, suc,
}
use quackiso.Mt.Blocks.{
  pattern, block_start, close_from, close_brace, block_span, block_at, line_of,
}
use quackiso.Mt.Blocks.Nesting.{IsBalanced, close_from-nest, block_start-nest}

-- `{m:content}` and what stands behind it.
abbrev pub block_then : ℕ → Bytes → Bytes → Bytes
block_then m content t = b'{' ∷ (b'0' + m) ∷ b':' ∷ (content ++ b'}' ∷ t)

-- Blocks one after the other, by their numbers and contents, and what stands behind them.
abbrev pub blocks_then : List (ℕ × Bytes) → Bytes → Bytes
blocks_then [] t = t
blocks_then (b ∷ bs) t = block_then b.0 b.1 (blocks_then bs t)

abbrev pub blocks_length : List (ℕ × Bytes) → ℕ
blocks_length [] = 0
blocks_length (b ∷ bs) = suc (suc (suc (length b.1 + suc (blocks_length bs))))

-- Blocks of another number than `n`, of which the braces open and close in pairs.
abbrev pub IsOther : ℕ → ℕ × Bytes → Type 0
IsOther n b = (b.0 ≢ n) × (b.0 ≤ 9) × IsBalanced b.1

start_passes :
    (n m i : ℕ) (content t : Bytes)
    → IsOther n (m, content)
    → block_start (pattern n) 0 i (block_then m content t)
      ≡ block_start (pattern n) 0 (i + (length content + 4)) t
unfolding block_start
start_passes n m i content t h =
    let inside = block_start-nest (pattern n) content (b'}' ∷ t) 0 0 (i + 3) h.2 in
    ground (arith, inside)

pub start_of :
    (n i : ℕ) (s : Bytes)
    → block_start (pattern n) 0 i (b'{' ∷ (b'0' + n) ∷ b':' ∷ s) ≡ some (i + 3)
unfolding block_start
start_of n i s = ground arith

pub start_behind :
    (n : ℕ) (bs : List (ℕ × Bytes)) (i : ℕ) (t : Bytes)
    → All (IsOther n) bs
    → block_start (pattern n) 0 i (blocks_then bs t)
      ≡ block_start (pattern n) 0 (i + blocks_length bs) t
start_behind n [] i t h = ap (λ j. block_start (pattern n) 0 j t) (omega arith)
start_behind n (b ∷ bs) i t h =
    start_passes n b.0 i b.1 (blocks_then bs t) h.0
    ∙ start_behind n bs (i + (length b.1 + 4)) t h.1
    ∙ ap (λ j. block_start (pattern n) 0 j t) (omega arith)

pub drop-past : (s t : Bytes) (n : ℕ) → drop (length s + n) (s ++ t) ≡ drop n t
drop-past [] t n = ap (λ k. drop k t) (omega arith)
drop-past (c ∷ s) t n = rw suc-add (drop-past s t n)

pub drop_blocks :
    (bs : List (ℕ × Bytes)) (t : Bytes) (n : ℕ)
    → drop (blocks_length bs + n) (blocks_then bs t) ≡ drop n t
drop_blocks [] t n = ap (λ k. drop k t) (omega arith)
drop_blocks (b ∷ bs) t n =
    let size : blocks_length (b ∷ bs) + n
        ≡ suc (suc (suc (length b.1 + suc (blocks_length bs + n)))) =
      omega arith in
    rw size
      (drop-past b.1 (b'}' ∷ blocks_then bs t) (suc (blocks_length bs + n)) ∙ drop_blocks bs t n)

start-written :
    (n : ℕ) (bs : List (ℕ × Bytes)) (content t : Bytes)
    → All (IsOther n) bs
    → block_start (pattern n) 0 0 (blocks_then bs (block_then n content t))
      ≡ some (blocks_length bs + 3)
start-written n bs content t h =
    start_behind n bs 0 (block_then n content t) h
    ∙ start_of n (0 + blocks_length bs) (content ++ b'}' ∷ t)
    ∙ ap some (omega arith)

close-written :
    (from : ℕ) (msg content t : Bytes)
    → drop from msg ≡ content ++ b'}' ∷ t
    → IsBalanced content
    → close_brace msg from ≡ some (from + length content)
unfolding close_brace close_from
close-written from msg content t behind balanced =
    rw behind (close_from-nest content (b'}' ∷ t) 0 0 from balanced)

-- A block other than the fourth is found behind any blocks of other numbers, whatever stands behind it,
-- with exactly its content, nested braces included, and with the line of the message that the content
-- starts on. The braces of the contents open and close in pairs, and the numbers are digits.
pub block_at-written :
    (n : ℕ) (bs : List (ℕ × Bytes)) (content t : Bytes)
    → n ≢ 4
    → All (IsOther n) bs
    → IsBalanced content
    → let msg = blocks_then bs (block_then n content t) in
      block_at msg n ≡ some (content, line_of msg (blocks_length bs + 3))
unfolding block_at block_span
block_at-written n bs content t four h balanced =
    let msg = blocks_then bs (block_then n content t) in
    let from = blocks_length bs + 3 in
    let behind : drop from msg ≡ content ++ b'}' ∷ t = drop_blocks bs (block_then n content t) 3 in
    let other : (n == 4) ≡ false = ground arith in
    let size : from + length content - from ≡ length content = omega arith in
    rw (
      block_at,
      block_span,
      start-written n bs content t h,
      other,
      close-written from msg content t behind balanced,
      size,
      behind,
      take-append content (b'}' ∷ t),
    )
