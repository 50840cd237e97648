-- ===== src/Mt/Blocks/Nesting.antt =====
-- The depth of the braces, in front of a block and in its content.
use Prim.Native.Nat.{zero, suc}
use quackiso.Base.{
  ℕ, ◌+◌, ◌-◌, ◌≡◌, [], ◌∷◌, ◌++◌, Option, none, some, Bytes, ◌==◌, if◌then◌else◌, length, arith,
}
use quackiso.Mt.Blocks.{block_start, close_from}

-- The braces of a text open and close in pairs: the depth at its end, from a depth at its start.
abbrev pub nest : ℕ → Bytes → Option ℕ
nest depth [] = some depth
nest depth (c ∷ s) =
    let deeper = nest (depth + 1) s in
    let shallower = nest (depth - 1) s in
    let same = nest depth s in
    if c == b'{'
    then deeper
    else if c == b'}'
    then (if depth == 0 then none else shallower)
    else same

abbrev pub IsBalanced : Bytes → Type 0
IsBalanced s = nest 0 s ≡ some 0

pub close_from-nest :
    (s t : Bytes) (d e i : ℕ)
    → nest d s ≡ some e
    → close_from (d + 1) i (s ++ t) ≡ close_from (e + 1) (i + length s) t
unfolding close_from
close_from-nest [] t d e i h = ground arith
close_from-nest (c ∷ s) t zero e i h =
    ground (arith, close_from-nest s t 1 e (i + 1), close_from-nest s t 0 e (i + 1))
close_from-nest (c ∷ s) t (suc d) e i h = ground (
  arith,
  close_from-nest s t (suc (suc d)) e (i + 1),
  close_from-nest s t (suc d) e (i + 1),
  close_from-nest s t d e (i + 1),
)

pub block_start-nest :
    (p s t : Bytes) (d e i : ℕ)
    → nest d s ≡ some e
    → block_start p (d + 1) i (s ++ t) ≡ block_start p (e + 1) (i + length s) t
unfolding block_start
block_start-nest p [] t d e i h = ground arith
block_start-nest p (c ∷ s) t zero e i h =
    ground (arith, block_start-nest p s t 1 e (i + 1), block_start-nest p s t 0 e (i + 1))
block_start-nest p (c ∷ s) t (suc d) e i h = ground (
  arith,
  block_start-nest p s t (suc (suc d)) e (i + 1),
  block_start-nest p s t (suc d) e (i + 1),
  block_start-nest p s t d e (i + 1),
)
