-- ===== src/Container/Xml/Ends.antt =====
-- The scan for the root start tag moves forward, so its loop ends.
use quackiso.Base.{
  ℕ, zero, suc, ◌+◌, ◌≤◌, ◌<◌, ◌≡◌, refl, [], ◌∷◌, Option, none, some, Bytes, codes, length, drop,
  length-drop, arith, Option-cases, inl, inr,
}
use quackiso.Text.{find}
use quackiso.Container.Xml.{
  from_open, step_over, Scan, return, go_on, at_open, root_round, root_loop, root_start_tag,
  doctype_end,
}

length-from_open : (s r : Bytes) → from_open s ≡ some r → (length r ≤ length s) × (0 < length r)
unfolding from_open
length-from_open [] r e = cc
length-from_open (c ∷ s) r e = ground (arith, length-from_open s r)

step_over-lt :
    (extra : ℕ) (end : Option ℕ) (r rest : Bytes)
    → 0 < extra
    → 0 < length r
    → step_over extra end r ≡ go_on rest
    → length rest < length r
step_over-lt extra none r rest h k e = cc
step_over-lt extra (some n) r rest h k e = ground (arith, length-drop (n + extra) r)

at_open-lt : (r rest : Bytes) → 0 < length r → at_open r ≡ go_on rest → length rest < length r
unfolding at_open
at_open-lt r rest h e = ground (
  arith,
  step_over-lt 7 (find (codes "-->") (drop 4 r)) r rest,
  step_over-lt 4 (find (codes "?>") (drop 2 r)) r rest,
  step_over-lt 2 (doctype_end (drop 2 r)) r rest,
)

root_round-lt : (s rest : Bytes) → root_round s ≡ go_on rest → length rest < length s
unfolding root_round
root_round-lt s rest e = elim (Option-cases (from_open s)) [
  | inl missing ↦ absurd (ground arith)
  | inr (r, found) ↦ omega (
    arith,
    length-from_open s r found,
    at_open-lt r rest (length-from_open s r found).1 (rw found at e),
  )
]

after_round :
    (fuel : ℕ) (r : Scan)
    → ((rest : Bytes) → r ≡ go_on rest → (tag : Option Bytes) × (root_loop fuel rest ≡ some tag))
    → (tag : Option Bytes) × (elim r [ return tag ↦ some tag | go_on rest ↦ root_loop fuel rest ]
        ≡ some tag)
after_round fuel (return tag) h = (tag, refl)
after_round fuel (go_on rest) h = h rest refl

root_loop-some :
    (fuel : ℕ) (s : Bytes)
    → length s ≤ fuel
    → (tag : Option Bytes) × (root_loop (suc fuel) s ≡ some tag)
unfolding root_loop
root_loop-some zero s h =
    after_round zero (root_round s) λ rest e. absurd (omega (arith, root_round-lt s rest e))
root_loop-some (suc fuel) s h =
    after_round (suc fuel) (root_round s)
      λ rest e. root_loop-some fuel rest (omega (arith, root_round-lt s rest e))

pub root_start_tag_fuel :
    (prefix : Bytes) → root_loop (suc (length prefix)) prefix ≡ some (root_start_tag prefix)
unfolding root_start_tag
root_start_tag_fuel prefix =
    let (tag, e) = root_loop-some (length prefix) prefix (omega arith) in rw e refl
