-- ===== src/Container/Ebics/Ends.antt =====
-- The walk over the attributes moves forward, so its loop ends.
use quackiso.Base.{
  ℕ, zero, suc, ◌+◌, ◌≤◌, ◌<◌, ◌≡◌, refl, Bool, not, [], ◌∷◌, some, Bytes, ◌==◌, length,
  length-drop, arith,
}
use quackiso.Text.{span}
use quackiso.Container.Scan.{skip_space}
use quackiso.Container.Xml.{root_loop, root_start_tag}
use quackiso.Container.Xml.Ends.{root_start_tag_fuel}
use quackiso.Container.Ebics.{
  skip_gap, in_name, Walk, return, go_on, quoted_value, at_value, behind_name, at_name,
  attribute_round, attribute_loop, has_ebics_namespace,
}

length-skip_gap : (s : Bytes) → length (skip_gap s) ≤ length s
unfolding skip_gap
length-skip_gap [] = omega arith
length-skip_gap (c ∷ s) = ground (arith, length-skip_gap s)

length-skip_space : (s : Bytes) → length (skip_space s) ≤ length s
unfolding skip_space
length-skip_space [] = omega arith
length-skip_space (c ∷ s) = ground (arith, length-skip_space s)

length-span : (p : ℕ → Bool) (s : Bytes) → length (span p s).0 + length (span p s).1 ≡ length s
unfolding span
length-span p [] = omega arith
length-span p (c ∷ s) = ground (arith, length-span p s)

quoted_value-le :
    (name : Bytes) (quote : ℕ) (value s rest : Bytes)
    → quoted_value name quote (value, s) ≡ go_on rest
    → length rest ≤ length s
quoted_value-le name quote value s rest e = ground (arith, length-drop 1 s)

at_value-le : (name s rest : Bytes) → at_value name s ≡ go_on rest → length rest ≤ length s
unfolding at_value
at_value-le name [] rest e = cc
at_value-le name (quote ∷ s) rest e = omega (
  arith,
  quoted_value-le name quote (span (λ c. not (c == quote)) s).0 (span (λ c. not (c == quote)) s).1
      rest e,
  length-span (λ c. not (c == quote)) s,
)

behind_name-le : (name s rest : Bytes) → behind_name name s ≡ go_on rest → length rest ≤ length s
unfolding behind_name
behind_name-le name [] rest e = ground arith
behind_name-le name (c ∷ s) rest e =
    ground (arith, at_value-le name (skip_space s) rest, length-skip_space s)

at_name-lt :
    (name s rest : Bytes) → at_name (name, s) ≡ go_on rest → length rest < length name + length s
at_name-lt [] s rest e = cc
at_name-lt (c ∷ name) s rest e =
    omega (arith, behind_name-le (c ∷ name) (skip_space s) rest e, length-skip_space s)

attribute_round-lt : (s rest : Bytes) → attribute_round s ≡ go_on rest → length rest < length s
unfolding attribute_round
attribute_round-lt [] rest e = cc
attribute_round-lt (c ∷ s) rest e = omega (
  arith,
  at_name-lt (span in_name (skip_gap (c ∷ s))).0 (span in_name (skip_gap (c ∷ s))).1 rest e,
  length-span in_name (skip_gap (c ∷ s)),
  length-skip_gap (c ∷ s),
)

after_round :
    (fuel : ℕ) (r : Walk)
    → ((rest : Bytes) → r ≡ go_on rest → (found : Bool) × (attribute_loop fuel rest ≡ some found))
    → (found : Bool) × (elim r [ return found ↦ some found | go_on rest ↦ attribute_loop fuel rest ]
        ≡ some found)
after_round fuel (return found) h = (found, refl)
after_round fuel (go_on rest) h = h rest refl

attribute_loop-some :
    (fuel : ℕ) (s : Bytes)
    → length s ≤ fuel
    → (found : Bool) × (attribute_loop (suc fuel) s ≡ some found)
unfolding attribute_loop
attribute_loop-some zero s h =
    after_round zero (attribute_round s)
      λ rest e. absurd (omega (arith, attribute_round-lt s rest e))
attribute_loop-some (suc fuel) s h =
    after_round (suc fuel) (attribute_round s)
      λ rest e. attribute_loop-some fuel rest (omega (arith, attribute_round-lt s rest e))

-- Both loops of the EBICS check end within one round more than there are bytes: the scan for the
-- root start tag of a prefix, and the walk over the attributes of any tag.
pub is_ebics_fuel :
    (prefix attributes : Bytes)
    → (root_loop (suc (length prefix)) prefix ≡ some (root_start_tag prefix))
      × (attribute_loop (suc (length attributes)) attributes
          ≡ some (has_ebics_namespace attributes))
unfolding has_ebics_namespace
is_ebics_fuel prefix attributes =
    let (found, e) = attribute_loop-some (length attributes) attributes (omega arith) in
    (root_start_tag_fuel prefix, rw e refl)
