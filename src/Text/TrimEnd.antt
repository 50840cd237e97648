-- ===== src/Text/TrimEnd.antt =====
-- What `trim_end_matches` of one byte leaves of a text that ends in it, and of one that does not.
use mathlib.Core.List.{reverse-append, reverse-cons, reverse-reverse}
use native.Mathlib.Decide.{ℕ_discrete}
use quackiso.Base.{
  ℕ, zero, suc, ◌≡◌, refl, sym, ap, ◌∙◌, ◌≢◌, [], ◌∷◌, ◌++◌, reverse, Bytes, append_assoc,
  replicate, arith, append-nil,
}
use quackiso.Text.Trim.{strip, one_of, trim_end_matches, strip_stop}

strip-replicate :
    (b k : ℕ) (r : Bytes) → strip (one_of b b) 0 (replicate k b ++ r) ≡ strip (one_of b b) 0 r
unfolding strip
strip-replicate b zero r = refl
strip-replicate b (suc k) r = ground (arith, strip-replicate b k r)

replicate-snoc : (k b : ℕ) → replicate k b ++ b ∷ [] ≡ b ∷ replicate k b
replicate-snoc zero b = refl
replicate-snoc (suc k) b = ap (λ t. b ∷ t) (replicate-snoc k b)

reverse-replicate : (k b : ℕ) → reverse (replicate k b) ≡ replicate k b
reverse-replicate zero b = refl
reverse-replicate (suc k) b =
    rw (reverse-cons b (replicate k b), reverse-replicate k b) (replicate-snoc k b)

-- The last byte of a text, if it has one, is not `b`.
abbrev pub EndsOtherThan : ℕ → Bytes → Type 0
EndsOtherThan b [] = Unit
EndsOtherThan b (c ∷ []) = c ≢ b
EndsOtherThan b (c ∷ d ∷ s) = EndsOtherThan b (d ∷ s)

one_of-append : (b c : ℕ) (r t : Bytes) → one_of b b ((c ∷ r) ++ t) ≡ one_of b b (c ∷ r)
one_of-append b c r t = refl

reverse-EndsOtherThan : (b : ℕ) (s : Bytes) → EndsOtherThan b s → one_of b b (reverse s) ≡ 0
reverse-EndsOtherThan b [] h = refl
reverse-EndsOtherThan b (c ∷ []) h = ground arith
reverse-EndsOtherThan b (c ∷ d ∷ s) h =
    rw (reverse-cons c (d ∷ s)) (go (reverse (d ∷ s)) (reverse-EndsOtherThan b (d ∷ s) h) nonempty)
  where
    nonempty : reverse (d ∷ s) ≢ []
    nonempty e = cc (reverse-reverse (d ∷ s), ap {B = Bytes} reverse e)

    go : (r : Bytes) → one_of b b r ≡ 0 → r ≢ [] → one_of b b (r ++ c ∷ []) ≡ 0
    go [] h n = absurd (n refl)
    go (x ∷ r) h n = h

pub trim_end_matches-EndsOtherThan :
    (b : ℕ) (s : Bytes) → EndsOtherThan b s → trim_end_matches b s ≡ s
unfolding trim_end_matches
trim_end_matches-EndsOtherThan b s h =
    rw (strip_stop (one_of b b) (reverse s) (reverse-EndsOtherThan b s h)) (reverse-reverse s)

-- A run of the byte at the end does not change what is left.
pub trim_end_matches-replicate :
    (b k : ℕ) (s : Bytes) → trim_end_matches b (s ++ replicate k b) ≡ trim_end_matches b s
unfolding trim_end_matches
trim_end_matches-replicate b k s =
    rw (reverse-append s (replicate k b), reverse-replicate k b)
      (rw (strip-replicate b k (reverse s)) refl)

strip_drop : (b c : ℕ) (r : Bytes) → c ≡ b → strip (one_of b b) 0 (c ∷ r) ≡ strip (one_of b b) 0 r
unfolding strip
strip_drop b c r e = ground arith

strip_keep : (b c : ℕ) (r : Bytes) → c ≢ b → strip (one_of b b) 0 (c ∷ r) ≡ c ∷ r
unfolding strip
strip_keep b c r e = ground arith

module _ {ℓ} (P : Bytes → Type ℓ) (b : ℕ) (step : (s : Bytes) → P (s ++ b ∷ []) → P s) where
  strip_induction : (r : Bytes) → P (reverse r) → P (reverse (strip (one_of b b) 0 r))
  unfolding strip
  strip_induction [] p = p
  strip_induction (c ∷ r) p = elim (ℕ_discrete c b) [
    | yes e ↦
        rw (strip_drop b c r e)
          (strip_induction r (step (reverse r) (rw (← e, ← reverse-cons c r) p)))
    | no e ↦ rw (strip_keep b c r e) p
  ]

  -- Induction from the end: what loses a last `b` and keeps `P` keeps it to the end.
  pub trim_end_matches_induction : (s : Bytes) → P s → P (trim_end_matches b s)
  unfolding trim_end_matches
  trim_end_matches_induction s h = strip_induction (reverse s) (rw reverse-reverse h)

strip-replicate_split :
    (b : ℕ) (r : Bytes) → (k : ℕ) × (reverse r ≡ reverse (strip (one_of b b) 0 r) ++ replicate k b)
unfolding strip
strip-replicate_split b [] = (0, refl)
strip-replicate_split b (c ∷ r) = elim (ℕ_discrete c b) [
  | yes e ↦
      let (k, h) = strip-replicate_split b r in
      (
        suc k,
        rw (strip_drop b c r e, e, reverse-cons b r)
            (ap (λ (t : Bytes). t ++ b ∷ []) h
              ∙ append_assoc (reverse (strip (one_of b b) 0 r)) (replicate k b) (b ∷ [])
              ∙ ap (λ (t : Bytes). reverse (strip (one_of b b) 0 r) ++ t) (replicate-snoc k b)),
      )
  | no e ↦ (0, rw (strip_keep b c r e) (sym (append-nil (reverse (c ∷ r)))))
]

-- What `trim_end_matches` takes off is a run of the byte.
pub trim_end_matches_split :
    (b : ℕ) (s : Bytes) → (k : ℕ) × (s ≡ trim_end_matches b s ++ replicate k b)
unfolding trim_end_matches
trim_end_matches_split b s =
    let (k, h) = strip-replicate_split b (reverse s) in (k, sym (reverse-reverse s) ∙ h)
