-- ===== src/Text/Search.antt =====
-- `take_while`, `find` and `split_once` on texts of which the parts are known.
use quackiso.Base.{
  ℕ, ◌≡◌, refl, ◌≢◌, Bool, true, false, [], ◌∷◌, ◌++◌, none, some, Bytes, All, length, arith,
}
use quackiso.Text.{all, span, find, split_once}

-- `take_while` takes all of a text that fits, and stops in front of a byte that does not.
pub span-append :
    (p : ℕ → Bool) (s : Bytes) (c : ℕ) (t : Bytes)
    → all p s ≡ true
    → p c ≡ false
    → span p (s ++ c ∷ t) ≡ (s, c ∷ t)
unfolding span
span-append p [] c t h stop = rw stop
span-append p (x ∷ s) c t h stop = ground (arith, span-append p s c t)

pub span-all : (p : ℕ → Bool) (s : Bytes) → all p s ≡ true → span p s ≡ (s, [])
unfolding span
span-all p [] h = refl
span-all p (x ∷ s) h = ground (arith, span-all p s)

-- A needle that begins with `a` and `b` is found behind a text without `a`.
pub find-behind :
    (a b : ℕ) (s t : Bytes)
    → All (λ c. c ≢ a) s
    → find (a ∷ b ∷ []) (s ++ a ∷ b ∷ t) ≡ some (length s)
unfolding find
find-behind a b [] t h = ground arith
find-behind a b (c ∷ s) t h = ground (arith, find-behind a b s t h.1)

pub find-missing : (a b : ℕ) (s : Bytes) → All (λ c. c ≢ a) s → find (a ∷ b ∷ []) s ≡ none
unfolding find
find-missing a b [] h = refl
find-missing a b (c ∷ s) h = ground (arith, find-missing a b s h.1)

pub split_once-behind :
    (b : ℕ) (s t : Bytes) → All (λ c. c ≢ b) s → split_once b (s ++ b ∷ t) ≡ some (s, t)
unfolding split_once
split_once-behind b [] t h = ground arith
split_once-behind b (c ∷ s) t h = ground (arith, split_once-behind b s t h.1)

pub split_once-missing : (b : ℕ) (s : Bytes) → All (λ c. c ≢ b) s → split_once b s ≡ none
unfolding split_once
split_once-missing b [] h = refl
split_once-missing b (c ∷ s) h = ground (arith, split_once-missing b s h.1)
