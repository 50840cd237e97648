-- ===== src/Encoding/Declaration.antt =====
-- A written XML declaration and the label that is read from it.
use quackiso.Base.{
  ℕ, suc, ◌+◌, ◌≤◌, ◌≢◌, ◌≡◌, refl, sym, ap, ◌∙◌, true, false, ◌&&◌, [], ◌∷◌, ◌++◌, append_assoc,
  none, some, Bytes, codes, ◌==◌, All, length, length-append, take, drop, take-append_at,
  take-append_add, drop-append_add, ◌-◌, arith, Bool-cases, Option-cases, inl, inr,
}
use quackiso.Container.Scan.{is_space, skip_space, strip_bom}
use quackiso.Encoding.{
  declaration_bytes, is_quote, quoted, behind_equals, declaration, label_in, declaration_label,
}
use quackiso.Text.{starts_with, find}

starts_with-enough :
    (p u v : Bytes) → length p ≤ length u → starts_with p (u ++ v) ≡ starts_with p u
starts_with-enough [] u v h = refl
starts_with-enough (a ∷ p) [] v h = absurd (omega (arith, h))
starts_with-enough (a ∷ p) (c ∷ u) v h =
    ap (λ b. a == c && b) (starts_with-enough p u v (omega (arith, h)))

starts_with_self : (p v : Bytes) → starts_with p (p ++ v) ≡ true
starts_with_self [] v = refl
starts_with_self (c ∷ p) v = ground (arith, starts_with_self p v)

find-here : (p s : Bytes) → starts_with p s ≡ true → find p s ≡ some 0
unfolding find
find-here [] [] h = refl
find-here (a ∷ p) [] h = cc
find-here p (c ∷ s) h = rw (find, h) refl

find-skips :
    (p s : Bytes) (c n : ℕ)
    → starts_with p (c ∷ s) ≡ false
    → find p s ≡ some n
    → find p (c ∷ s) ≡ some (suc n)
unfolding find
find-skips p s c n later found = rw (find, later, found) refl

some≢none : {n : ℕ} → some n ≢ none
some≢none e = cc

find-later :
    (p s : Bytes) (c : ℕ)
    → find p (c ∷ s) ≡ none
    → (starts_with p (c ∷ s) ≡ false) × (find p s ≡ none)
unfolding find
find-later p s c h = elim (Bool-cases (starts_with p (c ∷ s))) [
  | inl here ↦ absurd (some≢none (sym (find-here p (c ∷ s) here) ∙ h))
  | inr later ↦ elim (Option-cases (find p s)) [
    | inl missing ↦ (later, missing)
    | inr (n, found) ↦ absurd (some≢none (sym (find-skips p s c n later found) ∙ h))
  ]
]

-- A text is found behind another one, unless it occurs earlier, also across the border.
pub find-first :
    (front inner rest : Bytes) (last : ℕ)
    → find (inner ++ last ∷ []) (front ++ inner) ≡ none
    → find (inner ++ last ∷ []) (front ++ (inner ++ last ∷ rest)) ≡ some (length front)
find-first [] inner rest last h = find-here (inner ++ last ∷ []) (inner ++ last ∷ rest) (
    ap (λ s. starts_with (inner ++ last ∷ []) s) (sym (append_assoc inner (last ∷ []) rest))
    ∙ starts_with_self (inner ++ last ∷ []) rest)
find-first (c ∷ front) inner rest last h =
    let p = inner ++ last ∷ [] in
    let (later, missing) = find-later p (front ++ inner) c h in
    let known = c ∷ (front ++ inner) in
    let behind : c ∷ (front ++ (inner ++ last ∷ rest)) ≡ known ++ last ∷ rest =
      ap (λ s. c ∷ s) (sym (append_assoc front inner (last ∷ rest))) in
    find-skips p (front ++ (inner ++ last ∷ rest)) c (length front)
      (ap (λ s. starts_with p s) behind
        ∙ starts_with-enough p known (last ∷ rest)
            (omega (arith, length-append inner (last ∷ []), length-append front inner))
        ∙ later)
      (find-first front inner rest last missing)

find-byte :
    (q : ℕ) (s t : Bytes) → All (λ c. c ≢ q) s → find (q ∷ []) (s ++ q ∷ t) ≡ some (length s)
unfolding find
find-byte q [] t h = ground arith
find-byte q (c ∷ s) t h = ground (arith, find-byte q s t h.1)

skip_space-behind :
    (gap s : Bytes) → All (λ c. is_space c ≡ true) gap → skip_space (gap ++ s) ≡ skip_space s
unfolding skip_space
skip_space-behind [] s h = refl
skip_space-behind (c ∷ gap) s (space, h) = rw (skip_space, space) (skip_space-behind gap s h)

skip_space-quote : (q : ℕ) (s : Bytes) → is_quote q ≡ true → skip_space (q ∷ s) ≡ q ∷ s
unfolding skip_space
skip_space-quote q s h = ground arith

-- An XML declaration: the text in front of the word `encoding`, the white space around the equals
-- sign, the quote, the label, and what follows it in the declaration.
pub record Written : Type 0 where
  pub front : Bytes
  pub gap : Bytes
  pub gap' : Bytes
  pub quote : ℕ
  pub label : Bytes
  pub more : Bytes

abbrev pub opening : Written → Bytes
opening w = codes "<?xml" ++ w.front

abbrev pub value_text : Written → Bytes
value_text w = w.gap ++ b'=' ∷ (w.gap' ++ w.quote ∷ (w.label ++ w.quote ∷ w.more))

abbrev pub text_of : Written → Bytes
text_of w = opening w ++ (codes "encoding" ++ value_text w)

-- The word `encoding` does not occur earlier, nor `?>`, and the label does not have the quote.
pub record IsDeclaration (w : Written) : Type 0 where
  pub first_word : find (codes "encoding") (opening w ++ codes "encodin") ≡ none
  pub not_closed : find (codes "?>") (text_of w ++ codes "?") ≡ none
  pub space : All (λ c. is_space c ≡ true) w.gap
  pub space' : All (λ c. is_space c ≡ true) w.gap'
  pub quoted : is_quote w.quote ≡ true
  pub unquoted : All (λ c. c ≢ w.quote) w.label
  pub fits : length (text_of w) + 2 ≤ declaration_bytes

quoted-label :
    (w : Written)
    → IsDeclaration w
    → quoted (w.quote ∷ (w.label ++ w.quote ∷ w.more)) ≡ some w.label
unfolding quoted
quoted-label w d =
    rw
      (
        quoted,
        d.quoted,
        find-byte w.quote w.label w.more d.unquoted,
        take-append_at (length w.label) w.label (w.quote ∷ w.more) refl,
      )
      refl

value_text-label :
    (w : Written) → IsDeclaration w → behind_equals (skip_space (value_text w)) ≡ some w.label
unfolding behind_equals skip_space
value_text-label w d =
    ap behind_equals
      (skip_space-behind w.gap (b'=' ∷ (w.gap' ++ w.quote ∷ (w.label ++ w.quote ∷ w.more))) d.space)
    ∙ ap quoted (
        skip_space-behind w.gap' (w.quote ∷ (w.label ++ w.quote ∷ w.more)) d.space'
        ∙ skip_space-quote w.quote (w.label ++ w.quote ∷ w.more) d.quoted)
    ∙ quoted-label w d

label_in-written : (w : Written) → IsDeclaration w → label_in (text_of w) ≡ some w.label
unfolding label_in
label_in-written w d =
    let n = length (opening w) in
    let behind : drop (n + 8) (text_of w) ≡ value_text w =
      drop-append_add (n + 8) 8 (opening w) (codes "encoding" ++ value_text w) refl in
    rw (label_in, find-first (opening w) (codes "encodin") (value_text w) b'g' d.first_word, behind)
      (value_text-label w d)

declaration-written :
    (w : Written) (rest : Bytes)
    → IsDeclaration w
    → declaration (text_of w ++ (codes "?>" ++ rest)) ≡ text_of w
unfolding declaration
declaration-written w rest d =
    rw
      (
        declaration,
        find-first (text_of w) (codes "?") rest b'>' d.not_closed,
        take-append_at (length (text_of w)) (text_of w) (codes "?>" ++ rest) refl,
      )
      refl

-- The label of a written XML declaration is read as it was written, whatever the file has behind the
-- declaration: when the declaration is within the first 512 bytes, white space may stand around the
-- equals sign, either quote may stand around the label, and the word `encoding` and `?>` do not
-- occur earlier.
pub declaration_label-written :
    (w : Written) (rest : Bytes)
    → IsDeclaration w
    → declaration_label (text_of w ++ (codes "?>" ++ rest)) ≡ some w.label
unfolding declaration_label strip_bom
declaration_label-written w rest d =
    let k = 510 - length (text_of w) in
    let cut : take declaration_bytes (text_of w ++ (codes "?>" ++ rest))
        ≡ text_of w ++ (codes "?>" ++ take k rest) =
      take-append_add declaration_bytes (suc (suc k)) (text_of w) (codes "?>" ++ rest)
        (omega (arith, d.fits)) in
    ap (λ s. label_in (declaration s)) cut
    ∙ ap label_in (declaration-written w (take k rest) d)
    ∙ label_in-written w d
