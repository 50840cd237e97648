-- ===== src/Mt104/Settlement.antt =====
-- Where the settlement of a direct debit begins: behind the last transaction, whose span it ends.
use quackiso.Base.{
  ℕ, suc, ◌+◌, ◌-◌, ◌≤◌, ◌≡◌, ◌⊎◌, refl, sym, ap, ◌∙◌, true, false, List, [], ◌∷◌, ◌++◌,
  append_assoc, append-nil, Option, none, some, Bytes, codes, All, le→leb, length, length-append,
  take, drop, drop-append_at, take_past, get_elem?, arith, Bool-cases, inl, inr,
}
use quackiso.Text.{str_eq}
use quackiso.Mt.Fields.{Field, starts}
use quackiso.Mt.Parties.{first_of}
use quackiso.Mt.Fields.Ranges.{Sequence, fields_of, all_fields, spans_from, starts-without}
use quackiso.Mt104.{indices_in, earlier, settlement_start, cut_last}

abbrev pub Untagged : Bytes → List Field → Type 0
Untagged tag fs = All (λ (f : Field). str_eq f.tag tag ≡ false) fs

-- No index is in front of the one that the count starts at.
abbrev AtLeast : ℕ → Option ℕ → Type 0
AtLeast k none = Unit
AtLeast k (some n) = k ≤ n

AtLeast-suc : (k : ℕ) (o : Option ℕ) → AtLeast (k + 1) o → AtLeast k o
AtLeast-suc k none h = tt
AtLeast-suc k (some n) h = omega (arith, h)

first_of-starts : (tag : Bytes) (fs : List Field) (k : ℕ) → AtLeast k (first_of (starts fs tag k))
unfolding starts
first_of-starts tag [] k = tt
first_of-starts tag (f ∷ fs) k = elim (Bool-cases (str_eq f.tag tag)) [
  | inl opens ↦ rw (starts, opens) (omega arith)
  | inr other ↦
      rw (starts, other)
        (AtLeast-suc k (first_of (starts fs tag (k + 1))) (first_of-starts tag fs (k + 1)))
]

earlier-left : (k : ℕ) (o : Option ℕ) → AtLeast k o → earlier (some k) o ≡ some k
earlier-left k none h = refl
earlier-left k (some n) h = rw (le→leb k n h) refl

earlier-right : (k : ℕ) (o : Option ℕ) → AtLeast k o → earlier o (some k) ≡ some k
earlier-right k none h = refl
earlier-right k (some n) h = ground arith

get_elem?-first : (l : List ℕ) → get_elem? l 0 ≡ first_of l
get_elem?-first [] = refl
get_elem?-first (n ∷ l) = refl

-- The fields that can begin a settlement.
abbrev pub Settles : List Field → Type 0
Settles [] = ⊥
Settles (f ∷ fs) = (str_eq f.tag (codes "19") ≡ true) ⊎ (str_eq f.tag (codes "32B") ≡ true)

earlier-Settles :
    (settle : List Field) (k : ℕ)
    → Settles settle
    → earlier (first_of (starts settle (codes "19") k)) (first_of (starts settle (codes "32B") k))
      ≡ some k
unfolding starts
earlier-Settles [] k h = absurd h
earlier-Settles (f ∷ fs) k (inl sum) =
    rw (starts, sum)
      (earlier-left k (first_of (starts (f ∷ fs) (codes "32B") k))
        (first_of-starts (codes "32B") (f ∷ fs) k))
earlier-Settles (f ∷ fs) k (inr total) =
    rw (starts, total)
      (earlier-right k (first_of (starts (f ∷ fs) (codes "19") k))
        (first_of-starts (codes "19") (f ∷ fs) k))

-- A transaction of a direct debit: no sum, and one amount.
pub record Debit : Type 0 where
  pub debit : Sequence
  pub before : List Field
  pub amount : Field
  pub after : List Field

abbrev pub IsDebit : Debit → Type 0
IsDebit d =
    (fields_of d.debit ≡ d.before ++ (d.amount ∷ d.after))
    × Untagged (codes "19") (fields_of d.debit)
    × Untagged (codes "32B") d.before
    × (str_eq d.amount.tag (codes "32B") ≡ true)
    × Untagged (codes "32B") d.after

get_elem?-second : (n : ℕ) (l : List ℕ) → get_elem? (n ∷ l) 1 ≡ first_of l
get_elem?-second n [] = refl
get_elem?-second n (m ∷ l) = refl

second_amount :
    (d : Debit) (settle : List Field) (k j : ℕ)
    → IsDebit d
    → k + length (fields_of d.debit) ≡ j
    → get_elem? (starts (fields_of d.debit ++ settle) (codes "32B") k) 1
      ≡ first_of (starts settle (codes "32B") j)
unfolding starts
second_amount d settle k j (parts, _, clean_before, is_amount, clean_after) e =
    let b : ℕ = k + length d.before in
    let lengths : length (fields_of d.debit) ≡ length d.before + suc (length d.after) =
      ap length parts ∙ length-append d.before (d.amount ∷ d.after) in
    ap (λ fs. get_elem? (starts (fs ++ settle) (codes "32B") k) 1) parts
    ∙ ap (λ fs. get_elem? (starts fs (codes "32B") k) 1)
        (append_assoc d.before (d.amount ∷ d.after) settle)
    ∙ ap (λ l. get_elem? l 1)
        (starts-without (codes "32B") d.before (d.amount ∷ (d.after ++ settle)) k b clean_before
          refl)
    ∙ rw (starts, is_amount)
        (get_elem?-second b (starts (d.after ++ settle) (codes "32B") (b + 1))
          ∙ ap first_of (
              starts-without (codes "32B") d.after settle (b + 1) j clean_after
                (omega (arith, e, lengths))))

-- The settlement starts behind the transaction.
pub settlement_start-behind :
    (pre settle : List Field) (d : Debit) (from to start : ℕ)
    → IsDebit d
    → Settles settle
    → from ≡ length pre
    → start ≡ from + length (fields_of d.debit)
    → to ≡ start + length settle
    → settlement_start (pre ++ (fields_of d.debit ++ settle)) (from, to) ≡ some start
unfolding settlement_start indices_in
settlement_start-behind pre settle d from to start is h e f g =
    let part : take (to - from) (drop from (pre ++ (fields_of d.debit ++ settle)))
        ≡ fields_of d.debit ++ settle =
      ap (take (to - from)) (drop-append_at from pre (fields_of d.debit ++ settle) e)
      ∙ take_past (to - from) (fields_of d.debit ++ settle)
          (omega (arith, f, g, length-append (fields_of d.debit) settle)) in
    rw
      (
        part,
        starts-without (codes "19") (fields_of d.debit) settle from start (is.1) (sym f),
        second_amount d settle from start is (sym f),
      )
      (earlier-Settles settle start h)

-- A transaction whose span takes in the settlement as well.
abbrev pub with_tail : Sequence → List Field → Sequence
with_tail s settle = record s { more = s.more ++ settle }

pub all_fields-tail :
    (ss : List Sequence) (last : Sequence) (settle : List Field)
    → all_fields (ss ++ last ∷ []) ++ settle ≡ all_fields (ss ++ with_tail last settle ∷ [])
all_fields-tail [] last settle =
    ap (λ fs. fs ++ settle) (append-nil (fields_of last))
    ∙ sym (append-nil (fields_of last ++ settle))
all_fields-tail (s ∷ ss) last settle =
    append_assoc (fields_of s) (all_fields (ss ++ last ∷ [])) settle
    ∙ ap (λ fs. fields_of s ++ fs) (all_fields-tail ss last settle)

cut_last-one :
    (fields : List Field) (from start to : ℕ)
    → settlement_start fields (from, to) ≡ some start
    → cut_last fields ((from, to) ∷ []) ≡ ((from, start) ∷ [], some (start, to))
unfolding cut_last
cut_last-one fields from start to h = rw (cut_last, h) refl

-- The last span is cut where the settlement starts.
pub cut_last-spans :
    (fields : List Field) (ss : List Sequence) (last tailed : Sequence) (k from start to : ℕ)
    → from ≡ k + length (all_fields ss)
    → start ≡ from + length (fields_of last)
    → to ≡ from + length (fields_of tailed)
    → settlement_start fields (from, to) ≡ some start
    → cut_last fields (spans_from k (ss ++ tailed ∷ []))
      ≡ (spans_from k (ss ++ last ∷ []), some (start, to))
unfolding cut_last
cut_last-spans fields [] last tailed k from start to e f g h =
    let here : k ≡ from = omega (arith, e) in
    ap (λ n. cut_last fields ((n, n + length (fields_of tailed)) ∷ [])) here
    ∙ ap (λ n. cut_last fields ((from, n) ∷ [])) (sym g)
    ∙ cut_last-one fields from start to h
    ∙ ap (λ n. ((from, n) ∷ [], some (start, to))) f
    ∙ ap (λ n. ((n, n + length (fields_of last)) ∷ [], some (start, to))) (sym here)
cut_last-spans fields (s ∷ []) last tailed k from start to e f g h =
    ap (λ (p : List (ℕ × ℕ) × Option (ℕ × ℕ)). ((k, k + length (fields_of s)) ∷ p.0, p.1))
      (cut_last-spans fields [] last tailed (k + length (fields_of s)) from start to
        (omega (arith, e, length-append (fields_of s) [])) f g h)
cut_last-spans fields (s ∷ t ∷ ss) last tailed k from start to e f g h =
    ap (λ (p : List (ℕ × ℕ) × Option (ℕ × ℕ)). ((k, k + length (fields_of s)) ∷ p.0, p.1))
      (cut_last-spans fields (t ∷ ss) last tailed (k + length (fields_of s)) from start to
        (omega (arith, e, length-append (fields_of s) (all_fields (t ∷ ss)))) f g h)
