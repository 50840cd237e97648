-- ===== src/Mt/Fields/Ranges.antt =====
-- The ranges of a list of fields that a tag opens, when the list is given as its sequences.
use quackiso.Base.{
  ℕ, ◌+◌, ◌≡◌, refl, sym, ap, ◌∙◌, true, false, List, [], ◌∷◌, ◌++◌, append-nil, some, Bytes, All,
  le→leb, length, length-append, take-append_at, drop-append_at, take-append_add, arith,
}
use quackiso.Text.{str_eq}
use quackiso.Mt.Fields.{Field, get_range, starts, ranges, sequences}

-- The middle of a list is its range.
pub get_range-middle :
    (pre mid post : List Field) (from to : ℕ)
    → from ≡ length pre
    → to ≡ length pre + length mid
    → get_range (pre ++ (mid ++ post)) (from, to) ≡ some mid
unfolding get_range
get_range-middle pre mid post from to e f =
    rw
      (
        le→leb from to (omega arith),
        le→leb to (length (pre ++ (mid ++ post)))
            (omega (arith, length-append pre (mid ++ post), length-append mid post)),
        take-append_add to (length mid) pre (mid ++ post) (omega arith),
        take-append_at (length mid) mid post refl,
        drop-append_at from pre mid e,
      )
      refl

pub get_range-whole : (fs : List Field) → get_range fs (0, length fs) ≡ some fs
get_range-whole fs =
    ap (λ gs. get_range gs (0, length fs)) (sym (append-nil fs))
    ∙ get_range-middle [] fs [] 0 (length fs) refl (omega arith)

-- A sequence: the field with the tag that opens it, and fields with other tags.
pub record Sequence : Type 0 where
  pub opening : Field
  pub more : List Field

abbrev pub IsSequence : Bytes → Sequence → Type 0
IsSequence tag s =
    (str_eq s.opening.tag tag ≡ true) × All (λ (f : Field). str_eq f.tag tag ≡ false) s.more

abbrev pub fields_of : Sequence → List Field
fields_of s = s.opening ∷ s.more

abbrev pub all_fields : List Sequence → List Field
all_fields [] = []
all_fields (s ∷ ss) = fields_of s ++ all_fields ss

-- The ranges of sequences that stand behind so many fields.
abbrev pub spans_from : ℕ → List Sequence → List (ℕ × ℕ)
spans_from k [] = []
spans_from k (s ∷ ss) = (k, k + length (fields_of s)) ∷ spans_from (k + length (fields_of s)) ss

abbrev openings_from : ℕ → List Sequence → List ℕ
openings_from k [] = []
openings_from k (s ∷ ss) = k ∷ openings_from (k + length (fields_of s)) ss

pub starts-without :
    (tag : Bytes) (fs gs : List Field) (k j : ℕ)
    → All (λ (f : Field). str_eq f.tag tag ≡ false) fs
    → k + length fs ≡ j
    → starts (fs ++ gs) tag k ≡ starts gs tag j
unfolding starts
starts-without tag [] gs k j h e = let e' : k ≡ j = omega arith in rw e' refl
starts-without tag (f ∷ fs) gs k j h e =
    rw (h.0) (starts-without tag fs gs (k + 1) j h.1 (omega arith))

starts-openings :
    (tag : Bytes) (ss : List Sequence) (k : ℕ)
    → All (IsSequence tag) ss
    → starts (all_fields ss) tag k ≡ openings_from k ss
unfolding starts
starts-openings tag [] k h = refl
starts-openings tag (s ∷ ss) k h = rw (h.0.0) (
    ap (λ (l : List ℕ). k ∷ l)
      (starts-without tag s.more (all_fields ss) (k + 1) (k + length (fields_of s)) h.0.1
          (omega arith)
        ∙ starts-openings tag ss (k + length (fields_of s)) h.1))

ranges-openings :
    (ss : List Sequence) (k end : ℕ)
    → k + length (all_fields ss) ≡ end
    → ranges (openings_from k ss) end ≡ spans_from k ss
unfolding ranges
ranges-openings [] k end e = refl
ranges-openings (s ∷ []) k end e =
    ap (λ (to : ℕ). ◌∷◌ (k, to) []) (omega (arith, e, length-append (fields_of s) []))
ranges-openings (s ∷ t ∷ ss) k end e =
    ap (λ (l : List (ℕ × ℕ)). (k, k + length (fields_of s)) ∷ l)
      (ranges-openings (t ∷ ss) (k + length (fields_of s)) end
        (omega (arith, e, length-append (fields_of s) (all_fields (t ∷ ss)))))

-- The ranges that the tag opens are those of the sequences.
pub sequences-written :
    (tag : Bytes) (head : List Field) (ss : List Sequence)
    → All (λ (f : Field). str_eq f.tag tag ≡ false) head
    → All (IsSequence tag) ss
    → sequences (head ++ all_fields ss) tag ≡ spans_from (length head) ss
unfolding sequences
sequences-written tag head ss h hs =
    ap (λ l. ranges l (length (head ++ all_fields ss)))
      (starts-without tag head (all_fields ss) 0 (length head) h (omega arith)
        ∙ starts-openings tag ss (length head) hs)
    ∙ ranges-openings ss (length head) (length (head ++ all_fields ss))
        (omega (arith, length-append head (all_fields ss)))
