-- ===== src/Container/Xml/Prolog.antt =====
-- What may stand in front of a root element, as it is written, and the scan over it.
use quackiso.Base.{
  ℕ, zero, suc, ◌+◌, ◌≤◌, ◌<◌, ◌≡◌, ◌≢◌, refl, ap, ◌∙◌, List, [], ◌∷◌, ◌++◌, Option, some, none,
  Bytes, All, codes, length, length-append, drop-append_add, arith,
}
use quackiso.Text.{find}
use quackiso.Container.Xml.{
  doctype_end_from, doctype_end, from_open, return, go_on, at_open, root_round, root_loop,
  root_start_tag, returned,
}

abbrev pub IsFree : ℕ → Bytes → Type 0
IsFree b = All (λ c. c ≢ b)

-- A byte of a doctype that ends nothing.
abbrev pub IsPlain : ℕ → Type 0
IsPlain c = (c ≢ b'>') × (c ≢ b'[') × (c ≢ b']')

-- Of an internal subset: it holds no brackets of its own.
abbrev pub IsInner : ℕ → Type 0
IsInner c = (c ≢ b'[') × (c ≢ b']')

-- A comment, a processing instruction, and a doctype without and with an internal subset, each
-- with the text in front of it.
pub data Misc : Type 0 where
  comment : Bytes → Bytes → Misc
  instruction : Bytes → Bytes → Misc
  doctype : Bytes → Bytes → Misc
  subset : Bytes → Bytes → Bytes → Bytes → Misc

-- With the text behind it.
abbrev pub misc_text : Misc → Bytes → Bytes
misc_text (comment gap b) s = gap ++ (b'<' ∷ b'!' ∷ b'-' ∷ b'-' ∷ b ++ (b'-' ∷ b'-' ∷ b'>' ∷ s))
misc_text (instruction gap b) s = gap ++ (b'<' ∷ b'?' ∷ b ++ (b'?' ∷ b'>' ∷ s))
misc_text (doctype gap b) s = gap ++ (b'<' ∷ b'!' ∷ b'D' ∷ b ++ (b'>' ∷ s))
misc_text (subset gap b inner tail) s =
    gap ++ (b'<' ∷ b'!' ∷ b'D' ∷ b ++ (b'[' ∷ inner ++ (b']' ∷ tail ++ (b'>' ∷ s))))

abbrev pub IsMisc : Misc → Type 0
IsMisc (comment gap b) = IsFree b'<' gap × IsFree b'>' b
IsMisc (instruction gap b) = IsFree b'<' gap × IsFree b'>' b
IsMisc (doctype gap b) = IsFree b'<' gap × All IsPlain b
IsMisc (subset gap b inner tail) =
    IsFree b'<' gap × All IsPlain b × All IsInner inner × All IsPlain tail

abbrev pub prolog_text : List Misc → Bytes → Bytes
prolog_text [] s = s
prolog_text (m ∷ ms) s = misc_text m (prolog_text ms s)

find-comment_end :
    (b s : Bytes)
    → IsFree b'>' b
    → find (codes "-->") (b ++ (b'-' ∷ b'-' ∷ b'>' ∷ s)) ≡ some (length b)
unfolding find
find-comment_end [] s h = refl
find-comment_end (c ∷ []) s h = ground arith
find-comment_end (c ∷ d ∷ []) s h = ground (arith, find-comment_end (d ∷ []) s h.1)
find-comment_end (c ∷ d ∷ e ∷ b) s h = ground (arith, find-comment_end (d ∷ e ∷ b) s h.1)

find-instruction_end :
    (b s : Bytes) → IsFree b'>' b → find (codes "?>") (b ++ (b'?' ∷ b'>' ∷ s)) ≡ some (length b)
unfolding find
find-instruction_end [] s h = refl
find-instruction_end (c ∷ []) s h = ground arith
find-instruction_end (c ∷ d ∷ b) s h = ground (arith, find-instruction_end (d ∷ b) s h.1)

doctype_end-plain :
    (at : ℕ) (b s : Bytes) (end : ℕ)
    → All IsPlain b
    → at + length b ≡ end
    → doctype_end_from 0 at (b ++ s) ≡ doctype_end_from 0 end s
unfolding doctype_end_from
doctype_end-plain at [] s end h e = let e' : at ≡ end = omega arith in rw e' refl
doctype_end-plain at (c ∷ b) s end h e =
    ground (arith, doctype_end-plain (suc at) b s end h.1 (omega arith))

doctype_end-inner :
    (at : ℕ) (b s : Bytes) (end : ℕ)
    → All IsInner b
    → at + length b ≡ end
    → doctype_end_from 1 at (b ++ s) ≡ doctype_end_from 1 end s
unfolding doctype_end_from
doctype_end-inner at [] s end h e = let e' : at ≡ end = omega arith in rw e' refl
doctype_end-inner at (c ∷ b) s end h e =
    ground (arith, doctype_end-inner (suc at) b s end h.1 (omega arith))

doctype_end-simple :
    (b s : Bytes) → All IsPlain b → doctype_end (b'D' ∷ b ++ (b'>' ∷ s)) ≡ some (length b + 2)
unfolding doctype_end doctype_end_from
doctype_end-simple b s h =
    doctype_end-plain 1 b (b'>' ∷ s) (length b + 1) h (omega arith) ∙ ap some (omega arith)

doctype_end-subset :
    (b inner tail s : Bytes)
    → All IsPlain b
    → All IsInner inner
    → All IsPlain tail
    → doctype_end (b'D' ∷ (b ++ (b'[' ∷ (inner ++ (b']' ∷ (tail ++ (b'>' ∷ s)))))))
      ≡ some (length b + 1 + (length inner + 1) + (length tail + 2))
unfolding doctype_end doctype_end_from
doctype_end-subset b inner tail s h i t =
    doctype_end-plain 1 b (b'[' ∷ (inner ++ (b']' ∷ (tail ++ (b'>' ∷ s))))) (length b + 1) h
      (omega arith)
    ∙ doctype_end-inner (suc (length b + 1)) inner (b']' ∷ (tail ++ (b'>' ∷ s)))
        (length b + 2 + length inner) i (omega arith)
    ∙ doctype_end-plain (suc (length b + 2 + length inner)) tail (b'>' ∷ s)
        (length b + 3 + length inner + length tail) t (omega arith)
    ∙ ap some (omega arith)

pub from_open-gap :
    (gap s : Bytes) → IsFree b'<' gap → from_open (gap ++ (b'<' ∷ s)) ≡ some (b'<' ∷ s)
unfolding from_open
from_open-gap [] s h = refl
from_open-gap (c ∷ gap) s h = ground (arith, from_open-gap gap s h.1)

-- The scan goes on behind each of them.
root_round-misc : (m : Misc) (s : Bytes) → IsMisc m → root_round (misc_text m s) ≡ go_on s
unfolding root_round at_open
root_round-misc (comment gap b) s h =
    rw
      (
        from_open-gap gap (b'!' ∷ b'-' ∷ b'-' ∷ b ++ (b'-' ∷ b'-' ∷ b'>' ∷ s)) h.0,
        find-comment_end b s h.1,
        drop-append_add (length b + 7) 3 (b'<' ∷ b'!' ∷ b'-' ∷ b'-' ∷ b) (b'-' ∷ b'-' ∷ b'>' ∷ s)
            (omega arith),
      )
      refl
root_round-misc (instruction gap b) s h =
    rw
      (
        from_open-gap gap (b'?' ∷ b ++ (b'?' ∷ b'>' ∷ s)) h.0,
        find-instruction_end b s h.1,
        drop-append_add (length b + 4) 2 (b'<' ∷ b'?' ∷ b) (b'?' ∷ b'>' ∷ s) (omega arith),
      )
      refl
root_round-misc (doctype gap b) s h =
    rw
      (
        from_open-gap gap (b'!' ∷ b'D' ∷ b ++ (b'>' ∷ s)) h.0,
        doctype_end-simple b s h.1,
        drop-append_add (length b + 2 + 2) 1 (b'<' ∷ b'!' ∷ b'D' ∷ b) (b'>' ∷ s) (omega arith),
      )
      refl
root_round-misc (subset gap b inner tail) s h =
    rw
      (
        from_open-gap gap (b'!' ∷ b'D' ∷ (b ++ (b'[' ∷ (inner ++ (b']' ∷ (tail ++ (b'>' ∷ s)))))))
            h.0,
        doctype_end-subset b inner tail s h.1 h.2 h.3,
        drop-append_add (length b + 1 + (length inner + 1) + (length tail + 2) + 2)
            (length inner + 1 + (length tail + 2)) (b'<' ∷ b'!' ∷ b'D' ∷ b)
            (b'[' ∷ (inner ++ (b']' ∷ (tail ++ (b'>' ∷ s))))) (omega arith),
      )
      (ap go_on (
        drop-append_add (length inner + 1 + (length tail + 2)) (length tail + 2) (b'[' ∷ inner)
          (b']' ∷ (tail ++ (b'>' ∷ s))) (omega arith)
        ∙ drop-append_add (length tail + 2) 1 (b']' ∷ tail) (b'>' ∷ s) (omega arith)))

root_loop-return :
    (fuel : ℕ) (s : Bytes) (tag : Option Bytes)
    → root_round s ≡ return tag
    → root_loop (suc fuel) s ≡ some tag
unfolding root_loop
root_loop-return fuel s tag e = rw (root_loop, e) refl

root_loop-go_on :
    (fuel : ℕ) (s rest : Bytes)
    → root_round s ≡ go_on rest
    → root_loop (suc fuel) s ≡ root_loop fuel rest
unfolding root_loop
root_loop-go_on fuel s rest e = rw (root_loop, e) refl

root_loop-prolog :
    (ms : List Misc) (s : Bytes) (tag : Option Bytes) (fuel : ℕ)
    → All IsMisc ms
    → root_round s ≡ return tag
    → length ms < fuel
    → root_loop fuel (prolog_text ms s) ≡ some tag
root_loop-prolog ms s tag zero h e enough = absurd (omega arith)
root_loop-prolog [] s tag (suc fuel) h e enough = root_loop-return fuel s tag e
root_loop-prolog (m ∷ ms) s tag (suc fuel) h e enough =
    root_loop-go_on fuel (prolog_text (m ∷ ms) s) (prolog_text ms s)
      (root_round-misc m (prolog_text ms s) h.0)
    ∙ root_loop-prolog ms s tag fuel h.1 e (omega arith)

length-misc_text : (m : Misc) (s : Bytes) → length s < length (misc_text m s)
length-misc_text (comment gap b) s = omega (
  arith,
  length-append gap (b'<' ∷ b'!' ∷ b'-' ∷ b'-' ∷ b ++ (b'-' ∷ b'-' ∷ b'>' ∷ s)),
  length-append b (b'-' ∷ b'-' ∷ b'>' ∷ s),
)
length-misc_text (instruction gap b) s = omega (
  arith,
  length-append gap (b'<' ∷ b'?' ∷ b ++ (b'?' ∷ b'>' ∷ s)),
  length-append b (b'?' ∷ b'>' ∷ s),
)
length-misc_text (doctype gap b) s =
    omega
      (arith, length-append gap (b'<' ∷ b'!' ∷ b'D' ∷ b ++ (b'>' ∷ s)), length-append b (b'>' ∷ s))
length-misc_text (subset gap b inner tail) s = omega (
  arith,
  length-append gap (b'<' ∷ b'!' ∷ b'D' ∷ (b ++ (b'[' ∷ (inner ++ (b']' ∷ (tail ++ (b'>' ∷ s))))))),
  length-append b (b'[' ∷ (inner ++ (b']' ∷ (tail ++ (b'>' ∷ s))))),
  length-append inner (b']' ∷ (tail ++ (b'>' ∷ s))),
  length-append tail (b'>' ∷ s),
)

length-prolog_text : (ms : List Misc) (s : Bytes) → length ms + length s ≤ length (prolog_text ms s)
length-prolog_text [] s = omega arith
length-prolog_text (m ∷ ms) s =
    omega (arith, length-prolog_text ms s, length-misc_text m (prolog_text ms s))

-- What the scan returns at a text, it returns behind a prolog.
pub root_start_tag-prolog :
    (ms : List Misc) (s : Bytes) (tag : Option Bytes)
    → All IsMisc ms
    → root_round s ≡ return tag
    → root_start_tag (prolog_text ms s) ≡ tag
unfolding root_start_tag
root_start_tag-prolog ms s tag h e = ap (returned none) (
    root_loop-prolog ms s tag (suc (length (prolog_text ms s))) h e
      (omega (arith, length-prolog_text ms s)))
