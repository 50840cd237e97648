-- ===== src/Container/Ebics/Written.antt =====
-- Documents with a written root element, and `is_ebics` of them.
use quackiso.Base.{
  ℕ, suc, ◌+◌, ◌-◌, ◌≡◌, ◌≢◌, refl, sym, ap, ◌∙◌, ◌⊎◌, true, List, [], ◌∷◌, ◌++◌, some, none, Bytes,
  All, length, length-append, take-append_at, append_assoc, arith,
}
use quackiso.Text.{all}
use quackiso.Container.Xml.{tag_end_from, tag_end, at_open, root_round, return, start_tag}
use quackiso.Container.Xml.Prolog.{IsFree, from_open-gap}
use quackiso.Container.Ebics.{is_gap}
use quackiso.Container.Ebics.Attributes.{
  IsNameByte, Attribute, IsAttribute, attribute_text, attributes_text,
}

-- The start tag of an element: its name, its attributes, and white space or a `/` behind them.
pub record Element : Type 0 where
  pub first : ℕ
  pub name : Bytes
  pub attributes : List Attribute
  pub tail : Bytes

pub record IsElement (e : Element) : Type 0 where
  pub named : All IsNameByte (e.first ∷ e.name)
  pub opens : (e.first ≢ b'!') × (e.first ≢ b'?')
  pub listed : All IsAttribute e.attributes
  pub closed : all is_gap e.tail ≡ true

abbrev pub tag_text : Element → Bytes
tag_text e = e.first ∷ e.name ++ attributes_text e.attributes e.tail

-- The end of a tag is looked for behind its name, its values and its gaps.
tag_end-name :
    (at end : ℕ) (s t : Bytes)
    → All IsNameByte s
    → at + length s ≡ end
    → tag_end_from none at (s ++ t) ≡ tag_end_from none end t
unfolding tag_end_from
tag_end-name at end [] t h e = let e' : at ≡ end = omega arith in rw e' refl
tag_end-name at end (c ∷ s) t h e = ground (arith, tag_end-name (suc at) end s t h.1 (omega arith))

tag_end-gap :
    (at end : ℕ) (s t : Bytes)
    → all is_gap s ≡ true
    → at + length s ≡ end
    → tag_end_from none at (s ++ t) ≡ tag_end_from none end t
unfolding tag_end_from
tag_end-gap at end [] t h e = let e' : at ≡ end = omega arith in rw e' refl
tag_end-gap at end (c ∷ s) t h e = ground (arith, tag_end-gap (suc at) end s t)

tag_end-value :
    (at end q : ℕ) (s t : Bytes)
    → All (λ c. c ≢ q) s
    → at + length s + 1 ≡ end
    → tag_end_from (some q) at (s ++ (q ∷ t)) ≡ tag_end_from none end t
unfolding tag_end_from
tag_end-value at end q [] t h e = let e' : suc at ≡ end = omega arith in rw (← e') (ground arith)
tag_end-value at end q (c ∷ s) t h e =
    ground (arith, tag_end-value (suc at) end q s t h.1 (omega arith))

tag_end-quote :
    (at q : ℕ) (s : Bytes)
    → (q ≡ b'"') ⊎ (q ≡ 39)
    → tag_end_from none at (q ∷ s) ≡ tag_end_from (some q) (suc at) s
unfolding tag_end_from
tag_end-quote at q s h = ground arith

length-attribute_text :
    (a : Attribute) (t : Bytes)
    → length (attribute_text a t) ≡ length a.name + length a.value + 5 + length t
length-attribute_text a t = omega (
  arith,
  length-append a.name (b'=' ∷ (a.quote ∷ (a.value ++ (a.quote ∷ t)))),
  length-append a.value (a.quote ∷ t),
)

tag_end-attribute :
    (at end : ℕ) (a : Attribute) (t : Bytes)
    → IsAttribute a
    → at + (length a.name + length a.value + 5) ≡ end
    → tag_end_from none at (attribute_text a t) ≡ tag_end_from none end t
unfolding tag_end_from
tag_end-attribute at end a t h e =
    tag_end-name (suc at) (at + length a.name + 2) (a.first ∷ a.name)
      (b'=' ∷ (a.quote ∷ (a.value ++ (a.quote ∷ t)))) h.named (omega arith)
    ∙ tag_end-quote (suc (at + length a.name + 2)) a.quote (a.value ++ (a.quote ∷ t)) h.quoted
    ∙ tag_end-value (suc (suc (at + length a.name + 2))) end a.quote a.value t h.closed
        (omega arith)

tag_end-attributes :
    (at end : ℕ) (attributes : List Attribute) (tail t : Bytes)
    → All IsAttribute attributes
    → all is_gap tail ≡ true
    → at + length (attributes_text attributes tail) ≡ end
    → tag_end_from none at (attributes_text attributes (tail ++ t)) ≡ tag_end_from none end t
tag_end-attributes at end [] tail t h g e = tag_end-gap at end tail t g e
tag_end-attributes at end (a ∷ more) tail t h g e =
    tag_end-attribute at (at + (length a.name + length a.value + 5)) a
      (attributes_text more (tail ++ t)) h.0 refl
    ∙ tag_end-attributes (at + (length a.name + length a.value + 5)) end more tail t h.1 g
        (omega (arith, length-attribute_text a (attributes_text more tail)))

attributes_text-append :
    (attributes : List Attribute) (s t : Bytes)
    → attributes_text attributes (s ++ t) ≡ attributes_text attributes s ++ t
attributes_text-append [] s t = refl
attributes_text-append (a ∷ more) s t =
    ap (attribute_text a) (attributes_text-append more s t)
    ∙ ap (λ (u : Bytes). 32 ∷ (a.first ∷ u))
        (ap (λ u. a.name ++ (b'=' ∷ (a.quote ∷ u)))
            (sym (append_assoc a.value (a.quote ∷ attributes_text more s) t))
          ∙ sym (
              append_assoc a.name
                (b'=' ∷ (a.quote ∷ (a.value ++ (a.quote ∷ attributes_text more s)))) t))

-- The scan returns a tag that is written there, without its brackets.
tag_end-written :
    (e : Element) (t : Bytes)
    → IsElement e
    → tag_end (b'<' ∷ (tag_text e ++ (b'>' ∷ t))) ≡ some (suc (length (tag_text e)))
unfolding tag_end tag_end_from
tag_end-written e t h =
    ap (λ s. tag_end_from none 1 (e.first ∷ s))
      (append_assoc e.name (attributes_text e.attributes e.tail) (b'>' ∷ t)
        ∙ ap (λ u. e.name ++ u) (sym (attributes_text-append e.attributes e.tail (b'>' ∷ t))))
    ∙ tag_end-name 1 (length e.name + 2) (e.first ∷ e.name)
        (attributes_text e.attributes (e.tail ++ (b'>' ∷ t))) h.named (omega arith)
    ∙ tag_end-attributes (length e.name + 2) (suc (length (tag_text e))) e.attributes e.tail
        (b'>' ∷ t) h.listed h.closed
        (omega (arith, length-append e.name (attributes_text e.attributes e.tail)))

at_open-tag :
    (c : ℕ) (s : Bytes)
    → (c ≢ b'!') × (c ≢ b'?')
    → c ≢ b'/'
    → at_open (b'<' ∷ c ∷ s) ≡ return (start_tag (tag_end (b'<' ∷ c ∷ s)) (b'<' ∷ c ∷ s))
unfolding at_open
at_open-tag c s h k = ground (arith, h.0, h.1)

pub root_round-written :
    (gap : Bytes) (e : Element) (t : Bytes)
    → IsFree b'<' gap
    → IsElement e
    → root_round (gap ++ (b'<' ∷ (tag_text e ++ (b'>' ∷ t)))) ≡ return (some (tag_text e))
unfolding root_round
root_round-written gap e t g h =
    rw
      (
        from_open-gap gap (tag_text e ++ (b'>' ∷ t)) g,
        at_open-tag e.first (e.name ++ attributes_text e.attributes e.tail ++ (b'>' ∷ t)) h.opens
            (omega (arith, h.named.0)),
        tag_end-written e t h,
      )
      (ap (λ s. return (some s))
        (take-append_at (suc (length (tag_text e)) - 1) (tag_text e) (b'>' ∷ t) (omega arith)))
