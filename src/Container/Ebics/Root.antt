-- ===== src/Container/Ebics/Root.antt =====
-- `is_ebics` of a document with a written root element.
use quackiso.Base.{
  ◌≡◌, ◌≢◌, refl, ap, ◌∙◌, Bool, true, false, not, ◌&&◌, ◌||◌, List, [], ◌∷◌, ◌++◌, none, some,
  Bytes, All, codes, append-nil, arith,
}
use quackiso.Text.{all, span, starts_with, behind_last}
use quackiso.Text.Search.{span-append, span-all}
use quackiso.Container.Xml.Prolog.{IsFree, Misc, IsMisc, prolog_text, root_start_tag-prolog}
use quackiso.Container.Xml.{returned}
use quackiso.Container.Ebics.{is_gap, local_name, binds_ebics, ebics_of, is_ebics_tag, is_ebics}
use quackiso.Container.Ebics.Attributes.{
  IsNameByte, Attribute, attributes_text, any_binds, has_ebics_namespace-written,
}
use quackiso.Container.Ebics.Written.{Element, IsElement, tag_text, root_round-written}

all-named : (s : Bytes) → All IsNameByte s → all (λ c. not (is_gap c)) s ≡ true
all-named [] h = refl
all-named (c ∷ s) h = ground (arith, all-named s h.1)

-- The name of a tag ends where its attributes or its gap begin.
span-tag :
    (name : Bytes) (attributes : List Attribute) (tail : Bytes)
    → All IsNameByte name
    → all is_gap tail ≡ true
    → span (λ c. not (is_gap c)) (name ++ attributes_text attributes tail)
      ≡ (name, attributes_text attributes tail)
span-tag name [] [] h g =
    ap (span (λ c. not (is_gap c))) (append-nil name)
    ∙ span-all (λ c. not (is_gap c)) name (all-named name h)
span-tag name [] (c ∷ tail) h g =
    span-append (λ c. not (is_gap c)) name c tail (all-named name h) (ground arith)
span-tag name (a ∷ more) tail h g =
    span-append (λ c. not (is_gap c)) name 32 _ (all-named name h) refl

-- The name of an element as it is written, with a prefix or without one.
pub data ElementName : Type 0 where
  plain : Bytes → ElementName
  prefixed : Bytes → Bytes → ElementName

abbrev pub name_text : ElementName → Bytes
name_text (plain own) = own
name_text (prefixed prefix own) = prefix ++ (b':' ∷ own)

abbrev pub own_part : ElementName → Bytes
own_part (plain own) = own
own_part (prefixed prefix own) = own

-- An attribute that declares one of the two namespaces of EBICS.
abbrev pub declares : Attribute → Bool
declares a =
    starts_with (codes "xmlns") (a.first ∷ a.name)
    && (starts_with (codes "urn:org:ebics:") a.value
        || starts_with (codes "http://www.ebics.org/") a.value)

abbrev pub any_declares : List Attribute → Bool
any_declares [] = false
any_declares (a ∷ more) = declares a || any_declares more

or_false : (b : Bool) → (b || false) ≡ b
or_false true = refl
or_false false = refl

any_binds-declares : (attributes : List Attribute) → any_binds attributes ≡ any_declares attributes
unfolding binds_ebics
any_binds-declares [] = refl
any_binds-declares (a ∷ more) =
    ap
      (λ b.
        starts_with (codes "xmlns") (a.first ∷ a.name)
          && (starts_with (codes "urn:org:ebics:") a.value || b)
        || any_binds more)
      (or_false (starts_with (codes "http://www.ebics.org/") a.value))
    ∙ ap (λ b. declares a || b) (any_binds-declares more)

behind_last-none : (s : Bytes) → All (λ c. c ≢ b':') s → behind_last b':' s ≡ none
unfolding behind_last
behind_last-none [] h = refl
behind_last-none (c ∷ s) h = rw (behind_last, behind_last-none s h.1) (ground arith)

behind_last-prefixed :
    (prefix own : Bytes)
    → All (λ c. c ≢ b':') own
    → behind_last b':' (prefix ++ (b':' ∷ own)) ≡ some own
unfolding behind_last
behind_last-prefixed [] own h = rw (behind_last, behind_last-none own h) refl
behind_last-prefixed (c ∷ prefix) own h = rw (behind_last, behind_last-prefixed prefix own h) refl

local_name-written :
    (n : ElementName) → All (λ c. c ≢ b':') (own_part n) → local_name (name_text n) ≡ own_part n
unfolding local_name
local_name-written (plain own) h = ap (returned own) (behind_last-none own h)
local_name-written (prefixed prefix own) h =
    ap (returned (prefix ++ (b':' ∷ own))) (behind_last-prefixed prefix own h)

-- A document, with its comments, processing instructions and doctype, whose root element has a name
-- with a prefix or without one, is taken for EBICS exactly if the name begins with `ebics`, behind
-- its prefix, and one of the root's attributes is a namespace declaration, its name beginning with
-- `xmlns`, of a value that begins with `urn:org:ebics:` or `http://www.ebics.org/`. The name behind
-- the prefix has no colon.
pub is_ebics-written :
    (prolog : List Misc) (gap : Bytes) (e : Element) (n : ElementName) (rest : Bytes)
    → All IsMisc prolog
    → IsFree b'<' gap
    → IsElement e
    → e.first ∷ e.name ≡ name_text n
    → All (λ c. c ≢ b':') (own_part n)
    → is_ebics (prolog_text prolog (gap ++ (b'<' ∷ (tag_text e ++ (b'>' ∷ rest)))))
      ≡ (starts_with (codes "ebics") (own_part n) && any_declares e.attributes)
unfolding is_ebics
is_ebics-written prolog gap e n rest p g h named own =
    ap ebics_of (
      root_start_tag-prolog prolog (gap ++ (b'<' ∷ (tag_text e ++ (b'>' ∷ rest))))
        (some (tag_text e)) p (root_round-written gap e rest g h))
    ∙ ap is_ebics_tag (span-tag (e.first ∷ e.name) e.attributes e.tail h.named h.closed)
    ∙ ap (λ found. starts_with (codes "ebics") (local_name (e.first ∷ e.name)) && found)
        (has_ebics_namespace-written e.attributes e.tail h.listed h.closed
          ∙ any_binds-declares e.attributes)
    ∙ ap (λ name. starts_with (codes "ebics") name && any_declares e.attributes)
        (ap local_name named ∙ local_name-written n own)
