-- ===== src/Container/Ebics/Attributes.antt =====
-- Tags with their attributes as they are written, and the walk over these.
use quackiso.Base.{
  ℕ, zero, suc, ◌≤◌, ◌<◌, ◌≡◌, ◌≢◌, refl, ap, ◌∙◌, ◌⊎◌, inl, inr, Bool, true, false, not, ◌||◌,
  List, [], ◌∷◌, ◌++◌, some, Bytes, All, ◌==◌, if◌then◌else◌, length, length-append, arith,
  Bool-cases,
}
use quackiso.Text.{all, span}
use quackiso.Text.Search.{span-append}
use quackiso.Container.Scan.{skip_space}
use quackiso.Container.Xml.{returned}
use quackiso.Container.Ebics.{
  is_gap, skip_gap, in_name, return, go_on, binds_ebics, at_value, behind_name, attribute_round,
  attribute_loop, has_ebics_namespace,
}

abbrev pub IsNameByte : ℕ → Type 0
IsNameByte c = (32 < c) × (c ≢ b'=') × (c ≢ b'/') × (c ≢ b'>') × (c ≢ b'"') × (c ≢ 39)

-- ` name="value"`, with either quote.
pub record Attribute : Type 0 where
  pub first : ℕ
  pub name : Bytes
  pub quote : ℕ
  pub value : Bytes

pub record IsAttribute (a : Attribute) : Type 0 where
  pub named : All IsNameByte (a.first ∷ a.name)
  pub quoted : (a.quote ≡ b'"') ⊎ (a.quote ≡ 39)
  pub closed : All (λ c. c ≢ a.quote) a.value

-- An attribute with the text behind it.
abbrev pub attribute_text : Attribute → Bytes → Bytes
attribute_text a s = 32 ∷ (a.first ∷ a.name ++ (b'=' ∷ (a.quote ∷ (a.value ++ (a.quote ∷ s)))))

abbrev pub attributes_text : List Attribute → Bytes → Bytes
attributes_text [] tail = tail
attributes_text (a ∷ more) tail = attribute_text a (attributes_text more tail)

-- Whether one of the attributes declares an EBICS namespace.
abbrev pub any_binds : List Attribute → Bool
any_binds [] = false
any_binds (a ∷ more) = binds_ebics (a.first ∷ a.name) a.value || any_binds more

all-in_name : (s : Bytes) → All IsNameByte s → all in_name s ≡ true
all-in_name [] h = refl
all-in_name (c ∷ s) h = ground (arith, all-in_name s h.1)

all-unquoted : (q : ℕ) (s : Bytes) → All (λ c. c ≢ q) s → all (λ c. not (c == q)) s ≡ true
all-unquoted q [] h = refl
all-unquoted q (c ∷ s) h = ground (arith, all-unquoted q s h.1)

-- What is left to do at the value of an attribute.
at_value-written :
    (a : Attribute) (s : Bytes)
    → IsAttribute a
    → at_value (a.first ∷ a.name) (a.quote ∷ (a.value ++ a.quote ∷ s))
      ≡ (if binds_ebics (a.first ∷ a.name) a.value then return true else go_on s)
unfolding at_value
at_value-written a s h =
    rw
      (span-append (λ c. not (c == a.quote)) a.value a.quote s
        (all-unquoted a.quote a.value h.closed) (ground arith))
      (ground (arith, h.quoted))

skip_space-quote : (q : ℕ) (s : Bytes) → (q ≡ b'"') ⊎ (q ≡ 39) → skip_space (q ∷ s) ≡ q ∷ s
unfolding skip_space
skip_space-quote q s h = ground arith

behind_name-written :
    (name : Bytes) (q : ℕ) (s : Bytes)
    → (q ≡ b'"') ⊎ (q ≡ 39)
    → behind_name name (skip_space (b'=' ∷ q ∷ s)) ≡ at_value name (q ∷ s)
unfolding behind_name skip_space
behind_name-written name q s h = ap (at_value name) (skip_space-quote q s h)

skip_gap-name : (c : ℕ) (s : Bytes) → IsNameByte c → skip_gap (32 ∷ c ∷ s) ≡ c ∷ s
unfolding skip_gap
skip_gap-name c s h = ground arith

-- A round reads one attribute, and goes on behind it if it does not bind EBICS.
attribute_round-written :
    (a : Attribute) (s : Bytes)
    → IsAttribute a
    → attribute_round (attribute_text a s)
      ≡ (if binds_ebics (a.first ∷ a.name) a.value then return true else go_on s)
unfolding attribute_round
attribute_round-written a s h =
    rw
      (
        skip_gap-name a.first (a.name ++ (b'=' ∷ (a.quote ∷ (a.value ++ (a.quote ∷ s))))) h.named.0,
        span-append in_name (a.first ∷ a.name) b'=' (a.quote ∷ (a.value ++ (a.quote ∷ s)))
            (all-in_name (a.first ∷ a.name) h.named) refl,
        behind_name-written (a.first ∷ a.name) a.quote (a.value ++ (a.quote ∷ s)) h.quoted,
      )
      (at_value-written a s h)

-- Behind the last attribute there may be white space, and the `/` of an empty element.
skip_gap-all : (s : Bytes) → all is_gap s ≡ true → skip_gap s ≡ []
unfolding skip_gap
skip_gap-all [] h = refl
skip_gap-all (c ∷ s) h = ground (arith, skip_gap-all s)

attribute_round-tail : (tail : Bytes) → all is_gap tail ≡ true → attribute_round tail ≡ return false
unfolding attribute_round
attribute_round-tail [] h = refl
attribute_round-tail (c ∷ s) h = rw (skip_gap-all (c ∷ s) h) (unfold span in refl)

attribute_loop-return :
    (fuel : ℕ) (s : Bytes) (found : Bool)
    → attribute_round s ≡ return found
    → attribute_loop (suc fuel) s ≡ some found
unfolding attribute_loop
attribute_loop-return fuel s found e = rw (attribute_loop, e) refl

attribute_loop-go_on :
    (fuel : ℕ) (s rest : Bytes)
    → attribute_round s ≡ go_on rest
    → attribute_loop (suc fuel) s ≡ attribute_loop fuel rest
unfolding attribute_loop
attribute_loop-go_on fuel s rest e = rw (attribute_loop, e) refl

attribute_loop-written :
    (attributes : List Attribute) (tail : Bytes) (fuel : ℕ)
    → All IsAttribute attributes
    → all is_gap tail ≡ true
    → length attributes < fuel
    → attribute_loop fuel (attributes_text attributes tail) ≡ some (any_binds attributes)
attribute_loop-written attributes tail zero h g enough = absurd (omega arith)
attribute_loop-written [] tail (suc fuel) h g enough =
    attribute_loop-return fuel tail false (attribute_round-tail tail g)
attribute_loop-written (a ∷ more) tail (suc fuel) h g enough =
    elim (Bool-cases (binds_ebics (a.first ∷ a.name) a.value)) [
      | inl binds ↦
          attribute_loop-return fuel (attribute_text a (attributes_text more tail)) true
            (rw binds at (attribute_round-written a (attributes_text more tail) h.0))
          ∙ rw binds refl
      | inr other ↦
          attribute_loop-go_on fuel (attribute_text a (attributes_text more tail))
            (attributes_text more tail)
            (rw other at (attribute_round-written a (attributes_text more tail) h.0))
          ∙ (attribute_loop-written more tail fuel h.1 g (omega arith) ∙ rw other refl)
    ]

length-attributes_text :
    (attributes : List Attribute) (tail : Bytes)
    → length attributes ≤ length (attributes_text attributes tail)
length-attributes_text [] tail = omega arith
length-attributes_text (a ∷ more) tail = omega (
  arith,
  length-attributes_text more tail,
  length-append a.name (b'=' ∷ (a.quote ∷ (a.value ++ (a.quote ∷ attributes_text more tail)))),
  length-append a.value (a.quote ∷ attributes_text more tail),
)

-- The walk over written attributes finds whether one of them binds EBICS.
pub has_ebics_namespace-written :
    (attributes : List Attribute) (tail : Bytes)
    → All IsAttribute attributes
    → all is_gap tail ≡ true
    → has_ebics_namespace (attributes_text attributes tail) ≡ any_binds attributes
unfolding has_ebics_namespace
has_ebics_namespace-written attributes tail h g = ap (returned false) (
    attribute_loop-written attributes tail (suc (length (attributes_text attributes tail))) h g
      (omega (arith, length-attributes_text attributes tail)))
