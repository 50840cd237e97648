-- ===== src/Mt/Entries/Regions.antt =====
-- The regions of a body in one pass over its lines, and the cursor beside it.
use quackiso.Base.{
  is_some, ℕ, zero, suc, ◌+◌, ◌-◌, ◌≤◌, ◌<◌, ◌≡◌, refl, subst, sym, ap, ◌∙◌, Bool, true, false,
  List, [], ◌∷◌, Option, none, some, Bytes, ltb, ltb-false→le, le→ltb_false, length, drop, arith,
  Bool-cases, inl, inr,
}
use quackiso.Text.{first_line, split_on}
use quackiso.Text.Lines.{lines_from, lines_from-step, length-lines_from}
use quackiso.Text.Trim.{trim_end_matches}
use quackiso.Mt.Line.{
  Line, terminator, entry, narrative, blank, continuation, field, classify, line_body,
}
use quackiso.Mt.Entries.{
  EntrySite, EntryCursor, initial, closed, Round, return, go_on, round, next_round, after_round,
  loop, next_site, collect, sites,
}

abbrev pub with_site : Option EntrySite → List EntrySite → List EntrySite
with_site none rest = rest
with_site (some site) rest = site ∷ rest

-- The class of a raw line.
unfoldable pub line_class : Bytes → Bool → Bytes → Line
line_class key inside raw =
    let line = trim_end_matches b'\r' raw in classify line (line_body line) key inside

-- The regions from a line of a class on, where `rest` says what follows by the region then open:
-- a field and an entry end the region that is open, as the terminator does, and an entry opens one.
unfoldable pub line_regions :
    Line → ℕ → ℕ → Option (ℕ × ℕ) → (Option (ℕ × ℕ) → List EntrySite) → List EntrySite
line_regions terminator at index opened rest = with_site (closed opened at) []
line_regions entry at index opened rest = with_site (closed opened at) (rest (some (at, index)))
line_regions (field tag value) at index opened rest = with_site (closed opened at) (rest none)
line_regions narrative at index opened rest = rest opened
line_regions blank at index opened rest = rest opened
line_regions continuation at index opened rest = rest opened

-- The regions of the lines that are left; the end of the body, at `size`, ends the last.
unfoldable pub regions : Bytes → ℕ → ℕ → ℕ → Option (ℕ × ℕ) → List Bytes → List EntrySite
regions key size at index opened [] = with_site (closed opened size) []
regions key size at index opened (raw ∷ lines) =
    line_regions (line_class key (is_some opened) raw) at index opened
      (λ o. regions key size (at + length raw + 1) (index + 1) o lines)

-- The regions that a cursor has before it, and a bound for how many they are.
abbrev pub ahead : Bytes → Bytes → EntryCursor → List EntrySite
ahead body key c = regions key (length body) c.at (c.seen + 1) c.opened (lines_from body c.at)

abbrev pub open_count : Option (ℕ × ℕ) → ℕ
open_count none = 0
open_count (some o) = 1

abbrev pub left : Bytes → EntryCursor → ℕ
left body c = length (lines_from body c.at) + open_count c.opened

-- A call's result is right when it returns the next region, if there is one, and leaves the others.
abbrev pub IsNext : Bytes → Bytes → EntryCursor → Option EntrySite × EntryCursor → Type 0
IsNext body key c (none, c') = ahead body key c ≡ []
IsNext body key c (some site, c') =
    (ahead body key c ≡ site ∷ ahead body key c') × (left body c' < left body c)

-- The same of a round.
abbrev pub IsRound : Bytes → Bytes → EntryCursor → Round → Type 0
IsRound body key c (return site c') = IsNext body key c (site, c')
IsRound body key c (go_on c') =
    (ahead body key c ≡ ahead body key c')
    × (left body c' ≤ left body c)
    × (length (lines_from body c'.at) < length (lines_from body c.at))

past_end : (body : Bytes) → lines_from body (length body + 1) ≡ []
past_end body = ground arith

module _ (body key : Bytes) (at seen : ℕ) (raw : Bytes)
    (step : lines_from body at ≡ raw ∷ lines_from body (at + length raw + 1)) where
  -- The cursor before a line, and past it.
  abbrev before : Option (ℕ × ℕ) → EntryCursor
  before opened = record { at = at; seen = seen; opened = opened }

  abbrev beyond : Option (ℕ × ℕ) → EntryCursor
  beyond opened = record { at = at + length raw + 1; seen = seen + 1; opened = opened }

  fewer : length (lines_from body at) ≡ suc (length (lines_from body (at + length raw + 1)))
  fewer = ap length step

  round-IsRound :
      (class : Line) (opened : Option (ℕ × ℕ))
      → line_class key (is_some opened) raw ≡ class
      → IsRound body key (before opened) (round class (length body) at (seen + 1) (beyond opened))
  unfolding round regions line_regions closed
  round-IsRound terminator none e = rw (step, e) refl
  round-IsRound terminator (some o) e =
      (rw (step, e, past_end body) refl, omega (arith, fewer, ap length (past_end body)))
  round-IsRound entry none e = (rw (step, e) refl, omega (arith, fewer), omega (arith, fewer))
  round-IsRound entry (some o) e = (rw (step, e) refl, omega (arith, fewer))
  round-IsRound narrative opened e = (rw (step, e) refl, omega (arith, fewer), omega (arith, fewer))
  round-IsRound blank opened e = (rw (step, e) refl, omega (arith, fewer), omega (arith, fewer))
  round-IsRound continuation opened e =
      (rw (step, e) refl, omega (arith, fewer), omega (arith, fewer))
  round-IsRound (field tag value) none e =
      (rw (step, e) refl, omega (arith, fewer), omega (arith, fewer))
  round-IsRound (field tag value) (some o) e = (rw (step, e) refl, omega (arith, fewer))

next_round-IsRound :
    (body key : Bytes) (c : EntryCursor)
    → c.at ≤ length body
    → IsRound body key c (next_round body key c)
unfolding next_round line_class
next_round-IsRound body key c inside =
    round-IsRound body key c.at c.seen (first_line (drop c.at body))
      (lines_from-step body c.at inside)
      (line_class key (is_some c.opened) (first_line (drop c.at body))) c.opened refl

IsNext-past :
    (body key : Bytes) (at seen : ℕ) (opened : Option (ℕ × ℕ))
    → ltb (length body) at ≡ true
    → IsNext body key
        (record { at = at; seen = seen; opened = opened })
        (closed opened (length body), record { at = at; seen = seen; opened = none })
unfolding regions closed
IsNext-past body key at seen none past = rw past
IsNext-past body key at seen (some o) past = (rw past, rw past (omega arith))

IsNext-go_on :
    (body key : Bytes) (c c' : EntryCursor) (result : Option EntrySite × EntryCursor)
    → ahead body key c ≡ ahead body key c'
    → left body c' ≤ left body c
    → IsNext body key c' result
    → IsNext body key c result
IsNext-go_on body key c c' (none, c'') same less h = same ∙ h
IsNext-go_on body key c c' (some site, c'') same less h = (same ∙ h.0, omega arith)

IsNext-round :
    (body key : Bytes) (c : EntryCursor) (r : Round)
    (again : EntryCursor → Option EntrySite × EntryCursor)
    → IsRound body key c r
    → ((c' : EntryCursor)
        → length (lines_from body c'.at) < length (lines_from body c.at)
        → IsNext body key c' (again c'))
    → IsNext body key c (after_round r again)
unfolding after_round
IsNext-round body key c (return site c') again h rest = h
IsNext-round body key c (go_on c') again (same, less, fewer') rest =
    IsNext-go_on body key c c' (again c') same less (rest c' fewer')

module _ (fuel : ℕ) (body key : Bytes) (c : EntryCursor) where
  loop-past :
      ltb (length body) c.at ≡ true
      → (closed c.opened (length body), record c { opened = none }) ≡ loop (suc fuel) body key c
  unfolding loop
  loop-past past = rw (past, loop)

  loop-inside :
      ltb (length body) c.at ≡ false
      → after_round (next_round body key c) (loop fuel body key) ≡ loop (suc fuel) body key c
  unfolding loop
  loop-inside inside = rw (inside, loop)

loop-IsNext :
    (fuel : ℕ) (body key : Bytes) (c : EntryCursor)
    → length (lines_from body c.at) < fuel
    → IsNext body key c (loop fuel body key c)
loop-IsNext zero body key c enough = absurd (omega arith)
loop-IsNext (suc fuel) body key c enough = elim (Bool-cases (ltb (length body) c.at)) [
  | inl past ↦
      subst (IsNext body key c) (loop-past fuel body key c past)
        (IsNext-past body key c.at c.seen c.opened past)
  | inr inside ↦ subst (IsNext body key c) (loop-inside fuel body key c inside) (
      IsNext-round body key c (next_round body key c) (loop fuel body key)
        (next_round-IsRound body key c (ltb-false→le _ _ inside))
        (λ c' fewer'. loop-IsNext fuel body key c' (omega arith)))
]

next_site-IsNext : (body key : Bytes) (c : EntryCursor) → IsNext body key c (next_site body key c)
unfolding next_site
next_site-IsNext body key c =
    loop-IsNext (suc (length body + 1 - c.at)) body key c
      (omega (arith, length-lines_from body c.at))

module _ (fuel : ℕ) (body key : Bytes) (c c' : EntryCursor) where
  collect-none : next_site body key c ≡ (none, c') → collect (suc fuel) body key c ≡ []
  unfolding collect
  collect-none e = rw (e, collect)

  collect-some :
      (site : EntrySite)
      → next_site body key c ≡ (some site, c')
      → collect (suc fuel) body key c ≡ site ∷ collect fuel body key c'
  unfolding collect
  collect-some site e =
      rw (e, collect)
        (ap (λ (r : Option EntrySite × EntryCursor). site ∷ collect fuel body key r.1) e)

-- Repeated calls return the regions ahead, one by one and all of them, and then none.
collect-ahead :
    (fuel : ℕ) (body key : Bytes) (c : EntryCursor)
    → left body c < fuel
    → collect fuel body key c ≡ ahead body key c
collect-ahead zero body key c enough = absurd (omega arith)
collect-ahead (suc fuel) body key c enough =
    go (next_site body key c) (collect-ahead fuel body key) refl (next_site-IsNext body key c)
  where
    go :
        (result : Option EntrySite × EntryCursor)
        → ((c' : EntryCursor) → left body c' < fuel → collect fuel body key c' ≡ ahead body key c')
        → next_site body key c ≡ result
        → IsNext body key c result
        → collect (suc fuel) body key c ≡ ahead body key c
    go (none, c') ih e h = collect-none fuel body key c c' e ∙ sym h
    go (some site, c') ih e (h, less) =
        collect-some fuel body key c c' site e
        ∙ ap (λ rest. site ∷ rest) (ih c' (omega arith))
        ∙ sym h

-- The calls of `next_site` on a body, from its beginning on and until one returns none, return the
-- regions that one pass over the lines of the body finds, in the order of the lines.
pub sites-regions :
    (body key : Bytes) → sites body key ≡ regions key (length body) 0 1 none (split_on b'\n' body)
unfolding sites
sites-regions body key =
    collect-ahead (length body + 2) body key initial (omega (arith, length-lines_from body 0))
    ∙ rw (le→ltb_false (length body) 0 (omega arith))
