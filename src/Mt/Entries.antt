-- ===== src/Mt/Entries.antt =====
-- The entries of a statement as regions of its body, found one at a time by `EntryCursor`.
pub mod Regions
pub mod Count
pub mod Order
use quackiso.Base.{
  is_some, ℕ, zero, suc, ◌+◌, ◌-◌, Bool, true, false, List, [], ◌∷◌, Option, none, some, Bytes, ltb,
  if◌then◌else◌, length, drop,
}
use quackiso.Text.{first_line}
use quackiso.Text.Trim.{trim_end_matches}
use quackiso.Mt.Line.{
  Line, terminator, entry, narrative, blank, continuation, field, classify, line_body,
}

-- The range of bytes, and the line of the body that it starts on, from 1.
pub record EntrySite : Type 0 where
  pub from : ℕ
  pub to : ℕ
  pub line : ℕ

pub record EntryCursor : Type 0 where
  pub at : ℕ
  pub seen : ℕ
  pub opened : Option (ℕ × ℕ)

abbrev pub initial : EntryCursor
initial = record { at = 0; seen = 0; opened = none }

-- The region that was open, ended at `to`.
unfoldable pub closed : Option (ℕ × ℕ) → ℕ → Option EntrySite
closed none to = none
closed (some (from, first)) to = some (record { from = from; to = to; line = first })

-- What a round does: return with a site or without one, or go on.
pub data Round : Type 0 where
  return : Option EntrySite → EntryCursor → Round
  go_on : EntryCursor → Round

-- The `match` of a round: the line began at `at`, is the line `index`, and the cursor is past it.
unfoldable pub round : Line → ℕ → ℕ → ℕ → EntryCursor → Round
round terminator size at index c =
    return (closed c.opened at) (record c { at = size + 1; opened = none })
round entry size at index c = elim c.opened [
  | none ↦ go_on (record c { opened = some (at, index) })
  | some o ↦ return (closed (some o) at) (record c { opened = some (at, index) })
]
round (field tag value) size at index c = elim c.opened [
  | none ↦ go_on c
  | some o ↦ return (closed (some o) at) (record c { opened = none })
]
round narrative size at index c = go_on c
round blank size at index c = go_on c
round continuation size at index c = go_on c

-- The round on the line at the cursor.
unfoldable pub next_round : Bytes → Bytes → EntryCursor → Round
next_round body key c =
    let raw = first_line (drop c.at body) in
    let line = trim_end_matches b'\r' raw in
    round (classify line (line_body line) key (is_some c.opened)) (length body) c.at (c.seen + 1)
      (record c { at = c.at + length raw + 1; seen = c.seen + 1 })

unfoldable pub after_round :
    Round → (EntryCursor → Option EntrySite × EntryCursor) → Option EntrySite × EntryCursor
after_round (return site c) again = (site, c)
after_round (go_on c) again = again c

-- The loop, on fuel: each round moves the cursor forward.
unfoldable pub loop : ℕ → Bytes → Bytes → EntryCursor → Option EntrySite × EntryCursor
loop zero body key c = (none, c)
loop (suc fuel) body key c = elim (ltb (length body) c.at) [
  | true ↦ (closed c.opened (length body), record c { opened = none })
  | false ↦ after_round (next_round body key c) (loop fuel body key)
]

-- One round for each byte that is left, and two.
unfoldable pub next_site : Bytes → Bytes → EntryCursor → Option EntrySite × EntryCursor
next_site body key c = loop (suc (length body + 1 - c.at)) body key c

-- The sites that repeated calls return, up to the first that returns none.
unfoldable pub collect : ℕ → Bytes → Bytes → EntryCursor → List EntrySite
collect zero body key c = []
collect (suc fuel) body key c =
    let (found, c') = next_site body key c in
    elim found [ none ↦ [] | some site ↦ site ∷ collect fuel body key c' ]

-- A body has at most one line more than it has bytes, and a line ends at most one region.
unfoldable pub sites : Bytes → Bytes → List EntrySite
sites body key = collect (length body + 2) body key initial
