-- ===== src/Mt/Entries/Count.antt =====
-- The cursor beside the walk of `without_entries`.
use quackiso.Base.{
  is_some, ℕ, ◌+◌, ◌≡◌, refl, ◌∙◌, ap, Bool, true, List, [], ◌∷◌, Option, none, some, Bytes, length,
  arith,
}
use quackiso.Text.{split_on}
use quackiso.Text.Trim.{trim_end_matches}
use quackiso.Mt.Line.{Line, terminator, entry, narrative, blank, continuation, field, line_body}
use quackiso.Mt.Fields.{Walk, walk, walk_line, start, without_entries}
use quackiso.Mt.Entries.{EntrySite, closed, sites}
use quackiso.Mt.Entries.Regions.{
  regions, line_regions, line_class, with_site, open_count, sites-regions,
}

-- The rest of a walk behind a line of a class.
abbrev walk_on : Bytes → ℕ → Walk → Bytes → List Bytes → Line → Walk
walk_on key index w raw lines terminator = w
walk_on key index w raw lines class =
    walk key (index + 1)
      (walk_line class index (trim_end_matches b'\r' raw) (line_body (trim_end_matches b'\r' raw))
        w)
      lines

walk-walk_on :
    (key : Bytes) (index : ℕ) (w : Walk) (raw : Bytes) (lines : List Bytes) (inside : Bool)
    → w.inside ≡ inside
    → walk key index w (raw ∷ lines) ≡ walk_on key index w raw lines (line_class key inside raw)
unfolding walk line_class
walk-walk_on key index w raw lines inside same =
    ap (λ (b : Bool). walk_on key index w raw lines (line_class key b raw)) same

length-with_site-closed :
    (opened : Option (ℕ × ℕ)) (to : ℕ) (rest : List EntrySite)
    → length (with_site (closed opened to) rest) ≡ open_count opened + length rest
unfolding closed
length-with_site-closed none to rest = omega arith
length-with_site-closed (some o) to rest = omega arith

-- Between the two passes: a region is open exactly inside an entry, and it is counted already.
abbrev Agree : List EntrySite → Option (ℕ × ℕ) → Walk → Walk → Type 0
Agree found opened w end = length found + w.entries ≡ end.entries + open_count opened

-- A continuation extends a field at most.
continuation-keeps :
    (index : ℕ) (line trimmed : Bytes) (w : Walk)
    → ((walk_line continuation index line trimmed w).inside ≡ w.inside)
      × ((walk_line continuation index line trimmed w).entries ≡ w.entries)
unfolding walk_line
continuation-keeps index line trimmed w = (ground arith, ground arith)

module _ (key : Bytes) (at index : ℕ) (raw : Bytes) (lines : List Bytes)
    (rest : Option (ℕ × ℕ) → List EntrySite)
    (ih : (o : Option (ℕ × ℕ)) (w : Walk)
      → w.inside ≡ is_some o
      → Agree (rest o) o w (walk key (index + 1) w lines)) where
  line-Agree :
      (class : Line) (opened : Option (ℕ × ℕ)) (w : Walk)
      → w.inside ≡ is_some opened
      → Agree
          (line_regions class at index opened rest)
          opened
          w
          (walk_on key index w raw lines class)
  unfolding line_regions
  line-Agree terminator opened w same = omega (arith, length-with_site-closed opened at [])
  line-Agree entry opened w same =
      unfold walk_line in
      omega (
        arith,
        length-with_site-closed opened at (rest (some (at, index))),
        ih (some (at, index)) (record w { entries = w.entries + 1; inside = true }) refl,
      )
  line-Agree narrative opened w same = unfold walk_line in ih opened w same
  line-Agree blank opened w same = unfold walk_line in ih opened w same
  line-Agree continuation opened w same =
      let line = trim_end_matches b'\r' raw in
      let w' = walk_line continuation index line (line_body line) w in
      let (inside, entries) = continuation-keeps index line (line_body line) w in
      omega (arith, entries, ih opened w' (inside ∙ same))
  line-Agree (field tag value) opened w same =
      let line = trim_end_matches b'\r' raw in
      unfold walk_line in
      omega (
        arith,
        length-with_site-closed opened at (rest none),
        ih none (walk_line (field tag value) index line (line_body line) w) refl,
      )

regions-walk :
    (key : Bytes) (size at index : ℕ) (opened : Option (ℕ × ℕ)) (w : Walk) (lines : List Bytes)
    → w.inside ≡ is_some opened
    → Agree (regions key size at index opened lines) opened w (walk key index w lines)
unfolding regions
regions-walk key size at index opened w [] same =
    unfold walk in omega (arith, length-with_site-closed opened size [])
regions-walk key size at index opened w (raw ∷ lines) same =
    rw (walk-walk_on key index w raw lines (is_some opened) same) (
      line-Agree key at index raw lines
        (λ o. regions key size (at + length raw + 1) (index + 1) o lines)
        (λ o w' h. regions-walk key size (at + length raw + 1) (index + 1) o w' lines h)
        (line_class key (is_some opened) raw) opened w same)

-- The cursor returns as many regions as `without_entries` counts entries in the same body.
pub length-sites : (body key : Bytes) → length (sites body key) ≡ (without_entries body key).1
unfolding without_entries
length-sites body key =
    ap length (sites-regions body key)
    ∙ omega (arith, regions-walk key (length body) 0 1 none start (split_on b'\n' body) refl)
