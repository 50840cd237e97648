-- ===== src/Mt/Entries/Order.antt =====
-- Where the regions of a body lie, and what they begin with.
use quackiso.Base.{
  is_some, ℕ, ◌+◌, ◌≤◌, ◌<◌, ◌≡◌, refl, Bool, false, List, [], ◌∷◌, Option, none, some, Bytes,
  length, arith, drop, le→ltb_false,
}
use quackiso.Text.{split_on, first_line}
use quackiso.Text.Lines.{lines_from, lines_from-IsLineAt}
use quackiso.Text.Trim.{trim_blank, trim_end_matches}
use quackiso.Mt.Line.{
  Line, terminator, entry, narrative, blank, continuation, field, classify, classify_field,
  split_field, tag_end, line_body,
}
use quackiso.Mt.Entries.{EntrySite, closed, sites}
use quackiso.Mt.Entries.Regions.{regions, line_regions, line_class, with_site, sites-regions}

-- A region begins at or after `low`, ends behind that and within the body, and its first line is the
-- beginning of an entry.
pub record IsRegion (body key : Bytes) (low : ℕ) (site : EntrySite) : Type 0 where
  pub low_le : low ≤ site.from
  pub nonempty : site.from < site.to
  pub within : site.to ≤ length body
  pub starts : line_class key false (first_line (drop site.from body)) ≡ entry

-- Regions one behind the other.
abbrev pub AreRegions : Bytes → Bytes → ℕ → List EntrySite → Type 0
AreRegions body key low [] = Unit
AreRegions body key low (site ∷ more) =
    IsRegion body key low site × AreRegions body key site.to more

-- The region that is open when the walk is at a line.
abbrev IsOpen : Bytes → Bytes → ℕ → ℕ → Option (ℕ × ℕ) → Type 0
IsOpen body key low at none = low ≤ at
IsOpen body key low at (some (from, first)) =
    (low ≤ from) × (from + 2 ≤ at) × (line_class key false (first_line (drop from body)) ≡ entry)

-- Whether a line starts an entry does not depend on the region that is open.
entry-inside :
    (key : Bytes) (inside : Bool) (raw : Bytes)
    → line_class key inside raw ≡ entry
    → line_class key false raw ≡ entry
unfolding line_class classify classify_field
entry-inside key inside raw h = ground arith

entry-nonempty :
    (key : Bytes) (inside : Bool) (raw : Bytes) → line_class key inside raw ≡ entry → 0 < length raw
unfolding line_class classify split_field tag_end line_body trim_blank trim_end_matches
entry-nonempty key inside [] h = cc h
entry-nonempty key inside (c ∷ raw) h = omega arith

module _ (body key : Bytes) where
  AreRegions-le :
      (low high : ℕ) (more : List EntrySite)
      → low ≤ high
      → AreRegions body key high more
      → AreRegions body key low more
  AreRegions-le low high [] h r = tt
  AreRegions-le low high (site ∷ more) h (r, rest) = (
    record {
      low_le = omega (arith, r.low_le);
      nonempty = r.nonempty;
      within = r.within;
      starts = r.starts;
    },
    rest,
  )

  -- A region ends at `to`, where the walk is, or before it at the end of the body.
  closed-regions :
      (low at to : ℕ) (opened : Option (ℕ × ℕ)) (more : List EntrySite)
      → at ≤ to + 1
      → to ≤ length body
      → IsOpen body key low at opened
      → AreRegions body key low more
      → AreRegions body key to more
      → AreRegions body key low (with_site (closed opened to) more)
  unfolding closed
  closed-regions low at to none more near within open_ none_open rest = none_open
  closed-regions low at to (some (from, first)) more near within (low_le, room, starts) none_open
        rest =
      (record { low_le = low_le; nonempty = omega arith; within = within; starts = starts }, rest)

  -- What follows a line: the regions of the lines behind it, whatever region is then open.
  abbrev Behind : ℕ → (Option (ℕ × ℕ) → List EntrySite) → Type 0
  Behind next rest =
      (low : ℕ) (opened : Option (ℕ × ℕ))
      → IsOpen body key low next opened
      → AreRegions body key low (rest opened)

  IsOpen-low : (low at : ℕ) (opened : Option (ℕ × ℕ)) → IsOpen body key low at opened → low ≤ at
  IsOpen-low low at none h = h
  IsOpen-low low at (some o) h = omega arith

  IsOpen-later :
      (low at next : ℕ) (opened : Option (ℕ × ℕ))
      → at ≤ next
      → IsOpen body key low at opened
      → IsOpen body key low next opened
  IsOpen-later low at next none later h = omega arith
  IsOpen-later low at next (some o) later (low_le, room, starts) = (low_le, omega arith, starts)

  module _ (low at index : ℕ) (raw : Bytes) (opened : Option (ℕ × ℕ))
      (rest : Option (ℕ × ℕ) → List EntrySite) (inside : at ≤ length body)
      (same : raw ≡ first_line (drop at body)) (open_here : IsOpen body key low at opened)
      (behind : Behind (at + length raw + 1) rest) where
    -- The line ends the region that is open, and another may be open behind it.
    ending :
        (next : Option (ℕ × ℕ))
        → IsOpen body key at (at + length raw + 1) next
        → AreRegions body key low (with_site (closed opened at) (rest next))
    ending next h =
        let more = behind at next h in
        closed-regions low at at opened (rest next) (omega arith) inside open_here
          (AreRegions-le low at (rest next) (IsOpen-low low at opened open_here) more) more

    passing : AreRegions body key low (rest opened)
    passing =
        behind low opened (IsOpen-later low at (at + length raw + 1) opened (omega arith) open_here)

    line-AreRegions :
        (class : Line)
        → line_class key (is_some opened) raw ≡ class
        → AreRegions body key low (line_regions class at index opened rest)
    unfolding line_regions
    line-AreRegions terminator e =
        closed-regions low at at opened [] (omega arith) inside open_here tt tt
    line-AreRegions entry e = ending (some (at, index)) (
      omega arith,
      omega (arith, entry-nonempty key (is_some opened) raw e),
      rw (← same) (entry-inside key (is_some opened) raw e),
    )
    line-AreRegions narrative e = passing
    line-AreRegions blank e = passing
    line-AreRegions continuation e = passing
    line-AreRegions (field tag value) e = ending none (omega arith)

  regions-AreRegions :
      (low at index : ℕ) (opened : Option (ℕ × ℕ)) (lines : List Bytes)
      → at ≤ length body + 1
      → lines ≡ lines_from body at
      → IsOpen body key low at opened
      → AreRegions body key low (regions key (length body) at index opened lines)
  unfolding regions
  regions-AreRegions low at index opened [] near e open_here =
      closed-regions low at (length body) opened [] near (omega arith) open_here tt tt
  regions-AreRegions low at index opened (raw ∷ lines) near e open_here =
      let here = lines_from-IsLineAt body at raw lines e in
      line-AreRegions low at index raw opened
        (λ o. regions key (length body) (at + length raw + 1) (index + 1) o lines)
        (omega (arith, here.inside)) here.same open_here
        (λ low' o h.
          regions-AreRegions low' (at + length raw + 1) (index + 1) o lines
            (omega (arith, here.inside)) here.behind h)
        (line_class key (is_some opened) raw) refl

-- The regions that the cursor returns lie within the body, are not empty, come one behind the other
-- without overlapping, and each begins with a line that starts an entry.
pub sites-AreRegions : (body key : Bytes) → AreRegions body key 0 (sites body key)
sites-AreRegions body key = rw (sites-regions body key) (
    regions-AreRegions body key 0 0 1 none (split_on b'\n' body) (omega arith)
      (rw (le→ltb_false (length body) 0 (omega arith))) (omega arith))
