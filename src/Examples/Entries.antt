-- ===== src/Examples/Entries.antt =====
-- A statement body, its fields and its entries.
use quackiso.Base.{◌≡◌, refl, reverse, [], ◌∷◌, Bytes, codes, none, some, length}
use quackiso.Text.{split_on, first_line}
use quackiso.Text.Trim.{trim, trim_blank, trim_end_matches}
use quackiso.Mt.Line.{classify, classify_field, split_field, tag_end, matches_key, line_body}
use quackiso.Mt.Fields.{
  without_entries, walk, walk_line, new_field, extend_last, extend_field, find_last, find, values,
  all, all_in, get_range, sequences, starts, ranges, position, matches_any, Field,
}
use quackiso.Mt.Entries.{sites, collect, next_site, loop, after_round, next_round, round, closed}
use quackiso.Mt.Entries.Regions.{regions, sites-regions}
use quackiso.Mt.Entries.Count.{length-sites}
use quackiso.Mt.Entries.Order.{AreRegions, sites-AreRegions}

abbrev body : Bytes
body = codes ":20:REF\r\n:61:a\n more\n:86:x\n:61:b\n:62F:c\n:86:foot\nnote\n-}junk"

abbrev entry_key : Bytes
entry_key = codes "61"

abbrev found : Field × Field × Field
found = (
  record { tag = codes "20"; value = codes "REF"; line = 1 },
  record { tag = codes "62F"; value = codes "c"; line = 6 },
  record { tag = codes "86"; value = codes "footnote"; line = 7 },
)

fields_and_count : without_entries body entry_key ≡ (found.0 ∷ found.1 ∷ found.2 ∷ [], 2)
unfolding without_entries walk walk_line new_field extend_last extend_field classify classify_field
    split_field tag_end matches_key line_body trim_blank trim_end_matches trim split_on
fields_and_count = refl

two_sites :
    sites body entry_key
    ≡ record { from = 9; to = 27; line = 2 } ∷ record { from = 27; to = 33; line = 5 } ∷ []
unfolding sites collect next_site loop after_round next_round round closed classify classify_field
    split_field tag_end matches_key line_body trim_blank trim_end_matches first_line
two_sites = refl

repeated :
    (find_last (found.0 ∷ found.1 ∷ found.2 ∷ []) (codes "86") ≡ some found.2)
    × (sequences (found.0 ∷ found.1 ∷ found.2 ∷ []) (codes "62F") ≡ (1, 3) ∷ [])
    × (all (found.0 ∷ found.1 ∷ found.2 ∷ []) (codes "62") ≡ codes "c" ∷ [])
    × (position (found.0 ∷ found.1 ∷ found.2 ∷ []) (codes "86" ∷ codes "62" ∷ []) ≡ some 1)
unfolding find_last find matches_key sequences starts ranges all all_in get_range values position
    matches_any reverse
repeated = (refl, refl, refl, refl)

sites-regions_example :
    sites body entry_key ≡ regions entry_key (length body) 0 1 none (split_on b'\n' body)
sites-regions_example = sites-regions body entry_key

length-sites_example : length (sites body entry_key) ≡ (without_entries body entry_key).1
length-sites_example = length-sites body entry_key

sites-AreRegions_example : AreRegions body entry_key 0 (sites body entry_key)
sites-AreRegions_example = sites-AreRegions body entry_key
