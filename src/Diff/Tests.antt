-- ===== src/Diff/Tests.antt =====
-- Runs of the parsers of diffs, and the theorems at a concrete diff.
use racemo.Base.{
  ◌≡◌, refl, true, none, some, List, [], ◌∷◌, map, get_elem?, Text, codes, starts_with, split, find,
}
use racemo.Diff.{
  DiffLine, StructureHunk, match_header, add_line, push_current, structure_line, unified_line,
  structure_lines, structure_start, unified_lines, unified_start, find_struct_hunk,
  parse_structure_hunks,
}
use racemo.Diff.Numbers.{BodyLine, keeps, removes, inserts, print_line, AllPlain}
use racemo.Diff.Hunks.{hunk_of, find_struct_hunk-row}

abbrev header : Text
header = codes "@@ -3,2 +12 @@ f()"

abbrev body : List BodyLine
body = keeps (codes "a") ∷ removes (codes "b") ∷ inserts (codes "c") ∷ []

header_read : match_header header ≡ some (3, 12)
unfolding match_header starts_with
header_read = refl

header_at : starts_with header (codes "@@") ≡ true
unfolding starts_with
header_at = refl

body-AllPlain : AllPlain body
unfolding starts_with
body-AllPlain = (tt, (refl, (refl, tt)))

one_hunk : parse_structure_hunks (codes "x") ≡ []
unfolding parse_structure_hunks structure_line split starts_with
one_hunk = refl

abbrev added : DiffLine
added = record { old_num = none; new_num = some 13; content = codes "c"; kind = add_line }

added_row :
    get_elem? (unified_lines unified_start (header ∷ map print_line body)).lines 2 ≡ some added
unfolding unified_lines unified_line match_header starts_with
added_row = refl

find_struct_hunk-row_example :
    let hunks =
      (push_current (structure_lines structure_start (header ∷ map print_line body))).hunks in
    (hunks ≡ hunk_of 0 3 12 body ∷ [])
    × (find_struct_hunk hunks none (some 13) ≡ some (hunk_of 0 3 12 body))
find_struct_hunk-row_example =
    find_struct_hunk-row header 3 12 body 2 {d = added} header_at header_read refl body-AllPlain
      added_row

abbrev first_hunk : StructureHunk
first_hunk = record { hunk_index = 0; old_start = 3; old_end = 5; new_start = 12; new_end = 14 }

found_by_new : find_struct_hunk (first_hunk ∷ []) none (some 13) ≡ some first_hunk
unfolding find_struct_hunk find
found_by_new = refl
