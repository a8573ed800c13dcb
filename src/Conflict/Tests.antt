-- ===== src/Conflict/Tests.antt =====
-- Runs of the parser, and the theorems at concrete files.
use racemo.Base.{◌≡◌, refl, true, List, [], ◌∷◌, Text, codes, starts_with, is_space, trim, split}
use racemo.Conflict.{
  FileBlock, text, conflict, part, parse_blocks, parse_conflicts, reconstruct_file,
}
use racemo.Conflict.Round.{print_blocks, Canonical, parse_blocks-print_blocks}
use racemo.Conflict.Resolve.{reconstruct_file-parse_conflicts}

abbrev merged : List Text
merged =
    codes "a"
    ∷ codes "<<<<<<< HEAD"
    ∷ codes "b"
    ∷ codes "======="
    ∷ codes "c"
    ∷ codes ">>>>>>> topic"
    ∷ codes "d"
    ∷ []

abbrev merged_blocks : List FileBlock
merged_blocks =
    text (codes "a" ∷ [])
    ∷ conflict 0 (part (codes "HEAD") (codes "b" ∷ [])) (part (codes "topic") (codes "c" ∷ []))
    ∷ text (codes "d" ∷ [])
    ∷ []

parse_merged : parse_blocks merged ≡ merged_blocks
unfolding parse_blocks starts_with trim is_space
parse_merged = refl

merged-Canonical : Canonical true 0 merged_blocks
unfolding starts_with trim is_space
merged-Canonical = ((refl, tt), (refl, refl, refl, (refl, tt), (refl, tt), ((refl, tt), tt)))

parse_blocks-print_blocks_example : parse_blocks (print_blocks merged_blocks) ≡ merged_blocks
parse_blocks-print_blocks_example = parse_blocks-print_blocks merged_blocks merged-Canonical

reconstruct_file-parse_conflicts_example :
    reconstruct_file (parse_conflicts (codes "ab")) ≡ codes "ab"
unfolding split starts_with
reconstruct_file-parse_conflicts_example = reconstruct_file-parse_conflicts (codes "ab") (refl, tt)
