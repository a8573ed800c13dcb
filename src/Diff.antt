-- ===== src/Diff.antt =====
-- The parsing of diffs (src/components/Sidebar/DiffViewer/types.ts and parsing.ts).
-- Line numbers are exact here; in the source they are doubles.
pub mod Numbers
pub mod Hunks
pub mod Tests
use racemo.Base.{
  ℕ, ◌+◌, ◌-◌, ◌*◌, Bool, false, not, ◌&&◌, ◌||◌, Option, none, some, List, [], ◌∷◌, ◌++◌, ltb, leb,
  ◌==◌, if◌then◌else◌, drop, Text, codes, starts_with, split, find,
}

pub data LineType : Type 0 where
  context_line add_line remove_line : LineType

pub record DiffLine : Type 0 where
  pub old_num : Option ℕ
  pub new_num : Option ℕ
  pub content : Text
  pub kind : LineType

pub record StructureHunk : Type 0 where
  pub hunk_index : ℕ
  pub old_start : ℕ
  pub old_end : ℕ
  pub new_start : ℕ
  pub new_end : ℕ

-- The parts of `/@@ -(\d+)(?:,\d+)? \+(\d+)(?:,\d+)? @@/`; `\d+` is greedy and what follows it is no
-- digit, so there is nothing to try again.
abbrev pub digit : ℕ → Bool
digit c = leb b'0' c && leb c b'9'

unfoldable pub digits_end : Text → Text
digits_end [] = []
digits_end (c ∷ s) = let rest = digits_end s in if digit c then rest else c ∷ s

unfoldable pub decimal : ℕ → Text → ℕ
decimal acc [] = acc
decimal acc (c ∷ s) = let rest = decimal (10 * acc + (c - b'0')) s in if digit c then rest else acc

abbrev pub starts_with_digit : Text → Bool
starts_with_digit [] = false
starts_with_digit (c ∷ s) = digit c

abbrev pub skip_count : Text → Text
skip_count [] = []
skip_count (c ∷ s) = if c == b',' && starts_with_digit s then digits_end s else c ∷ s

-- The two numbers of a header that begins here.
unfoldable pub header_here : Text → Option (ℕ × ℕ)
unfolding digits_end decimal
header_here s =
    let t = drop 4 s in
    let u = skip_count (digits_end t) in
    let v = drop 2 u in
    let w = skip_count (digits_end v) in
    if starts_with s (codes "@@ -")
      && starts_with_digit t
      && starts_with u (codes " +")
      && starts_with_digit v
      && starts_with w (codes " @@")
    then some (decimal 0 t, decimal 0 v)
    else none

-- `line.match`, at the first place that fits.
unfoldable pub match_header : Text → Option (ℕ × ℕ)
unfolding header_here
match_header [] = none
match_header (c ∷ s) = elim (header_here (c ∷ s)) [ none ↦ match_header s | some p ↦ some p ]

pub record UnifiedState : Type 0 where
  pub lines : List DiffLine
  pub old_num : ℕ
  pub new_num : ℕ

unfoldable pub at_header : Option (ℕ × ℕ) → UnifiedState → UnifiedState
at_header none s = s
at_header (some (o, n)) s = record s { old_num = o; new_num = n }

unfoldable pub at_removed : Text → UnifiedState → UnifiedState
at_removed line s = record s {
  lines =
      s.lines
      ++ record {
        old_num = some s.old_num;
        new_num = none;
        content = drop 1 line;
        kind = remove_line;
      }
        ∷ [];
  old_num = s.old_num + 1;
}

unfoldable pub at_added : Text → UnifiedState → UnifiedState
at_added line s = record s {
  lines =
      s.lines
      ++ record { old_num = none; new_num = some s.new_num; content = drop 1 line; kind = add_line }
        ∷ [];
  new_num = s.new_num + 1;
}

unfoldable pub at_context : Text → UnifiedState → UnifiedState
at_context line s =
    let content = if starts_with line (codes " ") then drop 1 line else line in
    if ltb 0 s.old_num || ltb 0 s.new_num
    then record {
      lines =
          s.lines
          ++ record {
            old_num = some s.old_num;
            new_num = some s.new_num;
            content = content;
            kind = context_line;
          }
            ∷ [];
      old_num = s.old_num + 1;
      new_num = s.new_num + 1;
    }
    else s

-- One round of the loop of `parseUnifiedLines`.
unfoldable pub unified_line : UnifiedState → Text → UnifiedState
unfolding match_header at_header at_removed at_added at_context
unified_line s line =
    if starts_with line (codes "@@")
    then at_header (match_header line) s
    else if starts_with line (codes "---")
        || starts_with line (codes "+++")
        || starts_with line (codes "diff ")
        || starts_with line (codes "index ")
    then s
    else if starts_with line (codes "-")
    then at_removed line s
    else if starts_with line (codes "+")
    then at_added line s
    else at_context line s

unfoldable pub unified_lines : UnifiedState → List Text → UnifiedState
unified_lines s [] = s
unified_lines s (l ∷ ls) = unified_lines (unified_line s l) ls

abbrev pub unified_start : UnifiedState
unified_start = record { lines = []; old_num = 0; new_num = 0 }

unfoldable pub parse_unified_lines : Text → List DiffLine
unfolding unified_lines
parse_unified_lines raw = (unified_lines unified_start (split 10 raw)).lines

-- `idx` counts from -1 in the source; here `next` is `idx + 1`.
pub record StructureState : Type 0 where
  pub hunks : List StructureHunk
  pub next : ℕ
  pub old_line : ℕ
  pub new_line : ℕ
  pub old_start : ℕ
  pub new_start : ℕ

unfoldable pub push_current : StructureState → StructureState
push_current s =
    let hunk : StructureHunk = record {
      hunk_index = s.next - 1;
      old_start = s.old_start;
      old_end = s.old_line;
      new_start = s.new_start;
      new_end = s.new_line;
    } in
    if ltb 0 s.next then record s { hunks = s.hunks ++ hunk ∷ [] } else s

unfoldable pub open_hunk : Option (ℕ × ℕ) → StructureState → StructureState
open_hunk none s = record s { next = s.next + 1 }
open_hunk (some (o, n)) s = record s {
  next = s.next + 1;
  old_start = o;
  old_line = o;
  new_start = n;
  new_line = n;
}

-- One round of the loop of `parseStructureHunks`.
unfoldable pub structure_line : StructureState → Text → StructureState
unfolding match_header push_current open_hunk
structure_line s line =
    if starts_with line (codes "@@")
    then open_hunk (match_header line) (push_current s)
    else if starts_with line (codes "-")
    then record s { old_line = s.old_line + 1 }
    else if starts_with line (codes "+")
    then record s { new_line = s.new_line + 1 }
    else if not (starts_with line (codes "diff "))
        && not (starts_with line (codes "index "))
        && not (starts_with line (codes "---"))
        && not (starts_with line (codes "+++"))
    then record s { old_line = s.old_line + 1; new_line = s.new_line + 1 }
    else s

unfoldable pub structure_lines : StructureState → List Text → StructureState
structure_lines s [] = s
structure_lines s (l ∷ ls) = structure_lines (structure_line s l) ls

abbrev pub structure_start : StructureState
structure_start = record {
  hunks = [];
  next = 0;
  old_line = 0;
  new_line = 0;
  old_start = 0;
  new_start = 0;
}

unfoldable pub parse_structure_hunks : Text → List StructureHunk
unfolding structure_lines push_current
parse_structure_hunks raw = (push_current (structure_lines structure_start (split 10 raw))).hunks

abbrev pub in_old : ℕ → StructureHunk → Bool
in_old k h = leb h.old_start k && ltb k h.old_end

abbrev pub in_new : ℕ → StructureHunk → Bool
in_new k h = leb h.new_start k && ltb k h.new_end

abbrev pub find_by :
    (ℕ → StructureHunk → Bool) → List StructureHunk → Option ℕ → Option StructureHunk
find_by test hunks none = none
find_by test hunks (some k) = find (test k) hunks

unfoldable pub find_struct_hunk : List StructureHunk → Option ℕ → Option ℕ → Option StructureHunk
find_struct_hunk hunks old_line_num new_line_num = elim (find_by in_old hunks old_line_num) [
  | none ↦ find_by in_new hunks new_line_num
  | some h ↦ some h
]
