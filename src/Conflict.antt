-- ===== src/Conflict.antt =====
-- Files with conflict markers (src/lib/conflictParser.ts).
pub mod Scan
pub mod Round
pub mod Resolve
pub mod Number
pub mod Tests
use racemo.Base.{
  ℕ, suc, ◌+◌, ◌<◌, Bool, true, false, not, ◌&&◌, List, [], ◌∷◌, ◌++◌, ◌==◌, if◌then◌else◌, drop,
  Text, codes, starts_with, trim, split, join,
}

pub record Part : Type 0 where
  pub label : Text
  pub lines : List Text

pub data FileBlock : Type 0 where
  text : List Text → FileBlock
  conflict : (id : ℕ) (current incoming : Part) → FileBlock

abbrev pub marker_start : Text
marker_start = codes "<<<<<<<"

abbrev pub marker_middle : Text
marker_middle = codes "======="

abbrev pub marker_end : Text
marker_end = codes ">>>>>>>"

abbrev pub part : Text → List Text → Part
part l ls = record { label = l; lines = ls }

-- The variables of the loop of `parseConflicts`.
pub record ParseState : Type 0 where
  pub blocks : List FileBlock
  pub text_buf : List Text
  pub conflict_id : ℕ
  pub in_conflict : Bool
  pub in_current : Bool
  pub current_label : Text
  pub current_lines : List Text
  pub incoming_lines : List Text

abbrev pub parse_start : ParseState
parse_start = record {
  blocks = [];
  text_buf = [];
  conflict_id = 0;
  in_conflict = false;
  in_current = false;
  current_label = [];
  current_lines = [];
  incoming_lines = [];
}

-- `flushText`
abbrev pub text_blocks : List FileBlock → List Text → List FileBlock
text_blocks blocks [] = blocks
text_blocks blocks (l ∷ ls) = blocks ++ text (l ∷ ls) ∷ []

unfoldable pub flush_text : ParseState → ParseState
flush_text s = record s { blocks = text_blocks s.blocks s.text_buf; text_buf = [] }

unfoldable pub parse_line : ParseState → Text → ParseState
unfolding flush_text
parse_line s line =
    if not s.in_conflict && starts_with line marker_start
    then record (flush_text s) {
      in_conflict = true;
      in_current = true;
      current_label = trim (drop 7 line);
      current_lines = [];
      incoming_lines = [];
    }
    else if s.in_conflict && s.in_current && starts_with line marker_middle
    then record s { in_current = false }
    else if s.in_conflict && not s.in_current && starts_with line marker_end
    then record s {
      blocks =
          s.blocks
          ++ conflict s.conflict_id (part s.current_label s.current_lines)
              (part (trim (drop 7 line)) s.incoming_lines)
            ∷ [];
      conflict_id = s.conflict_id + 1;
      in_conflict = false;
    }
    else if s.in_conflict
    then (if s.in_current
        then record s { current_lines = s.current_lines ++ line ∷ [] }
        else record s { incoming_lines = s.incoming_lines ++ line ∷ [] })
    else record s { text_buf = s.text_buf ++ line ∷ [] }

unfoldable pub parse_lines : ParseState → List Text → ParseState
parse_lines s [] = s
parse_lines s (l ∷ ls) = parse_lines (parse_line s l) ls

-- An unterminated conflict is dumped as text.
unfoldable pub dump_open : ParseState → ParseState
dump_open s =
    if s.in_conflict
    then record s {
      text_buf =
          s.text_buf
          ++ ((codes "<<<<<<< " ++ s.current_label)
              ∷ (s.current_lines ++ (marker_middle ∷ s.incoming_lines)));
    }
    else s

unfoldable pub parse_blocks : List Text → List FileBlock
unfolding parse_lines parse_line dump_open flush_text
parse_blocks raw_lines = (flush_text (dump_open (parse_lines parse_start raw_lines))).blocks

unfoldable pub parse_conflicts : Text → List FileBlock
unfolding parse_blocks
parse_conflicts content = parse_blocks (split b'\n' content)

unfoldable pub count_conflicts : List FileBlock → ℕ
count_conflicts [] = 0
count_conflicts (text ls ∷ bs) = count_conflicts bs
count_conflicts (conflict i c n ∷ bs) = suc (count_conflicts bs)

unfoldable pub reconstruct_lines : List FileBlock → List Text
reconstruct_lines [] = []
reconstruct_lines (text ls ∷ bs) = ls ++ reconstruct_lines bs
reconstruct_lines (conflict i c n ∷ bs) = c.lines ++ reconstruct_lines bs

unfoldable pub reconstruct_file : List FileBlock → Text
unfolding reconstruct_lines
reconstruct_file blocks = join b'\n' (reconstruct_lines blocks)
