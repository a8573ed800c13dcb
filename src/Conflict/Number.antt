-- ===== src/Conflict/Number.antt =====
-- How the conflicts are numbered.
use mathlib.Core.List.{append-nil}
use racemo.Base.{
  ℕ, zero, suc, ◌+◌, ◌≡◌, refl, sym, ap, ◌∙◌, List, [], ◌∷◌, ◌++◌, arith, length, drop, Text, trim,
}
use racemo.Conflict.{
  Part, part, FileBlock, text, conflict, ParseState, parse_start, text_blocks, flush_text,
  parse_line, parse_lines, dump_open, parse_blocks, count_conflicts,
}

-- The ids of the conflicts, in order.
unfoldable pub conflict_ids : List FileBlock → List ℕ
conflict_ids [] = []
conflict_ids (text ls ∷ bs) = conflict_ids bs
conflict_ids (conflict i c m ∷ bs) = i ∷ conflict_ids bs

unfoldable pub count_up : ℕ → ℕ → List ℕ
count_up from zero = []
count_up from (suc n) = from ∷ count_up (from + 1) n

conflict_ids-append :
    (bs cs : List FileBlock) → conflict_ids (bs ++ cs) ≡ conflict_ids bs ++ conflict_ids cs
unfolding conflict_ids
conflict_ids-append [] cs = refl
conflict_ids-append (text ls ∷ bs) cs = conflict_ids-append bs cs
conflict_ids-append (conflict i c m ∷ bs) cs = ap (i ∷◌) (conflict_ids-append bs cs)

count_up-snoc : (from n : ℕ) → count_up from n ++ (from + n) ∷ [] ≡ count_up from (n + 1)
unfolding count_up
count_up-snoc from zero = ground arith
count_up-snoc from (suc n) = ground (arith, count_up-snoc (from + 1) n)

conflict_ids-text_blocks :
    (bs : List FileBlock) (buf : List Text) → conflict_ids (text_blocks bs buf) ≡ conflict_ids bs
unfolding conflict_ids
conflict_ids-text_blocks bs [] = refl
conflict_ids-text_blocks bs (l ∷ ls) = conflict_ids-append bs _ ∙ append-nil _

length-conflict_ids : (bs : List FileBlock) → count_conflicts bs ≡ length (conflict_ids bs)
unfolding conflict_ids count_conflicts
length-conflict_ids [] = refl
length-conflict_ids (text ls ∷ bs) = length-conflict_ids bs
length-conflict_ids (conflict i c m ∷ bs) = ap suc (length-conflict_ids bs)

length-count_up : (from n : ℕ) → length (count_up from n) ≡ n
unfolding count_up
length-count_up from zero = refl
length-count_up from (suc n) = ap suc (length-count_up (from + 1) n)

abbrev IsNumbered : ParseState → Type 0
IsNumbered s = conflict_ids s.blocks ≡ count_up 0 s.conflict_id

numbered-conflict :
    (bs : List FileBlock) (n : ℕ) (c m : Part)
    → conflict_ids bs ≡ count_up 0 n
    → conflict_ids (bs ++ conflict n c m ∷ []) ≡ count_up 0 (n + 1)
numbered-conflict bs n c m h =
    conflict_ids-append bs _
    ∙ ap (λ l. l ++ conflict_ids (conflict n c m ∷ [])) h
    ∙ unfold conflict_ids in ground (arith, count_up-snoc 0 n)

parse_line-IsNumbered : (s : ParseState) (l : Text) → IsNumbered s → IsNumbered (parse_line s l)
unfolding parse_line flush_text conflict_ids
parse_line-IsNumbered s l h = ground (
  arith,
  conflict_ids-text_blocks s.blocks s.text_buf,
  numbered-conflict s.blocks s.conflict_id (part s.current_label s.current_lines)
      (part (trim (drop 7 l)) s.incoming_lines),
)

parse_lines-IsNumbered :
    (ls : List Text) (s : ParseState) → IsNumbered s → IsNumbered (parse_lines s ls)
unfolding parse_lines
parse_lines-IsNumbered [] s h = h
parse_lines-IsNumbered (l ∷ ls) s h =
    parse_lines-IsNumbered ls (parse_line s l) (parse_line-IsNumbered s l h)

dump_open-IsNumbered : (s : ParseState) → IsNumbered s → IsNumbered (dump_open s)
unfolding dump_open
dump_open-IsNumbered s h = ground arith

-- The conflicts of a parsed file carry the ids 0, 1, 2 and so on, in the order of the file, one for
-- each that `countConflicts` counts.
pub conflict_ids-parse_blocks :
    (ls : List Text) → let bs = parse_blocks ls in conflict_ids bs ≡ count_up 0 (count_conflicts bs)
unfolding parse_blocks
conflict_ids-parse_blocks ls =
    let s = dump_open (parse_lines parse_start ls) in
    let h : conflict_ids (text_blocks s.blocks s.text_buf) ≡ count_up 0 s.conflict_id =
      conflict_ids-text_blocks s.blocks s.text_buf
      ∙ dump_open-IsNumbered (parse_lines parse_start ls)
          (parse_lines-IsNumbered ls parse_start (unfold conflict_ids count_up in refl)) in
    h
    ∙ ap (count_up 0) (
        sym (
          length-conflict_ids (text_blocks s.blocks s.text_buf)
          ∙ ap length h
          ∙ length-count_up 0 s.conflict_id))
