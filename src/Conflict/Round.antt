-- ===== src/Conflict/Round.antt =====
-- Printing blocks and parsing them again.
use mathlib.Core.List.{append-nil, append_assoc}
use racemo.Base.{
  ℕ, ◌+◌, ◌≡◌, refl, sym, ap, ◌∙◌, Bool, true, false, List, [], ◌∷◌, ◌++◌, Text, trim,
}
use racemo.Conflict.{
  FileBlock, text, conflict, marker_start, marker_middle, marker_end, part, ParseState, parse_start,
  text_blocks, flush_text, parse_lines, dump_open, parse_blocks, reconstruct_lines,
}
use racemo.Conflict.Scan.{
  Free, start_line, outside, inside, conflict_lines, parse_line-start, parse_lines-text,
  parse_lines-current, parse_lines-conflict,
}

unfoldable pub print_blocks : List FileBlock → List Text
print_blocks [] = []
print_blocks (text ls ∷ bs) = ls ++ print_blocks bs
print_blocks (conflict i c m ∷ bs) =
    conflict_lines c.label c.lines m.label m.lines (print_blocks bs)

-- Text blocks are not empty, hold no start marker and do not follow one another (the flag says that
-- one may come); the conflicts are numbered from n, their labels are trimmed, and no line of theirs
-- begins with the marker that would end its part.
abbrev pub Canonical : Bool → ℕ → List FileBlock → Type 0
Canonical b n [] = Unit
Canonical b n (text [] ∷ bs) = ⊥
Canonical false n (text (l ∷ ls) ∷ bs) = ⊥
Canonical true n (text (l ∷ ls) ∷ bs) = Free marker_start (l ∷ ls) × Canonical false n bs
Canonical b n (conflict i c m ∷ bs) =
    (i ≡ n)
    × (trim c.label ≡ c.label)
    × (trim m.label ≡ m.label)
    × Free marker_middle c.lines
    × Free marker_end m.lines
    × Canonical true (n + 1) bs

abbrev finish : ParseState → List FileBlock
finish s = (flush_text (dump_open s)).blocks

-- A text block may come where nothing is buffered.
abbrev Ready : Bool → List Text → Type 0
Ready true buf = buf ≡ []
Ready false buf = Unit

finish-print_blocks :
    (bs : List FileBlock) (flag : Bool) (blocks : List FileBlock) (buf : List Text) (n : ℕ)
    (c : Bool) (label : Text) (cur inc : List Text)
    → Ready flag buf
    → Canonical flag n bs
    → finish (parse_lines (outside blocks buf n c label cur inc) (print_blocks bs))
      ≡ text_blocks blocks buf ++ bs
unfolding print_blocks
finish-print_blocks [] flag blocks buf n c label cur inc r k =
    unfold parse_lines dump_open flush_text in sym (append-nil (text_blocks blocks buf))
finish-print_blocks (text [] ∷ bs) flag blocks buf n c label cur inc r k = absurd k
finish-print_blocks (text (l ∷ ls) ∷ bs) false blocks buf n c label cur inc r k = absurd k
finish-print_blocks (text (l ∷ ls) ∷ bs) true blocks buf n c label cur inc r (f, k) =
    ap finish (parse_lines-text blocks n label buf c cur inc (l ∷ ls) (print_blocks bs) f)
    ∙ finish-print_blocks bs false blocks (buf ++ l ∷ ls) n c label cur inc tt k
    ∙ rw r (append_assoc blocks (text (l ∷ ls) ∷ []) bs)
finish-print_blocks (conflict i p q ∷ bs) flag blocks buf n c label cur inc r (e, h, h', f, g, k) =
    ap finish (
      parse_lines-conflict blocks buf n c label cur inc p.label q.label p.lines q.lines
        (print_blocks bs) f g)
    ∙ finish-print_blocks bs true _ [] (n + 1) false (trim p.label) p.lines q.lines refl k
    ∙ append_assoc (text_blocks blocks buf) _ bs
    ∙ λ j.
        text_blocks blocks buf ++ conflict (sym e j) (part (h j) p.lines) (part (h' j) q.lines) ∷ bs

-- Canonical blocks, written out with their markers and parsed again, come back unchanged.
pub parse_blocks-print_blocks :
    (bs : List FileBlock) → Canonical true 0 bs → parse_blocks (print_blocks bs) ≡ bs
unfolding parse_blocks
parse_blocks-print_blocks bs k = finish-print_blocks bs true [] [] 0 false [] [] [] refl k

-- A conflict that the file ends in before its middle marker comes back with that marker added: the
-- file that is written holds a line more than the one that was read.
pub reconstruct_unterminated :
    (label : Text) (ls : List Text)
    → trim label ≡ label
    → Free marker_middle ls
    → reconstruct_lines (parse_blocks (start_line label ∷ ls))
      ≡ (start_line label ∷ ls) ++ marker_middle ∷ []
unfolding parse_blocks
reconstruct_unterminated label ls h f =
    ap (λ s. reconstruct_lines (finish s)) run
    ∙ unfold reconstruct_lines dump_open flush_text in rw append-nil
  where
    run : parse_lines parse_start (start_line label ∷ ls) ≡ inside [] 0 true label ls []
    run =
        unfold parse_lines in
        ap (λ s. parse_lines s ls) (parse_line-start [] [] 0 false [] [] [] label)
        ∙ ap (parse_lines (inside [] 0 true (trim label) [] [])) (sym (append-nil ls))
        ∙ parse_lines-current [] 0 (trim label) [] [] ls [] f
        ∙ ap (λ l. inside [] 0 true l ls []) h
