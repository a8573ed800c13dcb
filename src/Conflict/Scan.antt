-- ===== src/Conflict/Scan.antt =====
-- The loop of `parseConflicts` over the parts of a file.
use mathlib.Core.List.{append-nil, append_assoc}
use racemo.Base.{
  ℕ, ◌+◌, ◌≡◌, refl, ap, ◌∙◌, Bool, true, false, List, [], ◌∷◌, ◌++◌, Text, codes, starts_with,
  is_space, trim_start, trim,
}
use racemo.Conflict.{
  FileBlock, conflict, marker_start, marker_middle, marker_end, part, ParseState, text_blocks,
  parse_line, parse_lines,
}

-- No line begins with the marker.
abbrev pub Free : Text → List Text → Type 0
Free m [] = Unit
Free m (l ∷ ls) = (starts_with l m ≡ false) × Free m ls

-- A marker line with a label.
abbrev pub start_line : Text → Text
start_line label = codes "<<<<<<< " ++ label

abbrev pub end_line : Text → Text
end_line label = codes ">>>>>>> " ++ label

-- The loop outside of a conflict, in its current and in its incoming part.
abbrev pub outside :
    List FileBlock → List Text → ℕ → Bool → Text → List Text → List Text → ParseState
outside blocks buf n c label cur inc = record {
  blocks = blocks;
  text_buf = buf;
  conflict_id = n;
  in_conflict = false;
  in_current = c;
  current_label = label;
  current_lines = cur;
  incoming_lines = inc;
}

abbrev pub inside : List FileBlock → ℕ → Bool → Text → List Text → List Text → ParseState
inside blocks n c label cur inc = record {
  blocks = blocks;
  text_buf = [];
  conflict_id = n;
  in_conflict = true;
  in_current = c;
  current_label = label;
  current_lines = cur;
  incoming_lines = inc;
}

module _ (blocks : List FileBlock) (n : ℕ) (label : Text) where
  pub parse_line-text :
      (buf : List Text) (c : Bool) (cur inc : List Text) (l : Text)
      → starts_with l marker_start ≡ false
      → parse_line (outside blocks buf n c label cur inc) l
        ≡ outside blocks (buf ++ l ∷ []) n c label cur inc
  unfolding parse_line
  parse_line-text buf c cur inc l p = rw p

  pub parse_line-current :
      (cur inc : List Text) (l : Text)
      → starts_with l marker_middle ≡ false
      → parse_line (inside blocks n true label cur inc) l
        ≡ inside blocks n true label (cur ++ l ∷ []) inc
  unfolding parse_line
  parse_line-current cur inc l p = rw p

  pub parse_line-incoming :
      (cur inc : List Text) (l : Text)
      → starts_with l marker_end ≡ false
      → parse_line (inside blocks n false label cur inc) l
        ≡ inside blocks n false label cur (inc ++ l ∷ [])
  unfolding parse_line
  parse_line-incoming cur inc l p = rw p

  pub parse_lines-text :
      (buf : List Text) (c : Bool) (cur inc ls rest : List Text)
      → Free marker_start ls
      → parse_lines (outside blocks buf n c label cur inc) (ls ++ rest)
        ≡ parse_lines (outside blocks (buf ++ ls) n c label cur inc) rest
  unfolding parse_lines
  parse_lines-text buf c cur inc [] rest f = rw append-nil
  parse_lines-text buf c cur inc (l ∷ ls) rest (p, f) =
      rw (parse_line-text buf c cur inc l p, parse_lines)
        (rw (append_assoc buf (l ∷ []) ls) at
          (parse_lines-text (buf ++ l ∷ []) c cur inc ls rest f))

  pub parse_lines-current :
      (cur inc ls rest : List Text)
      → Free marker_middle ls
      → parse_lines (inside blocks n true label cur inc) (ls ++ rest)
        ≡ parse_lines (inside blocks n true label (cur ++ ls) inc) rest
  unfolding parse_lines
  parse_lines-current cur inc [] rest f = rw append-nil
  parse_lines-current cur inc (l ∷ ls) rest (p, f) =
      rw (parse_line-current cur inc l p, parse_lines)
        (rw (append_assoc cur (l ∷ []) ls) at (parse_lines-current (cur ++ l ∷ []) inc ls rest f))

  pub parse_lines-incoming :
      (cur inc ls rest : List Text)
      → Free marker_end ls
      → parse_lines (inside blocks n false label cur inc) (ls ++ rest)
        ≡ parse_lines (inside blocks n false label cur (inc ++ ls)) rest
  unfolding parse_lines
  parse_lines-incoming cur inc [] rest f = rw append-nil
  parse_lines-incoming cur inc (l ∷ ls) rest (p, f) =
      rw (parse_line-incoming cur inc l p, parse_lines)
        (rw (append_assoc inc (l ∷ []) ls) at (parse_lines-incoming cur (inc ++ l ∷ []) ls rest f))

trim-space : (l : Text) → trim (32 ∷ l) ≡ trim l
unfolding trim trim_start is_space
trim-space l = refl

pub parse_line-start :
    (blocks : List FileBlock) (buf : List Text) (n : ℕ) (c : Bool) (label0 : Text)
    (cur inc : List Text) (label : Text)
    → parse_line (outside blocks buf n c label0 cur inc) (start_line label)
      ≡ inside (text_blocks blocks buf) n true (trim label) [] []
unfolding parse_line starts_with
parse_line-start blocks buf n c label0 cur inc label = rw (trim-space label)

pub parse_line-end :
    (blocks : List FileBlock) (n : ℕ) (label : Text) (cur inc : List Text) (label' : Text)
    → parse_line (inside blocks n false label cur inc) (end_line label')
      ≡ outside
          (blocks ++ conflict n (part label cur) (part (trim label') inc) ∷ [])
          []
          (n + 1)
          false
          label
          cur
          inc
unfolding parse_line starts_with
parse_line-end blocks n label cur inc label' = rw (trim-space label')

-- The lines of a whole conflict.
abbrev pub conflict_lines : Text → List Text → Text → List Text → List Text → List Text
conflict_lines label cur label' inc rest =
    start_line label ∷ (cur ++ (marker_middle ∷ (inc ++ (end_line label' ∷ rest))))

pub parse_lines-conflict :
    (blocks : List FileBlock) (buf : List Text) (n : ℕ) (c : Bool) (label0 : Text)
    (cur0 inc0 : List Text) (label label' : Text) (cur inc rest : List Text)
    → Free marker_middle cur
    → Free marker_end inc
    → parse_lines
        (outside blocks buf n c label0 cur0 inc0)
        (conflict_lines label cur label' inc rest)
      ≡ parse_lines
          (outside
            (text_blocks blocks buf
              ++ conflict n (part (trim label) cur) (part (trim label') inc) ∷ [])
            []
            (n + 1)
            false
            (trim label)
            cur
            inc)
          rest
unfolding parse_lines
parse_lines-conflict blocks buf n c label0 cur0 inc0 label label' cur inc rest f g =
    let b = text_blocks blocks buf in
    ap (λ s. parse_lines s (cur ++ (marker_middle ∷ (inc ++ (end_line label' ∷ rest)))))
      (parse_line-start blocks buf n c label0 cur0 inc0 label)
    ∙ parse_lines-current b n (trim label) [] [] cur
        (marker_middle ∷ (inc ++ (end_line label' ∷ rest))) f
    ∙ ap (λ s. parse_lines s (inc ++ (end_line label' ∷ rest))) (parse_line-middle b)
    ∙ parse_lines-incoming b n (trim label) cur [] inc (end_line label' ∷ rest) g
    ∙ ap (λ s. parse_lines s rest) (parse_line-end b n (trim label) cur inc label')
  where
    parse_line-middle :
        (b : List FileBlock)
        → parse_line (inside b n true (trim label) cur []) marker_middle
          ≡ inside b n false (trim label) cur []
    parse_line-middle b = unfold parse_line starts_with in refl
