-- ===== src/Conflict/Resolve.antt =====
-- What a reconstructed file holds.
use mathlib.Core.List.{append-nil, append_assoc}
use mathlib.Core.Path.{subst}
use racemo.Base.{
  ℕ, ◌+◌, ◌≡◌, refl, sym, ap, ◌∙◌, inl, inr, Bool, true, false, List, [], ◌∷◌, ◌++◌, if◌then◌else◌,
  Bool-cases, drop, Text, starts_with, trim, split, join, join-split,
}
use racemo.Conflict.{
  FileBlock, text, conflict, marker_start, marker_middle, marker_end, part, ParseState, parse_start,
  text_blocks, flush_text, parse_line, parse_lines, dump_open, parse_blocks, parse_conflicts,
  reconstruct_lines, reconstruct_file,
}
use racemo.Conflict.Scan.{Free, outside, parse_lines-text}

-- The lines outside of conflicts and in their current parts, read off line by line; the two flags
-- say whether a conflict is open and whether its current part is.
unfoldable pub keep_current : Bool → Bool → List Text → List Text
keep_current c d [] = []
keep_current false d (l ∷ ls) =
    let opened = keep_current true true ls in
    let kept = l ∷ keep_current false d ls in if starts_with l marker_start then opened else kept
keep_current true true (l ∷ ls) =
    let passed = keep_current true false ls in
    let kept = l ∷ keep_current true true ls in if starts_with l marker_middle then passed else kept
keep_current true false (l ∷ ls) =
    let closed = keep_current false false ls in
    let skipped = keep_current true false ls in if starts_with l marker_end then closed else skipped

-- What the blocks and buffers of the loop hold of the current side.
abbrev gathered : ParseState → List Text
gathered s = reconstruct_lines s.blocks ++ (if s.in_conflict then s.current_lines else s.text_buf)

reconstruct_lines-append :
    (bs cs : List FileBlock)
    → reconstruct_lines (bs ++ cs) ≡ reconstruct_lines bs ++ reconstruct_lines cs
unfolding reconstruct_lines
reconstruct_lines-append [] cs = refl
reconstruct_lines-append (text ls ∷ bs) cs =
    rw (reconstruct_lines-append bs cs) (sym (append_assoc ls _ _))
reconstruct_lines-append (conflict i c m ∷ bs) cs =
    rw (reconstruct_lines-append bs cs) (sym (append_assoc c.lines _ _))

reconstruct_lines-text_blocks :
    (bs : List FileBlock) (buf : List Text)
    → reconstruct_lines (text_blocks bs buf) ≡ reconstruct_lines bs ++ buf
reconstruct_lines-text_blocks bs [] = sym (append-nil _)
reconstruct_lines-text_blocks bs (l ∷ ls) =
    reconstruct_lines-append bs (text (l ∷ ls) ∷ [])
    ∙ ap (reconstruct_lines bs ++◌) (unfold reconstruct_lines in append-nil (l ∷ ls))

-- One line of the loop, over explicit flags.
abbrev loop :
    List FileBlock → List Text → ℕ → Bool → Bool → Text → List Text → List Text → ParseState
loop blocks buf n inn c label cur inc = record {
  blocks = blocks;
  text_buf = buf;
  conflict_id = n;
  in_conflict = inn;
  in_current = c;
  current_label = label;
  current_lines = cur;
  incoming_lines = inc;
}

via :
    (ls : List Text) {s s' : ParseState} {out : List Text}
    → s ≡ s'
    → (parse_lines s ls).in_conflict ≡ false
    → ((parse_lines s' ls).in_conflict ≡ false → gathered (parse_lines s' ls) ≡ out)
    → gathered (parse_lines s ls) ≡ out
via ls p h k =
    ap (λ t. gathered (parse_lines t ls)) p
    ∙ k (subst (λ t. (parse_lines t ls).in_conflict ≡ false) p h)

reconstruct_lines-conflict :
    (blocks : List FileBlock) (n : ℕ) (label label' : Text) (cur inc : List Text)
    → reconstruct_lines (blocks ++ conflict n (part label cur) (part label' inc) ∷ [])
      ≡ reconstruct_lines blocks ++ cur
reconstruct_lines-conflict blocks n label label' cur inc =
    reconstruct_lines-append blocks _
    ∙ ap (reconstruct_lines blocks ++◌) (unfold reconstruct_lines in append-nil cur)

gathered-parse_lines :
    (ls : List Text) (blocks : List FileBlock) (buf : List Text) (n : ℕ) (inn c : Bool)
    (label : Text) (cur inc : List Text)
    → (inn ≡ true → buf ≡ [])
    → let s = loop blocks buf n inn c label cur inc in
      (parse_lines s ls).in_conflict ≡ false
      → gathered (parse_lines s ls) ≡ gathered s ++ keep_current inn c ls
unfolding parse_lines keep_current
gathered-parse_lines [] blocks buf n inn c label cur inc q h = sym (append-nil _)
gathered-parse_lines (l ∷ ls) blocks buf n false c label cur inc q h =
    elim (Bool-cases (starts_with l marker_start)) [
      | inl e ↦
          via ls {s' = loop (text_blocks blocks buf) [] n true true (trim (drop 7 l)) [] []}
            (unfold parse_line in rw e) h
            (λ h'.
              gathered-parse_lines ls _ [] n true true _ [] [] (λ _. refl) h'
              ∙ rw (e, append-nil, reconstruct_lines-text_blocks))
      | inr e ↦
          via ls {s' = loop blocks (buf ++ l ∷ []) n false c label cur inc}
            (unfold parse_line in rw e) h
            (λ h'.
              gathered-parse_lines ls blocks (buf ++ l ∷ []) n false c label cur inc (λ f. cc) h'
              ∙ rw e (simp append_assoc))
    ]
gathered-parse_lines (l ∷ ls) blocks buf n true true label cur inc q h =
    elim (Bool-cases (starts_with l marker_middle)) [
      | inl e ↦
          via ls {s' = loop blocks buf n true false label cur inc} (unfold parse_line in rw e) h
            (λ h'. gathered-parse_lines ls blocks buf n true false label cur inc q h' ∙ rw e)
      | inr e ↦
          via ls {s' = loop blocks buf n true true label (cur ++ l ∷ []) inc}
            (unfold parse_line in rw e) h
            (λ h'.
              gathered-parse_lines ls blocks buf n true true label (cur ++ l ∷ []) inc q h'
              ∙ rw e (simp append_assoc))
    ]
gathered-parse_lines (l ∷ ls) blocks buf n true false label cur inc q h =
    elim (Bool-cases (starts_with l marker_end)) [
      | inl e ↦
          via ls
            {s' = loop (blocks ++ conflict n (part label cur) (part (trim (drop 7 l)) inc) ∷ []) buf
              (n + 1) false false label cur inc}
            (unfold parse_line in rw e) h
            (λ h'.
              gathered-parse_lines ls _ buf (n + 1) false false label cur inc (λ f. cc) h'
              ∙ rw (e, q refl, append-nil, reconstruct_lines-conflict))
      | inr e ↦
          via ls {s' = loop blocks buf n true false label cur (inc ++ l ∷ [])}
            (unfold parse_line in rw e) h
            (λ h'.
              gathered-parse_lines ls blocks buf n true false label cur (inc ++ l ∷ []) q h' ∙ rw e)
    ]

finish-closed :
    (s : ParseState)
    → s.in_conflict ≡ false
    → reconstruct_lines (flush_text (dump_open s)).blocks ≡ gathered s
unfolding flush_text dump_open
finish-closed s h = rw h (reconstruct_lines-text_blocks s.blocks s.text_buf)

-- Where every conflict of the file is closed, reconstructing the parsed file keeps exactly the lines
-- outside of conflicts and those of the current parts, in their order.
pub reconstruct-keep_current :
    (ls : List Text)
    → (parse_lines parse_start ls).in_conflict ≡ false
    → reconstruct_lines (parse_blocks ls) ≡ keep_current false false ls
unfolding parse_blocks
reconstruct-keep_current ls h =
    finish-closed (parse_lines parse_start ls) h
    ∙ gathered-parse_lines ls [] [] 0 false false [] [] [] (λ f. cc) h
    ∙ unfold reconstruct_lines in refl

parse_lines-Free :
    (ls : List Text)
    → Free marker_start ls
    → parse_lines parse_start ls ≡ outside [] ls 0 false [] [] []
parse_lines-Free ls f =
    ap (parse_lines parse_start) (sym (append-nil ls))
    ∙ parse_lines-text [] 0 [] [] false [] [] ls [] f
    ∙ unfold parse_lines in refl

-- A file without a start marker is written back as it was read.
pub reconstruct_file-parse_conflicts :
    (content : Text)
    → Free marker_start (split b'\n' content)
    → reconstruct_file (parse_conflicts content) ≡ content
unfolding reconstruct_file parse_conflicts parse_blocks
reconstruct_file-parse_conflicts content f =
    let ls = split b'\n' content in
    ap (λ s. join b'\n' (reconstruct_lines (flush_text (dump_open s)).blocks))
      (parse_lines-Free ls f)
    ∙ ap (join b'\n') (finish-closed (outside [] ls 0 false [] [] []) refl)
    ∙ unfold reconstruct_lines in join-split b'\n' content
