-- ===== src/Diff/Hunks.antt =====
-- The ranges of the hunks, and that the lines of a hunk are found in its range.
use racemo.Base.{
  ℕ, zero, suc, ◌+◌, ◌-◌, ◌≤◌, ◌<◌, ◌≡◌, refl, ap, ◌∙◌, ◌⊎◌, inl, inr, Bool, true, ◌||◌, Option,
  none, some, List, [], ◌∷◌, ◌++◌, map, arith, ltb, Bool-cases, Option-cases, get_elem?, Text,
  codes, starts_with, find,
}
use racemo.Diff.{
  DiffLine, StructureHunk, match_header, StructureState, push_current, open_hunk, structure_line,
  structure_lines, structure_start, unified_lines, unified_start, in_old, in_new, find_by,
  find_struct_hunk,
}
use racemo.Diff.Numbers.{
  BodyLine, keeps, removes, inserts, print_line, AllPlain, olds, news, numbered, unified_lines-hunk,
}

structure_lines-body :
    (bs : List BodyLine) (s : StructureState)
    → structure_lines s (map print_line bs)
      ≡ record s { old_line = s.old_line + olds bs; new_line = s.new_line + news bs }
unfolding structure_lines structure_line olds news starts_with
structure_lines-body [] s = ground arith
structure_lines-body (keeps t ∷ bs) s =
    structure_lines-body bs (record s { old_line = s.old_line + 1; new_line = s.new_line + 1 })
    ∙ ground arith
structure_lines-body (removes t ∷ bs) s =
    structure_lines-body bs (record s { old_line = s.old_line + 1 }) ∙ ground arith
structure_lines-body (inserts t ∷ bs) s =
    structure_lines-body bs (record s { new_line = s.new_line + 1 }) ∙ ground arith

abbrev pub hunk_of : ℕ → ℕ → ℕ → List BodyLine → StructureHunk
hunk_of i o n bs = record {
  hunk_index = i;
  old_start = o;
  old_end = o + olds bs;
  new_start = n;
  new_end = n + news bs;
}

next-push_current : (s : StructureState) → (push_current s).next ≡ s.next
unfolding push_current
next-push_current s = ground arith

hunks-push_current :
    (s : StructureState) (old_line new_line o n : ℕ)
    → (push_current (record s {
      next = s.next + 1;
      old_line = old_line;
      new_line = new_line;
      old_start = o;
      new_start = n;
    })).hunks
      ≡ s.hunks
        ++ record {
          hunk_index = s.next;
          old_start = o;
          old_end = old_line;
          new_start = n;
          new_end = new_line;
        }
          ∷ []
unfolding push_current
hunks-push_current s old_line new_line o n =
    let e : ltb 0 (s.next + 1) ≡ true = ground arith in
    let q : s.next + 1 - 1 ≡ s.next = omega arith in rw (e, q)

-- A hunk that is read behind others is added behind them with the next index, and its ranges are as
-- long as the old and the new lines of its body.
pub structure_lines-hunk :
    (header : Text) (o n : ℕ) (bs : List BodyLine) (s : StructureState)
    → starts_with header (codes "@@") ≡ true
    → match_header header ≡ some (o, n)
    → (push_current (structure_lines s (header ∷ map print_line bs))).hunks
      ≡ (push_current s).hunks ++ hunk_of s.next o n bs ∷ []
unfolding structure_lines structure_line open_hunk push_current
structure_lines-hunk header o n bs s e m =
    ap (λ (u : StructureState). (push_current u).hunks)
      (ap (λ (u : StructureState). structure_lines u (map print_line bs))
          (rw (e, m, structure_line))
        ∙ structure_lines-body bs (open_hunk (some (o, n)) (push_current s)))
    ∙ hunks-push_current (push_current s) (o + olds bs) (n + news bs) o n
    ∙ ap (λ i. (push_current s).hunks ++ hunk_of i o n bs ∷ []) (next-push_current s)

-- The row is found in the hunk.
abbrev Found : StructureHunk → DiffLine → Type 0
Found h d = find_struct_hunk (h ∷ []) d.old_num d.new_num ≡ some h

Found-row :
    (h : StructureHunk) (x : DiffLine) {d : DiffLine} → Found h x → some x ≡ some d → Found h d
Found-row h x {d} f e = let q : x ≡ d = cc in rw (← q) f

found-old :
    (h : StructureHunk) (k : ℕ) (m : Option ℕ)
    → in_old k h ≡ true
    → find_struct_hunk (h ∷ []) (some k) m ≡ some h
unfolding find_struct_hunk find
found-old h k m e = rw (e, find_struct_hunk)

found-new :
    (h : StructureHunk) (k : ℕ)
    → in_new k h ≡ true
    → find_struct_hunk (h ∷ []) none (some k) ≡ some h
unfolding find_struct_hunk find
found-new h k e = rw (e, find_struct_hunk)

numbered-Found :
    (bs : List BodyLine) (i o n o' n' o_end n_end k : ℕ) {d : DiffLine}
    → o ≤ o'
    → n ≤ n'
    → o' + olds bs ≤ o_end
    → n' + news bs ≤ n_end
    → get_elem? (numbered o' n' bs) k ≡ some d
    → Found
        (record { hunk_index = i; old_start = o; old_end = o_end; new_start = n; new_end = n_end })
        d
unfolding numbered olds news find_struct_hunk find
numbered-Found [] i o n o' n' oe ne k p q r t e = cc
numbered-Found (keeps x ∷ bs) i o n o' n' oe ne zero {d} p q r t e =
    Found-row _ _ {d = d}
      (found-old
        (record { hunk_index = i; old_start = o; old_end = oe; new_start = n; new_end = ne }) o'
        (some n') (ground arith))
      e
numbered-Found (removes x ∷ bs) i o n o' n' oe ne zero {d} p q r t e =
    Found-row _ _ {d = d}
      (found-old
        (record { hunk_index = i; old_start = o; old_end = oe; new_start = n; new_end = ne }) o'
        none (ground arith))
      e
numbered-Found (inserts x ∷ bs) i o n o' n' oe ne zero {d} p q r t e =
    Found-row _ _ {d = d}
      (found-new
        (record { hunk_index = i; old_start = o; old_end = oe; new_start = n; new_end = ne }) n'
        (ground arith))
      e
numbered-Found (keeps x ∷ bs) i o n o' n' oe ne (suc k) p q r t e =
    numbered-Found bs i o n (o' + 1) (n' + 1) oe ne k (omega arith) (omega arith) (omega arith)
      (omega arith) e
numbered-Found (removes x ∷ bs) i o n o' n' oe ne (suc k) p q r t e =
    numbered-Found bs i o n (o' + 1) n' oe ne k (omega arith) (omega arith) (omega arith)
      (omega arith) e
numbered-Found (inserts x ∷ bs) i o n o' n' oe ne (suc k) p q r t e =
    numbered-Found bs i o n o' (n' + 1) oe ne k (omega arith) (omega arith) (omega arith)
      (omega arith) e

-- For the diff of one hunk, with a header that gives a start other than 0, 0 and a body in which no
-- removed or added line looks like the header of a file, both parsers agree: there is one range, as
-- long as the old and the new lines of the body, and every row of the hunk is found in it, by its old
-- number or else by its new one.
pub find_struct_hunk-row :
    (header : Text) (o n : ℕ) (bs : List BodyLine) (k : ℕ) {d : DiffLine}
    → starts_with header (codes "@@") ≡ true
    → match_header header ≡ some (o, n)
    → (ltb 0 o || ltb 0 n) ≡ true
    → AllPlain bs
    → get_elem? (unified_lines unified_start (header ∷ map print_line bs)).lines k ≡ some d
    → let hunks =
        (push_current (structure_lines structure_start (header ∷ map print_line bs))).hunks in
      (hunks ≡ hunk_of 0 o n bs ∷ [])
      × (find_struct_hunk hunks d.old_num d.new_num ≡ some (hunk_of 0 o n bs))
find_struct_hunk-row header o n bs k {d} e m z p g =
    let q = structure_lines-hunk header o n bs structure_start e m in
    (
      q ∙ unfold push_current in refl,
      ap (λ hs. find_struct_hunk hs d.old_num d.new_num) q
          ∙ unfold push_current in
            numbered-Found bs 0 o n o n (o + olds bs) (n + news bs) k {d = d} (omega arith)
              (omega arith) (omega arith) (omega arith)
              (rw (unified_lines-hunk header o n bs unified_start e m z p) at g),
    )

find_sound :
    (t : StructureHunk → Bool) (hs : List StructureHunk) {h : StructureHunk}
    → find t hs ≡ some h
    → t h ≡ true
unfolding find
find_sound t [] e = cc
find_sound t (x ∷ hs) {h} e = elim (Bool-cases (t x)) [
  | inl q ↦ let r : some x ≡ some h = rw (q, find) at e in let s : x ≡ h = cc in rw (← s) q
  | inr q ↦ find_sound t hs {h = h} (rw (q, find) at e)
]

find_by_sound :
    (t : ℕ → StructureHunk → Bool) (hs : List StructureHunk) (o : Option ℕ) {h : StructureHunk}
    → find_by t hs o ≡ some h
    → (k : ℕ) × (o ≡ some k) × (t k h ≡ true)
find_by_sound t hs none e = absurd (ground arith)
find_by_sound t hs (some k) {h} e = (k, refl, find_sound (t k) hs {h = h} e)

-- A hunk that is Found holds the old line, or the new line.
pub find_struct_hunk_sound :
    (hs : List StructureHunk) (o n : Option ℕ) {h : StructureHunk}
    → find_struct_hunk hs o n ≡ some h
    → ((k : ℕ) × (o ≡ some k) × (h.old_start ≤ k) × (k < h.old_end))
      ⊎ ((k : ℕ) × (n ≡ some k) × (h.new_start ≤ k) × (k < h.new_end))
unfolding find_struct_hunk
find_struct_hunk_sound hs o n {h} e = elim (Option-cases (find_by in_old hs o)) [
  | inl q ↦
      let (k, r, t) = find_by_sound in_new hs n {h = h} (rw (q, find_struct_hunk) at e) in
      inr (k, r, ground arith, ground arith)
  | inr (x, q) ↦
      let w : some x ≡ some h = rw (q, find_struct_hunk) at e in
      let (k, r, t) = find_by_sound in_old hs o {h = h} (cc) in
      inl (k, r, ground arith, ground arith)
]
