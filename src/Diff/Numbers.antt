-- ===== src/Diff/Numbers.antt =====
-- The lines of a hunk and their numbers.
use mathlib.Core.List.{append-nil, append_assoc}
use racemo.Base.{
  ℕ, ◌+◌, ◌≡◌, refl, ap, ◌∙◌, ◌⊎◌, inl, inr, true, false, ◌||◌, none, some, List, [], ◌∷◌, ◌++◌,
  map, arith, ltb, Text, codes, starts_with,
}
use racemo.Diff.{
  context_line, add_line, remove_line, DiffLine, match_header, at_header, at_removed, at_added,
  at_context, UnifiedState, unified_line, unified_lines,
}

-- A line of a hunk, and how `git diff` prints it.
pub data BodyLine : Type 0 where
  keeps removes inserts : Text → BodyLine

abbrev pub print_line : BodyLine → Text
print_line (keeps t) = b' ' ∷ t
print_line (removes t) = b'-' ∷ t
print_line (inserts t) = b'+' ∷ t

-- The text of the line does not make it look like the header of a file.
abbrev pub IsPlain : BodyLine → Type 0
IsPlain (keeps t) = Unit
IsPlain (removes t) = starts_with t (codes "--") ≡ false
IsPlain (inserts t) = starts_with t (codes "++") ≡ false

abbrev pub AllPlain : List BodyLine → Type 0
AllPlain [] = Unit
AllPlain (b ∷ bs) = IsPlain b × AllPlain bs

-- The old and the new lines that a body takes.
unfoldable pub olds : List BodyLine → ℕ
olds [] = 0
olds (keeps t ∷ bs) = 1 + olds bs
olds (removes t ∷ bs) = 1 + olds bs
olds (inserts t ∷ bs) = olds bs

unfoldable pub news : List BodyLine → ℕ
news [] = 0
news (keeps t ∷ bs) = 1 + news bs
news (removes t ∷ bs) = news bs
news (inserts t ∷ bs) = 1 + news bs

-- The rows that stand for a body that begins at the old line o and the new line n.
unfoldable pub numbered : ℕ → ℕ → List BodyLine → List DiffLine
numbered o n [] = []
numbered o n (keeps t ∷ bs) =
    record { old_num = some o; new_num = some n; content = t; kind = context_line }
    ∷ numbered (o + 1) (n + 1) bs
numbered o n (removes t ∷ bs) =
    record { old_num = some o; new_num = none; content = t; kind = remove_line }
    ∷ numbered (o + 1) n bs
numbered o n (inserts t ∷ bs) =
    record { old_num = none; new_num = some n; content = t; kind = add_line }
    ∷ numbered o (n + 1) bs

abbrev pub unified : List DiffLine → ℕ → ℕ → UnifiedState
unified ls o n = record { lines = ls; old_num = o; new_num = n }

unified-snoc :
    (ls : List DiffLine) (x : DiffLine) (ys : List DiffLine) {o o' n n' : ℕ}
    → o ≡ o'
    → n ≡ n'
    → unified ((ls ++ x ∷ []) ++ ys) o n ≡ unified (ls ++ x ∷ ys) o' n'
unified-snoc ls x ys e f = rw (append_assoc ls (x ∷ []) ys, e, f)

unified_lines-body :
    (bs : List BodyLine) (ls : List DiffLine) (o n : ℕ)
    → AllPlain bs
    → (ltb 0 o || ltb 0 n) ≡ true
    → unified_lines (unified ls o n) (map print_line bs)
      ≡ unified (ls ++ numbered o n bs) (o + olds bs) (n + news bs)
unfolding unified_lines unified_line at_removed at_added at_context numbered olds news starts_with
unified_lines-body [] ls o n p h = ground (arith, append-nil ls)
unified_lines-body (keeps t ∷ bs) ls o n (p, ps) h =
    rw (h, unified_lines)
      (unified_lines-body bs _ (o + 1) (n + 1) ps (ground arith)
        ∙ unified-snoc ls _ (numbered (o + 1) (n + 1) bs) (omega arith) (omega arith))
unified_lines-body (removes t ∷ bs) ls o n (p, ps) h =
    rw (p, unified_lines)
      (unified_lines-body bs _ (o + 1) n ps (ground arith)
        ∙ unified-snoc ls _ (numbered (o + 1) n bs) (omega arith) refl)
unified_lines-body (inserts t ∷ bs) ls o n (p, ps) h =
    rw (p, unified_lines)
      (unified_lines-body bs _ o (n + 1) ps (ground arith)
        ∙ unified-snoc ls _ (numbered o (n + 1) bs) refl (omega arith))

pub unified_lines-hunk :
    (header : Text) (o n : ℕ) (bs : List BodyLine) (s : UnifiedState)
    → starts_with header (codes "@@") ≡ true
    → match_header header ≡ some (o, n)
    → (ltb 0 o || ltb 0 n) ≡ true
    → AllPlain bs
    → (unified_lines s (header ∷ map print_line bs)).lines ≡ s.lines ++ numbered o n bs
unfolding unified_lines unified_line at_header
unified_lines-hunk header o n bs s e m h p =
    rw (e, m, unified_lines)
      (ap (λ (u : UnifiedState). u.lines) (unified_lines-body bs s.lines o n p h))

-- A removed line whose text begins with two dashes, and an added one whose text begins with two plus
-- signs, leave no row, and the lines behind them are numbered as if they were not there.
pub unified_lines-dropped :
    (b : BodyLine) (t : Text) (ls : List Text) (s : UnifiedState)
    → ((b ≡ removes (codes "--" ++ t)) ⊎ (b ≡ inserts (codes "++" ++ t)))
    → unified_lines s (print_line b ∷ ls) ≡ unified_lines s ls
unfolding unified_lines unified_line starts_with
unified_lines-dropped b t ls s (inl e) = rw e
unified_lines-dropped b t ls s (inr e) = rw e
