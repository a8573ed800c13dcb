-- ===== src/GitOutput/Lines.antt =====
-- The lines that are shown.
use racemo.Base.{◌≡◌, inl, inr, Bool, false, List, [], ◌∷◌, ◌++◌, Bool-cases, Text, text_eq, last}
use racemo.GitOutput.{
  GitOutputLine, OutputMode, GitOutputState, repeats, open_output, add_line, close_output,
}

-- No line has the text of the line before it.
abbrev pub NoRepeat : List GitOutputLine → Type 0
NoRepeat [] = Unit
NoRepeat (l ∷ []) = Unit
NoRepeat (l ∷ m ∷ ls) = (text_eq l.line m.line ≡ false) × NoRepeat (m ∷ ls)

-- Lines are sent one by one, between an opening and a closing.
pub data Event : Type 0 where
  opens : Text → Bool → OutputMode → Event
  prints : Text → Bool → Event
  closes : Event

unfoldable pub step : Event → GitOutputState → GitOutputState
step (opens title f mode) s = open_output title f mode s
step (prints line is_err) s = add_line line is_err s
step closes s = close_output s

unfoldable pub run : List Event → GitOutputState → GitOutputState
run [] s = s
run (e ∷ es) s = run es (step e s)

snoc-NoRepeat :
    (ls : List GitOutputLine) (x : GitOutputLine)
    → repeats (last ls) x.line ≡ false
    → NoRepeat ls
    → NoRepeat (ls ++ x ∷ [])
unfolding last
snoc-NoRepeat [] x h r = tt
snoc-NoRepeat (l ∷ []) x h r = (h, tt)
snoc-NoRepeat (l ∷ m ∷ ls) x h (d, r) = (d, snoc-NoRepeat (m ∷ ls) x h r)

add_line-NoRepeat :
    (line : Text) (is_err : Bool) (s : GitOutputState)
    → NoRepeat s.lines
    → NoRepeat (add_line line is_err s).lines
unfolding add_line
add_line-NoRepeat line is_err s h = elim (Bool-cases (repeats (last s.lines) line)) [
  | inl e ↦ rw (e, add_line) h
  | inr e ↦ rw (e, add_line) (snoc-NoRepeat s.lines (record { line = line; is_err = is_err }) e h)
]

-- However the panel is opened, printed to and closed, no line repeats the one before it.
pub run-NoRepeat :
    (es : List Event) (s : GitOutputState) → NoRepeat s.lines → NoRepeat (run es s).lines
unfolding run step open_output close_output
run-NoRepeat [] s h = h
run-NoRepeat (opens title f mode ∷ es) s h = run-NoRepeat es (open_output title f mode s) tt
run-NoRepeat (prints line is_err ∷ es) s h =
    run-NoRepeat es (add_line line is_err s) (add_line-NoRepeat line is_err s h)
run-NoRepeat (closes ∷ es) s h = run-NoRepeat es (close_output s) tt
