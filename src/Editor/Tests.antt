-- ===== src/Editor/Tests.antt =====
-- Runs of the editor store, and the theorems at a concrete state.
use racemo.Base.{
  ℕ, ◌≡◌, refl, Bool, true, false, some, [], ◌∷◌, arith, if◌then◌else◌, Text, codes, text_eq,
  text_mem,
}
use racemo.Editor.{EditorTab, EditorState, begin_reload_all, reload_requests}
use racemo.Editor.Invariant.{IsValid, moves, step}
use racemo.Editor.Steps.{step-IsValid}

abbrev same : Text → Text
same s = s

abbrev tab : ℕ → Bool → EditorTab
tab n dirty = record {
  path = n ∷ [];
  name = n ∷ [];
  content = if dirty then n ∷ n ∷ [] else [];
  original_content = [];
  is_dirty = dirty;
  language = codes "text";
}

abbrev two : EditorState
two = record { tabs = tab 1 false ∷ tab 2 true ∷ []; active_index = 1; modal_open = false }

two-IsValid : IsValid two
unfolding text_mem text_eq
two-IsValid = record {
  distinct = (refl, (refl, tt));
  in_range = omega arith;
  exact = (refl, (refl, tt));
}

clean_only : begin_reload_all two ≡ (0, 1 ∷ []) ∷ []
unfolding begin_reload_all reload_requests
clean_only = refl

step-IsValid_example : (s' : EditorState) × (step same (moves 0 1) two ≡ some s') × IsValid s'
step-IsValid_example = step-IsValid same (moves 0 1) two two-IsValid (omega arith, omega arith)
