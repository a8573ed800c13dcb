-- ===== src/Panel/Tests.antt =====
-- Runs of the panel, and its theorems at a concrete state.
use racemo.Base.{
  ◌≡◌, refl, true, false, Option, none, some, [], ◌∷◌, arith, Text, codes, text_eq, find_index,
}
use racemo.Editor.{EditorTab}
use racemo.Tabs.{find_tab_index_by_path}
use racemo.Panel.{PanelTab, editor, diff, PanelState, panel_paths, diff_key, base_name}
use racemo.Panel.Steps.{IsValid, edits, step, panel_step-IsValid}

abbrev same : Text → Text
same s = s

abbrev no_host : Text → Option Text
no_host s = none

abbrev a_file : EditorTab
a_file = record {
  path = codes "a.ts";
  name = codes "a.ts";
  content = [];
  original_content = [];
  is_dirty = false;
  language = codes "text";
}

abbrev a_diff : PanelTab
a_diff = diff (record {
  path = codes "diff:d:x:c:true";
  name = codes "c";
  cwd = codes "d:x";
  file_path = codes "c";
  staged = true;
})

abbrev two : PanelState
two = record { tabs = editor a_file ∷ a_diff ∷ []; active_index = 0; panel_open = true }

two-IsValid : IsValid two
unfolding text_eq
two-IsValid = record { in_range = omega arith; exact = (refl, (tt, tt)) }

last_segment : base_name [] (codes "a/b\\c.ts") ≡ codes "c.ts"
unfolding base_name
last_segment = refl

panel_step-IsValid_example :
    (s' : PanelState) × (step same no_host (edits 0 (codes "x")) two ≡ some s') × IsValid s'
panel_step-IsValid_example =
    panel_step-IsValid same no_host (edits 0 (codes "x")) two two-IsValid tt

diff_there :
    find_tab_index_by_path (panel_paths two) (diff_key (codes "d:x") (codes "c") true) ≡ some 1
unfolding find_tab_index_by_path diff_key find_index text_eq
diff_there = refl
