-- ===== src/Panel.antt =====
-- The tabs of the side panel: files, diffs and web pages (src/stores/panelEditorStore.ts).
-- A reload is two steps, as in the editor's store. The parser of URLs is an argument, as is the text
-- of the time that makes a browser tab's key.
pub mod Steps
pub mod Keys
pub mod Tests
use racemo.Base.{
  ℕ, zero, suc, ◌+◌, ◌/◌, Bool, true, false, not, ◌||◌, Option, none, some, List, [], ◌∷◌, ◌++◌,
  map, ◌==◌, if◌then◌else◌, length, get_elem?, Text, codes,
}
use racemo.Tabs.{
  TabResult, close_tab, close_others, close_to_right, close_all, move_tab, find_tab_index_by_path,
}
use racemo.Editor.{EditorTab, new_tab, with_content, reloaded, saved}

pub record DiffPanelTab : Type 0 where
  pub path : Text
  pub name : Text
  pub cwd : Text
  pub file_path : Text
  pub staged : Bool

pub record BrowserPanelTab : Type 0 where
  pub path : Text
  pub name : Text
  pub url : Text
  pub favicon : Option Text

pub data PanelTab : Type 0 where
  editor : EditorTab → PanelTab
  diff : DiffPanelTab → PanelTab
  browser : BrowserPanelTab → PanelTab

pub record PanelState : Type 0 where
  pub tabs : List PanelTab
  pub active_index : ℕ
  pub panel_open : Bool

abbrev pub path_of : PanelTab → Text
path_of (editor t) = t.path
path_of (diff t) = t.path
path_of (browser t) = t.path

abbrev pub panel_paths : PanelState → List Text
panel_paths s = map path_of s.tabs

-- What every way to open a tab ends with: an old tab is shown, or a new one is put behind the others.
abbrev pub show_tab : Option ℕ → PanelTab → PanelState → PanelState
show_tab (some existing) tab s = record s { active_index = existing; panel_open = true }
show_tab none tab s = record {
  tabs = s.tabs ++ tab ∷ [];
  active_index = length s.tabs;
  panel_open = true;
}

unfoldable pub open_panel_tab : (Text → Text) → Text → Text → Text → PanelState → PanelState
open_panel_tab lower path name content s =
    show_tab (find_tab_index_by_path (panel_paths s) path)
      (editor (new_tab lower path name content)) s

abbrev pub bool_text : Bool → Text
bool_text true = codes "true"
bool_text false = codes "false"

unfoldable pub diff_key : Text → Text → Bool → Text
diff_key cwd file_path staged =
    codes "diff:" ++ (cwd ++ (b':' ∷ (file_path ++ (b':' ∷ bool_text staged))))

-- `filePath.split(/[\\/]/).pop()`, with what was read since the last separator.
unfoldable pub base_name : Text → Text → Text
base_name acc [] = acc
base_name acc (c ∷ s) =
    let rest = base_name (acc ++ c ∷ []) s in
    let next = base_name [] s in if c == b'/' || c == 92 then next else rest

unfoldable pub open_diff_tab : Text → Text → Bool → PanelState → PanelState
unfolding diff_key base_name
open_diff_tab cwd file_path staged s =
    let key = diff_key cwd file_path staged in
    show_tab (find_tab_index_by_path (panel_paths s) key)
      (diff (record {
        path = key;
        name = base_name [] file_path;
        cwd = cwd;
        file_path = file_path;
        staged = staged;
      }))
      s

abbrev pub display_name : (Text → Option Text) → Text → Option Text → Text
display_name hostname url (some (c ∷ name)) = c ∷ name
display_name hostname url _ = elim (hostname url) [ none ↦ url | some host ↦ host ]

unfoldable pub open_browser_tab :
    (Text → Option Text) → Text → Option Text → Text → PanelState → PanelState
open_browser_tab hostname url name now s =
    show_tab none
      (browser (record {
        path = codes "browser:" ++ now;
        name = display_name hostname url name;
        url = url;
        favicon = none;
      }))
      s

abbrev pub set_panel_tabs : PanelState → TabResult PanelTab → PanelState
set_panel_tabs s r = record s { tabs = r.tabs; active_index = r.active_index }

abbrev pub set_panel_tabs? : PanelState → Option (TabResult PanelTab) → Option PanelState
set_panel_tabs? s none = none
set_panel_tabs? s (some r) = some (set_panel_tabs s r)

unfoldable pub close_panel_tab : ℕ → PanelState → PanelState
close_panel_tab index s = set_panel_tabs s (close_tab s.tabs index s.active_index)

unfoldable pub close_other_panel_tabs : ℕ → PanelState → Option PanelState
close_other_panel_tabs index s = set_panel_tabs? s (close_others s.tabs index)

unfoldable pub close_panel_tabs_to_right : ℕ → PanelState → PanelState
close_panel_tabs_to_right index s = set_panel_tabs s (close_to_right s.tabs index s.active_index)

unfoldable pub close_all_panel_tabs : PanelState → PanelState
close_all_panel_tabs s = set_panel_tabs s close_all

unfoldable pub move_panel_tab : ℕ → ℕ → PanelState → Option PanelState
move_panel_tab from to s = set_panel_tabs? s (move_tab s.tabs from to s.active_index)

unfoldable pub activate_panel_tab : ℕ → PanelState → PanelState
activate_panel_tab index s = record s { active_index = index }

unfoldable pub set_panel_open : Bool → PanelState → PanelState
set_panel_open shown s = record s { panel_open = shown }

-- The tab at `index` changed if it is a file; a diff, a page or no tab stays.
abbrev pub on_editor : (EditorTab → EditorTab) → PanelTab → PanelTab
on_editor f (editor t) = editor (f t)
on_editor f (diff t) = diff t
on_editor f (browser t) = browser t

unfoldable pub change_at : (EditorTab → EditorTab) → List PanelTab → ℕ → List PanelTab
change_at f [] i = []
change_at f (t ∷ ts) zero = on_editor f t ∷ ts
change_at f (t ∷ ts) (suc i) = t ∷ change_at f ts i

unfoldable pub update_panel_content : ℕ → Text → PanelState → PanelState
update_panel_content index content s = record s {
  tabs = change_at (with_content content) s.tabs index;
}

unfoldable pub mark_panel_saved : ℕ → PanelState → PanelState
mark_panel_saved index s = record s { tabs = change_at saved s.tabs index }

abbrev pub may_reload : Bool → PanelTab → Bool
may_reload confirmed (editor t) = not t.is_dirty || confirmed
may_reload confirmed (diff t) = false
may_reload confirmed (browser t) = false

-- `reloadTabByPath` up to its `await`.
unfoldable pub begin_panel_reload : Text → Bool → PanelState → Option ℕ
begin_panel_reload path confirmed s = elim (find_tab_index_by_path (panel_paths s) path) [
  | none ↦ none
  | some index ↦ elim (get_elem? s.tabs index) [
    | none ↦ none
    | some tab ↦ if may_reload confirmed tab then some index else none
  ]
]

unfoldable pub finish_panel_reload : ℕ → Option Text → PanelState → PanelState
finish_panel_reload index none s = s
finish_panel_reload index (some content) s = record s {
  tabs = change_at (reloaded content) s.tabs index;
}

-- The reads that `reloadAllNonDirtyTabs` starts.
unfoldable pub panel_requests : ℕ → List PanelTab → List (ℕ × Text)
panel_requests i [] = []
panel_requests i (t ∷ ts) =
    let rest = panel_requests (suc i) ts in
    if may_reload false t then (i, path_of t) ∷ rest else rest
