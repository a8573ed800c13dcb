-- ===== src/Editor.antt =====
-- The store of the editor's tabs (src/stores/editorStore.ts). The dialog of `window.confirm` and the
-- file's content are arguments; a reload is two steps, since the file is read in between.
pub mod Language
pub mod Invariant
pub mod Steps
pub mod Opens
pub mod Tests
use racemo.Base.{
  ℕ, zero, suc, ◌+◌, Bool, false, not, ◌&&◌, Option, none, some, List, [], ◌∷◌, ◌++◌, map,
  if◌then◌else◌, length, get_elem?, Text, text_eq,
}
use racemo.Tabs.{
  TabResult, close_tab, close_others, close_to_right, close_all, move_tab, find_tab_index_by_path,
}
use Language.{detect_language}

pub record EditorTab : Type 0 where
  pub path : Text
  pub name : Text
  pub content : Text
  pub original_content : Text
  pub is_dirty : Bool
  pub language : Text

pub record EditorState : Type 0 where
  pub tabs : List EditorTab
  pub active_index : ℕ
  pub modal_open : Bool

abbrev pub paths : EditorState → List Text
paths s = map (λ (t : EditorTab). t.path) s.tabs

-- `set(result)` of a helper of tabUtils.
abbrev pub set_tabs : EditorState → TabResult EditorTab → EditorState
set_tabs s r = record s { tabs = r.tabs; active_index = r.active_index }

abbrev pub set_tabs? : EditorState → Option (TabResult EditorTab) → Option EditorState
set_tabs? s none = none
set_tabs? s (some r) = some (set_tabs s r)

abbrev pub new_tab : (Text → Text) → Text → Text → Text → EditorTab
new_tab lower path name content = record {
  path = path;
  name = name;
  content = content;
  original_content = content;
  is_dirty = false;
  language = detect_language lower name;
}

unfoldable pub open_tab : (Text → Text) → Text → Text → Text → EditorState → EditorState
open_tab lower path name content s = elim (find_tab_index_by_path (paths s) path) [
  | some existing ↦ record s { active_index = existing }
  | none ↦ record s {
    tabs = s.tabs ++ new_tab lower path name content ∷ [];
    active_index = length s.tabs;
  }
]

unfoldable pub close_editor_tab : ℕ → EditorState → EditorState
close_editor_tab index s = set_tabs s (close_tab s.tabs index s.active_index)

-- `none`: the row would hold `undefined`.
unfoldable pub close_other_tabs : ℕ → EditorState → Option EditorState
close_other_tabs index s = set_tabs? s (close_others s.tabs index)

unfoldable pub close_tabs_to_right : ℕ → EditorState → EditorState
close_tabs_to_right index s = set_tabs s (close_to_right s.tabs index s.active_index)

unfoldable pub close_all_tabs : EditorState → EditorState
close_all_tabs s = set_tabs s close_all

unfoldable pub move_editor_tab : ℕ → ℕ → EditorState → Option EditorState
move_editor_tab from to s = set_tabs? s (move_tab s.tabs from to s.active_index)

unfoldable pub set_active_index : ℕ → EditorState → EditorState
set_active_index index s = record s { active_index = index }

-- A copy of the row with the tab at `index` replaced; no tab there, no change.
unfoldable pub update_at : (EditorTab → EditorTab) → List EditorTab → ℕ → List EditorTab
update_at f [] i = []
update_at f (t ∷ ts) zero = f t ∷ ts
update_at f (t ∷ ts) (suc i) = t ∷ update_at f ts i

abbrev pub with_content : Text → EditorTab → EditorTab
with_content content t = record t {
  content = content;
  is_dirty = not (text_eq content t.original_content);
}

unfoldable pub update_content : ℕ → Text → EditorState → EditorState
update_content index content s = record s { tabs = update_at (with_content content) s.tabs index }

unfoldable pub set_modal_open : Bool → EditorState → EditorState
set_modal_open open' s = record s { modal_open = open' }

-- `reloadTabByPath` up to its `await`: the index whose tab is to be replaced, or none where it
-- returns early.
unfoldable pub begin_reload : Text → Bool → EditorState → Option ℕ
begin_reload path confirmed s = elim (find_tab_index_by_path (paths s) path) [
  | none ↦ none
  | some index ↦ elim (get_elem? s.tabs index) [
    | none ↦ none
    | some tab ↦ if tab.is_dirty && not confirmed then none else some index
  ]
]

abbrev pub reloaded : Text → EditorTab → EditorTab
reloaded content t = record t { content = content; original_content = content; is_dirty = false }

-- What follows the `await`, in the state of that moment; `none` is a failed read.
unfoldable pub finish_reload : ℕ → Option Text → EditorState → EditorState
finish_reload index none s = s
finish_reload index (some content) s = record s { tabs = update_at (reloaded content) s.tabs index }

-- The reads that `reloadAllNonDirtyTabs` starts; each ends by `finish_reload`, in any order.
unfoldable pub reload_requests : ℕ → List EditorTab → List (ℕ × Text)
reload_requests i [] = []
reload_requests i (t ∷ ts) =
    let rest = reload_requests (suc i) ts in if t.is_dirty then rest else (i, t.path) ∷ rest

unfoldable pub begin_reload_all : EditorState → List (ℕ × Text)
begin_reload_all s = reload_requests 0 s.tabs

abbrev pub saved : EditorTab → EditorTab
saved t = record t { original_content = t.content; is_dirty = false }

unfoldable pub mark_saved : ℕ → EditorState → EditorState
mark_saved index s = record s { tabs = update_at saved s.tabs index }
