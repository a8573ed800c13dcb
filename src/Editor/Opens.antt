-- ===== src/Editor/Opens.antt =====
-- Opening a file twice, and reloading it from the disk.
use mathlib.Core.List.{map-append}
use racemo.Base.{
  ℕ, zero, suc, ◌≡◌, refl, sym, ◌⊎◌, inl, inr, Bool, true, false, not, ◌&&◌, Option, none, some,
  List, [], ◌∷◌, ◌++◌, arith, if◌then◌else◌, Option-cases, length, get_elem?, length-map, Text,
  text_eq_refl, find_index, remove_at, get_elem?-map,
}
use racemo.Tabs.{close_tab, find_tab_index_by_path}
use racemo.Tabs.Find.{find_tab_index_by_path-some}
use racemo.Editor.{
  EditorTab, EditorState, paths, new_tab, open_tab, close_editor_tab, update_at, reloaded,
  begin_reload, finish_reload,
}

abbrev tab_path : EditorTab → Text
tab_path t = t.path

get_elem?-append_length :
    (ps : List Text) (n : ℕ) (p : Text) → n ≡ length ps → get_elem? (ps ++ p ∷ []) n ≡ some p
get_elem?-append_length [] zero p e = refl
get_elem?-append_length [] (suc n) p e = absurd (omega arith)
get_elem?-append_length (q ∷ ps) zero p e = absurd (omega arith)
get_elem?-append_length (q ∷ ps) (suc n) p e = get_elem?-append_length ps n p (omega arith)

find-snoc :
    (ps : List Text) (p : Text)
    → find_tab_index_by_path ps p ≡ none
    → find_tab_index_by_path (ps ++ p ∷ []) p ≡ some (length ps)
unfolding find_tab_index_by_path find_index
find-snoc [] p h = ground (arith, text_eq_refl p)
find-snoc (q ∷ ps) p h = ground (arith, find-snoc ps p)

-- After a file is opened, whether it was open before or not, the active tab is that of its path.
pub open_tab-active :
    (lower : Text → Text) (path name content : Text) (s : EditorState)
    → let s' = open_tab lower path name content s in
      get_elem? (paths s') s'.active_index ≡ some path
unfolding open_tab
open_tab-active lower path name content s =
    elim (Option-cases (find_tab_index_by_path (paths s) path)) [
      | inl e ↦
          rw (e, open_tab)
            (rw map-append (
              get_elem?-append_length (paths s) (length s.tabs) path
                (sym (length-map s.tabs tab_path))))
      | inr (i, e) ↦ rw (e, open_tab) (find_tab_index_by_path-some (paths s) path e)
    ]

abbrev opened : (Text → Text) → Text → Text → Text → EditorState → EditorState
opened lower path name content s = record s {
  tabs = s.tabs ++ new_tab lower path name content ∷ [];
  active_index = length s.tabs;
}

module _ (lower : Text → Text) (path name content : Text) (s : EditorState) where
  open_tab-fresh :
      find_tab_index_by_path (paths s) path ≡ none
      → open_tab lower path name content s ≡ opened lower path name content s
  unfolding open_tab
  open_tab-fresh e = rw (e, open_tab)

  open_tab-old :
      {i : ℕ}
      → find_tab_index_by_path (paths s) path ≡ some i
      → open_tab lower path name content s ≡ record s { active_index = i }
  unfolding open_tab
  open_tab-old e = rw (e, open_tab)

find-opened :
    (lower : Text → Text) (path name content : Text) (s : EditorState)
    → find_tab_index_by_path (paths s) path ≡ none
    → find_tab_index_by_path (paths (opened lower path name content s)) path ≡ some (length s.tabs)
find-opened lower path name content s e =
    rw (map-append, ← length-map s.tabs tab_path) (find-snoc (paths s) path e)

-- Opening the same path again changes nothing: no second tab, and the contents are kept.
pub open_tab_idem :
    (lower : Text → Text) (path name name' content content' : Text) (s : EditorState)
    → let s' = open_tab lower path name content s in open_tab lower path name' content' s' ≡ s'
open_tab_idem lower path name name' content content' s =
    elim (Option-cases (find_tab_index_by_path (paths s) path)) [
      | inl e ↦
          rw (open_tab-fresh lower path name content s e)
            (open_tab-old lower path name' content' _ (find-opened lower path name content s e))
      | inr (i, e) ↦
          rw (open_tab-old lower path name content s e)
            (open_tab-old lower path name' content' (record s { active_index = i }) e)
    ]

get_elem?-update_at :
    (f : EditorTab → EditorTab) (ts : List EditorTab) (i : ℕ) {t : EditorTab}
    → get_elem? ts i ≡ some t
    → get_elem? (update_at f ts i) i ≡ some (f t)
unfolding update_at
get_elem?-update_at f [] i h = cc
get_elem?-update_at f (t ∷ ts) zero h = cc
get_elem?-update_at f (t ∷ ts) (suc i) h = get_elem?-update_at f ts i h

-- A reload with nothing in between replaces the tab of its path by the file's content, unmarked; and
-- a tab with unsaved changes is replaced only if the dialog was confirmed.
pub reload_in_place :
    (path content : Text) (confirmed : Bool) (s : EditorState) {i : ℕ}
    → begin_reload path confirmed s ≡ some i
    → (t : EditorTab) × (get_elem? s.tabs i ≡ some t)
      × (t.path ≡ path)
      × ((t.is_dirty ≡ false) ⊎ (confirmed ≡ true))
      × (get_elem? (finish_reload i (some content) s).tabs i ≡ some (reloaded content t))
unfolding begin_reload finish_reload
reload_in_place path content confirmed s {i} h = go (find_tab_index_by_path (paths s) path) refl h
  where
    found :
        (j : ℕ) (o : Option EditorTab)
        → get_elem? (paths s) j ≡ some path
        → get_elem? s.tabs j ≡ o
        → (elim o as (λ _. Option ℕ) [
          | none ↦ none
          | some tab ↦ if tab.is_dirty && not confirmed then none else some j
        ])
          ≡ some i
        → (t : EditorTab) × (get_elem? s.tabs i ≡ some t)
          × (t.path ≡ path)
          × ((t.is_dirty ≡ false) ⊎ (confirmed ≡ true))
          × (get_elem? (update_at (reloaded content) s.tabs i) i ≡ some (reloaded content t))
    found j none p e k = cc
    found j (some t) p e k =
        let q : j ≡ i = ground arith in
        (
          t,
          rw (← q) e,
          cc (get_elem?-map tab_path s.tabs j e),
          ground arith,
          rw (← q) (get_elem?-update_at (reloaded content) s.tabs j e),
        )

    go :
        (o : Option ℕ)
        → find_tab_index_by_path (paths s) path ≡ o
        → (elim o as (λ _. Option ℕ) [
          | none ↦ none
          | some j ↦ elim (get_elem? s.tabs j) [
            | none ↦ none
            | some tab ↦ if tab.is_dirty && not confirmed then none else some j
          ]
        ])
          ≡ some i
        → (t : EditorTab) × (get_elem? s.tabs i ≡ some t)
          × (t.path ≡ path)
          × ((t.is_dirty ≡ false) ⊎ (confirmed ≡ true))
          × (get_elem? (update_at (reloaded content) s.tabs i) i ≡ some (reloaded content t))
    go none e k = cc
    go (some j) e k =
        found j (get_elem? s.tabs j) (find_tab_index_by_path-some (paths s) path e) refl k

-- The index outlives the tab: where the first tab is closed while its file is read, the content
-- lands in the tab that took its place, under the other path, and its unsaved changes are gone.
pub reload_race :
    (a b : EditorTab) (rest : List EditorTab) (active : ℕ) (modal : Bool) (content : Text)
    → let s : EditorState = record {
      tabs = a ∷ b ∷ rest;
      active_index = active;
      modal_open = modal;
    } in
      (begin_reload a.path true s ≡ some 0)
      × ((finish_reload 0 (some content) (close_editor_tab 0 s)).tabs ≡ reloaded content b ∷ rest)
unfolding begin_reload finish_reload close_editor_tab close_tab find_tab_index_by_path find_index
    update_at remove_at
reload_race a b rest active modal content = (ground (arith, text_eq_refl a.path), refl)
