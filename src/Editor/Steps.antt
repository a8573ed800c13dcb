-- ===== src/Editor/Steps.antt =====
-- Every operation keeps the invariant of the editor's tabs.
use mathlib.Core.List.{map-append}
use racemo.Base.{
  ℕ, ◌+◌, ◌-◌, ◌≤◌, ◌<◌, ◌≡◌, refl, inl, inr, none, some, [], ◌∷◌, arith, Option-cases, length,
  length-append, length-take, length-map, Text, text_eq_refl, remove_at, insert_at, text_mem,
  length-remove_at, length-insert_at, get_elem?-some, lt_of_get_elem?, map-remove_at, map-insert_at,
  map-take, remove_at-Distinct, text_mem-remove_at_self, insert_at-Distinct, take-Distinct,
  snoc-Distinct, get_elem?-map,
}
use racemo.Tabs.{
  close_tab, close_others, close_to_right, close_all, move_tab, splice_move, moved_active,
  find_tab_index_by_path,
}
use racemo.Tabs.Active.{close_tab-InRange}
use racemo.Tabs.Find.{find_tab_index_by_path-none, find_tab_index_by_path-some}
use racemo.Editor.{
  EditorTab, EditorState, paths, new_tab, open_tab, close_editor_tab, close_other_tabs,
  close_tabs_to_right, close_all_tabs, move_editor_tab, set_active_index, with_content,
  update_content, set_modal_open, reloaded, finish_reload, saved, mark_saved,
}
use racemo.Editor.Invariant.{
  IsValid, Event, opens, closes, closes_others, closes_to_right, closes_all, moves, activates,
  edits, saves, reloads, shows, step, Fits, update_at-IsValid, remove_at-Exact, insert_at-Exact,
  append-Exact, take-Exact, get-Exact,
}

abbrev tab_path : EditorTab → Text
tab_path t = t.path

open_tab-IsValid :
    (lower : Text → Text) (path name content : Text) (s : EditorState)
    → IsValid s
    → IsValid (open_tab lower path name content s)
unfolding open_tab
open_tab-IsValid lower path name content s v =
    elim (Option-cases (find_tab_index_by_path (paths s) path)) [
      | inl e ↦
          rw (e, open_tab)
            (record {
              distinct =
                  rw map-append (
                    snoc-Distinct (paths s) path v.distinct (find_tab_index_by_path-none _ path e));
              in_range = omega (arith, length-append s.tabs (new_tab lower path name content ∷ []));
              exact = append-Exact s.tabs _ v.exact (rw text_eq_refl, tt);
            })
      | inr (i, e) ↦
          rw (e, open_tab)
            (record {
              distinct = v.distinct;
              in_range = omega (
                arith,
                lt_of_get_elem? (paths s) i (find_tab_index_by_path-some (paths s) path e),
                length-map s.tabs tab_path,
              );
              exact = v.exact;
            })
    ]

close_editor_tab-IsValid : (i : ℕ) (s : EditorState) → IsValid s → IsValid (close_editor_tab i s)
unfolding close_editor_tab close_tab
close_editor_tab-IsValid i s v = record {
  distinct = rw map-remove_at (remove_at-Distinct (paths s) i v.distinct);
  in_range = close_tab-InRange s.tabs i s.active_index v.in_range;
  exact = remove_at-Exact s.tabs i v.exact;
}

close_tabs_to_right-IsValid :
    (i : ℕ) (s : EditorState) → IsValid s → IsValid (close_tabs_to_right i s)
unfolding close_tabs_to_right close_to_right
close_tabs_to_right-IsValid i s v = record {
  distinct = rw map-take (take-Distinct (i + 1) (paths s) v.distinct);
  in_range = omega (arith, v.in_range, length-take (i + 1) s.tabs);
  exact = take-Exact (i + 1) s.tabs v.exact;
}

close_other_tabs-IsValid :
    (i : ℕ) (s : EditorState)
    → i < length s.tabs
    → IsValid s
    → (s' : EditorState) × (close_other_tabs i s ≡ some s') × IsValid s'
unfolding close_other_tabs close_others
close_other_tabs-IsValid i s h v =
    let (t, e) = get_elem?-some s.tabs i h in
    (
      record s { tabs = t ∷ []; active_index = 0 },
      rw (e, close_other_tabs, close_others),
      record {
        distinct = (unfold text_mem in refl, tt);
        in_range = omega arith;
        exact = (get-Exact s.tabs i v.exact e, tt);
      },
    )

pub moved_active-lt :
    (from to active n : ℕ)
    → from < n
    → to < n
    → active ≤ n - 1
    → moved_active from to active ≤ n - 1
unfolding moved_active
moved_active-lt from to active n h k l = ground arith

move_editor_tab-IsValid :
    (from to : ℕ) (s : EditorState)
    → from < length s.tabs
    → to < length s.tabs
    → IsValid s
    → (s' : EditorState) × (move_editor_tab from to s ≡ some s') × IsValid s'
unfolding move_editor_tab move_tab splice_move
move_editor_tab-IsValid from to s h k v =
    let (t, e) = get_elem?-some s.tabs from h in
    let rest = remove_at s.tabs from in
    let q = get_elem?-map tab_path s.tabs from e in
    (
      record s { tabs = insert_at rest to t; active_index = moved_active from to s.active_index },
      rw (e, move_editor_tab, move_tab, splice_move),
      record {
        distinct =
            rw (map-insert_at, map-remove_at)
              (insert_at-Distinct _ to t.path (remove_at-Distinct (paths s) from v.distinct)
                (text_mem-remove_at_self (paths s) from v.distinct q));
        in_range = omega (
          arith,
          moved_active-lt from to s.active_index (length s.tabs) h k v.in_range,
          length-insert_at rest to t,
          length-remove_at s.tabs from h,
        );
        exact =
            insert_at-Exact rest to t (get-Exact s.tabs from v.exact e)
              (remove_at-Exact s.tabs from v.exact);
      },
    )

-- From a valid state every operation whose indices the row has succeeds, and gives a valid state:
-- no path is open twice, the active index is in range, and each dirty mark says whether the content
-- differs from what was last read or saved.
pub step-IsValid :
    (lower : Text → Text) (e : Event) (s : EditorState)
    → IsValid s
    → Fits e s
    → (s' : EditorState) × (step lower e s ≡ some s') × IsValid s'
unfolding step
step-IsValid lower (opens path name content) s v f =
    (open_tab lower path name content s, refl, open_tab-IsValid lower path name content s v)
step-IsValid lower (closes i) s v f = (close_editor_tab i s, refl, close_editor_tab-IsValid i s v)
step-IsValid lower (closes_others i) s v f = close_other_tabs-IsValid i s f v
step-IsValid lower (closes_to_right i) s v f =
    (close_tabs_to_right i s, refl, close_tabs_to_right-IsValid i s v)
step-IsValid lower closes_all s v f = (
  close_all_tabs s,
  refl,
  unfold close_all_tabs close_all in record { distinct = tt; in_range = omega arith; exact = tt },
)
step-IsValid lower (moves from to) s v (f, g) = move_editor_tab-IsValid from to s f g v
step-IsValid lower (activates i) s v f = (
  set_active_index i s,
  refl,
  unfold set_active_index in
      record { distinct = v.distinct; in_range = omega arith; exact = v.exact },
)
step-IsValid lower (edits i content) s v f = (
  update_content i content s,
  refl,
  unfold update_content in update_at-IsValid (with_content content) i s (λ t. refl) (λ t. refl) v,
)
step-IsValid lower (saves i) s v f = (
  mark_saved i s,
  refl,
  unfold mark_saved in update_at-IsValid saved i s (λ t. refl) (λ t. rw text_eq_refl) v,
)
step-IsValid lower (reloads i none) s v f =
    (finish_reload i none s, refl, unfold finish_reload in v)
step-IsValid lower (reloads i (some c)) s v f = (
  finish_reload i (some c) s,
  refl,
  unfold finish_reload in update_at-IsValid (reloaded c) i s (λ t. refl) (λ t. rw text_eq_refl) v,
)
step-IsValid lower (shows b) s v f = (
  set_modal_open b s,
  refl,
  unfold set_modal_open in record { distinct = v.distinct; in_range = v.in_range; exact = v.exact },
)
