-- ===== src/Panel/Steps.antt =====
-- What holds of the panel between two operations.
use racemo.Base.{
  ℕ, zero, suc, ◌+◌, ◌-◌, ◌≤◌, ◌<◌, ◌≡◌, refl, ap, Bool, not, Option, none, some, List, [], ◌∷◌,
  ◌++◌, arith, length, get_elem?, length-append, take, length-take, length-map, Text, text_eq,
  text_eq_refl, remove_at, insert_at, length-remove_at, length-insert_at, get_elem?-some,
  lt_of_get_elem?,
}
use racemo.Tabs.{
  close_tab, close_others, close_to_right, close_all, move_tab, splice_move, moved_active,
  find_tab_index_by_path,
}
use racemo.Tabs.Active.{close_tab-InRange}
use racemo.Tabs.Find.{find_tab_index_by_path-some}
use racemo.Editor.{EditorTab, with_content, reloaded, saved}
use racemo.Editor.Steps.{moved_active-lt}
use racemo.Panel.{
  PanelTab, editor, diff, browser, PanelState, path_of, panel_paths, show_tab, diff_key,
  open_panel_tab, open_diff_tab, open_browser_tab, close_panel_tab, close_other_panel_tabs,
  close_panel_tabs_to_right, close_all_panel_tabs, move_panel_tab, activate_panel_tab,
  set_panel_open, on_editor, change_at, update_panel_content, mark_panel_saved, finish_panel_reload,
}

-- The dirty mark of a file is exact.
abbrev IsExact : PanelTab → Type 0
IsExact (editor t) = t.is_dirty ≡ not (text_eq t.content t.original_content)
IsExact (diff t) = Unit
IsExact (browser t) = Unit

abbrev AllExact : List PanelTab → Type 0
AllExact [] = Unit
AllExact (t ∷ ts) = IsExact t × AllExact ts

pub record IsValid (s : PanelState) : Type 0 where
  pub in_range : s.active_index ≤ length s.tabs - 1
  pub exact : AllExact s.tabs

remove_at-AllExact : (ts : List PanelTab) (i : ℕ) → AllExact ts → AllExact (remove_at ts i)
unfolding remove_at
remove_at-AllExact [] i e = tt
remove_at-AllExact (t ∷ ts) zero (_, e) = e
remove_at-AllExact (t ∷ ts) (suc i) (d, e) = (d, remove_at-AllExact ts i e)

insert_at-AllExact :
    (ts : List PanelTab) (i : ℕ) (t : PanelTab)
    → IsExact t
    → AllExact ts
    → AllExact (insert_at ts i t)
unfolding insert_at
insert_at-AllExact ts zero t d e = (d, e)
insert_at-AllExact [] (suc i) t d e = (d, tt)
insert_at-AllExact (x ∷ ts) (suc i) t d (c, e) = (c, insert_at-AllExact ts i t d e)

take-AllExact : (n : ℕ) (ts : List PanelTab) → AllExact ts → AllExact (take n ts)
take-AllExact zero ts e = tt
take-AllExact (suc n) [] e = tt
take-AllExact (suc n) (t ∷ ts) (d, e) = (d, take-AllExact n ts e)

snoc-AllExact :
    (ts : List PanelTab) (t : PanelTab) → AllExact ts → IsExact t → AllExact (ts ++ t ∷ [])
snoc-AllExact [] t e d = (d, tt)
snoc-AllExact (x ∷ ts) t (c, e) d = (c, snoc-AllExact ts t e d)

get-IsExact :
    (ts : List PanelTab) (i : ℕ) {t : PanelTab} → AllExact ts → get_elem? ts i ≡ some t → IsExact t
get-IsExact [] i e h = cc
get-IsExact (x ∷ ts) zero {t} (d, e) h = let q : x ≡ t = cc in rw (← q) d
get-IsExact (x ∷ ts) (suc i) {t} (d, e) h = get-IsExact ts i {t = t} e h

on_editor-IsExact :
    (f : EditorTab → EditorTab) (t : PanelTab)
    → ((u : EditorTab) → (f u).is_dirty ≡ not (text_eq (f u).content (f u).original_content))
    → IsExact t
    → IsExact (on_editor f t)
on_editor-IsExact f (editor u) h e = h u
on_editor-IsExact f (diff u) h e = tt
on_editor-IsExact f (browser u) h e = tt

change_at-IsValid :
    (f : EditorTab → EditorTab) (i : ℕ) (s : PanelState)
    → ((u : EditorTab) → (f u).is_dirty ≡ not (text_eq (f u).content (f u).original_content))
    → IsValid s
    → IsValid (record s { tabs = change_at f s.tabs i })
unfolding change_at
change_at-IsValid f i s h v = record {
  in_range = let e = len s.tabs i in omega (arith, e, v.in_range);
  exact = all s.tabs i v.exact;
}
  where
    len : (ts : List PanelTab) (j : ℕ) → length (change_at f ts j) ≡ length ts
    len [] j = refl
    len (t ∷ ts) zero = refl
    len (t ∷ ts) (suc j) = ap suc (len ts j)

    all : (ts : List PanelTab) (j : ℕ) → AllExact ts → AllExact (change_at f ts j)
    all [] j e = tt
    all (t ∷ ts) zero (d, e) = (on_editor-IsExact f t h d, e)
    all (t ∷ ts) (suc j) (d, e) = (d, all ts j e)

show_tab-IsValid :
    (o : Option ℕ) (t : PanelTab) (s : PanelState)
    → ((i : ℕ) → o ≡ some i → i < length s.tabs)
    → IsExact t
    → IsValid s
    → IsValid (show_tab o t s)
show_tab-IsValid (some i) t s h d v =
    let b = h i refl in record { in_range = omega arith; exact = v.exact }
show_tab-IsValid none t s h d v =
    let e = length-append s.tabs (t ∷ []) in
    record { in_range = omega arith; exact = snoc-AllExact s.tabs t v.exact d }

find-lt :
    (s : PanelState) (p : Text) (i : ℕ)
    → find_tab_index_by_path (panel_paths s) p ≡ some i
    → i < length s.tabs
find-lt s p i h =
    let l =
      lt_of_get_elem? (panel_paths s) i (find_tab_index_by_path-some (panel_paths s) p {i = i} h) in
    omega (arith, l, length-map s.tabs path_of)

move_panel_tab-IsValid :
    (from to : ℕ) (s : PanelState)
    → from < length s.tabs
    → to < length s.tabs
    → IsValid s
    → (s' : PanelState) × (move_panel_tab from to s ≡ some s') × IsValid s'
unfolding move_panel_tab move_tab splice_move
move_panel_tab-IsValid from to s h k v =
    let (t, e) = get_elem?-some s.tabs from h in
    let rest = remove_at s.tabs from in
    (
      record s { tabs = insert_at rest to t; active_index = moved_active from to s.active_index },
      rw (e, move_panel_tab, move_tab, splice_move),
      record {
        in_range = omega (
          arith,
          moved_active-lt from to s.active_index (length s.tabs) h k v.in_range,
          length-insert_at rest to t,
          length-remove_at s.tabs from h,
        );
        exact =
            insert_at-AllExact rest to t (get-IsExact s.tabs from v.exact e)
              (remove_at-AllExact s.tabs from v.exact);
      },
    )

close_other_panel_tabs-IsValid :
    (i : ℕ) (s : PanelState)
    → i < length s.tabs
    → IsValid s
    → (s' : PanelState) × (close_other_panel_tabs i s ≡ some s') × IsValid s'
unfolding close_other_panel_tabs close_others
close_other_panel_tabs-IsValid i s h v =
    let (t, e) = get_elem?-some s.tabs i h in
    (
      record s { tabs = t ∷ []; active_index = 0 },
      rw (e, close_other_panel_tabs, close_others),
      record { in_range = omega arith; exact = (get-IsExact s.tabs i v.exact e, tt) },
    )

pub data Event : Type 0 where
  opens : (path name content : Text) → Event
  opens_diff : (cwd file_path : Text) (staged : Bool) → Event
  opens_page : (url : Text) (name : Option Text) (now : Text) → Event
  closes closes_others closes_to_right activates saves : ℕ → Event
  closes_all : Event
  moves : ℕ → ℕ → Event
  edits : ℕ → Text → Event
  reloads : ℕ → Option Text → Event
  shows : Bool → Event

unfoldable pub step : (Text → Text) → (Text → Option Text) → Event → PanelState → Option PanelState
step lower hostname (opens path name content) s = some (open_panel_tab lower path name content s)
step lower hostname (opens_diff cwd file_path staged) s =
    some (open_diff_tab cwd file_path staged s)
step lower hostname (opens_page url name now) s = some (open_browser_tab hostname url name now s)
step lower hostname (closes i) s = some (close_panel_tab i s)
step lower hostname (closes_others i) s = close_other_panel_tabs i s
step lower hostname (closes_to_right i) s = some (close_panel_tabs_to_right i s)
step lower hostname (activates i) s = some (activate_panel_tab i s)
step lower hostname (saves i) s = some (mark_panel_saved i s)
step lower hostname closes_all s = some (close_all_panel_tabs s)
step lower hostname (moves from to) s = move_panel_tab from to s
step lower hostname (edits i content) s = some (update_panel_content i content s)
step lower hostname (reloads i content) s = some (finish_panel_reload i content s)
step lower hostname (shows b) s = some (set_panel_open b s)

-- Indices that the row has, where the operation needs one.
abbrev pub Fits : Event → PanelState → Type 0
Fits (closes_others i) s = i < length s.tabs
Fits (moves from to) s = (from < length s.tabs) × (to < length s.tabs)
Fits (activates i) s = i < length s.tabs
Fits _ s = Unit

-- From a valid panel every operation whose indices the row has succeeds, and gives a valid panel:
-- the active index is in range, and the mark of each file says whether its content differs from what
-- was last read or saved, whatever diffs and pages stand between.
pub panel_step-IsValid :
    (lower : Text → Text) (hostname : Text → Option Text) (e : Event) (s : PanelState)
    → IsValid s
    → Fits e s
    → (s' : PanelState) × (step lower hostname e s ≡ some s') × IsValid s'
unfolding step open_panel_tab open_diff_tab open_browser_tab close_panel_tab close_tab
    close_panel_tabs_to_right close_to_right activate_panel_tab mark_panel_saved
    close_all_panel_tabs close_all update_panel_content finish_panel_reload set_panel_open
panel_step-IsValid lower hostname (opens path name content) s v f =
    (_, refl, show_tab-IsValid _ _ s (find-lt s path) (ground (arith, text_eq_refl content)) v)
panel_step-IsValid lower hostname (opens_diff cwd file_path staged) s v f =
    (_, refl, show_tab-IsValid _ _ s (find-lt s (diff_key cwd file_path staged)) tt v)
panel_step-IsValid lower hostname (opens_page url name now) s v f =
    (_, refl, show_tab-IsValid none _ s (λ i h. cc) tt v)
panel_step-IsValid lower hostname (closes i) s v f = (
  _,
  refl,
  record {
    in_range = close_tab-InRange s.tabs i s.active_index v.in_range;
    exact = remove_at-AllExact s.tabs i v.exact;
  },
)
panel_step-IsValid lower hostname (closes_others i) s v f = close_other_panel_tabs-IsValid i s f v
panel_step-IsValid lower hostname (closes_to_right i) s v f = (
  _,
  refl,
  record {
    in_range = omega (arith, v.in_range, length-take (i + 1) s.tabs);
    exact = take-AllExact (i + 1) s.tabs v.exact;
  },
)
panel_step-IsValid lower hostname (activates i) s v f =
    (_, refl, record { in_range = omega (arith, f); exact = v.exact })
panel_step-IsValid lower hostname (saves i) s v f =
    (_, refl, change_at-IsValid saved i s (λ u. ground (arith, text_eq_refl u.content)) v)
panel_step-IsValid lower hostname closes_all s v f =
    (_, refl, record { in_range = omega arith; exact = tt })
panel_step-IsValid lower hostname (moves from to) s v f = move_panel_tab-IsValid from to s f.0 f.1 v
panel_step-IsValid lower hostname (edits i content) s v f =
    (_, refl, change_at-IsValid (with_content content) i s (λ u. refl) v)
panel_step-IsValid lower hostname (reloads i none) s v f = (s, refl, v)
panel_step-IsValid lower hostname (reloads i (some content)) s v f = (
  _,
  refl,
  change_at-IsValid (reloaded content) i s (λ u. ground (arith, text_eq_refl content)) v,
)
panel_step-IsValid lower hostname (shows b) s v f =
    (_, refl, record { in_range = v.in_range; exact = v.exact })
