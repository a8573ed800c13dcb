-- ===== src/Editor/Invariant.antt =====
-- What holds of the editor's tabs between two operations.
use racemo.Base.{
  ℕ, zero, suc, ◌-◌, ◌≤◌, ◌<◌, ◌≡◌, refl, ap, Bool, not, Option, some, List, [], ◌∷◌, ◌++◌, map,
  arith, length, get_elem?, take, Text, text_eq, remove_at, insert_at, Distinct,
}
use racemo.Editor.{
  EditorTab, EditorState, paths, open_tab, close_editor_tab, close_other_tabs, close_tabs_to_right,
  close_all_tabs, move_editor_tab, set_active_index, update_at, update_content, set_modal_open,
  finish_reload, mark_saved,
}

-- The dirty mark of every tab is exact.
abbrev pub Exact : List EditorTab → Type 0
Exact [] = Unit
Exact (t ∷ ts) = (t.is_dirty ≡ not (text_eq t.content t.original_content)) × Exact ts

pub record IsValid (s : EditorState) : Type 0 where
  pub distinct : Distinct (paths s)
  pub in_range : s.active_index ≤ length s.tabs - 1
  pub exact : Exact s.tabs

-- The operations of the store, with the answers of the dialog and of the file system.
pub data Event : Type 0 where
  opens : (path name content : Text) → Event
  closes : ℕ → Event
  closes_others : ℕ → Event
  closes_to_right : ℕ → Event
  closes_all : Event
  moves : ℕ → ℕ → Event
  activates : ℕ → Event
  edits : ℕ → Text → Event
  saves : ℕ → Event
  reloads : ℕ → Option Text → Event
  shows : Bool → Event

unfoldable pub step : (Text → Text) → Event → EditorState → Option EditorState
step lower (opens path name content) s = some (open_tab lower path name content s)
step lower (closes i) s = some (close_editor_tab i s)
step lower (closes_others i) s = close_other_tabs i s
step lower (closes_to_right i) s = some (close_tabs_to_right i s)
step lower closes_all s = some (close_all_tabs s)
step lower (moves from to) s = move_editor_tab from to s
step lower (activates i) s = some (set_active_index i s)
step lower (edits i content) s = some (update_content i content s)
step lower (saves i) s = some (mark_saved i s)
step lower (reloads i content) s = some (finish_reload i content s)
step lower (shows b) s = some (set_modal_open b s)

-- Indices that the row has, where the operation needs one.
abbrev pub Fits : Event → EditorState → Type 0
Fits (closes_others i) s = i < length s.tabs
Fits (moves from to) s = (from < length s.tabs) × (to < length s.tabs)
Fits (activates i) s = i < length s.tabs
Fits _ s = Unit

length-update_at :
    (f : EditorTab → EditorTab) (ts : List EditorTab) (i : ℕ)
    → length (update_at f ts i) ≡ length ts
unfolding update_at
length-update_at f [] i = refl
length-update_at f (t ∷ ts) zero = refl
length-update_at f (t ∷ ts) (suc i) = ap suc (length-update_at f ts i)

paths-update_at :
    (f : EditorTab → EditorTab) (ts : List EditorTab) (i : ℕ)
    → ((t : EditorTab) → (f t).path ≡ t.path)
    → map (λ (t : EditorTab). t.path) (update_at f ts i) ≡ map (λ (t : EditorTab). t.path) ts
unfolding update_at
paths-update_at f [] i h = refl
paths-update_at f (t ∷ ts) zero h = ap (λ p. p ∷ map (λ (t : EditorTab). t.path) ts) (h t)
paths-update_at f (t ∷ ts) (suc i) h = ap (t.path ∷◌) (paths-update_at f ts i h)

update_at-Exact :
    (f : EditorTab → EditorTab) (ts : List EditorTab) (i : ℕ)
    → ((t : EditorTab) → (f t).is_dirty ≡ not (text_eq (f t).content (f t).original_content))
    → Exact ts
    → Exact (update_at f ts i)
unfolding update_at
update_at-Exact f [] i h e = tt
update_at-Exact f (t ∷ ts) zero h (_, e) = (h t, e)
update_at-Exact f (t ∷ ts) (suc i) h (d, e) = (d, update_at-Exact f ts i h e)

pub update_at-IsValid :
    (f : EditorTab → EditorTab) (i : ℕ) (s : EditorState)
    → ((t : EditorTab) → (f t).path ≡ t.path)
    → ((t : EditorTab) → (f t).is_dirty ≡ not (text_eq (f t).content (f t).original_content))
    → IsValid s
    → IsValid (record s { tabs = update_at f s.tabs i })
update_at-IsValid f i s p e v = record {
  distinct = rw (paths-update_at f s.tabs i p) v.distinct;
  in_range = rw (length-update_at f s.tabs i) v.in_range;
  exact = update_at-Exact f s.tabs i e v.exact;
}

pub remove_at-Exact : (ts : List EditorTab) (i : ℕ) → Exact ts → Exact (remove_at ts i)
unfolding remove_at
remove_at-Exact [] i e = tt
remove_at-Exact (t ∷ ts) zero (_, e) = e
remove_at-Exact (t ∷ ts) (suc i) (d, e) = (d, remove_at-Exact ts i e)

pub insert_at-Exact :
    (ts : List EditorTab) (i : ℕ) (t : EditorTab)
    → t.is_dirty ≡ not (text_eq t.content t.original_content)
    → Exact ts
    → Exact (insert_at ts i t)
unfolding insert_at
insert_at-Exact ts zero t d e = (d, e)
insert_at-Exact [] (suc i) t d e = (d, tt)
insert_at-Exact (x ∷ ts) (suc i) t d (c, e) = (c, insert_at-Exact ts i t d e)

pub append-Exact : (ts us : List EditorTab) → Exact ts → Exact us → Exact (ts ++ us)
append-Exact [] us e f = f
append-Exact (t ∷ ts) us (d, e) f = (d, append-Exact ts us e f)

pub take-Exact : (n : ℕ) (ts : List EditorTab) → Exact ts → Exact (take n ts)
take-Exact zero ts e = tt
take-Exact (suc n) [] e = tt
take-Exact (suc n) (t ∷ ts) (d, e) = (d, take-Exact n ts e)

pub get-Exact :
    (ts : List EditorTab) (i : ℕ) {t : EditorTab}
    → Exact ts
    → get_elem? ts i ≡ some t
    → t.is_dirty ≡ not (text_eq t.content t.original_content)
get-Exact [] i e h = cc
get-Exact (x ∷ ts) zero e h = ground arith
get-Exact (x ∷ ts) (suc i) (_, e) h = get-Exact ts i e h
