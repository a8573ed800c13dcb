-- ===== src/Tabs.antt =====
-- Operations on a row of tabs and its active index (src/stores/tabUtils.ts).
-- Indices are natural numbers: the callers pass positions of the row. Where the source would put
-- `undefined` into the row the result is `none`.
pub mod Active
pub mod Find
pub mod Tests
use racemo.Base.{
  ℕ, ◌+◌, ◌-◌, min, Bool, true, false, ◌&&◌, Option, none, some, List, [], ◌∷◌, ltb, leb, ◌==◌,
  if◌then◌else◌, get_elem?, take, Text, text_eq, Dict, dict_get, dict_set, dict_delete, find_index,
  remove_at, insert_at,
}

pub record TabResult {ℓ} (A : Type ℓ) : Type ℓ where
  pub tabs : List A
  pub active_index : ℕ

-- The index of the active tab after a move.
unfoldable pub moved_active : ℕ → ℕ → ℕ → ℕ
moved_active from to active =
    if from == active
    then to
    else if ltb from active && leb active to
    then active - 1
    else if ltb active from && leb to active
    then active + 1
    else active

module _ {ℓ} {A : Type ℓ} where
  abbrev pub tab_result : List A → ℕ → TabResult A
  tab_result tabs active = record { tabs = tabs; active_index = active }

  abbrev pub is_empty : List A → Bool
  is_empty [] = true
  is_empty (_ ∷ _) = false

  -- `Math.max(0, activeIndex - 1)` is the truncated difference.
  unfoldable pub close_tab : List A → ℕ → ℕ → TabResult A
  close_tab tabs index active =
      let next = remove_at tabs index in
      let next_active = if leb index active then active - 1 else active in
      tab_result next (if is_empty next then 0 else next_active)

  unfoldable pub close_others : List A → ℕ → Option (TabResult A)
  close_others tabs index = elim (get_elem? tabs index) [
    | none ↦ none
    | some t ↦ some (tab_result (t ∷ []) 0)
  ]

  unfoldable pub close_to_right : List A → ℕ → ℕ → TabResult A
  close_to_right tabs index active = tab_result (take (index + 1) tabs) (min active index)

  unfoldable pub close_all : TabResult A
  close_all = tab_result [] 0

  -- `[moved] = next.splice(from, 1); next.splice(to, 0, moved)`
  unfoldable pub splice_move : List A → ℕ → ℕ → Option (List A)
  splice_move tabs from to = elim (get_elem? tabs from) [
    | none ↦ none
    | some moved ↦ some (insert_at (remove_at tabs from) to moved)
  ]

  unfoldable pub move_tab : List A → ℕ → ℕ → ℕ → Option (TabResult A)
  unfolding moved_active
  move_tab tabs from to active = elim (splice_move tabs from to) [
    | none ↦ none
    | some next ↦ some (tab_result next (moved_active from to active))
  ]

-- `none` is the answer -1.
unfoldable pub find_tab_index_by_path : List Text → Text → Option ℕ
find_tab_index_by_path paths path = find_index (λ p. text_eq p path) paths

abbrev pub save_cooldown_ms : ℕ
save_cooldown_ms = 2000

-- The module's map `recentlySaved` is passed along; `now` is `Date.now()`.
unfoldable pub mark_recently_saved : Text → ℕ → Dict ℕ → Dict ℕ
mark_recently_saved path now saved = dict_set path now saved

-- `now - ts < SAVE_COOLDOWN_MS` without the subtraction; a time stamp 0 counts as none.
unfoldable pub is_recently_saved : Text → ℕ → Dict ℕ → Bool × Dict ℕ
is_recently_saved path now saved = elim (dict_get path saved) [
  | none ↦ (false, saved)
  | some ts ↦
      if ts == 0
      then (false, saved)
      else if ltb now (ts + save_cooldown_ms)
      then (true, saved)
      else (false, dict_delete path saved)
]
