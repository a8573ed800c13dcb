-- ===== src/Tabs/Tests.antt =====
-- Runs of the tab operations, and the theorems at concrete rows.
use racemo.Base.{
  ℕ, ◌≡◌, refl, none, some, List, [], ◌∷◌, codes, text_eq, find_index, remove_at, insert_at,
}
use racemo.Tabs.{
  tab_result, close_tab, close_others, close_to_right, move_tab, splice_move,
  find_tab_index_by_path,
}

abbrev row : List ℕ
row = 10 ∷ 11 ∷ 12 ∷ 13 ∷ []

close_second : close_tab row 1 2 ≡ tab_result (10 ∷ 12 ∷ 13 ∷ []) 1
unfolding close_tab remove_at
close_second = refl

keep_one : close_others row 7 ≡ none
unfolding close_others
keep_one = refl

keep_left : close_to_right row 1 3 ≡ tab_result (10 ∷ 11 ∷ []) 1
unfolding close_to_right
keep_left = refl

move_first : move_tab row 0 2 1 ≡ some (tab_result (11 ∷ 12 ∷ 10 ∷ 13 ∷ []) 0)
unfolding move_tab splice_move insert_at remove_at
move_first = refl

index_of_second : find_tab_index_by_path (codes "a" ∷ codes "b" ∷ []) (codes "b") ≡ some 1
unfolding find_tab_index_by_path find_index text_eq
index_of_second = refl
