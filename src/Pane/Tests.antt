-- ===== src/Pane/Tests.antt =====
-- Runs of the pane functions, and the theorems at concrete trees.
use racemo.Base.{ℕ, ◌≡◌, refl, none, some, [], ◌∷◌, text_eq}
use racemo.Pane.{
  PaneNode, leaf, split, first_leaf_id, find_pty_id, collect_leaf_ids, collect_pty_ids, left, right,
  up, horizontal, find_path_to, nearest, navigate_pane,
}
use racemo.Pane.Leaves.{all_truthy, first_match, find_pty_id-first_match}
use racemo.Pane.Navigate.{neighbour, navigate_pane-neighbour}

abbrev pane : ℕ → PaneNode
pane n =
    leaf
      (record { id = n ∷ []; pty_id = n ∷ n ∷ []; cwd = none; shell = none; last_command = none })

abbrev row : PaneNode
row = split [] horizontal 500 (split [] horizontal 500 (pane 1) (pane 2)) (pane 3)

right_of_two : navigate_pane row (2 ∷ []) right ≡ some (3 ∷ [])
unfolding navigate_pane find_path_to nearest first_leaf_id text_eq
right_of_two = refl

up_of_two : navigate_pane row (2 ∷ []) up ≡ none
unfolding navigate_pane find_path_to nearest first_leaf_id text_eq
up_of_two = refl

left_of_three : navigate_pane row (3 ∷ []) left ≡ some (1 ∷ [])
unfolding navigate_pane find_path_to nearest first_leaf_id text_eq
left_of_three = refl

find_pty_id-first_match_example :
    find_pty_id row (2 ∷ []) ≡ first_match (collect_leaf_ids row) (collect_pty_ids row) (2 ∷ [])
unfolding all_truthy collect_pty_ids
find_pty_id-first_match_example = find_pty_id-first_match row (2 ∷ []) refl

navigate_pane-neighbour_example : navigate_pane row (2 ∷ []) right ≡ neighbour right row (2 ∷ [])
navigate_pane-neighbour_example = navigate_pane-neighbour row (2 ∷ []) right
