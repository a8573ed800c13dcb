-- ===== src/Pane.antt =====
-- The tree of panes of a tab (src/types/session.ts, src/lib/paneTreeUtils.ts).
pub mod Leaves
pub mod Navigate
pub mod Tests
use racemo.Base.{
  ℕ, ◌+◌, Bool, true, false, ◌&&◌, Option, none, some, List, [], ◌∷◌, ◌++◌, reverse, if◌then◌else◌,
  Text, text_eq,
}

pub data ShellType : Type 0 where
  power_shell cmd wsl zsh bash fish : ShellType

pub record LeafPane : Type 0 where
  pub id : Text
  pub pty_id : Text
  pub cwd : Option Text
  pub shell : Option ShellType
  pub last_command : Option Text

pub data Direction : Type 0 where
  horizontal vertical : Direction

-- The ratio of a split is kept in thousandths; nothing here computes with it.
pub data PaneNode : Type 0 where
  leaf : LeafPane → PaneNode
  split : (id : Text) (direction : Direction) (ratio : ℕ) (first second : PaneNode) → PaneNode

unfoldable pub first_leaf_id : PaneNode → Text
first_leaf_id (leaf l) = l.id
first_leaf_id (split _ _ _ a b) = first_leaf_id a

-- `a || b` on `string | null`: an empty string counts as no value.
abbrev pub or_text : Option Text → Option Text → Option Text
or_text none y = y
or_text (some []) y = y
or_text (some (c ∷ s)) y = some (c ∷ s)

unfoldable pub find_pty_id : PaneNode → Text → Option Text
find_pty_id (leaf l) pane_id = if text_eq l.id pane_id then some l.pty_id else none
find_pty_id (split _ _ _ a b) pane_id = or_text (find_pty_id a pane_id) (find_pty_id b pane_id)

unfoldable pub collect_leaf_ids : PaneNode → List Text
collect_leaf_ids (leaf l) = l.id ∷ []
collect_leaf_ids (split _ _ _ a b) = collect_leaf_ids a ++ collect_leaf_ids b

unfoldable pub collect_pty_ids : PaneNode → List Text
collect_pty_ids (leaf l) = l.pty_id ∷ []
collect_pty_ids (split _ _ _ a b) = collect_pty_ids a ++ collect_pty_ids b

-- Pairs `{ ptyId, cwd }`; a missing or an empty `cwd` gives none.
abbrev leaf_cwds : Text → Option Text → List (Text × Text)
leaf_cwds pty none = []
leaf_cwds pty (some []) = []
leaf_cwds pty (some (c ∷ s)) = (pty, c ∷ s) ∷ []

unfoldable pub collect_leaf_cwds : PaneNode → List (Text × Text)
collect_leaf_cwds (leaf l) = leaf_cwds l.pty_id l.cwd
collect_leaf_cwds (split _ _ _ a b) = collect_leaf_cwds a ++ collect_leaf_cwds b

unfoldable pub first_pty_id : PaneNode → Text
first_pty_id (leaf l) = l.pty_id
first_pty_id (split _ _ _ a b) = first_pty_id a

pub data NavDirection : Type 0 where
  left right up down : NavDirection

pub data Side : Type 0 where
  on_first on_second : Side

-- An entry holds what `navigatePane` reads of the split: its direction and its two children.
pub record PathEntry : Type 0 where
  pub direction : Direction
  pub first : PaneNode
  pub second : PaneNode
  pub side : Side

abbrev entry : Direction → PaneNode → PaneNode → Side → PathEntry
entry d a b s = record { direction = d; first = a; second = b; side = s }

-- Every `push` that finds nothing is undone by a `pop`, so `path` is passed down.
unfoldable pub find_path_to : PaneNode → Text → List PathEntry → Option (List PathEntry)
find_path_to (leaf l) target path = if text_eq l.id target then some path else none
find_path_to (split _ d _ a b) target path =
    elim (find_path_to a target (path ++ entry d a b on_first ∷ [])) [
      | some l ↦ some l
      | none ↦ find_path_to b target (path ++ entry d a b on_second ∷ [])
    ]

abbrev pub split_dir : NavDirection → Direction
split_dir left = horizontal
split_dir right = horizontal
split_dir up = vertical
split_dir down = vertical

abbrev pub required_side : NavDirection → Side
required_side right = on_first
required_side down = on_first
required_side left = on_second
required_side up = on_second

abbrev pub same_direction : Direction → Direction → Bool
same_direction horizontal horizontal = true
same_direction vertical vertical = true
same_direction _ _ = false

abbrev pub same_side : Side → Side → Bool
same_side on_first on_first = true
same_side on_second on_second = true
same_side _ _ = false

abbrev pub neighbor : NavDirection → PathEntry → PaneNode
neighbor right e = e.second
neighbor down e = e.second
neighbor left e = e.first
neighbor up e = e.first

-- The loop of `navigatePane`, over the entries from the innermost outwards.
unfoldable pub nearest : NavDirection → List PathEntry → Option Text
nearest dir [] = none
nearest dir (e ∷ es) =
    if same_direction e.direction (split_dir dir) && same_side e.side (required_side dir)
    then some (first_leaf_id (neighbor dir e))
    else nearest dir es

unfoldable pub navigate_pane : PaneNode → Text → NavDirection → Option Text
navigate_pane root current_id dir = elim (find_path_to root current_id []) [
  | none ↦ none
  | some path ↦ nearest dir (reverse path)
]
