-- ===== src/Graph.antt =====
-- The lanes of the commit graph (src/lib/gitGraph.ts). A lane waits for the hash of a commit; a lane
-- that is null is `none`. The loops over the lanes are by recursion on the list of lanes.

pub mod Claims
pub mod Frontier
pub mod Parents
pub mod Columns
mod Tests
use racemo.Base.{
  ℕ, suc, ◌+◌, ◌%◌, not, ◌&&◌, ◌||◌, Bool, false, Option, none, some, List, [], ◌∷◌, ◌++◌, ltb,
  ◌==◌, if◌then◌else◌, Text, text_eq, length, set, map, get_elem?, find_index,
}

pub record GitCommitEntry : Type 0 where
  pub hash : Text
  pub message : Text
  pub author : Text
  pub timestamp : ℕ
  pub relative_time : Text
  pub parents : List Text
  pub refs : List Text

unfoldable pub graph_colors : ℕ
graph_colors = 10

pub data LineType : Type 0 where
  pass merge_down branch_up : LineType

pub record GraphLine : Type 0 where
  pub from_col : ℕ
  pub to_col : ℕ
  pub color : ℕ
  pub kind : LineType

pub record GraphRow : Type 0 where
  pub col : ℕ
  pub color : ℕ
  pub lane_count : ℕ
  pub lines : List GraphLine
  pub is_merge : Bool

pub record Lane : Type 0 where
  pub hash : Text
  pub color : ℕ

abbrev pub Lanes : Type 0
Lanes = List (Option Lane)

abbrev pub waits_for : Text → Option Lane → Bool
waits_for q none = false
waits_for q (some l) = text_eq l.hash q

-- `nextColor` after a color was taken.
unfoldable pub next_color : ℕ → ℕ
unfolding graph_colors
next_color c = (c + 1) % graph_colors

unfoldable pub find_lane : Text → Lanes → Option ℕ
find_lane q lanes = find_index (waits_for q) lanes

unfoldable pub find_empty_lane : Lanes → ℕ
find_empty_lane [] = 0
find_empty_lane (none ∷ lanes) = 0
find_empty_lane (some _ ∷ lanes) = suc (find_empty_lane lanes)

unfoldable pub matching_lanes : Text → Lanes → List ℕ
matching_lanes q [] = []
matching_lanes q (l ∷ lanes) =
    let rest = map suc (matching_lanes q lanes) in if waits_for q l then 0 ∷ rest else rest

-- `lanes[i]!.color`; it is read of lanes that are not null.
abbrev pub color_of : Option (Option Lane) → ℕ
color_of (some (some l)) = l.color
color_of _ = 0

unfoldable pub color_at : Lanes → ℕ → ℕ
color_at lanes i = color_of (get_elem? lanes i)

-- The lines and the lanes of the loop that closes the other matching lanes.
unfoldable pub merge_lines : ℕ → List ℕ → Lanes → List GraphLine
merge_lines col [] lanes = []
merge_lines col (i ∷ is) lanes =
    record { from_col = i; to_col = col; color = color_at lanes i; kind = merge_down }
    ∷ merge_lines col is (set lanes i none)

unfoldable pub close_lanes : List ℕ → Lanes → Lanes
close_lanes [] lanes = lanes
close_lanes (i ∷ is) lanes = close_lanes is (set lanes i none)

-- `lanes.push(null)` for a lane that is one past the end.
unfoldable pub grow : ℕ → Lanes → Lanes
grow i lanes = if ltb i (length lanes) then lanes else lanes ++ none ∷ []

-- What the commit's column is, and the state after it is claimed.
pub record Claim : Type 0 where
  pub col : ℕ
  pub color : ℕ
  pub lines : List GraphLine
  pub lanes : Lanes
  pub next : ℕ

unfoldable pub claim : List ℕ → Lanes → ℕ → Claim
claim (m ∷ others) lanes next = record {
  col = m;
  color = color_at lanes m;
  lines = merge_lines m others lanes;
  lanes = close_lanes others lanes;
  next = next;
}
claim [] lanes next = record {
  col = find_empty_lane lanes;
  color = next;
  lines = [];
  lanes = grow (find_empty_lane lanes) lanes;
  next = next_color next;
}

abbrev pub index_mem : ℕ → List ℕ → Bool
index_mem i [] = false
index_mem i (j ∷ js) = i == j || index_mem i js

-- The lines of the other lanes, from lane i on.
unfoldable pub pass_lines : ℕ → List ℕ → ℕ → Lanes → List GraphLine
pass_lines col matching i [] = []
pass_lines col matching i (none ∷ lanes) = pass_lines col matching (suc i) lanes
pass_lines col matching i (some l ∷ lanes) =
    let rest = pass_lines col matching (suc i) lanes in
    if not (i == col) && not (index_mem i matching)
    then record { from_col = i; to_col = i; color = l.color; kind = pass } ∷ rest
    else rest

abbrev pub first_lane : List Text → ℕ → Option Lane
first_lane [] color = none
first_lane (p ∷ ps) color = some (record { hash = p; color = color })

abbrev pub own_line : List Text → ℕ → ℕ → List GraphLine
own_line [] col color = []
own_line (p ∷ ps) col color =
    record { from_col = col; to_col = col; color = color; kind = pass } ∷ []

pub record Branches : Type 0 where
  pub lines : List GraphLine
  pub lanes : Lanes
  pub next : ℕ

abbrev pub branch_line : ℕ → ℕ → ℕ → GraphLine
branch_line col lane color = record {
  from_col = col;
  to_col = lane;
  color = color;
  kind = branch_up;
}

abbrev pub new_lane : Text → ℕ → Lanes → Lanes
new_lane p c lanes =
    set (grow (find_empty_lane lanes) lanes) (find_empty_lane lanes)
      (some (record { hash = p; color = c }))

-- One turn of the loop over the further parents.
unfoldable pub branch : ℕ → Text → Branches → Branches
branch col p s = elim (find_lane p s.lanes) [
  | some i ↦ record s { lines = s.lines ++ branch_line col i (color_at s.lanes i) ∷ [] }
  | none ↦ record {
    lines = s.lines ++ branch_line col (find_empty_lane s.lanes) s.next ∷ [];
    lanes = new_lane p s.next s.lanes;
    next = next_color s.next;
  }
]

unfoldable pub branch_all : ℕ → List Text → Branches → Branches
branch_all col [] s = s
branch_all col (p ∷ ps) s = branch_all col ps (branch col p s)

abbrev pub rest_of : List Text → List Text
rest_of [] = []
rest_of (p ∷ ps) = ps

-- A lane before the lanes that are left of those after it.
abbrev pub keep_lane : Option Lane → Lanes → Lanes
keep_lane none [] = []
keep_lane none (l ∷ rest) = none ∷ l ∷ rest
keep_lane (some l) rest = some l ∷ rest

-- The loop that pops the trailing nulls.
unfoldable pub compact : Lanes → Lanes
compact [] = []
compact (l ∷ lanes) = keep_lane l (compact lanes)

pub record GraphState : Type 0 where
  pub lanes : Lanes
  pub next : ℕ
  pub rows : List GraphRow

abbrev pub empty_graph : GraphState
empty_graph = record { lanes = []; next = 0; rows = [] }

-- The lines and the lanes once the commit's own lane waits for the first parent.
abbrev pub own_lane : GitCommitEntry → Claim → List ℕ → Branches
own_lane c k matching = record {
  lines = (k.lines ++ pass_lines k.col matching 0 k.lanes) ++ own_line c.parents k.col k.color;
  lanes = set k.lanes k.col (first_lane c.parents k.color);
  next = k.next;
}

-- The turn of the loop for one commit, before the lanes are compacted.
unfoldable pub place : GitCommitEntry → Claim → List ℕ → Branches
place c k matching = branch_all k.col (rest_of c.parents) (own_lane c k matching)

abbrev pub row_of : GitCommitEntry → Claim → Branches → GraphRow
row_of c k b = record {
  col = k.col;
  color = k.color;
  lane_count = length (compact b.lanes);
  lines = b.lines;
  is_merge = ltb 1 (length c.parents);
}

unfoldable pub add_commit : GitCommitEntry → GraphState → GraphState
add_commit c s =
    let matching = matching_lanes c.hash s.lanes in
    let k = claim matching s.lanes s.next in
    let b = place c k matching in
    record { lanes = compact b.lanes; next = b.next; rows = s.rows ++ row_of c k b ∷ [] }

unfoldable pub add_commits : List GitCommitEntry → GraphState → GraphState
add_commits [] s = s
add_commits (c ∷ cs) s = add_commits cs (add_commit c s)

unfoldable pub compute_graph_rows : List GitCommitEntry → List GraphRow
compute_graph_rows cs = (add_commits cs empty_graph).rows

unfoldable pub max_from : ℕ → List GraphRow → ℕ
max_from m [] = m
max_from m (r ∷ rows) = max_from (if ltb m r.lane_count then r.lane_count else m) rows

unfoldable pub get_max_lanes : List GraphRow → ℕ
get_max_lanes rows = max_from 1 rows
