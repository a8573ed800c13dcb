-- ===== src/Graph/Tests.antt =====
-- Runs of the graph of commits on small histories, and the properties at them.
use racemo.Base.{
  ◌≡◌, refl, not, ◌&&◌, map, List, [], ◌∷◌, Text, codes, text_mem, text_eq, find_index,
}
use racemo.Graph.{
  GitCommitEntry, GraphRow, empty_graph, add_commit, add_commits, compute_graph_rows, get_max_lanes,
  compact, place, branch_all, branch, find_lane, claim, matching_lanes, grow, find_empty_lane,
  close_lanes, next_color, graph_colors, max_from,
}
use racemo.Graph.Claims.{waits}
use racemo.Graph.Frontier.{waits-frontier, mentioned, listed}
use racemo.Graph.Parents.{Joined, add_commit-Joined}
use racemo.Graph.Columns.{RowsWithin, compute_graph_rows-RowsWithin}

abbrev commit : Text → List Text → GitCommitEntry
commit h ps = record {
  hash = h;
  message = [];
  author = [];
  timestamp = 0;
  relative_time = [];
  parents = ps;
  refs = [];
}

-- A merge of two branches of one root.
abbrev diamond : List GitCommitEntry
diamond =
    commit (codes "m") (codes "a" ∷ codes "b" ∷ [])
    ∷ commit (codes "a") (codes "r" ∷ [])
    ∷ commit (codes "b") (codes "r" ∷ [])
    ∷ commit (codes "r") []
    ∷ []

diamond_cols : map (λ (r : GraphRow). r.col) (compute_graph_rows diamond) ≡ 0 ∷ 0 ∷ 1 ∷ 0 ∷ []
unfolding compute_graph_rows add_commits add_commit compact place branch_all branch find_lane
    find_index claim matching_lanes grow find_empty_lane text_eq close_lanes next_color graph_colors
    get_max_lanes max_from
diamond_cols = refl

diamond_counts :
    map (λ (r : GraphRow). r.lane_count) (compute_graph_rows diamond) ≡ 2 ∷ 2 ∷ 2 ∷ 0 ∷ []
unfolding compute_graph_rows add_commits add_commit compact place branch_all branch find_lane
    find_index claim matching_lanes grow find_empty_lane text_eq close_lanes next_color graph_colors
    get_max_lanes max_from
diamond_counts = refl

-- A root that no commit waits for stands in a column that no room is made for.
root_outside :
    let rows =
      compute_graph_rows (commit (codes "a") (codes "p" ∷ []) ∷ commit (codes "b") [] ∷ []) in
    (map (λ (r : GraphRow). r.col) rows ≡ 0 ∷ 1 ∷ []) × (get_max_lanes rows ≡ 1)
unfolding compute_graph_rows add_commits add_commit compact place branch_all branch find_lane
    find_index claim matching_lanes grow find_empty_lane text_eq close_lanes next_color graph_colors
    get_max_lanes max_from
root_outside = (refl, refl)

waits-frontier_example :
    waits (codes "r") (add_commits diamond empty_graph).lanes
    ≡ (mentioned (codes "r") diamond && not (listed (codes "r") diamond))
unfolding text_mem text_eq
waits-frontier_example = waits-frontier (codes "r") diamond (refl, (refl, (refl, (refl, tt))))

add_commit-Joined_example :
    (r : GraphRow) × ((add_commit
        (commit (codes "m") (codes "a" ∷ codes "b" ∷ []))
        empty_graph).rows
      ≡ r ∷ [])
    × Joined r.col
        (codes "b")
        r.lines
        (add_commit (commit (codes "m") (codes "a" ∷ codes "b" ∷ [])) empty_graph).lanes
unfolding text_mem text_eq
add_commit-Joined_example =
    add_commit-Joined (commit (codes "m") (codes "a" ∷ codes "b" ∷ [])) empty_graph (codes "b") refl

compute_graph_rows-RowsWithin_example :
    RowsWithin (get_max_lanes (compute_graph_rows diamond)) (compute_graph_rows diamond)
compute_graph_rows-RowsWithin_example = compute_graph_rows-RowsWithin diamond
