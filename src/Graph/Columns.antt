-- ===== src/Graph/Columns.antt =====
-- The columns that the rows of the commit graph draw in (src/lib/gitGraph.ts).
use racemo.Base.{
  ℕ, suc, ◌+◌, ◌≤◌, ◌<◌, ◌≡◌, refl, ◌∙◌, inl, inr, not, ◌&&◌, none, some, List, [], ◌∷◌, ◌++◌, map,
  arith, ltb, ◌==◌, if◌then◌else◌, Bool-cases, length, set, length-set, Text, lt_of_get_elem?,
}
use racemo.Graph.{
  GitCommitEntry, GraphLine, GraphRow, Lane, Lanes, waits_for, find_empty_lane, matching_lanes,
  close_lanes, merge_lines, pass_lines, index_mem, grow, Claim, claim, own_line, Branches, branch,
  branch_all, compact, GraphState, empty_graph, own_lane, place, row_of, add_commit, add_commits,
  compute_graph_rows, max_from, get_max_lanes,
}
use racemo.Graph.Parents.{
  Holds, Holds-branch, Holds-branch_all, Holds-compact, branch_lem, own_lane-Holds,
}

-- Lines within the first n columns, and rows of such lines.
abbrev pub LinesWithin : ℕ → List GraphLine → Type 0
LinesWithin n [] = Unit
LinesWithin n (g ∷ gs) = (g.from_col < n) × (g.to_col < n) × LinesWithin n gs

abbrev pub RowsWithin : ℕ → List GraphRow → Type 0
RowsWithin n [] = Unit
RowsWithin n (r ∷ rows) = LinesWithin n r.lines × RowsWithin n rows

abbrev Below : ℕ → List ℕ → Type 0
Below n [] = Unit
Below n (i ∷ is) = (i < n) × Below n is

LinesWithin-append :
    (n : ℕ) (gs hs : List GraphLine)
    → LinesWithin n gs
    → LinesWithin n hs
    → LinesWithin n (gs ++ hs)
LinesWithin-append n [] hs a b = b
LinesWithin-append n (g ∷ gs) hs (x, y, a) b = (x, y, LinesWithin-append n gs hs a b)

LinesWithin-le : (m n : ℕ) (gs : List GraphLine) → m ≤ n → LinesWithin m gs → LinesWithin n gs
LinesWithin-le m n [] e h = tt
LinesWithin-le m n (g ∷ gs) e (x, y, h) = (omega arith, omega arith, LinesWithin-le m n gs e h)

RowsWithin-le : (m n : ℕ) (rows : List GraphRow) → m ≤ n → RowsWithin m rows → RowsWithin n rows
RowsWithin-le m n [] e h = tt
RowsWithin-le m n (r ∷ rows) e (a, h) = (LinesWithin-le m n r.lines e a, RowsWithin-le m n rows e h)

RowsWithin-snoc :
    (n : ℕ) (rows : List GraphRow) (r : GraphRow)
    → RowsWithin n rows
    → LinesWithin n r.lines
    → RowsWithin n (rows ++ r ∷ [])
RowsWithin-snoc n [] r h a = (a, tt)
RowsWithin-snoc n (q ∷ rows) r (b, h) a = (b, RowsWithin-snoc n rows r h a)

Below-map : (n : ℕ) (is : List ℕ) → Below n is → Below (suc n) (map suc is)
Below-map n [] h = tt
Below-map n (i ∷ is) (a, h) = (omega arith, Below-map n is h)

Below-matching_lanes : (h : Text) (lanes : Lanes) → Below (length lanes) (matching_lanes h lanes)
unfolding matching_lanes
Below-matching_lanes h [] = tt
Below-matching_lanes h (l ∷ lanes) = elim (Bool-cases (waits_for h l)) [
  | inl e ↦ rw e (
    omega arith,
    Below-map (length lanes) (matching_lanes h lanes) (Below-matching_lanes h lanes),
  )
  | inr e ↦ rw e (Below-map (length lanes) (matching_lanes h lanes) (Below-matching_lanes h lanes))
]

merge_lines-LinesWithin :
    (n col : ℕ) (is : List ℕ) (lanes : Lanes)
    → col < n
    → Below n is
    → LinesWithin n (merge_lines col is lanes)
unfolding merge_lines
merge_lines-LinesWithin n col [] lanes h b = tt
merge_lines-LinesWithin n col (i ∷ is) lanes h (a, b) =
    (a, h, merge_lines-LinesWithin n col is (set lanes i none) h b)

length-close_lanes : (is : List ℕ) (lanes : Lanes) → length (close_lanes is lanes) ≡ length lanes
unfolding close_lanes
length-close_lanes [] lanes = refl
length-close_lanes (i ∷ is) lanes =
    length-close_lanes is (set lanes i none) ∙ length-set lanes i none

pass_lines-LinesWithin :
    (n col : ℕ) (ms : List ℕ) (i : ℕ) (lanes : Lanes)
    → i + length lanes ≤ n
    → LinesWithin n (pass_lines col ms i lanes)
unfolding pass_lines
pass_lines-LinesWithin n col ms i [] h = tt
pass_lines-LinesWithin n col ms i (none ∷ lanes) h =
    pass_lines-LinesWithin n col ms (suc i) lanes (omega arith)
pass_lines-LinesWithin n col ms i (some l ∷ lanes) h =
    elim (Bool-cases (not (i == col) && not (index_mem i ms))) [
      | inl e ↦
          rw e
            (omega arith, omega arith, pass_lines-LinesWithin n col ms (suc i) lanes (omega arith))
      | inr e ↦ rw e (pass_lines-LinesWithin n col ms (suc i) lanes (omega arith))
    ]

-- A lane that is null and is past the others has no line.
pass_lines-snoc :
    (col : ℕ) (ms : List ℕ) (i : ℕ) (lanes : Lanes)
    → pass_lines col ms i (lanes ++ none ∷ []) ≡ pass_lines col ms i lanes
unfolding pass_lines
pass_lines-snoc col ms i [] = refl
pass_lines-snoc col ms i (none ∷ lanes) = pass_lines-snoc col ms (suc i) lanes
pass_lines-snoc col ms i (some l ∷ lanes) = rw (pass_lines-snoc col ms (suc i) lanes)

pass_lines-grow :
    (col : ℕ) (ms : List ℕ) (j : ℕ) (lanes : Lanes)
    → pass_lines col ms 0 (grow j lanes) ≡ pass_lines col ms 0 lanes
unfolding grow
pass_lines-grow col ms j lanes = elim (Bool-cases (ltb j (length lanes))) [
  | inl e ↦ rw e
  | inr e ↦ rw e (pass_lines-snoc col ms 0 lanes)
]

Below-le : (m n : ℕ) (is : List ℕ) → m ≤ n → Below m is → Below n is
Below-le m n [] e h = tt
Below-le m n (i ∷ is) e (a, h) = (omega arith, Below-le m n is e h)

claim-LinesWithin :
    (n : ℕ) (ms : List ℕ) (lanes : Lanes) (next : ℕ)
    → length lanes ≤ n
    → Below (length lanes) ms
    → let k = claim ms lanes next in LinesWithin n (k.lines ++ pass_lines k.col ms 0 k.lanes)
unfolding claim
claim-LinesWithin n [] lanes next h b =
    rw (pass_lines-grow (find_empty_lane lanes) [] (find_empty_lane lanes) lanes)
      (pass_lines-LinesWithin n (find_empty_lane lanes) [] 0 lanes (omega arith))
claim-LinesWithin n (m ∷ ms) lanes next h (a, b) =
    LinesWithin-append n (merge_lines m ms lanes) (pass_lines m (m ∷ ms) 0 (close_lanes ms lanes))
      (merge_lines-LinesWithin n m ms lanes (omega arith) (Below-le (length lanes) n ms h b))
      (pass_lines-LinesWithin n m (m ∷ ms) 0 (close_lanes ms lanes)
        (omega (arith, length-close_lanes ms lanes)))

-- A lane that waits stays, and is one of the row's lanes.
lane_below :
    (n col j : ℕ) (ps : List Text) (s : Branches) (l : Lane)
    → length (compact (branch_all col ps s).lanes) ≤ n
    → Holds s.lanes j l
    → j < n
lane_below n col j ps s l h f =
    let b = branch_all col ps s in
    let below : j < length (compact b.lanes) =
      lt_of_get_elem? (compact b.lanes) j
        (Holds-compact j b.lanes l (Holds-branch_all col j ps s l f)) in
    omega arith

branch_all-LinesWithin :
    (n col : ℕ) (ps : List Text) (s : Branches) (l : Lane)
    → Holds s.lanes col l
    → length (compact (branch_all col ps s).lanes) ≤ n
    → LinesWithin n s.lines
    → LinesWithin n (branch_all col ps s).lines
unfolding branch_all
branch_all-LinesWithin n col [] s l e h a = a
branch_all-LinesWithin n col (p ∷ ps) s l e h a =
    let (g, m, x, y, z, v, w) = branch_lem col p s in
    let t : Branches = branch col p s in
    branch_all-LinesWithin n col ps t l (Holds-branch col col p s l e) h (
      rw x (
        LinesWithin-append n s.lines (g ∷ []) a (
          rw y (lane_below n col col ps t l h (Holds-branch col col p s l e)),
          lane_below n col g.to_col ps t m h z,
          tt,
        )))

place-LinesWithin :
    (n : ℕ) (c : GitCommitEntry) (s : GraphState)
    → let ms = matching_lanes c.hash s.lanes in
      let b = place c (claim ms s.lanes s.next) ms in
      length s.lanes ≤ n → length (compact b.lanes) ≤ n → LinesWithin n b.lines
unfolding place branch_all
place-LinesWithin n c s h e = go c.parents e
  where
    ms : List ℕ
    ms = matching_lanes c.hash s.lanes

    k : Claim
    k = claim ms s.lanes s.next

    above : LinesWithin n (k.lines ++ pass_lines k.col ms 0 k.lanes)
    above = claim-LinesWithin n ms s.lanes s.next h (Below-matching_lanes c.hash s.lanes)

    go :
        (ps : List Text)
        → let b = place (record c { parents = ps }) k ms in
          length (compact b.lanes) ≤ n → LinesWithin n b.lines
    go [] f = LinesWithin-append n (k.lines ++ pass_lines k.col ms 0 k.lanes) [] above tt
    go (p ∷ ps) f =
        let l : Lane = record { hash = p; color = k.color } in
        let o = own_lane (record c { parents = p ∷ ps }) k ms in
        let held : Holds o.lanes k.col l = own_lane-Holds c.hash s.lanes s.next l in
        let below = lane_below n k.col k.col ps o l f held in
        branch_all-LinesWithin n k.col ps o l held f (
          LinesWithin-append n (k.lines ++ pass_lines k.col ms 0 k.lanes)
            (own_line (p ∷ ps) k.col k.color) above (below, below, tt))

max_from-max : (m : ℕ) (rows : List GraphRow) → m ≤ max_from m rows
unfolding max_from
max_from-max m [] = omega arith
max_from-max m (r ∷ rows) = ground (arith, max_from-max r.lane_count rows, max_from-max m rows)

get_max_lanes-snoc :
    (m : ℕ) (rows : List GraphRow) (r : GraphRow)
    → (max_from m rows ≤ max_from m (rows ++ r ∷ [])) × (r.lane_count ≤ max_from m (rows ++ r ∷ []))
unfolding max_from
get_max_lanes-snoc m [] r = (ground arith, ground arith)
get_max_lanes-snoc m (q ∷ rows) r =
    get_max_lanes-snoc (if ltb m q.lane_count then q.lane_count else m) rows r

-- The lanes that are left, and the lines of the rows so far, lie within the columns counted so far.
abbrev pub Within : GraphState → Type 0
Within s = (length s.lanes ≤ get_max_lanes s.rows) × RowsWithin (get_max_lanes s.rows) s.rows

add_commit-Within : (c : GitCommitEntry) (s : GraphState) → Within s → Within (add_commit c s)
unfolding add_commit get_max_lanes
add_commit-Within c s (h, hs) =
    let ms = matching_lanes c.hash s.lanes in
    let k = claim ms s.lanes s.next in
    let r = row_of c k (place c k ms) in
    let (a, b) = get_max_lanes-snoc 1 s.rows r in
    let n = max_from 1 (s.rows ++ r ∷ []) in
    (
      b,
      RowsWithin-snoc n s.rows r (RowsWithin-le (max_from 1 s.rows) n s.rows a hs)
          (place-LinesWithin n c s (omega arith) b),
    )

add_commits-Within :
    (cs : List GitCommitEntry) (s : GraphState) → Within s → Within (add_commits cs s)
unfolding add_commits
add_commits-Within [] s h = h
add_commits-Within (c ∷ cs) s h = add_commits-Within cs (add_commit c s) (add_commit-Within c s h)

-- Every line of every row begins and ends within the columns that are made room for.
pub compute_graph_rows-RowsWithin :
    (cs : List GitCommitEntry)
    → RowsWithin (get_max_lanes (compute_graph_rows cs)) (compute_graph_rows cs)
unfolding compute_graph_rows
compute_graph_rows-RowsWithin cs =
    let (a, b) = add_commits-Within cs empty_graph (omega arith, tt) in b
