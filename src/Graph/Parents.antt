-- ===== src/Graph/Parents.antt =====
-- The lines from a commit of the graph to the lanes of its parents (src/lib/gitGraph.ts).
use racemo.Base.{
  ℕ, zero, suc, ◌≡◌, refl, sym, ap, ◌∙◌, ◌⊎◌, inl, inr, true, Option, none, some, List, [], ◌∷◌,
  ◌++◌, ltb, Bool-cases, Option-cases, length, get_elem?, set, get_elem?-set_self, get_elem?-set_ne,
  Text, text_eq, text_eq_sound, text_mem, lt_of_get_elem?, get_elem?-append_left, get_elem?-snoc,
  find_index_lem,
}
use racemo.Graph.{
  GitCommitEntry, GraphLine, Lane, Lanes, waits_for, find_lane, find_empty_lane, matching_lanes,
  color_at, grow, Claim, claim, Branches, branch, branch_all, new_lane, rest_of, compact, keep_lane,
  GraphState, GraphRow, pass_lines, pass, own_lane, place, row_of, add_commit,
}
use racemo.Graph.Claims.{grow-find_empty_lane, claimed}

abbrev pub Holds : Lanes → ℕ → Lane → Type 0
Holds lanes i l = get_elem? lanes i ≡ some (some l)

-- A line from a column to a lane that waits for a hash and has the colour of the line.
abbrev pub Joined : ℕ → Text → List GraphLine → Lanes → Type 0
Joined col p lines lanes =
    (i : ℕ) × (g : GraphLine) × (l : Lane) × (get_elem? lines i ≡ some g)
    × (g.from_col ≡ col)
    × Holds lanes g.to_col l
    × (l.hash ≡ p)
    × (l.color ≡ g.color)

Holds-grow : (i j : ℕ) (lanes : Lanes) (l : Lane) → Holds lanes j l → Holds (grow i lanes) j l
unfolding grow
Holds-grow i j lanes l h = elim (Bool-cases (ltb i (length lanes))) [
  | inl e ↦ rw e h
  | inr e ↦ rw e (get_elem?-append_left lanes (none ∷ []) j (some l) h)
]

Holds-set :
    (lanes : Lanes) (i j : ℕ) (l : Lane) (v : Option Lane)
    → get_elem? lanes i ≡ some none
    → Holds lanes j l
    → Holds (set lanes i v) j l
Holds-set lanes i j l v e h =
    get_elem?-set_ne lanes v
      (λ q. let f : some none ≡ some (some l) = sym e ∙ ap (get_elem? lanes) q ∙ h in cc)
    ∙ h

Holds-new_lane :
    (p : Text) (c j : ℕ) (lanes : Lanes) (l : Lane)
    → Holds lanes j l
    → Holds (new_lane p c lanes) j l
Holds-new_lane p c j lanes l h =
    let (a, b) = grow-find_empty_lane lanes in
    Holds-set (grow (find_empty_lane lanes) lanes) (find_empty_lane lanes) j l
      (some (record { hash = p; color = c })) a (Holds-grow (find_empty_lane lanes) j lanes l h)

pub Holds-branch :
    (col j : ℕ) (p : Text) (s : Branches) (l : Lane)
    → Holds s.lanes j l
    → Holds (branch col p s).lanes j l
unfolding branch
Holds-branch col j p s l h = elim (Option-cases (find_lane p s.lanes)) [
  | inl e ↦ rw (e, branch) (Holds-new_lane p s.next j s.lanes l h)
  | inr (i, e) ↦ rw (e, branch) h
]

pub Holds-branch_all :
    (col j : ℕ) (ps : List Text) (s : Branches) (l : Lane)
    → Holds s.lanes j l
    → Holds (branch_all col ps s).lanes j l
unfolding branch_all
Holds-branch_all col j [] s l h = h
Holds-branch_all col j (p ∷ ps) s l h =
    Holds-branch_all col j ps (branch col p s) l (Holds-branch col j p s l h)

Holds-keep_lane :
    (k : Option Lane) (j : ℕ) (rest : Lanes) (l : Lane)
    → Holds (k ∷ rest) j l
    → Holds (keep_lane k rest) j l
Holds-keep_lane none zero rest l h = cc
Holds-keep_lane none (suc j) [] l h = cc
Holds-keep_lane none (suc j) (m ∷ rest) l h = h
Holds-keep_lane (some k) j rest l h = h

pub Holds-compact : (j : ℕ) (lanes : Lanes) (l : Lane) → Holds lanes j l → Holds (compact lanes) j l
unfolding compact
Holds-compact j [] l h = cc
Holds-compact zero (k ∷ lanes) l h = Holds-keep_lane k zero (compact lanes) l h
Holds-compact (suc j) (k ∷ lanes) l h =
    Holds-keep_lane k (suc j) (compact lanes) l (Holds-compact j lanes l h)

find_lane-Holds :
    (p : Text) (lanes : Lanes) (i : ℕ)
    → find_lane p lanes ≡ some i
    → (l : Lane) × Holds lanes i l × (l.hash ≡ p)
unfolding find_lane
find_lane-Holds p lanes i e = go (find_index_lem (waits_for p) lanes i e)
  where
    go :
        (x : Option Lane) × (get_elem? lanes i ≡ some x) × (waits_for p x ≡ true)
        → (l : Lane) × Holds lanes i l × (l.hash ≡ p)
    go (none, a, b) = cc
    go (some l, a, b) = (l, a, text_eq_sound l.hash p b)

new_lane-Holds :
    (p : Text) (c : ℕ) (lanes : Lanes)
    → Holds (new_lane p c lanes) (find_empty_lane lanes) (record { hash = p; color = c })
new_lane-Holds p c lanes =
    let (a, b) = grow-find_empty_lane lanes in
    get_elem?-set_self (grow (find_empty_lane lanes) lanes) (find_empty_lane lanes)
      (some (record { hash = p; color = c }))
      (lt_of_get_elem? (grow (find_empty_lane lanes) lanes) (find_empty_lane lanes) a)

-- What one further parent adds: a line to a lane that waits for it.
pub branch_lem :
    (col : ℕ) (p : Text) (s : Branches)
    → (g : GraphLine) × (l : Lane) × ((branch col p s).lines ≡ s.lines ++ g ∷ [])
      × (g.from_col ≡ col)
      × Holds (branch col p s).lanes g.to_col l
      × (l.hash ≡ p)
      × (l.color ≡ g.color)
unfolding branch color_at
branch_lem col p s = elim (Option-cases (find_lane p s.lanes)) [
  | inl e ↦
      rw (e, branch)
        (
          _,
          record { hash = p; color = s.next },
          refl,
          refl,
          new_lane-Holds p s.next s.lanes,
          refl,
          refl,
        )
  | inr (i, e) ↦
      let (l, h, q) = find_lane-Holds p s.lanes i e in
      rw (e, branch) (_, l, refl, refl, h, q, rw (h, color_at) refl)
]

Joined-branch :
    (col : ℕ) (p : Text) (s : Branches) → Joined col p (branch col p s).lines (branch col p s).lanes
Joined-branch col p s =
    let (g, l, a, b, h, e, f) = branch_lem col p s in
    (
      length s.lines,
      g,
      l,
      ap (λ (gs : List GraphLine). get_elem? gs (length s.lines)) a ∙ get_elem?-snoc s.lines g,
      b,
      h,
      e,
      f,
    )

lines-branch :
    (col : ℕ) (r : Text) (s : Branches) (i : ℕ) (g : GraphLine)
    → get_elem? s.lines i ≡ some g
    → get_elem? (branch col r s).lines i ≡ some g
lines-branch col r s i g h =
    let (k, l, a, b, x, y, z) = branch_lem col r s in
    rw a (get_elem?-append_left s.lines (k ∷ []) i g h)

Joined-branch_step :
    (col : ℕ) (p r : Text) (s : Branches)
    → Joined col p s.lines s.lanes
    → Joined col p (branch col r s).lines (branch col r s).lanes
unfolding branch
Joined-branch_step col p r s (i, g, l, a, b, c, d, e) =
    (i, g, l, lines-branch col r s i g a, b, Holds-branch col g.to_col r s l c, d, e)

Joined-branch_all :
    (col : ℕ) (p : Text) (ps : List Text) (s : Branches)
    → (text_mem p ps ≡ true) ⊎ Joined col p s.lines s.lanes
    → Joined col p (branch_all col ps s).lines (branch_all col ps s).lanes
unfolding branch_all text_mem
Joined-branch_all col p [] s (inl h) = cc
Joined-branch_all col p [] s (inr h) = h
Joined-branch_all col p (r ∷ ps) s (inr h) =
    Joined-branch_all col p ps (branch col r s) (inr (Joined-branch_step col p r s h))
Joined-branch_all col p (r ∷ ps) s (inl h) = elim (Bool-cases (text_eq r p)) [
  | inl e ↦
      Joined-branch_all col p ps (branch col r s)
        (inr (rw (sym (text_eq_sound r p e)) (Joined-branch col r s)))
  | inr e ↦ Joined-branch_all col p ps (branch col r s) (inl (rw e at h))
]

-- The claimed column is a lane, and may be written.
pub own_lane-Holds :
    (h : Text) (lanes : Lanes) (next : ℕ) (l : Lane)
    → let k = claim (matching_lanes h lanes) lanes next in
      Holds (set k.lanes k.col (some l)) k.col l
own_lane-Holds h lanes next l =
    let k = claim (matching_lanes h lanes) lanes next in
    let (x, a, b, f) = claimed h lanes next (some l) in
    ap (λ (y : Lanes). get_elem? y k.col) a
    ∙ get_elem?-set_self x k.col (some l) (lt_of_get_elem? x k.col b)

Joined-own_lane :
    (c : GitCommitEntry) (s : GraphState) (p : Text)
    → text_mem p c.parents ≡ true
    → let ms = matching_lanes c.hash s.lanes in
      let k = claim ms s.lanes s.next in
      let b = own_lane c k ms in
      (text_mem p (rest_of c.parents) ≡ true) ⊎ Joined k.col p b.lines b.lanes
unfolding text_mem
Joined-own_lane c s p h = go c.parents h
  where
    ms : List ℕ
    ms = matching_lanes c.hash s.lanes

    k : Claim
    k = claim ms s.lanes s.next

    drawn : List GraphLine
    drawn = k.lines ++ pass_lines k.col ms 0 k.lanes

    own : GraphLine
    own = record { from_col = k.col; to_col = k.col; color = k.color; kind = pass }

    go :
        (ps : List Text)
        → text_mem p ps ≡ true
        → let b = own_lane (record c { parents = ps }) k ms in
          (text_mem p (rest_of ps) ≡ true) ⊎ Joined k.col p b.lines b.lanes
    go [] e = cc
    go (r ∷ ps) e = elim (Bool-cases (text_eq r p)) [
      | inl q ↦ inr (
        length drawn,
        own,
        record { hash = r; color = k.color },
        get_elem?-snoc drawn own,
        refl,
        own_lane-Holds c.hash s.lanes s.next (record { hash = r; color = k.color }),
        text_eq_sound r p q,
        refl,
      )
      | inr q ↦ inl (rw q at e)
    ]

-- The row of a commit has, for each parent of the commit, a line from the commit's column to a lane
-- that waits for this parent after the row and that has the colour of the line.
pub add_commit-Joined :
    (c : GitCommitEntry) (s : GraphState) (p : Text)
    → text_mem p c.parents ≡ true
    → (r : GraphRow) × ((add_commit c s).rows ≡ s.rows ++ r ∷ [])
      × Joined r.col p r.lines (add_commit c s).lanes
unfolding add_commit place
add_commit-Joined c s p h =
    let ms = matching_lanes c.hash s.lanes in
    let k = claim ms s.lanes s.next in
    let b = place c k ms in
    let (i, g, l, x, y, z, e, f) =
      Joined-branch_all k.col p (rest_of c.parents) (own_lane c k ms) (Joined-own_lane c s p h) in
    (row_of c k b, refl, (i, g, l, x, y, Holds-compact g.to_col b.lanes l z, e, f))
