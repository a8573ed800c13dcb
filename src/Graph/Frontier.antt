-- ===== src/Graph/Frontier.antt =====
-- The hashes that the lanes of the commit graph wait for (src/lib/gitGraph.ts).
use racemo.Base.{
  ℕ, zero, suc, ◌≡◌, refl, sym, ap, ◌∙◌, inl, inr, Bool, true, false, not, ◌&&◌, ◌||◌, Option, none,
  some, List, [], ◌∷◌, arith, Option-cases, get_elem?, set, find_index_lem, Text, text_eq,
  text_eq_sound, text_eq_iff, text_mem,
}
use racemo.Graph.{
  GitCommitEntry, Lane, Lanes, waits_for, find_lane, find_empty_lane, matching_lanes, grow, claim,
  first_lane, Branches, branch, branch_all, rest_of, compact, keep_lane, GraphState, empty_graph,
  own_lane, place, add_commit, add_commits,
}
use racemo.Graph.Claims.{waits, waits-set, grow-find_empty_lane, claimed}

waits-keep_lane :
    (q : Text) (l : Option Lane) (rest : Lanes)
    → waits q (keep_lane l rest) ≡ (waits_for q l || waits q rest)
waits-keep_lane q none [] = refl
waits-keep_lane q none (m ∷ rest) = refl
waits-keep_lane q (some l) rest = refl

waits-compact : (q : Text) (lanes : Lanes) → waits q (compact lanes) ≡ waits q lanes
unfolding compact
waits-compact q [] = refl
waits-compact q (l ∷ lanes) =
    waits-keep_lane q l (compact lanes) ∙ ap (λ x. waits_for q l || x) (waits-compact q lanes)

waits-get_elem? :
    (q : Text) (lanes : Lanes) (i : ℕ) (l : Option Lane)
    → get_elem? lanes i ≡ some l
    → waits_for q l ≡ true
    → waits q lanes ≡ true
waits-get_elem? q [] i l e h = cc
waits-get_elem? q (k ∷ lanes) zero l e h = let f : k ≡ l = cc in rw (f, h)
waits-get_elem? q (k ∷ lanes) (suc i) l e h = ground (arith, waits-get_elem? q lanes i l e h)

waits-find_lane :
    (q : Text) (lanes : Lanes) (i : ℕ) → find_lane q lanes ≡ some i → waits q lanes ≡ true
unfolding find_lane
waits-find_lane q lanes i e =
    let (l, a, b) = find_index_lem (waits_for q) lanes i e in waits-get_elem? q lanes i l a b

waits-branch :
    (q p : Text) (col : ℕ) (s : Branches)
    → waits q (branch col p s).lanes ≡ (text_eq p q || waits q s.lanes)
unfolding branch
waits-branch q p col s = elim (Option-cases (find_lane p s.lanes)) [
  | inl e ↦
      let (a, b) = grow-find_empty_lane s.lanes in
      rw (e, branch)
        (waits-set q (grow (find_empty_lane s.lanes) s.lanes) (find_empty_lane s.lanes)
            (some (record { hash = p; color = s.next })) a
          ∙ ap (λ x. text_eq p q || x) (b q))
  | inr (i, e) ↦ rw (e, branch) (ground (arith, waits-find_lane p s.lanes i e, text_eq_iff p q))
]

waits-branch_all :
    (q : Text) (col : ℕ) (ps : List Text) (s : Branches)
    → waits q (branch_all col ps s).lanes ≡ (text_mem q ps || waits q s.lanes)
unfolding branch_all text_mem
waits-branch_all q col [] s = refl
waits-branch_all q col (p ∷ ps) s =
    ground (arith, waits-branch_all q col ps (branch col p s), waits-branch q p col s)

waits-claimed :
    (q : Text) (c : GitCommitEntry) (s : GraphState) (v : Option Lane)
    → let k = claim (matching_lanes c.hash s.lanes) s.lanes s.next in
      waits q (set k.lanes k.col v) ≡ (waits_for q v || (waits q s.lanes && not (text_eq c.hash q)))
waits-claimed q c s v =
    let k = claim (matching_lanes c.hash s.lanes) s.lanes s.next in
    let (x, a, b, f) = claimed c.hash s.lanes s.next v in
    ap (waits q) a ∙ waits-set q x k.col v b ∙ ap (λ y. waits_for q v || y) (f q)

first_rest :
    (q : Text) (ps : List Text) (color : ℕ) (b : Bool)
    → (text_mem q (rest_of ps) || (waits_for q (first_lane ps color) || b)) ≡ (text_mem q ps || b)
unfolding text_mem
first_rest q [] color b = refl
first_rest q (p ∷ ps) color b = ground arith

waits-place :
    (q : Text) (c : GitCommitEntry) (s : GraphState)
    → let ms = matching_lanes c.hash s.lanes in
      waits q (place c (claim ms s.lanes s.next) ms).lanes
      ≡ (text_mem q c.parents || (waits q s.lanes && not (text_eq c.hash q)))
unfolding place
waits-place q c s =
    let k = claim (matching_lanes c.hash s.lanes) s.lanes s.next in
    waits-branch_all q k.col (rest_of c.parents) (own_lane c k (matching_lanes c.hash s.lanes))
    ∙ ap (λ x. text_mem q (rest_of c.parents) || x)
        (waits-claimed q c s (first_lane c.parents k.color))
    ∙ first_rest q c.parents k.color (waits q s.lanes && not (text_eq c.hash q))

-- The hashes that are waited for after a commit are its parents and those before it, but its own.
waits-add_commit :
    (q : Text) (c : GitCommitEntry) (s : GraphState)
    → waits q (add_commit c s).lanes
      ≡ (text_mem q c.parents || (waits q s.lanes && not (text_eq c.hash q)))
unfolding add_commit
waits-add_commit q c s =
    let ms = matching_lanes c.hash s.lanes in
    waits-compact q (place c (claim ms s.lanes s.next) ms).lanes ∙ waits-place q c s

-- The hashes that some commit names as a parent, and those that are listed.
abbrev pub mentioned : Text → List GitCommitEntry → Bool
mentioned q [] = false
mentioned q (c ∷ cs) = text_mem q c.parents || mentioned q cs

abbrev pub listed : Text → List GitCommitEntry → Bool
listed q [] = false
listed q (c ∷ cs) = text_eq c.hash q || listed q cs

-- The order of `git log`: a commit is a parent neither of itself nor of a commit after it.
abbrev pub ChildrenFirst : List GitCommitEntry → Type 0
ChildrenFirst [] = Unit
ChildrenFirst (c ∷ cs) = (mentioned c.hash (c ∷ cs) ≡ false) × ChildrenFirst cs

step_bool :
    (w m n t l : Bool)
    → (t ≡ true → (m || n) ≡ false)
    → (((m || (w && not t)) || n) && not l) ≡ ((w || (m || n)) && not (t || l))
step_bool w m n true l h = let e : (m || n) ≡ false = h refl in ground arith
step_bool w m n false l h = ground arith

waits-add_commits :
    (q : Text) (cs : List GitCommitEntry) (s : GraphState)
    → ChildrenFirst cs
    → waits q (add_commits cs s).lanes ≡ ((waits q s.lanes || mentioned q cs) && not (listed q cs))
unfolding add_commits
waits-add_commits q [] s h = ground arith
waits-add_commits q (c ∷ cs) s (h, hs) =
    waits-add_commits q cs (add_commit c s) hs
    ∙ ap (λ x. (x || mentioned q cs) && not (listed q cs)) (waits-add_commit q c s)
    ∙ step_bool (waits q s.lanes) (text_mem q c.parents) (mentioned q cs) (text_eq c.hash q)
        (listed q cs) (λ e. rw (sym (text_eq_sound c.hash q e)) h)

-- In the order of `git log`, the lanes wait for just the hashes that a commit names as a parent and that
-- are not listed: the list of lanes is that set, whatever its order, its gaps and its colours.
pub waits-frontier :
    (q : Text) (cs : List GitCommitEntry)
    → ChildrenFirst cs
    → waits q (add_commits cs empty_graph).lanes ≡ (mentioned q cs && not (listed q cs))
waits-frontier q cs h = waits-add_commits q cs empty_graph h
