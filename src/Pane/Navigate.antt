-- ===== src/Pane/Navigate.antt =====
-- Where the focus goes: `navigatePane` against a recursive description of the neighbour.
use mathlib.Core.List.{reverse-append}
use racemo.Base.{
  ℕ, ◌≡◌, refl, sym, ◌∙◌, inl, inr, Bool, true, false, ◌&&◌, ◌||◌, Option, none, some, List, [],
  ◌∷◌, ◌++◌, reverse, arith, if◌then◌else◌, Bool-cases, Text, text_eq, text_eq_refl, text_mem,
  text_mem-append,
}
use racemo.Pane.{
  PaneNode, leaf, split, first_leaf_id, collect_leaf_ids, NavDirection, left, right, up, down,
  PathEntry, entry, Side, on_first, on_second, Direction, horizontal, vertical, find_path_to,
  split_dir, required_side, same_direction, same_side, neighbor, nearest, navigate_pane,
}

unfoldable pub has_leaf : PaneNode → Text → Bool
has_leaf (leaf l) t = text_eq l.id t
has_leaf (split _ _ _ a b) t = has_leaf a t || has_leaf b t

abbrev or_else : Option Text → Option Text → Option Text
or_else none y = y
or_else (some x) y = some x

abbrev pub head : List Text → Option Text
head [] = none
head (t ∷ ts) = some t

-- What a split of a direction offers to a pane on one of its sides: the first leaf of the left half
-- to one in the right half that goes left, and so on.
unfoldable pub offer : NavDirection → Direction → PaneNode → PaneNode → Side → Option Text
unfolding collect_leaf_ids
offer left horizontal a b on_second = head (collect_leaf_ids a)
offer right horizontal a b on_first = head (collect_leaf_ids b)
offer up vertical a b on_second = head (collect_leaf_ids a)
offer down vertical a b on_first = head (collect_leaf_ids b)
offer _ _ _ _ _ = none

-- The innermost split that has the pane on the required side decides; the pane is looked for on the
-- first side before the second.
unfoldable pub neighbour : NavDirection → PaneNode → Text → Option Text
neighbour dir (leaf l) t = none
neighbour dir (split _ d _ a b) t =
    if has_leaf a t
    then or_else (neighbour dir a t) (offer dir d a b on_first)
    else if has_leaf b t
    then or_else (neighbour dir b t) (offer dir d a b on_second)
    else none

head-append : (xs ys : List Text) (t : Text) → head xs ≡ some t → head (xs ++ ys) ≡ some t
head-append [] ys t h = cc
head-append (x ∷ xs) ys t h = h

head-collect_leaf_ids : (n : PaneNode) → head (collect_leaf_ids n) ≡ some (first_leaf_id n)
unfolding collect_leaf_ids first_leaf_id
head-collect_leaf_ids (leaf l) = refl
head-collect_leaf_ids (split i d r a b) =
    head-append (collect_leaf_ids a) (collect_leaf_ids b) (first_leaf_id a)
      (head-collect_leaf_ids a)

-- The tests of the code at one entry of the path.
offer_lem :
    (dir : NavDirection) (d : Direction) (a b : PaneNode) (s : Side)
    → offer dir d a b s ≡ (
        if same_direction d (split_dir dir) && same_side s (required_side dir)
        then some (first_leaf_id (neighbor dir (entry d a b s)))
        else none)
unfolding offer
offer_lem left horizontal a b on_first = refl
offer_lem left horizontal a b on_second = head-collect_leaf_ids a
offer_lem left vertical a b on_first = refl
offer_lem left vertical a b on_second = refl
offer_lem right horizontal a b on_first = head-collect_leaf_ids b
offer_lem right horizontal a b on_second = refl
offer_lem right vertical a b on_first = refl
offer_lem right vertical a b on_second = refl
offer_lem up horizontal a b on_first = refl
offer_lem up horizontal a b on_second = refl
offer_lem up vertical a b on_first = refl
offer_lem up vertical a b on_second = head-collect_leaf_ids a
offer_lem down horizontal a b on_first = refl
offer_lem down horizontal a b on_second = refl
offer_lem down vertical a b on_first = head-collect_leaf_ids b
offer_lem down vertical a b on_second = refl

abbrev follow : NavDirection → Option (List PathEntry) → Option Text
follow dir none = none
follow dir (some path) = nearest dir (reverse path)

abbrev is_found : Option (List PathEntry) → Bool
is_found none = false
is_found (some _) = true

find_path_to-found :
    (n : PaneNode) (t : Text) (path : List PathEntry)
    → is_found (find_path_to n t path) ≡ has_leaf n t
unfolding find_path_to has_leaf
find_path_to-found (leaf l) t path = ground arith
find_path_to-found (split i d r a b) t path = ground (
  arith,
  find_path_to-found a t (path ++ entry d a b on_first ∷ []),
  find_path_to-found b t (path ++ entry d a b on_second ∷ []),
)

nearest-snoc :
    (dir : NavDirection) (d : Direction) (a b : PaneNode) (s : Side) (path : List PathEntry)
    → nearest dir (reverse (path ++ entry d a b s ∷ []))
      ≡ or_else (offer dir d a b s) (nearest dir (reverse path))
nearest-snoc dir d a b s path =
    rw (reverse-append, offer_lem dir d a b s) (unfold nearest in ground arith)

or_else_assoc : (x y z : Option Text) → or_else x (or_else y z) ≡ or_else (or_else x y) z
or_else_assoc none y z = refl
or_else_assoc (some x) y z = refl

follow-find_path_to :
    (dir : NavDirection) (n : PaneNode) (t : Text) (path : List PathEntry)
    → has_leaf n t ≡ true
    → follow dir (find_path_to n t path) ≡ or_else (neighbour dir n t) (nearest dir (reverse path))
unfolding find_path_to has_leaf neighbour
follow-find_path_to dir (leaf l) t path h = ground arith
follow-find_path_to dir (split i d r a b) t path h =
    let p : List PathEntry = path ++ entry d a b on_first ∷ [] in
    let q : List PathEntry = path ++ entry d a b on_second ∷ [] in
    ground (
      arith,
      find_path_to-found a t p,
      find_path_to-found b t q,
      follow-find_path_to dir a t p,
      follow-find_path_to dir b t q,
      nearest-snoc dir d a b on_first path,
      nearest-snoc dir d a b on_second path,
      or_else_assoc (neighbour dir a t) (offer dir d a b on_first) (nearest dir (reverse path)),
      or_else_assoc (neighbour dir b t) (offer dir d a b on_second) (nearest dir (reverse path)),
    )

neighbour-none :
    (dir : NavDirection) (n : PaneNode) (t : Text) → has_leaf n t ≡ false → neighbour dir n t ≡ none
unfolding has_leaf neighbour
neighbour-none dir (leaf l) t h = refl
neighbour-none dir (split i d r a b) t h = ground arith

or_else-none : (x : Option Text) → or_else x none ≡ x
or_else-none none = refl
or_else-none (some x) = refl

-- `navigatePane` finds, for every tree, pane and direction, what the recursive description gives: of
-- the innermost horizontal split with the pane in its second half, going left, the first of the
-- leaves of the first half; going right, with the halves exchanged; going up and down, likewise with
-- vertical splits; and nothing where there is no such split or no such pane.
pub navigate_pane-neighbour :
    (root : PaneNode) (t : Text) (dir : NavDirection)
    → navigate_pane root t dir ≡ neighbour dir root t
unfolding navigate_pane nearest
navigate_pane-neighbour root t dir = elim (Bool-cases (has_leaf root t)) [
  | inl h ↦ ground (arith, follow-find_path_to dir root t [], or_else-none (neighbour dir root t))
  | inr h ↦ ground (arith, find_path_to-found root t [], neighbour-none dir root t h)
]

text_mem-first_leaf_id : (n : PaneNode) → text_mem (first_leaf_id n) (collect_leaf_ids n) ≡ true
unfolding collect_leaf_ids first_leaf_id text_mem
text_mem-first_leaf_id (leaf l) = ground (arith, text_eq_refl l.id)
text_mem-first_leaf_id (split i d r a b) = ground (
  arith,
  text_mem-append (first_leaf_id a) (collect_leaf_ids a) (collect_leaf_ids b),
  text_mem-first_leaf_id a,
)

neighbour-mem :
    (dir : NavDirection) (n : PaneNode) (t : Text) {r : Text}
    → neighbour dir n t ≡ some r
    → text_mem r (collect_leaf_ids n) ≡ true
unfolding neighbour collect_leaf_ids
neighbour-mem dir (leaf l) t h = cc
neighbour-mem dir (split i d ra a b) t {r} h = ground (
  arith,
  text_mem-append r (collect_leaf_ids a) (collect_leaf_ids b),
  neighbour-mem dir a t {r = r},
  neighbour-mem dir b t {r = r},
  text_mem-first_leaf_id a,
  text_mem-first_leaf_id b,
  offer_lem dir d a b on_first,
  offer_lem dir d a b on_second,
)

-- The pane that gets the focus is a leaf of the same tree.
pub navigate_pane-mem :
    (root : PaneNode) (t : Text) (dir : NavDirection) {r : Text}
    → navigate_pane root t dir ≡ some r
    → text_mem r (collect_leaf_ids root) ≡ true
navigate_pane-mem root t dir h =
    neighbour-mem dir root t (sym (navigate_pane-neighbour root t dir) ∙ h)

-- In a row `((a | b) | c)` of three panes, going left from the last one skips its neighbour and
-- reaches the first, whatever the panes are, if the ids differ.
pub navigate_left_skips :
    (a b c : PaneNode) (i j t : Text) (m n : ℕ)
    → has_leaf a t ≡ false
    → has_leaf b t ≡ false
    → has_leaf c t ≡ true
    → neighbour left c t ≡ none
    → navigate_pane (split i horizontal m (split j horizontal n a b) c) t left
      ≡ some (first_leaf_id a)
navigate_left_skips a b c i j t m n ha hb hc e =
    navigate_pane-neighbour _ t left
    ∙ unfold neighbour has_leaf first_leaf_id in
      ground (arith, offer_lem left horizontal (split j horizontal n a b) c on_second)
