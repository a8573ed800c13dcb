-- ===== src/Pane/Leaves.antt =====
-- The walks over the leaves agree with one another.
use racemo.Base.{
  ◌≡◌, refl, sym, Bool, true, ◌&&◌, Option, none, some, List, [], ◌∷◌, ◌++◌, arith, if◌then◌else◌,
  length, get_elem?, length-append, Text, text_eq, truthy,
}
use racemo.Pane.{
  PaneNode, leaf, split, or_text, first_leaf_id, find_pty_id, collect_leaf_ids, collect_pty_ids,
  first_pty_id,
}

-- The first entry of `keys` that is `t` picks the entry of `values` at its place.
unfoldable pub first_match : List Text → List Text → Text → Option Text
first_match [] values t = none
first_match (k ∷ keys) [] t = none
first_match (k ∷ keys) (v ∷ values) t = if text_eq k t then some v else first_match keys values t

unfoldable pub all_truthy : List Text → Bool
all_truthy [] = true
all_truthy (t ∷ ts) = truthy t && all_truthy ts

-- A tree has as many leaf ids as PTY ids.
pub length-collect_ids : (n : PaneNode) → length (collect_leaf_ids n) ≡ length (collect_pty_ids n)
unfolding collect_leaf_ids collect_pty_ids
length-collect_ids (leaf l) = refl
length-collect_ids (split i d r a b) = omega (
  arith,
  length-append (collect_leaf_ids a) (collect_leaf_ids b),
  length-append (collect_pty_ids a) (collect_pty_ids b),
  length-collect_ids a,
  length-collect_ids b,
)

all_truthy-append :
    (xs ys : List Text)
    → all_truthy (xs ++ ys) ≡ true
    → (all_truthy xs ≡ true) × (all_truthy ys ≡ true)
unfolding all_truthy
all_truthy-append [] ys h = (refl, h)
all_truthy-append (x ∷ xs) ys h = ground (arith, all_truthy-append xs ys)

first_match-append :
    (is js ps qs : List Text) (t : Text)
    → length is ≡ length ps
    → all_truthy ps ≡ true
    → first_match (is ++ js) (ps ++ qs) t ≡ or_text (first_match is ps t) (first_match js qs t)
unfolding first_match all_truthy
first_match-append [] js [] qs t e h = refl
first_match-append [] js (p ∷ ps) qs t e h = absurd (omega arith)
first_match-append (i ∷ is) js [] qs t e h = absurd (omega arith)
first_match-append (i ∷ is) js ([] ∷ ps) qs t e h = cc
first_match-append (i ∷ is) js ((c ∷ p) ∷ ps) qs t e h =
    ground (arith, first_match-append is js ps qs t (omega arith) h)

-- Where no PTY id is empty, `findPtyId` gives the PTY of the first leaf with the id, in the order
-- of `collectLeafIds` and `collectPtyIds`, and nothing for an id that no leaf has.
pub find_pty_id-first_match :
    (n : PaneNode) (t : Text)
    → all_truthy (collect_pty_ids n) ≡ true
    → find_pty_id n t ≡ first_match (collect_leaf_ids n) (collect_pty_ids n) t
unfolding find_pty_id collect_leaf_ids collect_pty_ids
find_pty_id-first_match (leaf l) t h = unfold first_match in refl
find_pty_id-first_match (split i d r a b) t h =
    let (ha, hb) = all_truthy-append (collect_pty_ids a) (collect_pty_ids b) h in
    rw (find_pty_id-first_match a t ha, find_pty_id-first_match b t hb)
      (sym (first_match-append _ _ _ _ t (length-collect_ids a) ha))

head-append :
    (xs ys : List Text) {t : Text} → get_elem? xs 0 ≡ some t → get_elem? (xs ++ ys) 0 ≡ some t
head-append [] ys h = cc
head-append (x ∷ xs) ys h = h

-- The first ids are the heads of the collected lists.
pub collect-first :
    (n : PaneNode)
    → (get_elem? (collect_leaf_ids n) 0 ≡ some (first_leaf_id n))
      × (get_elem? (collect_pty_ids n) 0 ≡ some (first_pty_id n))
unfolding collect_leaf_ids collect_pty_ids first_leaf_id first_pty_id
collect-first (leaf l) = (refl, refl)
collect-first (split i d r a b) =
    let (p, q) = collect-first a in
    (head-append (collect_leaf_ids a) _ p, head-append (collect_pty_ids a) _ q)
