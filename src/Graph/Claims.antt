-- ===== src/Graph/Claims.antt =====
-- The lanes when a commit of the graph claims its column (src/lib/gitGraph.ts).
use racemo.Base.{
  ℕ, zero, suc, ◌≡◌, refl, ap, ◌∙◌, inl, inr, Bool, false, not, ◌&&◌, ◌||◌, Option, none, some,
  List, [], ◌∷◌, map, arith, if◌then◌else◌, lt→ltb, Bool-cases, length, get_elem?, set, Text,
  text_eq, text_eq_iff,
}
use racemo.Graph.{Lane, Lanes, waits_for, find_empty_lane, matching_lanes, close_lanes, grow, claim}

abbrev pub waits : Text → Lanes → Bool
waits q [] = false
waits q (l ∷ lanes) = waits_for q l || waits q lanes

-- The lanes with every lane that waits for a hash closed.
abbrev pub clear : Text → Lanes → Lanes
clear h [] = []
clear h (l ∷ lanes) = (if waits_for h l then none else l) ∷ clear h lanes

close_lanes-map :
    (is : List ℕ) (l : Option Lane) (lanes : Lanes)
    → close_lanes (map suc is) (l ∷ lanes) ≡ l ∷ close_lanes is lanes
unfolding close_lanes
close_lanes-map [] l lanes = refl
close_lanes-map (i ∷ is) l lanes = close_lanes-map is l (set lanes i none)

pub close_lanes-matching_lanes :
    (h : Text) (lanes : Lanes) → close_lanes (matching_lanes h lanes) lanes ≡ clear h lanes
unfolding close_lanes matching_lanes
close_lanes-matching_lanes h [] = refl
close_lanes-matching_lanes h (l ∷ lanes) = elim (Bool-cases (waits_for h l)) [
  | inl e ↦
      rw
        (e, close_lanes-map (matching_lanes h lanes) none lanes, close_lanes-matching_lanes h lanes)
  | inr e ↦
      rw (e, close_lanes-map (matching_lanes h lanes) l lanes, close_lanes-matching_lanes h lanes)
]

map-suc_cons :
    (is : List ℕ) {m : ℕ} {ms : List ℕ}
    → map suc is ≡ m ∷ ms
    → (i : ℕ) × (js : List ℕ) × (is ≡ i ∷ js) × (m ≡ suc i) × (ms ≡ map suc js)
map-suc_cons [] e = cc
map-suc_cons (i ∷ is) e = (i, is, refl, cc, cc)

-- Closing all but the first lane, and writing that one, is to close all and write it.
pub set-close_lanes :
    (h : Text) (lanes : Lanes) (m : ℕ) (ms : List ℕ) (v : Option Lane)
    → matching_lanes h lanes ≡ m ∷ ms
    → (set (close_lanes ms lanes) m v ≡ set (clear h lanes) m v)
      × (get_elem? (clear h lanes) m ≡ some none)
unfolding matching_lanes
set-close_lanes h [] m ms v e = cc
set-close_lanes h (l ∷ lanes) m ms v e = elim (Bool-cases (waits_for h l)) [
  | inl q ↦
      let f : 0 ∷ map suc (matching_lanes h lanes) ≡ m ∷ ms = rw q at e in
      let fm : m ≡ 0 = cc in
      let fs : ms ≡ map suc (matching_lanes h lanes) = cc in
      rw
        (
          fm,
          fs,
          q,
          close_lanes-map (matching_lanes h lanes) l lanes,
          close_lanes-matching_lanes h lanes,
        )
        (refl, refl)
  | inr q ↦
      let f : map suc (matching_lanes h lanes) ≡ m ∷ ms = rw q at e in
      let (i, js, g, gm, gs) = map-suc_cons (matching_lanes h lanes) f in
      let (a, b) = set-close_lanes h lanes i js v g in
      rw (gm, gs, q, close_lanes-map js l lanes) (ap (λ (xs : Lanes). l ∷ xs) a, b)
]

waits-clear :
    (q h : Text) (lanes : Lanes) → waits q (clear h lanes) ≡ (waits q lanes && not (text_eq h q))
waits-clear q h [] = refl
waits-clear q h (none ∷ lanes) = waits-clear q h lanes
waits-clear q h (some l ∷ lanes) =
    ground
      (arith, waits-clear q h lanes, text_eq_iff l.hash h, text_eq_iff l.hash q, text_eq_iff h q)

map-suc_nil : (is : List ℕ) → map suc is ≡ [] → is ≡ []
map-suc_nil [] e = refl
map-suc_nil (i ∷ is) e = cc

waits_step :
    (q h : Text) (l : Option Lane) (lanes : Lanes)
    → waits_for h l ≡ false
    → waits q lanes ≡ (waits q lanes && not (text_eq h q))
    → waits q (l ∷ lanes) ≡ (waits q (l ∷ lanes) && not (text_eq h q))
waits_step q h none lanes f e = e
waits_step q h (some l) lanes f e =
    ground (arith, e, f, text_eq_iff l.hash h, text_eq_iff l.hash q, text_eq_iff h q)

waits-none :
    (q h : Text) (lanes : Lanes)
    → matching_lanes h lanes ≡ []
    → waits q lanes ≡ (waits q lanes && not (text_eq h q))
unfolding matching_lanes
waits-none q h [] e = refl
waits-none q h (l ∷ lanes) e = elim (Bool-cases (waits_for h l)) [
  | inl f ↦ absurd (let n : 0 ∷ map suc (matching_lanes h lanes) ≡ [] = rw f at e in cc)
  | inr f ↦
      let n : map suc (matching_lanes h lanes) ≡ [] = rw f at e in
      waits_step q h l lanes f (waits-none q h lanes (map-suc_nil (matching_lanes h lanes) n))
]

-- A write to a lane that is null.
pub waits-set :
    (q : Text) (lanes : Lanes) (i : ℕ) (v : Option Lane)
    → get_elem? lanes i ≡ some none
    → waits q (set lanes i v) ≡ (waits_for q v || waits q lanes)
waits-set q [] i v e = cc
waits-set q (l ∷ lanes) zero v e = let f : l ≡ none = cc in rw f
waits-set q (l ∷ lanes) (suc i) v e = ground (arith, waits-set q lanes i v e)

grow_cons : (i : ℕ) (l : Option Lane) (lanes : Lanes) → grow (suc i) (l ∷ lanes) ≡ l ∷ grow i lanes
unfolding grow
grow_cons i l lanes = ground arith

pub grow-find_empty_lane :
    (lanes : Lanes)
    → (get_elem? (grow (find_empty_lane lanes) lanes) (find_empty_lane lanes) ≡ some none)
      × ((q : Text) → waits q (grow (find_empty_lane lanes) lanes) ≡ waits q lanes)
unfolding grow find_empty_lane
grow-find_empty_lane [] = (refl, λ q. refl)
grow-find_empty_lane (none ∷ lanes) =
    rw (lt→ltb 0 (suc (length lanes)) (omega arith)) (refl, λ q. refl)
grow-find_empty_lane (some l ∷ lanes) =
    let (a, b) = grow-find_empty_lane lanes in
    rw (grow_cons (find_empty_lane lanes) (some l) lanes)
      (a, λ q. ap (λ x. text_eq l.hash q || x) (b q))

-- The lanes once the commit has its column and the lane is written anew.
pub claimed :
    (h : Text) (lanes : Lanes) (next : ℕ) (v : Option Lane)
    → let k = claim (matching_lanes h lanes) lanes next in
      (x : Lanes) × (set k.lanes k.col v ≡ set x k.col v)
      × (get_elem? x k.col ≡ some none)
      × ((q : Text) → waits q x ≡ (waits q lanes && not (text_eq h q)))
unfolding claim
claimed h lanes next v = go (matching_lanes h lanes) refl
  where
    go :
        (ms : List ℕ)
        → matching_lanes h lanes ≡ ms
        → let k = claim ms lanes next in
          (x : Lanes) × (set k.lanes k.col v ≡ set x k.col v)
          × (get_elem? x k.col ≡ some none)
          × ((q : Text) → waits q x ≡ (waits q lanes && not (text_eq h q)))
    go [] e =
        let (a, b) = grow-find_empty_lane lanes in
        (grow (find_empty_lane lanes) lanes, refl, a, λ q. b q ∙ waits-none q h lanes e)
    go (m ∷ ms) e =
        let (a, b) = set-close_lanes h lanes m ms v e in
        (clear h lanes, a, b, λ q. waits-clear q h lanes)
