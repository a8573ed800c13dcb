-- ===== src/Tabs/Find.antt =====
-- What `findTabIndexByPath` finds.
use racemo.Base.{
  ℕ, zero, suc, ◌≡◌, refl, inl, inr, true, false, none, some, List, [], ◌∷◌, arith, Bool-cases,
  get_elem?, Text, text_eq, text_eq_iff, find_index, text_mem,
}
use racemo.Tabs.{find_tab_index_by_path}

pub find_tab_index_by_path-none :
    (ps : List Text) (p : Text) → find_tab_index_by_path ps p ≡ none → text_mem p ps ≡ false
unfolding find_tab_index_by_path find_index text_mem
find_tab_index_by_path-none [] p h = refl
find_tab_index_by_path-none (q ∷ ps) p h = ground (arith, find_tab_index_by_path-none ps p)

-- The index found is the first one with the path.
pub find_tab_index_by_path-some :
    (ps : List Text) (p : Text) {i : ℕ}
    → find_tab_index_by_path ps p ≡ some i
    → get_elem? ps i ≡ some p
unfolding find_tab_index_by_path find_index
find_tab_index_by_path-some [] p h = cc
find_tab_index_by_path-some (q ∷ ps) p {i = zero} h = ground (arith, text_eq_iff q p)
find_tab_index_by_path-some (q ∷ ps) p {i = suc i} h =
    ground (arith, find_tab_index_by_path-some ps p {i = i})

pub find_tab_index_by_path-mem :
    (ps : List Text) (p : Text)
    → text_mem p ps ≡ true
    → (i : ℕ) × (find_tab_index_by_path ps p ≡ some i)
unfolding find_tab_index_by_path find_index text_mem
find_tab_index_by_path-mem [] p h = cc
find_tab_index_by_path-mem (q ∷ ps) p h = elim (Bool-cases (text_eq q p)) [
  | inl e ↦ (0, rw e)
  | inr e ↦
      let (i, f) = find_tab_index_by_path-mem ps p (ground arith) in
      (suc i, rw e (rw (f, find_index)))
]
