-- ===== src/Tabs/Active.antt =====
-- Which tab is active after a tab is closed or moved.
use racemo.Base.{
  ℕ, suc, ◌+◌, ◌-◌, ◌≤◌, ◌<◌, ◌≡◌, refl, sym, ◌∙◌, ◌≢◌, inl, inr, true, some, List, [], ◌∷◌, arith,
  ltb, ltb→lt, Bool-cases, length, get_elem?, Text, text_eq_refl, Dict, dict_get-dict_set,
  remove_at, insert_at, length-remove_at, remove_at_out, length-insert_at, get_elem?-remove_at_lt,
  get_elem?-remove_at_ge, get_elem?-insert_at_lt, get_elem?-insert_at_self, get_elem?-insert_at_ge,
  get_elem?-some,
}
use racemo.Tabs.{
  TabResult, tab_result, is_empty, close_tab, splice_move, moved_active, move_tab, save_cooldown_ms,
  mark_recently_saved, is_recently_saved,
}

-- An active index lies in the row, or is 0 over an empty row.
abbrev pub InRange {ℓ} : {A : Type ℓ} → List A → ℕ → Type 0
InRange tabs active = active ≤ length tabs - 1

module _ {A : Type 0} where
  -- Closing any tab, at an index of the row or not, keeps the active index in range.
  pub close_tab-InRange :
      (tabs : List A) (index active : ℕ)
      → InRange tabs active
      → InRange (close_tab tabs index active).tabs (close_tab tabs index active).active_index
  unfolding close_tab
  close_tab-InRange tabs index active h = elim (Bool-cases (ltb index (length tabs))) [
    | inl p ↦ ground (arith, length-remove_at tabs index (ltb→lt index (length tabs) p))
    | inr p ↦ ground (arith, remove_at_out tabs index (ground arith))
  ]

  length-of-empty : (xs : List A) → is_empty xs ≡ true → length xs ≡ 0
  length-of-empty [] h = refl
  length-of-empty (x ∷ xs) h = cc

  get_elem?-move :
      (tabs : List A) (from to active : ℕ) (x : A)
      → from < length tabs
      → to < length tabs
      → active < length tabs
      → get_elem? tabs from ≡ some x
      → get_elem? (insert_at (remove_at tabs from) to x) (moved_active from to active)
        ≡ get_elem? tabs active
  unfolding moved_active
  get_elem?-move tabs from to active x h k l e =
      let rest = remove_at tabs from in
      let p : 0 < active → suc (active - 1) ≡ active = λ p. omega arith in
      let q : active + 1 ≡ suc active = omega arith in
      ground (
        arith,
        length-remove_at tabs from h,
        get_elem?-insert_at_self rest to x,
        get_elem?-insert_at_lt rest to (active - 1) x,
        get_elem?-insert_at_lt rest to active x,
        get_elem?-insert_at_ge rest to active x,
        get_elem?-insert_at_ge rest to (active - 1) x,
        get_elem?-remove_at_lt tabs from active,
        get_elem?-remove_at_ge tabs from (active - 1),
        p,
        q,
      )

  -- Closing another tab than the active one leaves the same tab active.
  pub close_tab-active :
      (tabs : List A) (index active : ℕ)
      → index < length tabs
      → active < length tabs
      → index ≢ active
      → get_elem? (close_tab tabs index active).tabs (close_tab tabs index active).active_index
        ≡ get_elem? tabs active
  unfolding close_tab
  close_tab-active tabs index active h k ne =
      let e : 0 < active → suc (active - 1) ≡ active = λ p. omega arith in
      ground (
        arith,
        length-of-empty (remove_at tabs index),
        length-remove_at tabs index h,
        get_elem?-remove_at_lt tabs index active,
        get_elem?-remove_at_ge tabs index (active - 1),
        e,
      )

  -- Moving a tab within the row succeeds, puts it where it was dropped, and keeps the active tab
  -- active.
  pub move_tab-active :
      (tabs : List A) (from to active : ℕ)
      → from < length tabs
      → to < length tabs
      → active < length tabs
      → (r : TabResult A) × (move_tab tabs from to active ≡ some r)
        × (length r.tabs ≡ length tabs)
        × (get_elem? r.tabs to ≡ get_elem? tabs from)
        × (get_elem? r.tabs r.active_index ≡ get_elem? tabs active)
  unfolding move_tab splice_move
  move_tab-active tabs from to active h k l =
      let (x, e) = get_elem?-some tabs from h in
      let rest = remove_at tabs from in
      let n : length rest + 1 ≡ length tabs = length-remove_at tabs from h in
      (
        tab_result (insert_at rest to x) (moved_active from to active),
        rw (e, move_tab, splice_move),
        omega (arith, n, length-insert_at rest to x),
        get_elem?-insert_at_self rest to x (omega arith) ∙ sym e,
        get_elem?-move tabs from to active x h k l e,
      )

-- After a save at a time that is not 0, and until another path is looked at, the path counts as
-- recently saved for less than the cooldown.
pub mark_recently_saved-is :
    (path : Text) (at now : ℕ) (saved : Dict ℕ)
    → 0 < at
    → (is_recently_saved path now (mark_recently_saved path at saved)).0
      ≡ ltb now (at + save_cooldown_ms)
unfolding mark_recently_saved is_recently_saved
mark_recently_saved-is path at now saved h =
    ground (arith, dict_get-dict_set path path at saved, text_eq_refl path)
