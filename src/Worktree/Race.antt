-- ===== src/Worktree/Race.antt =====
-- Refreshes of the worktrees that overtake each other (src/stores/worktreeStore.ts).
use racemo.Base.{
  ℕ, ◌+◌, ◌<◌, ◌≡◌, refl, ◌∙◌, inl, inr, true, false, Option, some, List, arith, ◌==◌, Option-cases,
  Text, text_eq_refl, dict_get, dict_get-dict_set,
}
use racemo.Worktree.{
  GitWorktreeEntry, ActionMode, Command, WorktreeState, send, begin_refresh, Answer, listed,
  finish_refresh, open_add_modal, close_add_modal, open_action_modal, close_action_modal,
}

-- What happens while a refresh waits: answers of earlier refreshes, commands, and the dialogs.
pub data Meanwhile (gen : ℕ) : WorktreeState → WorktreeState → Type 0 where
  nothing : (s : WorktreeState) → Meanwhile gen s s
  stale :
      {s t : WorktreeState} (old : ℕ) (cwd : Text) (a : Answer)
      → Meanwhile gen s t
      → old < gen
      → Meanwhile gen s (finish_refresh old cwd a t)
  sends : {s t : WorktreeState} (c : Command) → Meanwhile gen s t → Meanwhile gen s (send c t)
  add_opened :
      {s t : WorktreeState} (cwd : Text) (target : Option Text)
      → Meanwhile gen s t
      → Meanwhile gen s (open_add_modal cwd target t)
  add_closed : {s t : WorktreeState} → Meanwhile gen s t → Meanwhile gen s (close_add_modal t)
  action_opened :
      {s t : WorktreeState} (cwd : Text) (m : ActionMode) (w : GitWorktreeEntry)
      → Meanwhile gen s t
      → Meanwhile gen s (open_action_modal cwd m w t)
  action_closed : {s t : WorktreeState} → Meanwhile gen s t → Meanwhile gen s (close_action_modal t)

abbrev pub Same : WorktreeState → WorktreeState → Type 0
Same s t =
    (t.worktree_gen ≡ s.worktree_gen)
    × (t.worktree_cache ≡ s.worktree_cache)
    × (t.worktrees ≡ s.worktrees)
    × (t.is_loading ≡ s.is_loading)
    × (t.error ≡ s.error)

finish_refresh-stale :
    (old gen : ℕ) (cwd : Text) (a : Answer) (t : WorktreeState)
    → old < gen
    → t.worktree_gen ≡ gen
    → finish_refresh old cwd a t ≡ t
unfolding finish_refresh
finish_refresh-stale old gen cwd a t h e =
    let f : (old == t.worktree_gen) ≡ false = rw e (ground arith) in rw f refl

Meanwhile-Same :
    {gen : ℕ} {s t : WorktreeState} → s.worktree_gen ≡ gen → Meanwhile gen s t → Same s t
unfolding open_add_modal close_add_modal open_action_modal close_action_modal
Meanwhile-Same e (nothing s) = (refl, refl, refl, refl, refl)
Meanwhile-Same {gen = gen} e (stale {t = t} old cwd a m h) =
    let same = Meanwhile-Same e m in rw (finish_refresh-stale old gen cwd a t h (same.0 ∙ e)) same
Meanwhile-Same e (sends c m) = Meanwhile-Same e m
Meanwhile-Same e (add_opened cwd target m) = Meanwhile-Same e m
Meanwhile-Same e (add_closed m) = Meanwhile-Same e m
Meanwhile-Same e (action_opened cwd k w m) = Meanwhile-Same e m
Meanwhile-Same e (action_closed m) = Meanwhile-Same e m

worktree_gen-begin_refresh :
    (cwd : Text) (s : WorktreeState) → (begin_refresh cwd s).worktree_gen ≡ s.worktree_gen + 1
unfolding begin_refresh
worktree_gen-begin_refresh cwd s = elim (Option-cases (dict_get cwd s.worktree_cache)) [
  | inl e ↦ rw (e, begin_refresh) refl
  | inr (l, e) ↦ rw (e, begin_refresh) refl
]

-- The last refresh that was begun wins: whatever answers of earlier refreshes, commands and dialogs
-- come before its own answer, they change neither the list nor the cache, and its list is then shown
-- and cached.
pub finish_refresh-last :
    (cwd : Text) (list : List GitWorktreeEntry) (s t : WorktreeState)
    → Meanwhile (s.worktree_gen + 1) (begin_refresh cwd s) t
    → let u = finish_refresh (s.worktree_gen + 1) cwd (listed list) t in
      Same (begin_refresh cwd s) t
      × (u.worktrees ≡ list)
      × (u.is_loading ≡ false)
      × (dict_get cwd u.worktree_cache ≡ some list)
unfolding finish_refresh
finish_refresh-last cwd list s t m =
    let g = worktree_gen-begin_refresh cwd s in
    let same = Meanwhile-Same g m in
    let f : (s.worktree_gen + 1 == t.worktree_gen) ≡ true = rw (same.0, g) (ground arith) in
    rw f (same, refl, refl, dict_get-dict_set cwd cwd list t.worktree_cache ∙ rw text_eq_refl)
