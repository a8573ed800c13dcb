-- ===== src/Worktree/Tests.antt =====
-- Two refreshes, of which the first is answered late.
use racemo.Base.{◌≡◌, true, false, none, some, [], ◌∷◌, arith, codes, dict_get}
use racemo.Worktree.{
  GitWorktreeEntry, WorktreeState, begin_refresh, listed, refused, finish_refresh,
}
use racemo.Worktree.Race.{Meanwhile, nothing, stale, Same, finish_refresh-last}

abbrev start : WorktreeState
start = record {
  worktree_gen = 0;
  worktree_cache = [];
  worktrees = [];
  is_loading = false;
  error = none;
  is_add_modal_open = false;
  modal_cwd = none;
  modal_target = none;
  action_modal = record { is_open = false; mode = none; worktree = none; cwd = [] };
  sent = [];
}

abbrev main_tree : GitWorktreeEntry
main_tree = record {
  path = codes "/w";
  head = codes "h";
  branch = codes "main";
  is_bare = false;
  is_main = true;
  is_locked = false;
  is_dirty = false;
}

abbrev once : WorktreeState
unfolding begin_refresh dict_get
once = begin_refresh (codes "/a") start

-- The first refresh fails after the second was begun.
late :
    Meanwhile 2
      (begin_refresh (codes "/w") once)
      (finish_refresh 1 (codes "/a") (refused (codes "e")) (begin_refresh (codes "/w") once))
late =
    stale 1 (codes "/a") (refused (codes "e")) (nothing (begin_refresh (codes "/w") once))
      (omega arith)

finish_refresh-last_example :
    let t = finish_refresh 1 (codes "/a") (refused (codes "e")) (begin_refresh (codes "/w") once) in
    let u = finish_refresh 2 (codes "/w") (listed (main_tree ∷ [])) t in
    Same (begin_refresh (codes "/w") once) t
    × (u.worktrees ≡ main_tree ∷ [])
    × (u.is_loading ≡ false)
    × (dict_get (codes "/w") u.worktree_cache ≡ some (main_tree ∷ []))
unfolding once begin_refresh dict_get
finish_refresh-last_example = finish_refresh-last (codes "/w") (main_tree ∷ []) once _ late
