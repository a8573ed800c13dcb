-- ===== src/Worktree.antt =====
-- The store of the git worktrees (src/stores/worktreeStore.ts). A refresh is cut where it waits for the
-- backend: the answer comes with the generation and the directory of its refresh. The commands that are
-- sent to the backend are kept in a list; a command of a directory that succeeds refreshes it.
pub mod Race
mod Tests
use racemo.Base.{
  ℕ, ◌+◌, Bool, true, false, Option, none, some, List, [], ◌∷◌, ◌++◌, ◌==◌, if◌then◌else◌, Text,
  Dict, dict_get, dict_set,
}

pub record GitWorktreeEntry : Type 0 where
  pub path : Text
  pub head : Text
  pub branch : Text
  pub is_bare : Bool
  pub is_main : Bool
  pub is_locked : Bool
  pub is_dirty : Bool

pub data ActionMode : Type 0 where
  sync apply pull cherrypick reset : ActionMode

pub record ActionModal : Type 0 where
  pub is_open : Bool
  pub mode : Option ActionMode
  pub worktree : Option GitWorktreeEntry
  pub cwd : Text

-- The commands, with their arguments in the order of the calls.
pub data Command : Type 0 where
  worktree_list worktree_prune : Text → Command
  worktree_add : Text → Text → Text → Bool → Option Text → Command
  worktree_remove : Text → Text → Bool → Command
  worktree_sync worktree_apply : Text → Text → Text → Bool → Command
  worktree_cherry_pick : Text → List Text → Command
  worktree_reset : Text → Text → Text → Command
  worktree_lock : Text → Text → Option Text → Command
  worktree_unlock : Text → Text → Command

pub record WorktreeState : Type 0 where
  pub worktree_gen : ℕ
  pub worktree_cache : Dict (List GitWorktreeEntry)
  pub worktrees : List GitWorktreeEntry
  pub is_loading : Bool
  pub error : Option Text
  pub is_add_modal_open : Bool
  pub modal_cwd : Option Text
  pub modal_target : Option Text
  pub action_modal : ActionModal
  pub sent : List Command

abbrev pub send : Command → WorktreeState → WorktreeState
send c s = record s { sent = s.sent ++ c ∷ [] }

-- `refresh` up to the call; its generation is the new one of the state.
abbrev pub begun : Option (List GitWorktreeEntry) → WorktreeState → WorktreeState
begun (some cached) s = record s {
  worktree_gen = s.worktree_gen + 1;
  worktrees = cached;
  is_loading = false;
  error = none;
}
begun none s = record s { worktree_gen = s.worktree_gen + 1; is_loading = true; error = none }

unfoldable pub begin_refresh : Text → WorktreeState → WorktreeState
begin_refresh cwd s = send (worktree_list cwd) (begun (dict_get cwd s.worktree_cache) s)

-- The answer of the backend: a list, or the text of an error.
pub data Answer : Type 0 where
  listed : List GitWorktreeEntry → Answer
  refused : Text → Answer

abbrev pub take_answer : Text → Answer → WorktreeState → WorktreeState
take_answer cwd (listed list) s = record s {
  worktree_cache = dict_set cwd list s.worktree_cache;
  worktrees = list;
  is_loading = false;
}
take_answer cwd (refused e) s = record s { worktrees = []; is_loading = false; error = some e }

unfoldable pub finish_refresh : ℕ → Text → Answer → WorktreeState → WorktreeState
finish_refresh gen cwd a s = if gen == s.worktree_gen then take_answer cwd a s else s

unfoldable pub add_worktree :
    Text → Text → Text → Bool → Option Text → WorktreeState → WorktreeState
add_worktree cwd path branch new_branch target s =
    send (worktree_add cwd path branch new_branch target) s

unfoldable pub remove_worktree : Text → Text → Bool → WorktreeState → WorktreeState
remove_worktree cwd path force s = send (worktree_remove cwd path force) s

unfoldable pub prune_worktrees : Text → WorktreeState → WorktreeState
prune_worktrees cwd s = send (worktree_prune cwd) s

unfoldable pub sync_worktree : Text → Text → Text → Bool → WorktreeState → WorktreeState
sync_worktree cwd path base rebase s = send (worktree_sync cwd path base rebase) s

unfoldable pub apply_worktree : Text → Text → Text → Bool → WorktreeState → WorktreeState
apply_worktree cwd path target squash s = send (worktree_apply cwd path target squash) s

unfoldable pub cherry_pick : Text → List Text → WorktreeState → WorktreeState
cherry_pick path commits s = send (worktree_cherry_pick path commits) s

unfoldable pub reset_worktree : Text → Text → Text → WorktreeState → WorktreeState
reset_worktree path commit mode s = send (worktree_reset path commit mode) s

unfoldable pub lock_worktree : Text → Text → Option Text → WorktreeState → WorktreeState
lock_worktree cwd path reason s = send (worktree_lock cwd path reason) s

unfoldable pub unlock_worktree : Text → Text → WorktreeState → WorktreeState
unlock_worktree cwd path s = send (worktree_unlock cwd path) s

-- A command of a directory has succeeded.
unfoldable pub command_done : Text → WorktreeState → WorktreeState
unfolding begin_refresh
command_done cwd s = begin_refresh cwd s

unfoldable pub open_add_modal : Text → Option Text → WorktreeState → WorktreeState
open_add_modal cwd target s = record s {
  is_add_modal_open = true;
  modal_cwd = some cwd;
  modal_target = target;
}

unfoldable pub close_add_modal : WorktreeState → WorktreeState
close_add_modal s = record s { is_add_modal_open = false; modal_cwd = none; modal_target = none }

unfoldable pub open_action_modal :
    Text → ActionMode → GitWorktreeEntry → WorktreeState → WorktreeState
open_action_modal cwd mode worktree s = record s {
  action_modal = record { is_open = true; mode = some mode; worktree = some worktree; cwd = cwd };
}

unfoldable pub close_action_modal : WorktreeState → WorktreeState
close_action_modal s = record s {
  action_modal = record { is_open = false; mode = none; worktree = none; cwd = [] };
}
