-- ===== src/Session.antt =====
-- The store of the sessions, one to a tab (src/types/session.ts, src/stores/sessionStore.ts).
-- The backend's `rename_session`, the log and `removeSessionDeactivation` of the silence detector are
-- calls without effect on the store; the item of the browser's local storage is a field here.
pub mod TabName
pub mod TabNumber
pub mod Fresh
pub mod Steps
pub mod Tests
use racemo.Base.{
  ℕ, ◌+◌, Bool, false, not, Option, none, some, List, [], ◌∷◌, ◌++◌, map, if◌then◌else◌, Text,
  text_eq, split, Dict, dict_set, dict_delete, dict_merge, dict_get_or, keep, find, some_of, last,
}
use racemo.Pane.{PaneNode, LeafPane, ShellType}
use racemo.Pane
use racemo.Tabs.{splice_move}

pub record Session : Type 0 where
  pub id : Text
  pub name : Text
  pub root_pane : PaneNode
  pub created_at : ℕ
  pub pane_count : ℕ
  pub is_remote : Option Bool
  pub remote_os : Option Text

pub record SessionStore : Type 0 where
  pub sessions : List Session
  pub active_session_id : Option Text
  pub focused_pane_id : Option Text
  pub tab_counter : ℕ
  pub pane_cwds : Dict Text
  pub pane_shell_types : Dict ShellType
  pub tab_badges : Dict ℕ
  pub pane_active : Dict Bool
  pub pane_last_commands : Dict Text
  pub pinned_cwds : Dict Text
  pub is_ipc_ready : Bool
  -- `racemo:lastSessionId` of the local storage
  pub last_session_id : Option Text

unfoldable pub extract_shell_types : PaneNode → Dict ShellType
extract_shell_types (Pane.leaf l) = elim l.shell [ none ↦ [] | some sh ↦ (l.pty_id, sh) ∷ [] ]
extract_shell_types (Pane.split _ _ _ a b) =
    dict_merge (dict_merge [] (extract_shell_types a)) (extract_shell_types b)

abbrev pub with_shells : PaneNode → SessionStore → Dict ShellType
with_shells root s = dict_merge s.pane_shell_types (extract_shell_types root)

unfoldable pub set_ipc_ready : Bool → SessionStore → SessionStore
set_ipc_ready ready s = record s { is_ipc_ready = ready }

unfoldable pub set_pinned_cwd : Text → Text → SessionStore → SessionStore
set_pinned_cwd session_id cwd s = record s { pinned_cwds = dict_set session_id cwd s.pinned_cwds }

unfoldable pub clear_pinned_cwd : Text → SessionStore → SessionStore
clear_pinned_cwd session_id s = record s { pinned_cwds = dict_delete session_id s.pinned_cwds }

unfoldable pub set_pane_cwd : Text → Text → SessionStore → SessionStore
set_pane_cwd pty_id cwd s = record s { pane_cwds = dict_set pty_id cwd s.pane_cwds }

unfoldable pub set_pane_shell_type : Text → ShellType → SessionStore → SessionStore
set_pane_shell_type pty_id sh s = record s {
  pane_shell_types = dict_set pty_id sh s.pane_shell_types;
}

unfoldable pub set_pane_active : Text → Bool → SessionStore → SessionStore
set_pane_active pty_id active s = record s { pane_active = dict_set pty_id active s.pane_active }

unfoldable pub set_pane_last_command : Text → Text → SessionStore → SessionStore
set_pane_last_command pty_id command s = record s {
  pane_last_commands = dict_set pty_id command s.pane_last_commands;
}

unfoldable pub all_shell_types : List Session → Dict ShellType → Dict ShellType
all_shell_types [] acc = acc
all_shell_types (x ∷ xs) acc = all_shell_types xs (dict_merge acc (extract_shell_types x.root_pane))

unfoldable pub set_sessions : List Session → SessionStore → SessionStore
set_sessions sessions s = record s {
  sessions = sessions;
  pane_shell_types = dict_merge s.pane_shell_types (all_shell_types sessions []);
}

unfoldable pub set_active_session : Text → SessionStore → SessionStore
set_active_session session_id s = record s {
  last_session_id = some session_id;
  active_session_id = some session_id;
}

-- `sessions.map((s) => s.id === session.id ? session : s)`
abbrev pub replaced : Session → Session → Session
replaced new old = if text_eq old.id new.id then new else old

unfoldable pub update_session : Session → SessionStore → SessionStore
update_session x s = record s {
  sessions = map (replaced x) s.sessions;
  pane_shell_types = with_shells x.root_pane s;
}

unfoldable pub add_session : Session → SessionStore → SessionStore
add_session x s = record s {
  sessions = s.sessions ++ x ∷ [];
  active_session_id = some x.id;
  pane_shell_types = with_shells x.root_pane s;
  last_session_id = some x.id;
}

abbrev pub last_id : List Session → Option Text
last_id xs = elim (last xs) [ none ↦ none | some x ↦ some x.id ]

abbrev pub is_id : Text → Option Text → Bool
is_id t none = false
is_id t (some u) = text_eq u t

unfoldable pub remove_session : Text → SessionStore → SessionStore
remove_session session_id s =
    let sessions = keep (λ (x : Session). not (text_eq x.id session_id)) s.sessions in
    record s {
      sessions = sessions;
      active_session_id =
          if is_id session_id s.active_session_id then last_id sessions else s.active_session_id;
      pinned_cwds = dict_delete session_id s.pinned_cwds;
    }

unfoldable pub set_focused_pane : Text → SessionStore → SessionStore
set_focused_pane pane_id s = record s { focused_pane_id = some pane_id }

unfoldable pub increment_tab_badge : Text → SessionStore → SessionStore
increment_tab_badge session_id s = record s {
  tab_badges = dict_set session_id (dict_get_or session_id 0 s.tab_badges + 1) s.tab_badges;
}

unfoldable pub clear_tab_badge : Text → SessionStore → SessionStore
clear_tab_badge session_id s = record s { tab_badges = dict_delete session_id s.tab_badges }

-- `none`: the array would hold `undefined`.
unfoldable pub reorder_sessions : ℕ → ℕ → SessionStore → Option SessionStore
reorder_sessions from_index to_index s = elim (splice_move s.sessions from_index to_index) [
  | none ↦ none
  | some xs ↦ some (record s { sessions = xs })
]

abbrev pub renamed : Text → Text → Session → Session
renamed session_id name x = if text_eq x.id session_id then record x { name = name } else x

unfoldable pub rename_session : Text → Text → SessionStore → SessionStore
rename_session session_id name s = record s { sessions = map (renamed session_id name) s.sessions }

-- The getter `session`, which computes from the state.
unfoldable pub active_session : SessionStore → Option Session
active_session s = find (λ (x : Session). is_id x.id s.active_session_id) s.sessions

unfoldable pub set_session : Session → SessionStore → SessionStore
set_session x s =
    if some_of (λ (y : Session). text_eq y.id x.id) s.sessions
    then record s {
      sessions = map (replaced x) s.sessions;
      pane_shell_types = with_shells x.root_pane s;
    }
    else record s {
      sessions = s.sessions ++ x ∷ [];
      active_session_id = some x.id;
      pane_shell_types = with_shells x.root_pane s;
    }
