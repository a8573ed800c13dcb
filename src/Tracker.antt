-- ===== src/Tracker.antt =====
-- The commands that a shell runs (src/lib/commandTracker.ts, src/stores/commandErrorStore.ts).
-- The tracker writes to the history and the error store, which are parts of its state here; the time
-- and what it reads of the session store are arguments. Exit codes are natural numbers here.
pub mod Cycle
pub mod Tests
use racemo.Base.{
  ℕ, ◌+◌, Bool, true, false, not, Option, none, some, List, [], ◌∷◌, ◌++◌, ◌==◌, if◌then◌else◌,
  Text, truthy, trim, Dict, dict_get, dict_set, dict_delete, dict_get_or,
}
use racemo.History.{HistoryEntry, HistoryStore, live, add_live_entry}

pub record CommandState : Type 0 where
  pub start_time : ℕ
  pub is_running : Bool

pub record CommandError : Type 0 where
  pub command : Text
  pub exit_code : ℕ
  pub timestamp : ℕ
  pub terminal_output : Option Text

pub record TrackerState : Type 0 where
  pub command_states : Dict CommandState
  pub pending_command_text : Dict Text
  pub shell_integration_active : Dict Bool
  pub errors : Dict CommandError
  pub history : HistoryStore
  -- the calls of `write_racemo_history`
  pub saved : List Text

-- What `useSessionStore.getState()` and `Date.now()` give.
pub record Context : Type 0 where
  pub now : ℕ
  pub active_session_id : Option Text
  pub pane_cwds : Dict Text

unfoldable pub set_error : Text → CommandError → TrackerState → TrackerState
set_error pty_id error s = record s { errors = dict_set pty_id error s.errors }

unfoldable pub clear_error : Text → TrackerState → TrackerState
clear_error pty_id s = record s { errors = dict_delete pty_id s.errors }

unfoldable pub is_shell_integration_active : Text → TrackerState → Bool
is_shell_integration_active pty_id s = dict_get_or pty_id false s.shell_integration_active

unfoldable pub on_command_text : Text → Text → TrackerState → TrackerState
on_command_text pty_id text s =
    if truthy (trim text)
    then record s { pending_command_text = dict_set pty_id (trim text) s.pending_command_text }
    else s

unfoldable pub get_pending_command_text : Text → TrackerState → Option Text
get_pending_command_text pty_id s = dict_get pty_id s.pending_command_text

unfoldable pub on_command_start : Context → Text → TrackerState → TrackerState
unfolding clear_error
on_command_start c pty_id s = clear_error pty_id (record s {
  command_states =
      dict_set pty_id (record { start_time = c.now; is_running = true }) s.command_states;
})

abbrev pub failed : Option ℕ → Bool
failed none = false
failed (some code) = not (code == 0)

abbrev pub code_of : Option ℕ → ℕ
code_of none = 0
code_of (some code) = code

-- An empty pending text counts as none.
abbrev pub nonempty : Option Text → Option Text
nonempty none = none
nonempty (some []) = none
nonempty (some (c ∷ t)) = some (c ∷ t)

abbrev pub stopped : Text → CommandState → TrackerState → TrackerState
stopped pty_id st s = record s {
  command_states = dict_set pty_id (record st { is_running = false }) s.command_states;
}

module _ (to_lower : Text → Text) where
  -- The rest of `onCommandEnd`, with the pending text.
  unfoldable pub record_command :
      Context → Text → Option ℕ → Option Text → TrackerState → TrackerState
  unfolding set_error
  record_command c pty_id exit_code none s = s
  record_command c pty_id exit_code (some text) s =
      let error : CommandError = record {
        command = text;
        exit_code = code_of exit_code;
        timestamp = c.now;
        terminal_output = none;
      } in
      let entry : HistoryEntry = record {
        command = text;
        timestamp = some c.now;
        source = live;
        session_id = c.active_session_id;
        cwd = dict_get pty_id c.pane_cwds;
        favorite = none;
      } in
      let done : TrackerState = record s {
        pending_command_text = dict_delete pty_id s.pending_command_text;
      } in
      if failed exit_code then set_error pty_id error done else record done {
        history = add_live_entry to_lower entry s.history;
        saved = s.saved ++ text ∷ [];
      }

  unfoldable pub end_running :
      Context → Text → Option ℕ → Option CommandState → TrackerState → TrackerState
  unfolding record_command
  end_running c pty_id exit_code none s = s
  end_running c pty_id exit_code (some st) s =
      if st.is_running
      then record_command c pty_id exit_code (nonempty (dict_get pty_id s.pending_command_text))
          (stopped pty_id st s)
      else s

  unfoldable pub on_command_end : Context → Text → Option ℕ → TrackerState → TrackerState
  unfolding end_running
  on_command_end c pty_id exit_code s =
      end_running c pty_id exit_code (dict_get pty_id s.command_states) s

  unfoldable pub on_prompt_start : Context → Text → TrackerState → TrackerState
  unfolding on_command_end
  on_prompt_start c pty_id s =
      let t : TrackerState = record s {
        shell_integration_active = dict_set pty_id true s.shell_integration_active;
      } in
      elim (dict_get pty_id s.command_states) [
        | none ↦ t
        | some st ↦ if st.is_running then on_command_end c pty_id none t else t
      ]

unfoldable pub is_command_running : Text → TrackerState → Bool
is_command_running pty_id s = elim (dict_get pty_id s.command_states) [
  | none ↦ false
  | some st ↦ st.is_running
]

unfoldable pub remove_command_state : Text → TrackerState → TrackerState
unfolding clear_error
remove_command_state pty_id s = clear_error pty_id (record s {
  command_states = dict_delete pty_id s.command_states;
  shell_integration_active = dict_delete pty_id s.shell_integration_active;
})
