-- ===== src/Tracker/Tests.antt =====
-- The theorems on the tracker at a concrete command.
use racemo.Base.{
  ℕ, ◌≡◌, refl, true, false, none, some, [], ◌∷◌, ◌++◌, if◌then◌else◌, Text, codes, truthy,
  is_space, trim, dict_get,
}
use racemo.History.{add_live_entry, HistoryStore}
use racemo.Tracker.{
  TrackerState, Context, get_pending_command_text, is_command_running, on_command_text,
  on_command_start, failed,
}
use racemo.Tracker.Cycle.{cycle, error_of, entry_of, cycle_lem}

abbrev same : Text → Text
same s = s

abbrev no_history : HistoryStore
no_history = record {
  entries = [];
  favorites = [];
  is_loaded = true;
  is_open = false;
  query = [];
  selected_index = 0;
  history_path = none;
  show_favorites_only = false;
}

abbrev start : TrackerState
start = record {
  command_states = [];
  pending_command_text = [];
  shell_integration_active = [];
  errors = [];
  history = no_history;
  saved = [];
}

abbrev at_time : ℕ → Context
at_time t = record { now = t; active_session_id = none; pane_cwds = [] }

abbrev pane : Text
pane = codes "p"

text_left : truthy (trim (codes " ls ")) ≡ true
unfolding trim is_space
text_left = refl

cycle_lem_example :
    let s' = cycle same (at_time 1) (at_time 2) pane (codes " ls ") (some 1) start in
    (is_command_running pane s' ≡ false)
    × (get_pending_command_text pane s' ≡ none)
    × (dict_get pane s'.errors ≡ (
        if failed (some 1)
        then some (error_of (at_time 2) (trim (codes " ls ")) (some 1))
        else none))
    × (s'.saved ≡ (if failed (some 1) then [] else [] ++ trim (codes " ls ") ∷ []))
    × (s'.history ≡ (
        if failed (some 1)
        then no_history
        else add_live_entry same (entry_of (at_time 2) pane (trim (codes " ls "))) no_history))
cycle_lem_example =
    cycle_lem same (at_time 1) (at_time 2) pane (codes " ls ") (some 1) start text_left

abbrev running : TrackerState
running = on_command_start (at_time 1) pane (on_command_text pane (codes "ls") start)
