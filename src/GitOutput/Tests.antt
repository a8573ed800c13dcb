-- ===== src/GitOutput/Tests.antt =====
-- The lines at a concrete run.
use racemo.Base.{◌≡◌, refl, true, false, none, [], codes, text_eq, last}
use racemo.GitOutput.{GitOutputState, idle, terminal, inline, add_line}

abbrev start : GitOutputState
start = record {
  is_open = false;
  title = [];
  lines = [];
  status = idle;
  has_on_close = false;
  current_channel_id = none;
  mode = terminal;
  tool_entries = [];
  suggestions = [];
  changed_files = [];
  is_thinking = false;
  prompt = [];
  ai_commit_location = inline;
  stored_location = none;
  closings = 0;
}

once :
    (add_line (codes "a") true (add_line (codes "a") false start)).lines
    ≡ (add_line (codes "a") false start).lines
unfolding add_line last text_eq
once = refl
