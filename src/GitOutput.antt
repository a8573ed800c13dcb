-- ===== src/GitOutput.antt =====
-- The store of the panel with the output of git and of the commit assistant
-- (src/stores/gitOutputStore.ts). The function that is called on closing is kept as a flag, and the
-- calls of it and of the backend's `kill_streaming` are kept as what they are called with.
pub mod Lines
pub mod Tests
use racemo.Base.{
  ℕ, ◌+◌, Bool, true, false, Option, none, some, List, [], ◌∷◌, ◌++◌, if◌then◌else◌, Text, text_eq,
  codes, truthy, last,
}

pub record GitOutputLine : Type 0 where
  pub line : Text
  pub is_err : Bool

pub record ToolEntry : Type 0 where
  pub name : Text
  pub cmd : Text

pub record CommitSuggestion : Type 0 where
  pub kind : Text
  pub message : Text

pub data AiCommitLocation : Type 0 where
  inline floating : AiCommitLocation

-- What the local storage has for the location; a read that fails is `none`.
unfoldable pub read_initial_location : Option Text → AiCommitLocation
read_initial_location none = inline
read_initial_location (some v) = if text_eq v (codes "floating") then floating else inline

pub data OutputStatus : Type 0 where
  running success error cancelled idle : OutputStatus

pub data OutputMode : Type 0 where
  terminal ai_commit : OutputMode

pub record GitOutputState : Type 0 where
  pub is_open : Bool
  pub title : Text
  pub lines : List GitOutputLine
  pub status : OutputStatus
  pub has_on_close : Bool
  pub current_channel_id : Option Text
  pub mode : OutputMode
  pub tool_entries : List ToolEntry
  pub suggestions : List CommitSuggestion
  pub changed_files : List Text
  pub is_thinking : Bool
  pub prompt : Text
  pub ai_commit_location : AiCommitLocation
  -- the item of the local storage, and how often the function was called
  pub stored_location : Option AiCommitLocation
  pub closings : ℕ

abbrev pub blank_output : GitOutputState → GitOutputState
blank_output s = record s {
  title = [];
  lines = [];
  status = idle;
  has_on_close = false;
  current_channel_id = none;
  mode = terminal;
  tool_entries = [];
  suggestions = [];
  changed_files = [];
  is_thinking = false;
  prompt = [];
}

unfoldable pub open_output : Text → Bool → OutputMode → GitOutputState → GitOutputState
open_output title has_on_close mode s = record (blank_output s) {
  is_open = true;
  title = title;
  status = running;
  has_on_close = has_on_close;
  mode = mode;
}

abbrev pub repeats : Option GitOutputLine → Text → Bool
repeats none line = false
repeats (some l) line = text_eq l.line line

unfoldable pub add_line : Text → Bool → GitOutputState → GitOutputState
add_line line is_err s =
    if repeats (last s.lines) line
    then s
    else record s { lines = s.lines ++ record { line = line; is_err = is_err } ∷ [] }

unfoldable pub set_status : OutputStatus → GitOutputState → GitOutputState
set_status status s = record s { status = status }

unfoldable pub set_channel_id : Option Text → GitOutputState → GitOutputState
set_channel_id id s = record s { current_channel_id = id }

unfoldable pub add_tool_entry : ToolEntry → GitOutputState → GitOutputState
add_tool_entry entry s = record s { tool_entries = s.tool_entries ++ entry ∷ [] }

unfoldable pub set_suggestions : List CommitSuggestion → GitOutputState → GitOutputState
set_suggestions suggestions s = record s { suggestions = suggestions }

unfoldable pub set_changed_files : List Text → GitOutputState → GitOutputState
set_changed_files files s = record s { changed_files = files }

unfoldable pub set_is_thinking : Bool → GitOutputState → GitOutputState
set_is_thinking v s = record s { is_thinking = v }

unfoldable pub set_prompt : Text → GitOutputState → GitOutputState
set_prompt prompt s = record s { prompt = prompt }

unfoldable pub set_ai_commit_location : AiCommitLocation → GitOutputState → GitOutputState
set_ai_commit_location loc s = record s { ai_commit_location = loc; stored_location = some loc }

-- The channel that `kill` asks the backend to stop; an empty id counts as none.
unfoldable pub kill_channel : GitOutputState → Option Text
kill_channel s = elim s.current_channel_id [
  | none ↦ none
  | some id ↦ if truthy id then some id else none
]

unfoldable pub close_output : GitOutputState → GitOutputState
close_output s = record (blank_output s) {
  is_open = false;
  closings = if s.has_on_close then s.closings + 1 else s.closings;
}
