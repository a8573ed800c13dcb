-- ===== src/AiHistory.antt =====
-- The store of AI tasks (src/stores/aiHistoryStore.ts).
-- The new id and the time are arguments; that the browser keeps the entries is outside of the model.
pub mod Bounds
pub mod Tests
use racemo.Base.{
  ℕ, ◌+◌, not, Option, none, some, List, [], ◌∷◌, ◌++◌, map, ltb, if◌then◌else◌, length, take, Text,
  text_eq, keep,
}

pub data AiTaskType : Type 0 where
  commit auto_commit review error_explain : AiTaskType

pub data AiTaskStatus : Type 0 where
  running success error : AiTaskStatus

pub record AiHistoryEntry : Type 0 where
  pub id : Text
  pub task : AiTaskType
  pub status : AiTaskStatus
  pub command : Text
  pub summary : Text
  pub output : Text
  pub prompt : Option Text
  pub timestamp : ℕ

abbrev pub max_entries : ℕ
max_entries = 100

abbrev pub max_output_length : ℕ
max_output_length = 3000

-- The output cut to the limit, with an ellipsis.
unfoldable pub clipped : Text → Text
clipped output =
    if ltb max_output_length (length output)
    then take max_output_length output ++ 0x2026 ∷ []
    else output

-- `add`, with an entry whose id and time are set.
unfoldable pub add : AiHistoryEntry → List AiHistoryEntry → List AiHistoryEntry
unfolding clipped
add entry entries = take max_entries (record entry { output = clipped entry.output } ∷ entries)

-- A field that is `none` is a key that the patch does not have.
pub record Patch : Type 0 where
  pub status : Option AiTaskStatus
  pub summary : Option Text
  pub output : Option Text
  pub prompt : Option Text

abbrev pub or_old {ℓ} : {A : Type ℓ} → Option A → A → A
or_old none old = old
or_old (some new) old = new

abbrev pub or_some : Option Text → Option Text → Option Text
or_some none old = old
or_some (some new) old = some new

abbrev pub patched : Patch → AiHistoryEntry → AiHistoryEntry
patched p e = record e {
  status = or_old p.status e.status;
  summary = or_old p.summary e.summary;
  output = clipped (or_old p.output e.output);
  prompt = or_some p.prompt e.prompt;
}

unfoldable pub update : Text → Patch → List AiHistoryEntry → List AiHistoryEntry
update id p entries =
    map (λ (e : AiHistoryEntry). if text_eq e.id id then patched p e else e) entries

unfoldable pub remove : Text → List AiHistoryEntry → List AiHistoryEntry
remove id entries = keep (λ (e : AiHistoryEntry). not (text_eq e.id id)) entries

unfoldable pub clear : List AiHistoryEntry → List AiHistoryEntry
clear entries = []
