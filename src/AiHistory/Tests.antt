-- ===== src/AiHistory/Tests.antt =====
-- The bounds at a concrete entry.
use racemo.Base.{none, [], ◌∷◌, arith, codes}
use racemo.AiHistory.{AiHistoryEntry, commit, running}
use racemo.AiHistory.Bounds.{IsSmall, adds, step, ai_history_step-IsSmall}

abbrev entry : AiHistoryEntry
entry = record {
  id = codes "1";
  task = commit;
  status = running;
  command = codes "git commit";
  summary = [];
  output = codes "done";
  prompt = none;
  timestamp = 1;
}

one-IsSmall : IsSmall (entry ∷ [])
one-IsSmall = record { few = omega arith; short = (omega arith, tt) }

ai_history_step-IsSmall_example : IsSmall (step (adds entry) (entry ∷ []))
ai_history_step-IsSmall_example = ai_history_step-IsSmall (adds entry) (entry ∷ []) one-IsSmall
