-- ===== src/History/Tests.antt =====
-- Runs of the history, and the theorems at a concrete state.
use racemo.Base.{
  ◌+◌, ◌≡◌, refl, true, false, ◌&&◌, none, some, [], ◌∷◌, leb, if◌then◌else◌, Text, codes, text_eq,
  is_space, trim, some_of, text_mem, keep, not,
}
use racemo.History.{
  HistoryEntry, HistoryStore, live, normalize, entry_key, begin_delete, finish_delete, collapse,
}
use racemo.History.Rollback.{finish_delete-begin_delete}
use racemo.History.Keys.{IsValid, deletes, step, history_step-IsValid}

-- The letters A to Z are enough here.
abbrev lower : Text → Text
lower [] = []
lower (c ∷ s) = (if leb b'A' c && leb c b'Z' then c + 32 else c) ∷ lower s

abbrev entry : Text → HistoryEntry
entry c = record {
  command = c;
  timestamp = none;
  source = live;
  session_id = none;
  cwd = none;
  favorite = some false;
}

abbrev two : HistoryStore
two = record {
  entries = entry (codes "ls") ∷ entry (codes "cd") ∷ [];
  favorites = [];
  is_loaded = true;
  is_open = false;
  query = [];
  selected_index = 0;
  history_path = none;
  show_favorites_only = false;
}

normalized : normalize lower (codes " Git   log ") ≡ codes "git log"
unfolding normalize trim is_space
normalized = refl

two-IsValid : IsValid lower two
unfolding normalize collapse trim is_space text_mem text_eq
two-IsValid = record { distinct = (refl, (refl, tt)); agrees = (refl, (refl, tt)) }

-- A deletion that is refused puts its command behind the others.
history_step-IsValid_example : IsValid lower (step lower (deletes false (codes "LS")) two)
history_step-IsValid_example =
    history_step-IsValid lower (deletes false (codes "LS")) two two-IsValid

ls_there :
    some_of
      (λ (e : HistoryEntry). text_eq (entry_key lower e) (normalize lower (codes "ls")))
      two.entries
    ≡ true
unfolding normalize collapse trim is_space text_eq some_of
ls_there = refl

-- The entry of `ls` is given back behind the one of `cd`.
finish_delete-begin_delete_example :
    let (s', removed) = begin_delete lower (codes "LS") two in
    let same = λ (e : HistoryEntry). text_eq (entry_key lower e) (normalize lower (codes "LS")) in
    let r = finish_delete false removed s' in
    (keep (λ e. not (same e)) r.entries ≡ keep (λ e. not (same e)) two.entries)
    × (keep same r.entries ≡ keep same two.entries)
    × (record r { entries = two.entries } ≡ two)
finish_delete-begin_delete_example = finish_delete-begin_delete lower (codes "LS") two
