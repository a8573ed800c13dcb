-- ===== src/Completion/Tests.antt =====
-- Completions of small lines, and the properties at them.
use racemo.Base.{
  ℕ, ◌≤◌, ◌≡◌, refl, none, some, List, [], ◌∷◌, map, length, Text, codes, text_eq, starts_with,
  is_space, trim_start, trim_end, trim, dict_get, last, text_mem, Distinct,
}
use racemo.History.{HistoryEntry, live}
use racemo.Completion.{
  CompletionItem, scan_char, tokens_from, tokenize, collapse_from, normalized, insert_sorted, sort,
  comes_first, matches, history_items, get_history_completions,
}
use racemo.Completion.Specs.{
  CompletionSpec, table, absent, entry, no_entry, spec_of, match_spec, resolve, find_entry,
  matching_entries,
}
use racemo.Completion.Engine.{
  dedupe, item_key, rank, candidates, get_completions, should_do_path_completion, path_commands,
}
use racemo.Completion.Suggested.{Suggestions, history_keys, get_history_completions-AreNew}
use racemo.Completion.Ranking.{IsShort, get_completions-IsShort}

abbrev same : Text → Text
same t = t

abbrev ran : Text → ℕ → HistoryEntry
ran w t = record {
  command = w;
  timestamp = some t;
  source = live;
  session_id = none;
  cwd = none;
  favorite = none;
}

abbrev past : List HistoryEntry
past = ran (codes "git add .") 1 ∷ ran (codes "ls") 2 ∷ ran (codes "git  add .") 3 ∷ []

abbrev git : CompletionSpec
git = record {
  name = codes "git";
  subcommands = table (
      entry (codes "add") (spec_of none none absent none)
        (entry (codes "am") (spec_of none none absent none) no_entry));
}

-- An empty argument in quotes is lost.
empty_quotes : tokenize (codes "a '' b") ≡ codes "a" ∷ codes "b" ∷ []
unfolding tokenize tokens_from scan_char
empty_quotes = refl

-- The newer of two commands that differ in space is suggested.
newest :
    map (λ (x : CompletionItem). x.insert_text) (get_history_completions same (codes "git") 5 past)
    ≡ codes "  add ." ∷ []
unfolding get_history_completions history_items sort insert_sorted comes_first matches normalized
    collapse_from trim trim_start trim_end is_space starts_with text_eq text_mem
newest = refl

abbrev offered : List CompletionItem
offered =
    get_completions same ((codes "git", git) ∷ []) past 5 (λ d p. none) (codes "git a") (codes "/")

labels :
    map (λ (x : CompletionItem). x.label) offered
    ≡ codes "add" ∷ codes "am" ∷ codes "git add ." ∷ []
unfolding get_completions tokenize tokens_from scan_char candidates rank sort insert_sorted dedupe
    item_key get_history_completions history_items comes_first matches normalized collapse_from trim
    trim_start trim_end is_space starts_with text_eq text_mem dict_get last match_spec resolve
    find_entry matching_entries should_do_path_completion path_commands
labels = refl

get_history_completions-AreNew_example :
    let xs = get_history_completions same (codes "git") 5 past in
    (length xs ≤ 5)
    × Suggestions same (codes "git") xs
    × Distinct (history_keys same (codes "git") xs)
get_history_completions-AreNew_example = get_history_completions-AreNew same (codes "git") 5 past

get_completions-IsShort_example : IsShort same offered
get_completions-IsShort_example =
    get_completions-IsShort same ((codes "git", git) ∷ []) past 5 (λ d p. none) (codes "git a")
      (codes "/")
