-- ===== src/Completion.antt =====
-- The completion of command lines (src/lib/completionEngine.ts, src/types/autocomplete.ts): its data,
-- the cutting of a line into tokens, and the entries of the history. `to_lower` is `toLowerCase`.

pub mod Specs
pub mod Engine
pub mod Tokens
pub mod Suggested
pub mod Ranking
mod Tests
use racemo.Base.{
  ℕ, ◌-◌, not, ◌&&◌, ◌||◌, Bool, false, Option, none, some, List, [], ◌∷◌, ◌++◌, leb, ◌==◌,
  if◌then◌else◌, Text, codes, text_eq, starts_with, is_space, trim, length, drop, text_mem,
}
use racemo.History.{HistoryEntry}

pub data Kind : Type 0 where
  file directory command subcommand option argument history envvar : Kind

pub record CompletionItem : Type 0 where
  pub label : Text
  pub insert_text : Text
  pub kind : Kind
  pub description : Option Text
  pub favorite : Option Bool

-- A token is kept if it is not empty.
abbrev pub end_token : Text → List Text
end_token [] = []
end_token (c ∷ t) = (c ∷ t) ∷ []

-- The loop over the characters: the tokens that were pushed, the one so far, and the open quote.
pub record Scan : Type 0 where
  pub pushed : List Text
  pub current : Text
  pub in_quote : Option ℕ

unfoldable pub scan_char : ℕ → Text → Option ℕ → Scan
scan_char c current (some q) =
    if c == q
    then record { pushed = []; current = current; in_quote = none }
    else record { pushed = []; current = current ++ c ∷ []; in_quote = some q }
scan_char c current none =
    if c == 34 || c == 39
    then record { pushed = []; current = current; in_quote = some c }
    else if c == 32
    then record { pushed = end_token current; current = []; in_quote = none }
    else record { pushed = []; current = current ++ c ∷ []; in_quote = none }

unfoldable pub tokens_from : Text → Text → Option ℕ → List Text
tokens_from [] current quote = end_token current
tokens_from (c ∷ s) current quote =
    let k = scan_char c current quote in k.pushed ++ tokens_from s k.current k.in_quote

unfoldable pub tokenize : Text → List Text
tokenize input = tokens_from input [] none

-- `replace(/\s+/g, " ")`; `after` is that the code unit before was white space.
unfoldable pub collapse_from : Bool → Text → Text
unfolding is_space
collapse_from after [] = []
collapse_from after (c ∷ s) =
    let rest = collapse_from (is_space c) s in
    if is_space c then (if after then rest else 32 ∷ rest) else c ∷ rest

unfoldable pub normalized : Text → Text
unfolding collapse_from trim
normalized t = trim (collapse_from false t)

-- A stable sort by a comparison, as `sort` is: `before a b` is that the comparator is not positive.
module _ {ℓ} {A : Type ℓ} (before : A → A → Bool) where
  unfoldable pub insert_sorted : A → List A → List A
  insert_sorted x [] = x ∷ []
  insert_sorted x (y ∷ ys) =
      let rest = insert_sorted x ys in if before x y then x ∷ y ∷ ys else y ∷ rest

  unfoldable pub sort : List A → List A
  sort [] = []
  sort (x ∷ xs) = insert_sorted x (sort xs)

abbrev pub is_favorite : HistoryEntry → Bool
is_favorite e = elim e.favorite [ none ↦ false | some b ↦ b ]

abbrev pub time_of : HistoryEntry → ℕ
time_of e = elim e.timestamp [ none ↦ 0 | some t ↦ t ]

-- Favorites first, then the newest first.
unfoldable pub comes_first : HistoryEntry → HistoryEntry → Bool
comes_first a b =
    if is_favorite a
    then not (is_favorite b) || leb (time_of b) (time_of a)
    else not (is_favorite b) && leb (time_of b) (time_of a)

abbrev pub history_item : Text → HistoryEntry → CompletionItem
history_item input e = record {
  label = e.command;
  insert_text = drop (length input) e.command;
  kind = history;
  description = some (if is_favorite e then codes "★ favorite" else codes "history");
  favorite = e.favorite;
}

module _ (to_lower : Text → Text) where
  unfoldable pub matches : Text → HistoryEntry → List Text → Bool
  unfolding normalized
  matches input e seen =
      starts_with (to_lower e.command) (to_lower input)
      && not (text_eq e.command input)
      && not (text_mem (normalized (to_lower e.command)) seen)

  -- The loop over the sorted entries; `left` is how many results may still be added.
  unfoldable pub history_items : Text → ℕ → List Text → List HistoryEntry → List CompletionItem
  unfolding matches normalized
  history_items input left seen [] = []
  history_items input left seen (e ∷ es) =
      let hit = matches input e seen in
      let rest =
        history_items input (if hit then left - 1 else left)
          (if hit then normalized (to_lower e.command) ∷ seen else seen) es in
      if left == 0 then [] else if hit then history_item input e ∷ rest else rest

  unfoldable pub get_history_completions : Text → ℕ → List HistoryEntry → List CompletionItem
  get_history_completions input max_count entries =
      history_items input max_count [] (sort comes_first entries)
