-- ===== src/History.antt =====
-- The store of the command history (src/types/history.ts, src/stores/historyStore.ts).
-- What the backend answers is an argument, `none` for a call that fails; an operation that waits for
-- it is two operations here, before and behind the call. `toLowerCase` is a parameter.
pub mod Marks
pub mod Keys
pub mod Rollback
pub mod Tests
use racemo.Base.{
  ℕ, ◌+◌, Bool, true, false, not, Option, none, some, List, [], ◌∷◌, ◌++◌, map, ltb, if◌then◌else◌,
  Text, text_eq, is_space, trim, Dict, dict_get, dict_set, keep, text_mem,
}

pub data Source : Type 0 where
  file live : Source

pub record HistoryEntry : Type 0 where
  pub command : Text
  pub timestamp : Option ℕ
  pub source : Source
  pub session_id : Option Text
  pub cwd : Option Text
  pub favorite : Option Bool

pub record RawHistoryItem : Type 0 where
  pub command : Text
  pub timestamp : Option ℕ

pub record HistoryStore : Type 0 where
  pub entries : List HistoryEntry
  pub favorites : List Text
  pub is_loaded : Bool
  pub is_open : Bool
  pub query : Text
  pub selected_index : ℕ
  pub history_path : Option Text
  pub show_favorites_only : Bool

-- `replace(/\s+/g, " ")`, with whether the last character was white space.
unfoldable pub collapse : Bool → Text → Text
unfolding is_space
collapse after [] = []
collapse after (c ∷ s) =
    let spaces = collapse true s in
    let rest = collapse false s in
    if is_space c then (if after then spaces else b' ' ∷ spaces) else c ∷ rest

abbrev pub or_zero : Option ℕ → ℕ
or_zero none = 0
or_zero (some t) = t

-- Sets of strings, in the order of insertion.
unfoldable pub set_add : Text → List Text → List Text
set_add t ts = if text_mem t ts then ts else ts ++ t ∷ []

unfoldable pub set_delete : Text → List Text → List Text
set_delete t ts = keep (λ u. not (text_eq u t)) ts

unfoldable pub to_set : List Text → List Text → List Text
unfolding set_add
to_set acc [] = acc
to_set acc (t ∷ ts) = to_set (set_add t acc) ts

abbrev pub values : Dict HistoryEntry → List HistoryEntry
values [] = []
values ((k, e) ∷ m) = e ∷ values m

abbrev pub is_newer : Option ℕ → Option HistoryEntry → Bool
is_newer t none = true
is_newer t (some e) = ltb (or_zero e.timestamp) (or_zero t)

abbrev pub with_favorite : Text → Bool → HistoryEntry → HistoryEntry
with_favorite command flag e =
    if text_eq e.command command then record e { favorite = some flag } else e

abbrev pub loaded_entry : List Text → RawHistoryItem → HistoryEntry
loaded_entry favorites item = record {
  command = item.command;
  timestamp = item.timestamp;
  source = file;
  session_id = none;
  cwd = none;
  favorite = some (text_mem item.command favorites);
}

unfoldable pub toggle_show_favorites_only : HistoryStore → HistoryStore
toggle_show_favorites_only s = record s {
  show_favorites_only = not s.show_favorites_only;
  selected_index = 0;
}

unfoldable pub open_history : HistoryStore → HistoryStore
open_history s = record s { is_open = true; query = []; selected_index = 0 }

unfoldable pub close_history : HistoryStore → HistoryStore
close_history s = record s {
  is_open = false;
  query = [];
  selected_index = 0;
  show_favorites_only = false;
}

unfoldable pub set_query : Text → HistoryStore → HistoryStore
set_query q s = record s { query = q; selected_index = 0 }

unfoldable pub set_selected_index : ℕ → HistoryStore → HistoryStore
set_selected_index i s = record s { selected_index = i }

unfoldable pub clear_all : Bool → HistoryStore → HistoryStore
clear_all ok s = if ok then record s { entries = [] } else s

-- What `toggleFavorite` does once the backend has agreed; `is_favorite` was read before the call.
unfoldable pub finish_toggle : Bool → Bool → Text → HistoryStore → HistoryStore
unfolding set_add set_delete
finish_toggle ok is_favorite command s =
    let removed : HistoryStore = record s {
      favorites = set_delete command s.favorites;
      entries = map (with_favorite command false) s.entries;
    } in
    let added : HistoryStore = record s {
      favorites = set_add command s.favorites;
      entries = map (with_favorite command true) s.entries;
    } in
    if not ok then s else if is_favorite then removed else added

-- Whether `loadFromFile` goes on to its calls.
unfoldable pub begin_load : HistoryStore → Bool
begin_load s = not s.is_loaded

unfoldable pub begin_toggle : Text → HistoryStore → Bool
begin_toggle command s = text_mem command s.favorites

module _ (to_lower : Text → Text) where
  unfoldable pub normalize : Text → Text
  unfolding collapse
  normalize command = trim (collapse false (to_lower command))

  abbrev pub entry_key : HistoryEntry → Text
  entry_key e = normalize e.command

  -- One round of the loop that keeps the latest entry of each command.
  unfoldable pub seen_item : List Text → RawHistoryItem → Dict HistoryEntry → Dict HistoryEntry
  unfolding normalize
  seen_item favorites item seen =
      let key = normalize item.command in
      if is_newer item.timestamp (dict_get key seen)
      then dict_set key (loaded_entry favorites item) seen
      else seen

  unfoldable pub seen_items :
      List Text → List RawHistoryItem → Dict HistoryEntry → Dict HistoryEntry
  seen_items favorites [] seen = seen
  seen_items favorites (x ∷ xs) seen = seen_items favorites xs (seen_item favorites x seen)

  -- What `loadFromFile` does behind its calls: their answers are the path, the items and the favorites.
  -- The store may have changed since it was looked whether it is loaded.
  unfoldable pub finish_load :
      Option (Text × List RawHistoryItem × List Text) → HistoryStore → HistoryStore
  unfolding to_set
  finish_load none s = record s { is_loaded = true }
  finish_load (some (path, items, favorites_array)) s =
      let favorites = to_set [] favorites_array in
      record s {
        entries = values (seen_items favorites items []);
        favorites = favorites;
        is_loaded = true;
        history_path = some path;
      }

  unfoldable pub add_live_entry : HistoryEntry → HistoryStore → HistoryStore
  unfolding normalize
  add_live_entry entry s =
      let filtered =
        keep (λ (e : HistoryEntry). not (text_eq (entry_key e) (normalize entry.command)))
          s.entries in
      record s {
        entries =
            filtered ++ record entry { favorite = some (text_mem entry.command s.favorites) } ∷ [];
      }

  -- The optimistic removal, with what `removed` collects.
  unfoldable pub begin_delete : Text → HistoryStore → HistoryStore × List HistoryEntry
  unfolding normalize
  begin_delete command s = (
    record s {
      entries =
          keep (λ (e : HistoryEntry). not (text_eq (entry_key e) (normalize command))) s.entries;
    },
    keep (λ (e : HistoryEntry). text_eq (entry_key e) (normalize command)) s.entries,
  )

unfoldable pub finish_delete : Bool → List HistoryEntry → HistoryStore → HistoryStore
finish_delete ok removed s = if ok then s else record s { entries = s.entries ++ removed }
