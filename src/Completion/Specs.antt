-- ===== src/Completion/Specs.antt =====
-- Matching of a command line against the specification of a tool (src/lib/completionEngine.ts,
-- src/types/autocomplete.ts). The subcommands of a tool are a table of names in the order of the file;
-- the names that every JavaScript object inherits are not in it.
use racemo.Base.{
  not, ◌&&◌, ◌||◌, Bool, false, Option, none, some, List, [], ◌∷◌, ◌++◌, if◌then◌else◌, Text,
  text_eq, truthy, starts_with, last,
}
use racemo.Completion.{CompletionItem, subcommand, option}

pub data Template : Type 0 where
  filepaths directories history_template : Template

pub record CompletionArg : Type 0 where
  pub name : Text
  pub template : Option Template

pub record CompletionOption : Type 0 where
  pub name : Text
  pub alias : Option Text
  pub description : Option Text
  pub takes_arg : Option Bool

mutual
  -- description, options, subcommands, args
  pub data CompletionSubcommand : Type 0 where
    spec_of :
        Option Text
        → Option (List CompletionOption)
        → Subcommands
        → Option CompletionArg
        → CompletionSubcommand

  -- `absent` stands for no table, at the place of the table.
  pub data Subcommands : Type 0 where
    absent : Subcommands
    table : Entries → Subcommands

  pub data Entries : Type 0 where
    no_entry : Entries
    entry : Text → CompletionSubcommand → Entries → Entries

pub record CompletionSpec : Type 0 where
  pub name : Text
  pub subcommands : Subcommands

abbrev pub subcommands_of : CompletionSubcommand → Subcommands
subcommands_of (spec_of d o s a) = s

abbrev pub options_of : CompletionSubcommand → Option (List CompletionOption)
options_of (spec_of d o s a) = o

abbrev pub description_of : CompletionSubcommand → Option Text
description_of (spec_of d o s a) = d

abbrev pub args_of : CompletionSubcommand → Option CompletionArg
args_of (spec_of d o s a) = a

unfoldable pub find_entry : Text → Entries → Option CompletionSubcommand
find_entry name no_entry = none
find_entry name (entry n sub rest) = if text_eq n name then some sub else find_entry name rest

-- `parent && parent[arg]`
abbrev pub find_sub : Text → Subcommands → Option CompletionSubcommand
find_sub name absent = none
find_sub name (table es) = find_entry name es

-- The loop that resolves nested subcommands: the last one, and the arguments that remain.
pub record Resolved : Type 0 where
  pub current : Option CompletionSubcommand
  pub remaining : List Text

unfoldable pub resolve : Subcommands → Option CompletionSubcommand → List Text → Resolved
resolve parent current [] = record { current = current; remaining = [] }
resolve parent current (arg ∷ args) = elim (find_sub arg parent) [
  | none ↦ record { current = current; remaining = arg ∷ args }
  | some sub ↦ resolve (subcommands_of sub) (some sub) args
]

abbrev pub item_of : Text → CompletionSubcommand → CompletionItem
item_of name sub = record {
  label = name;
  insert_text = name;
  kind = subcommand;
  description = description_of sub;
  favorite = none;
}

abbrev pub option_item : CompletionOption → CompletionItem
option_item o = record {
  label = o.name;
  insert_text = o.name;
  kind = option;
  description = o.description;
  favorite = none;
}

abbrev pub alias_matches : Option Text → Text → Bool
alias_matches none p = false
alias_matches (some a) p = truthy a && starts_with a p

abbrev pub partial_of : Bool → List Text → Text
partial_of has_trailing_space args =
    if has_trailing_space then [] else elim (last args) [ none ↦ [] | some t ↦ t ]

unfoldable pub matching_options : Text → List CompletionOption → List CompletionItem
matching_options lower [] = []
matching_options lower (o ∷ os) =
    let rest = matching_options lower os in
    if starts_with o.name lower || alias_matches o.alias lower then option_item o ∷ rest else rest

abbrev pub option_items : Text → Text → Option (List CompletionOption) → List CompletionItem
option_items typed lower none = []
option_items typed lower (some os) =
    if starts_with typed (45 ∷ []) then matching_options lower os else []

module _ (to_lower : Text → Text) where
  unfoldable pub matching_entries : Text → Entries → List CompletionItem
  matching_entries lower no_entry = []
  matching_entries lower (entry n sub rest) =
      let others = matching_entries lower rest in
      if truthy lower && not (starts_with (to_lower n) lower)
      then others
      else item_of n sub ∷ others

  abbrev pub sub_items : Text → Subcommands → List CompletionItem
  sub_items lower absent = []
  sub_items lower (table es) = matching_entries lower es

  abbrev pub items_of : Text → Subcommands → Option CompletionSubcommand → List CompletionItem
  items_of typed subs none = sub_items (to_lower typed) subs
  items_of typed subs (some c) =
      sub_items (to_lower typed) (subcommands_of c)
      ++ option_items typed (to_lower typed) (options_of c)

  unfoldable pub match_spec : CompletionSpec → List Text → Bool → List CompletionItem
  match_spec spec args has_trailing_space = elim spec.subcommands [
    | absent ↦ []
    | table es ↦
        let r = resolve (table es) none args in
        items_of (partial_of has_trailing_space r.remaining) (table es) r.current
  ]
