-- ===== src/Completion/Engine.antt =====
-- The completions of a command line, from a tool's specification, the history and the directory
-- (src/lib/completionEngine.ts). `specs` are the specifications that are loaded, and `list` is the
-- backend's `list_directory_filtered`, of this machine or of a remote one; `none` is that it fails.
use racemo.Base.{
  ℕ, not, ◌&&◌, ◌||◌, Bool, true, false, Option, none, some, List, [], ◌∷◌, ◌++◌, map, leb, ◌==◌,
  if◌then◌else◌, Text, codes, text_eq, truthy, starts_with, trim_start, length, take, text_mem,
  last, Dict, dict_get,
}
use racemo.History.{HistoryEntry}
use racemo.Completion.{
  Kind, file, directory, command, subcommand, option, argument, history, envvar, CompletionItem,
  tokenize, normalized, sort, get_history_completions,
}
use racemo.Completion.Specs.{
  filepaths, directories, history_template, CompletionSubcommand, CompletionSpec, CompletionArg,
  find_sub, args_of, match_spec,
}

unfoldable pub path_commands : List Text
path_commands =
    codes "cd"
    ∷ codes "ls"
    ∷ codes "ll"
    ∷ codes "cat"
    ∷ codes "less"
    ∷ codes "more"
    ∷ codes "head"
    ∷ codes "tail"
    ∷ codes "vim"
    ∷ codes "vi"
    ∷ codes "nvim"
    ∷ codes "nano"
    ∷ codes "code"
    ∷ codes "subl"
    ∷ codes "open"
    ∷ codes "cp"
    ∷ codes "mv"
    ∷ codes "rm"
    ∷ codes "mkdir"
    ∷ codes "rmdir"
    ∷ codes "touch"
    ∷ codes "chmod"
    ∷ codes "chown"
    ∷ codes "source"
    ∷ codes "."
    ∷ codes "bat"
    ∷ codes "find"
    ∷ codes "tree"
    ∷ codes "du"
    ∷ codes "df"
    ∷ codes "tar"
    ∷ codes "zip"
    ∷ codes "unzip"
    ∷ codes "gzip"
    ∷ codes "gunzip"
    ∷ codes "scp"
    ∷ codes "rsync"
    ∷ []

abbrev pub wants_files : Option CompletionArg → Bool
wants_files none = false
wants_files (some a) = elim a.template [
  | none ↦ false
  | some t ↦ elim t [ filepaths ↦ true | directories ↦ false | history_template ↦ false ]
]

abbrev pub sub_wants_files : Option CompletionSubcommand → Bool
sub_wants_files none = false
sub_wants_files (some s) = wants_files (args_of s)

abbrev pub is_path : Text → Bool
is_path t = starts_with t (codes "./") || starts_with t (codes "/") || starts_with t (codes "~")

-- A command with no further token.
abbrev pub alone_does_path : Text → Bool → Bool
unfolding path_commands
alone_does_path cmd has_trailing_space = has_trailing_space && text_mem cmd path_commands

unfoldable pub should_do_path_completion : List Text → Text → Option CompletionSpec → Bool → Bool
unfolding path_commands
should_do_path_completion [] path_token spec has_trailing_space = is_path path_token
should_do_path_completion (cmd ∷ []) path_token spec has_trailing_space =
    alone_does_path cmd has_trailing_space
should_do_path_completion (cmd ∷ arg ∷ args) path_token spec has_trailing_space =
    is_path path_token || elim spec [
      | none ↦ text_mem cmd path_commands
      | some s ↦ sub_wants_files (find_sub arg s.subcommands)
    ]

-- The two sides of the last slash; the slash stays on the left one. `none` is that there is none.
unfoldable pub split_slash : Text → Option (Text × Text)
split_slash [] = none
split_slash (c ∷ s) = elim (split_slash s) [
  | some (a, b) ↦ some (c ∷ a, b)
  | none ↦ if c == 47 then some (c ∷ [], s) else none
]

pub record DirEntry : Type 0 where
  pub name : Text
  pub kind : Text

-- The directory that is listed, and what its entries begin with.
unfoldable pub target : Text → Text → Text × Text
target typed cwd = elim (split_slash typed) [
  | none ↦ (cwd, typed)
  | some (dir_part, file_partial) ↦
      if starts_with dir_part (codes "/") || starts_with dir_part (codes "~/")
      then (dir_part, file_partial)
      else (cwd ++ 47 ∷ dir_part, file_partial)
]

abbrev pub path_item : DirEntry → CompletionItem
path_item e =
    let is_dir = text_eq e.kind (codes "dir") in
    let text : Text = if is_dir then e.name ++ 47 ∷ [] else e.name in
    record {
      label = text;
      insert_text = text;
      kind = if is_dir then directory else file;
      description = none;
      favorite = none;
    }

abbrev pub path_items : Option (List DirEntry) → List CompletionItem
path_items none = []
path_items (some es) = map path_item es

unfoldable pub get_path_completions :
    (Text → Text → Option (List DirEntry)) → Text → Text → List CompletionItem
get_path_completions list typed cwd =
    let (dir, file_partial) = target typed cwd in path_items (list dir file_partial)

abbrev pub kind_text : Kind → Text
kind_text file = codes "file"
kind_text directory = codes "directory"
kind_text command = codes "command"
kind_text subcommand = codes "subcommand"
kind_text option = codes "option"
kind_text argument = codes "argument"
kind_text history = codes "history"
kind_text envvar = codes "envvar"

-- The items whose key was not seen before.
module _ (key : CompletionItem → Text) where
  unfoldable pub dedupe : List Text → List CompletionItem → List CompletionItem
  dedupe seen [] = []
  dedupe seen (x ∷ xs) =
      let old = text_mem (key x) seen in
      let rest = dedupe (if old then seen else key x ∷ seen) xs in if old then rest else x ∷ rest

abbrev pub is_exact : Text → CompletionItem → Bool
is_exact token x = starts_with x.label token

-- The comparator of the last sort is not positive.
abbrev pub exact_first : Text → CompletionItem → CompletionItem → Bool
exact_first token a b = is_exact token a || not (is_exact token b)

abbrev pub is_empty {ℓ} : {A : Type ℓ} → List A → Bool
is_empty [] = true
is_empty (_ ∷ _) = false

abbrev pub ends_with_space : Text → Bool
ends_with_space t = elim (last t) [ none ↦ false | some c ↦ c == 32 ]

abbrev pub last_token : List Text → Text
last_token ts = elim (last ts) [ none ↦ [] | some t ↦ t ]

module _ (to_lower : Text → Text) where
  unfoldable pub item_key : CompletionItem → Text
  unfolding normalized
  item_key x = kind_text x.kind ++ 58 ∷ normalized (to_lower x.label)

  unfoldable pub rank : Text → List CompletionItem → List CompletionItem
  rank token items = take 8 (sort (exact_first token) (dedupe item_key [] items))

module _ (to_lower : Text → Text) (specs : Dict CompletionSpec) (entries : List HistoryEntry)
    (max_count : ℕ) (list : Text → Text → Option (List DirEntry)) where
  abbrev pub cli_items : Option CompletionSpec → List Text → Bool → Bool → List CompletionItem
  cli_items none args first space = []
  cli_items (some spec) args first space = if first then [] else match_spec to_lower spec args space

  -- What is offered before it is ranked, for the tool and the arguments of the line.
  unfoldable pub candidates : Text → Text → Text → List Text → List CompletionItem
  candidates input cwd tool args =
      let space = ends_with_space input in
      let spec = dict_get tool specs in
      let first = is_empty args && not space in
      let line = trim_start input in
      let known =
        cli_items spec args first space
        ++ (if leb 2 (length line)
            then get_history_completions to_lower line max_count entries
            else []) in
      let path_token : Text = if space then [] else last_token (tool ∷ args) in
      let skip = space && not (is_empty known) in
      known
      ++ (if not skip && should_do_path_completion (tool ∷ args) path_token spec space
          then get_path_completions list path_token cwd
          else [])

  abbrev pub for_tokens : Text → Text → List Text → List CompletionItem
  for_tokens input cwd [] = []
  for_tokens input cwd (tool ∷ args) =
      rank to_lower (last_token (tool ∷ args)) (candidates input cwd tool args)

  unfoldable pub get_completions : Text → Text → List CompletionItem
  unfolding tokenize
  get_completions input cwd =
      if truthy (trim_start input) then for_tokens input cwd (tokenize (trim_start input)) else []
