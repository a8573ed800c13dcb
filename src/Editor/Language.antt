-- ===== src/Editor/Language.antt =====
-- The language of a file by its name (`detectLanguage` of src/stores/editorStore.ts).
use racemo.Base.{
  Bool, ◌||◌, none, some, [], ◌∷◌, reverse, if◌then◌else◌, Text, codes, text_eq, starts_with, split,
  Dict, dict_get, dict_get_or, last,
}

unfoldable pub ends_with : Text → Text → Bool
ends_with s t = starts_with (reverse s) (reverse t)

-- The object `map` of the function. Names that every object inherits, such as `constructor`, are
-- not own keys and are left out of the model.
pub languages : Dict Text
languages =
    (codes "md", codes "markdown")
    ∷ (codes "mdx", codes "markdown")
    ∷ (codes "js", codes "javascript")
    ∷ (codes "jsx", codes "javascript")
    ∷ (codes "mjs", codes "javascript")
    ∷ (codes "cjs", codes "javascript")
    ∷ (codes "ts", codes "typescript")
    ∷ (codes "tsx", codes "typescript")
    ∷ (codes "mts", codes "typescript")
    ∷ (codes "cts", codes "typescript")
    ∷ (codes "json", codes "json")
    ∷ (codes "jsonc", codes "json")
    ∷ (codes "rs", codes "rust")
    ∷ (codes "css", codes "css")
    ∷ (codes "scss", codes "css")
    ∷ (codes "less", codes "css")
    ∷ (codes "html", codes "html")
    ∷ (codes "htm", codes "html")
    ∷ (codes "svg", codes "html")
    ∷ (codes "toml", codes "toml")
    ∷ (codes "yaml", codes "yaml")
    ∷ (codes "yml", codes "yaml")
    ∷ (codes "sh", codes "shell")
    ∷ (codes "bash", codes "shell")
    ∷ (codes "zsh", codes "shell")
    ∷ (codes "fish", codes "shell")
    ∷ (codes "ps1", codes "powershell")
    ∷ (codes "psm1", codes "powershell")
    ∷ (codes "psd1", codes "powershell")
    ∷ (codes "bat", codes "shell")
    ∷ (codes "cmd", codes "shell")
    ∷ (codes "py", codes "python")
    ∷ (codes "pyw", codes "python")
    ∷ (codes "go", codes "go")
    ∷ (codes "cpp", codes "cpp")
    ∷ (codes "cc", codes "cpp")
    ∷ (codes "cxx", codes "cpp")
    ∷ (codes "c", codes "cpp")
    ∷ (codes "h", codes "cpp")
    ∷ (codes "hpp", codes "cpp")
    ∷ (codes "hh", codes "cpp")
    ∷ (codes "hxx", codes "cpp")
    ∷ (codes "java", codes "java")
    ∷ (codes "kt", codes "kotlin")
    ∷ (codes "kts", codes "kotlin")
    ∷ (codes "scala", codes "scala")
    ∷ (codes "sc", codes "scala")
    ∷ (codes "dart", codes "dart")
    ∷ (codes "rb", codes "ruby")
    ∷ (codes "rake", codes "ruby")
    ∷ (codes "gemspec", codes "ruby")
    ∷ (codes "swift", codes "swift")
    ∷ (codes "lua", codes "lua")
    ∷ (codes "pl", codes "perl")
    ∷ (codes "pm", codes "perl")
    ∷ (codes "r", codes "r")
    ∷ (codes "groovy", codes "groovy")
    ∷ (codes "gradle", codes "groovy")
    ∷ (codes "sql", codes "sql")
    ∷ (codes "xml", codes "xml")
    ∷ (codes "plist", codes "xml")
    ∷ (codes "xsl", codes "xml")
    ∷ (codes "xslt", codes "xml")
    ∷ (codes "php", codes "php")
    ∷ (codes "phtml", codes "php")
    ∷ (codes "cs", codes "csharp")
    ∷ (codes "vb", codes "vb")
    ∷ (codes "fs", codes "fsharp")
    ∷ (codes "fsi", codes "fsharp")
    ∷ (codes "fsx", codes "fsharp")
    ∷ (codes "ml", codes "ocaml")
    ∷ (codes "mli", codes "ocaml")
    ∷ (codes "hs", codes "haskell")
    ∷ (codes "lhs", codes "haskell")
    ∷ (codes "erl", codes "erlang")
    ∷ (codes "hrl", codes "erlang")
    ∷ (codes "ex", codes "elixir")
    ∷ (codes "exs", codes "elixir")
    ∷ (codes "clj", codes "clojure")
    ∷ (codes "cljs", codes "clojure")
    ∷ (codes "cljc", codes "clojure")
    ∷ (codes "edn", codes "clojure")
    ∷ (codes "jl", codes "julia")
    ∷ (codes "elm", codes "elm")
    ∷ (codes "cr", codes "crystal")
    ∷ (codes "tf", codes "hcl")
    ∷ (codes "tfvars", codes "hcl")
    ∷ (codes "proto", codes "protobuf")
    ∷ (codes "nginx", codes "nginx")
    ∷ (codes "conf", codes "nginx")
    ∷ (codes "coffee", codes "coffeescript")
    ∷ (codes "sass", codes "sass")
    ∷ (codes "vue", codes "vue")
    ∷ (codes "svelte", codes "html")
    ∷ (codes "env", codes "shell")
    ∷ (codes "ini", codes "properties")
    ∷ (codes "properties", codes "properties")
    ∷ (codes "makefile", codes "shell")
    ∷ (codes "mk", codes "shell")
    ∷ []

special_names : Dict Text
special_names =
    (codes "dockerfile", codes "dockerfile")
    ∷ (codes "makefile", codes "shell")
    ∷ (codes "gnumakefile", codes "shell")
    ∷ (codes "rakefile", codes "ruby")
    ∷ (codes "gemfile", codes "ruby")
    ∷ (codes "guardfile", codes "ruby")
    ∷ (codes "vagrantfile", codes "ruby")
    ∷ (codes "podfile", codes "ruby")
    ∷ (codes "cmakelists.txt", codes "cmake")
    ∷ []

-- `lower.split(".").pop()`
pub extension : Text → Text
extension lower = elim (last (split b'.' lower)) [ none ↦ [] | some e ↦ e ]

-- The tests on the lower-case name, in the order of the source.
pub language_of : Text → Text
unfolding special_names
language_of lower = elim (dict_get lower special_names) [
  | some l ↦ l
  | none ↦
      if text_eq lower (codes ".env") || starts_with lower (codes ".env.")
      then codes "shell"
      else if text_eq lower (codes "nginx.conf") || ends_with lower (codes "/nginx.conf")
      then codes "nginx"
      else dict_get_or (extension lower) (codes "text") languages
]

-- `toLowerCase` is the standard library's: a parameter.
unfoldable pub detect_language : (Text → Text) → Text → Text
detect_language to_lower_case name = language_of (to_lower_case name)
