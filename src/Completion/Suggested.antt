-- ===== src/Completion/Suggested.antt =====
-- What the history suggests for a command line (src/lib/completionEngine.ts).
use racemo.Base.{
  ℕ, zero, suc, ◌-◌, ◌≤◌, ◌≡◌, refl, sym, ap, inl, inr, Bool, true, false, not, ◌&&◌, ◌||◌, List,
  [], ◌∷◌, ◌++◌, map, arith, ◌==◌, ==_iff, Bool-cases, length, drop, Text, text_eq, text_eq_iff,
  starts_with, text_mem, Distinct,
}
use racemo.History.{HistoryEntry}
use racemo.Completion.{
  CompletionItem, normalized, sort, comes_first, matches, history_item, history_items,
  get_history_completions,
}

and_parts : (a b : Bool) → (a && b) ≡ true → (a ≡ true) × (b ≡ true)
and_parts true b h = (refl, h)
and_parts false b h = cc

not-false : (a : Bool) → not a ≡ true → a ≡ false
not-false a h = ground arith

or_parts : (a b : Bool) → (a || b) ≡ false → (a ≡ false) × (b ≡ false)
or_parts true b h = cc
or_parts false b h = (refl, h)

starts_with-drop : (s t : Text) → starts_with s t ≡ true → t ++ drop (length t) s ≡ s
unfolding starts_with
starts_with-drop s [] h = refl
starts_with-drop [] (b ∷ t) h = cc
starts_with-drop (a ∷ s) (b ∷ t) h =
    let (f, g) = and_parts (a == b) (starts_with s t) h in
    let e : a ≡ b = (==_iff a b).0 f in
    rw (sym e) (ap (λ (x : Text). a ∷ x) (starts_with-drop s t g))

module _ (to_lower : Text → Text) (input : Text) where
  abbrev pub history_key : CompletionItem → Text
  unfolding normalized
  history_key x = normalized (to_lower x.label)

  -- A suggestion goes on with what was typed, but for case, and is more than it. What it inserts makes
  -- it up, when the cases agree.
  abbrev pub IsSuggestion : CompletionItem → Type 0
  IsSuggestion x =
      (starts_with (to_lower x.label) (to_lower input) ≡ true)
      × (text_eq x.label input ≡ false)
      × (starts_with x.label input ≡ true → input ++ x.insert_text ≡ x.label)

  abbrev pub Suggestions : List CompletionItem → Type 0
  Suggestions [] = Unit
  Suggestions (x ∷ xs) = IsSuggestion x × Suggestions xs

  abbrev pub history_keys : List CompletionItem → List Text
  unfolding history_key
  history_keys xs = map history_key xs

  abbrev Fresh : List Text → List Text → Type 0
  Fresh seen [] = Unit
  Fresh seen (k ∷ ks) = (text_mem k seen ≡ false) × Fresh seen ks

  Fresh-cons :
      (k : Text) (seen ks : List Text)
      → Fresh (k ∷ seen) ks
      → Fresh seen ks × (text_mem k ks ≡ false)
  unfolding text_mem
  Fresh-cons k seen [] h = (tt, refl)
  Fresh-cons k seen (j ∷ ks) (h, hs) =
      let (f, g) = Fresh-cons k seen ks hs in
      let (a, b) = or_parts (text_eq k j) (text_mem j seen) h in
      ((b, f), ground (arith, a, g, text_eq_iff j k, text_eq_iff k j))

  matches_lem :
      (e : HistoryEntry) (seen : List Text)
      → matches to_lower input e seen ≡ true
      → IsSuggestion (history_item input e)
        × (text_mem (normalized (to_lower e.command)) seen ≡ false)
  unfolding matches
  matches_lem e seen h =
      let a = starts_with (to_lower e.command) (to_lower input) in
      let b = text_eq e.command input in
      let c = text_mem (normalized (to_lower e.command)) seen in
      let (g, l) = and_parts (a && not b) (not c) h in
      let (f, k) = and_parts a (not b) g in
      ((f, not-false b k, starts_with-drop e.command input), not-false c l)

  abbrev pub AreNew : ℕ → List Text → List CompletionItem → Type 0
  AreNew left seen xs =
      (length xs ≤ left)
      × Suggestions xs
      × Distinct (history_keys xs)
      × Fresh seen (history_keys xs)

  AreNew-cons :
      (left : ℕ) (seen : List Text) (e : HistoryEntry) (xs : List CompletionItem)
      → matches to_lower input e seen ≡ true
      → AreNew left (normalized (to_lower e.command) ∷ seen) xs
      → AreNew (suc left) seen (history_item input e ∷ xs)
  unfolding history_keys history_key
  AreNew-cons left seen e xs m (a, b, c, d) =
      let (f, g) = matches_lem e seen m in
      let (x, y) = Fresh-cons (normalized (to_lower e.command)) seen (history_keys xs) d in
      (omega arith, (f, b), (y, c), (g, x))

  history_items-AreNew :
      (left : ℕ) (seen : List Text) (es : List HistoryEntry)
      → AreNew left seen (history_items to_lower input left seen es)
  unfolding history_items history_keys history_key
  history_items-AreNew left seen [] = (omega arith, tt, tt, tt)
  history_items-AreNew zero seen (e ∷ es) = (omega arith, tt, tt, tt)
  history_items-AreNew (suc left) seen (e ∷ es) =
      let z : (suc left == 0) ≡ false = ground arith in
      let o : suc left - 1 ≡ left = omega arith in
      elim (Bool-cases (matches to_lower input e seen)) [
        | inl m ↦
            rw (z, m, o)
              (AreNew-cons left seen e _ m
                (history_items-AreNew left (normalized (to_lower e.command) ∷ seen) es))
        | inr m ↦ rw (z, m) (history_items-AreNew (suc left) seen es)
      ]

  -- The history suggests at most the number that is set; no two suggestions are the same command but
  -- for case and space; each goes on with what was typed, but for case, and is not just that; and if the
  -- cases agree, what is typed and what is inserted make up the command.
  pub get_history_completions-AreNew :
      (max_count : ℕ) (entries : List HistoryEntry)
      → let xs = get_history_completions to_lower input max_count entries in
        (length xs ≤ max_count) × Suggestions xs × Distinct (history_keys xs)
  unfolding get_history_completions
  get_history_completions-AreNew max_count entries =
      let (a, b, c, d) = history_items-AreNew max_count [] (sort comes_first entries) in (a, b, c)
