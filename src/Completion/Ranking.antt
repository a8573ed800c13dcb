-- ===== src/Completion/Ranking.antt =====
-- The ranking of the completions of a command line (src/lib/completionEngine.ts).
use racemo.Base.{
  ℕ, ◌≤◌, ◌≡◌, refl, sym, ap, ◌∙◌, inl, inr, Bool, true, false, not, ◌||◌, Option, List, [], ◌∷◌,
  ◌++◌, map, arith, Bool-cases, length, length-take, Text, text_eq, text_eq_refl, text_eq_sound,
  text_eq_iff, truthy, trim_start, Dict, keep, text_mem, map-take, Distinct, take-Distinct,
}
use racemo.History.{HistoryEntry}
use racemo.Completion.{CompletionItem, tokenize, insert_sorted, sort}
use racemo.Completion.Specs.{CompletionSpec}
use racemo.Completion.Engine.{
  DirEntry, dedupe, is_exact, exact_first, item_key, candidates, rank, for_tokens, last_token,
  get_completions,
}

module _ (key : CompletionItem → Text) where
  abbrev keys_of : List CompletionItem → List Text
  keys_of xs = map key xs

  text_mem-dedupe :
      (q : Text) (seen : List Text) (xs : List CompletionItem)
      → text_mem q seen ≡ true
      → text_mem q (keys_of (dedupe key seen xs)) ≡ false
  unfolding dedupe text_mem
  text_mem-dedupe q seen [] h = refl
  text_mem-dedupe q seen (x ∷ xs) h = elim (Bool-cases (text_mem (key x) seen)) [
    | inl e ↦ rw e (text_mem-dedupe q seen xs h)
    | inr e ↦
        let r = text_mem-dedupe q (key x ∷ seen) xs (ground arith) in
        rw e (
          other (text_eq (key x) q) _
            (λ f.
              let g : text_mem (key x) seen ≡ true = rw (text_eq_sound (key x) q f) h in sym g ∙ e)
            r)
  ]
    where
      other : (a b : Bool) → (a ≡ true → true ≡ false) → b ≡ false → (a || b) ≡ false
      other true b h e = h refl
      other false b h e = e

  dedupe-Distinct :
      (seen : List Text) (xs : List CompletionItem) → Distinct (keys_of (dedupe key seen xs))
  unfolding dedupe text_mem
  dedupe-Distinct seen [] = tt
  dedupe-Distinct seen (x ∷ xs) = elim (Bool-cases (text_mem (key x) seen)) [
    | inl e ↦ rw e (dedupe-Distinct seen xs)
    | inr e ↦ rw e (
      text_mem-dedupe (key x) (key x ∷ seen) xs (ground (arith, text_eq_refl (key x))),
      dedupe-Distinct (key x ∷ seen) xs,
    )
  ]

  module _ (before : CompletionItem → CompletionItem → Bool) where
    text_mem-insert_sorted :
        (q : Text) (x : CompletionItem) (ys : List CompletionItem)
        → text_mem q (keys_of (insert_sorted before x ys))
          ≡ (text_eq (key x) q || text_mem q (keys_of ys))
    unfolding insert_sorted text_mem
    text_mem-insert_sorted q x [] = refl
    text_mem-insert_sorted q x (y ∷ ys) = elim (Bool-cases (before x y)) [
      | inl e ↦ rw e refl
      | inr e ↦ rw e (ground (arith, text_mem-insert_sorted q x ys))
    ]

    insert_sorted-Distinct :
        (x : CompletionItem) (ys : List CompletionItem)
        → text_mem (key x) (keys_of ys) ≡ false
        → Distinct (keys_of ys)
        → Distinct (keys_of (insert_sorted before x ys))
    unfolding insert_sorted text_mem
    insert_sorted-Distinct x [] h d = (refl, tt)
    insert_sorted-Distinct x (y ∷ ys) h (e, d) = elim (Bool-cases (before x y)) [
      | inl f ↦ rw f (h, (e, d))
      | inr f ↦ rw f (
        text_mem-insert_sorted (key y) x ys
            ∙ ground (arith, h, e, text_eq_iff (key x) (key y), text_eq_iff (key y) (key x)),
        insert_sorted-Distinct x ys (ground (arith, h)) d,
      )
    ]

    text_mem-sort :
        (q : Text) (xs : List CompletionItem)
        → text_mem q (keys_of (sort before xs)) ≡ text_mem q (keys_of xs)
    unfolding sort text_mem
    text_mem-sort q [] = refl
    text_mem-sort q (x ∷ xs) =
        text_mem-insert_sorted q x (sort before xs)
        ∙ ap (λ b. text_eq (key x) q || b) (text_mem-sort q xs)

    sort-Distinct :
        (xs : List CompletionItem) → Distinct (keys_of xs) → Distinct (keys_of (sort before xs))
    unfolding sort
    sort-Distinct [] d = tt
    sort-Distinct (x ∷ xs) (e, d) =
        insert_sorted-Distinct x (sort before xs) (text_mem-sort (key x) xs ∙ e)
          (sort-Distinct xs d)

-- The stable sort puts the exact ones first and keeps the order among them and among the others.
insert_exact :
    (token : Text) (x : CompletionItem) (ys : List CompletionItem)
    → is_exact token x ≡ true
    → insert_sorted (exact_first token) x ys ≡ x ∷ ys
unfolding insert_sorted
insert_exact token x [] h = refl
insert_exact token x (y ∷ ys) h = rw h

abbrev exact : Text → List CompletionItem → List CompletionItem
exact token xs = keep (is_exact token) xs

abbrev inexact : Text → List CompletionItem → List CompletionItem
inexact token xs = keep (λ (x : CompletionItem). not (is_exact token x)) xs

insert_inexact :
    (token : Text) (x : CompletionItem) (ys : List CompletionItem)
    → is_exact token x ≡ false
    → insert_sorted (exact_first token) x (inexact token ys) ≡ x ∷ inexact token ys
unfolding insert_sorted keep
insert_inexact token x [] h = refl
insert_inexact token x (y ∷ ys) h = elim (Bool-cases (is_exact token y)) [
  | inl e ↦ rw e (insert_inexact token x ys h)
  | inr e ↦ rw e (rw (h, e) refl)
]

insert_past :
    (token : Text) (x : CompletionItem) (ys zs : List CompletionItem)
    → is_exact token x ≡ false
    → insert_sorted (exact_first token) x (exact token ys ++ zs)
      ≡ exact token ys ++ insert_sorted (exact_first token) x zs
unfolding insert_sorted keep
insert_past token x [] zs h = refl
insert_past token x (y ∷ ys) zs h = elim (Bool-cases (is_exact token y)) [
  | inl e ↦ rw e (rw (h, e) (ap (λ (l : List CompletionItem). y ∷ l) (insert_past token x ys zs h)))
  | inr e ↦ rw e (insert_past token x ys zs h)
]

-- Sorting the completions by the comparator is to take those that begin with the last token, and then
-- the others, each in the order in which they were found.
pub sort-exact_first :
    (token : Text) (xs : List CompletionItem)
    → sort (exact_first token) xs
      ≡ keep (is_exact token) xs ++ keep (λ (x : CompletionItem). not (is_exact token x)) xs
unfolding sort keep
sort-exact_first token [] = refl
sort-exact_first token (x ∷ xs) = elim (Bool-cases (is_exact token x)) [
  | inl e ↦ rw e (
      insert_exact token x (sort (exact_first token) xs) e
      ∙ ap (λ (l : List CompletionItem). x ∷ l) (sort-exact_first token xs))
  | inr e ↦ rw e (
      ap (insert_sorted (exact_first token) x) (sort-exact_first token xs)
      ∙ insert_past token x xs (inexact token xs) e
      ∙ ap (λ (l : List CompletionItem). exact token xs ++ l) (insert_inexact token x xs e))
]

module _ (to_lower : Text → Text) where
  -- A list of completions that may be shown.
  abbrev pub IsShort : List CompletionItem → Type 0
  IsShort xs = (length xs ≤ 8) × Distinct (map (item_key to_lower) xs)

  rank-IsShort : (token : Text) (xs : List CompletionItem) → IsShort (rank to_lower token xs)
  unfolding rank
  rank-IsShort token xs =
      let key = item_key to_lower in
      let ys = sort (exact_first token) (dedupe key [] xs) in
      let d : Distinct (map key ys) =
        sort-Distinct key (exact_first token) (dedupe key [] xs) (dedupe-Distinct key [] xs) in
      (omega (arith, length-take 8 ys), rw (map-take key 8 ys) (take-Distinct 8 (map key ys) d))

  module _ (specs : Dict CompletionSpec) (entries : List HistoryEntry) (max_count : ℕ)
      (list : Text → Text → Option (List DirEntry)) where
    -- At most eight completions are offered, and no two of one kind have the same label but for case
    -- and space.
    pub get_completions-IsShort :
        (input cwd : Text)
        → IsShort (get_completions to_lower specs entries max_count list input cwd)
    unfolding get_completions
    get_completions-IsShort input cwd = elim (Bool-cases (truthy (trim_start input))) [
      | inl e ↦ rw e (go (tokenize (trim_start input)))
      | inr e ↦ rw e (omega arith, tt)
    ]
      where
        go :
            (ts : List Text)
            → IsShort (for_tokens to_lower specs entries max_count list input cwd ts)
        go [] = (omega arith, tt)
        go (tool ∷ args) =
            rank-IsShort (last_token (tool ∷ args))
              (candidates to_lower specs entries max_count list input cwd tool args)
