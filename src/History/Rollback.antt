-- ===== src/History/Rollback.antt =====
-- A deletion that the backend refuses.
use mathlib.Core.List.{append-nil}
use racemo.Base.{
  ◌+◌, ◌≤◌, ◌≡◌, refl, ap, ◌∙◌, inl, inr, Bool, true, false, not, some, List, [], ◌∷◌, ◌++◌, arith,
  Bool-cases, length, Text, text_eq, text_eq_refl, keep, some_of, text_mem,
}
use racemo.History.{
  HistoryEntry, HistoryStore, normalize, entry_key, begin_delete, finish_delete, add_live_entry,
}

keep-append :
    (p : HistoryEntry → Bool) (xs ys : List HistoryEntry)
    → keep p (xs ++ ys) ≡ keep p xs ++ keep p ys
unfolding keep
keep-append p [] ys = refl
keep-append p (x ∷ xs) ys = ground (arith, keep-append p xs ys)

keep-keep : (p : HistoryEntry → Bool) (xs : List HistoryEntry) → keep p (keep p xs) ≡ keep p xs
unfolding keep
keep-keep p [] = refl
keep-keep p (x ∷ xs) = elim (Bool-cases (p x)) [
  | inl e ↦ rw (e, e, keep) (ap (x ∷◌) (keep-keep p xs))
  | inr e ↦ rw (e, keep) (keep-keep p xs)
]

keep-keep_opposite :
    (p q : HistoryEntry → Bool) (xs : List HistoryEntry)
    → ((x : HistoryEntry) → p x ≡ not (q x))
    → keep p (keep q xs) ≡ []
unfolding keep
keep-keep_opposite p q [] h = refl
keep-keep_opposite p q (x ∷ xs) h = elim (Bool-cases (q x)) [
  | inl e ↦ let n : p x ≡ false = h x ∙ ap not e in rw (e, n, keep) (keep-keep_opposite p q xs h)
  | inr e ↦ rw (e, keep) (keep-keep_opposite p q xs h)
]

length-keep-append :
    (p : HistoryEntry → Bool) (xs ys : List HistoryEntry)
    → length (keep p (xs ++ ys)) ≡ length (keep p xs) + length (keep p ys)
unfolding keep
length-keep-append p [] ys = omega arith
length-keep-append p (x ∷ xs) ys = ground (arith, length-keep-append p xs ys)

length-keep_pos :
    (p : HistoryEntry → Bool) (xs : List HistoryEntry)
    → some_of p xs ≡ true
    → 1 ≤ length (keep p xs)
unfolding keep some_of
length-keep_pos p [] h = cc
length-keep_pos p (x ∷ xs) h = ground (arith, length-keep_pos p xs)

length-keep_one :
    (p : HistoryEntry → Bool) (x : HistoryEntry) → p x ≡ true → length (keep p (x ∷ [])) ≡ 1
unfolding keep
length-keep_one p x h = rw h

-- Entries that are split by a test and put together again, as the test tells them apart.
keep-split :
    (p : HistoryEntry → Bool) (es : List HistoryEntry)
    → let r = keep (λ e. not (p e)) es ++ keep p es in
      (keep (λ e. not (p e)) r ≡ keep (λ e. not (p e)) es) × (keep p r ≡ keep p es)
keep-split p es = (
  keep-append (λ e. not (p e)) (keep (λ e. not (p e)) es) (keep p es)
      ∙ ap (◌++ keep (λ e. not (p e)) (keep p es)) (keep-keep (λ e. not (p e)) es)
      ∙ ap (keep (λ e. not (p e)) es ++◌) (keep-keep_opposite (λ e. not (p e)) p es (λ x. refl))
      ∙ append-nil _,
  keep-append p (keep (λ e. not (p e)) es) (keep p es)
      ∙ ap (◌++ keep p (keep p es)) (keep-keep_opposite p (λ e. not (p e)) es (λ x. ground arith))
      ∙ keep-keep p es,
)

-- If the backend refuses to delete a command before any other operation, the entries of this command
-- are in the history again, as they were and in their order, and so are all other entries; only the
-- place of the former among the latter may have changed. Nothing else of the store has changed.
pub finish_delete-begin_delete :
    (to_lower : Text → Text) (c : Text) (s : HistoryStore)
    → let (s', removed) = begin_delete to_lower c s in
      let same = λ (e : HistoryEntry). text_eq (entry_key to_lower e) (normalize to_lower c) in
      let r = finish_delete false removed s' in
      (keep (λ e. not (same e)) r.entries ≡ keep (λ e. not (same e)) s.entries)
      × (keep same r.entries ≡ keep same s.entries)
      × (record r { entries = s.entries } ≡ s)
unfolding begin_delete finish_delete
finish_delete-begin_delete to_lower c s =
    let (a, b) =
      keep-split (λ e. text_eq (entry_key to_lower e) (normalize to_lower c)) s.entries in
    (a, b, refl)

-- If the command is run again before the backend refuses to delete it, it stands in the history
-- twice.
pub rollback_race :
    (to_lower : Text → Text) (x : HistoryEntry) (c : Text) (s : HistoryStore)
    → normalize to_lower x.command ≡ normalize to_lower c
    → some_of
        (λ (e : HistoryEntry). text_eq (entry_key to_lower e) (normalize to_lower c))
        s.entries
      ≡ true
    → let (s', removed) = begin_delete to_lower c s in
      let again = finish_delete false removed (add_live_entry to_lower x s') in
      2
      ≤ length (
          keep
            (λ (e : HistoryEntry). text_eq (entry_key to_lower e) (normalize to_lower c))
            again.entries)
unfolding begin_delete finish_delete add_live_entry
rollback_race to_lower x c s q h =
    let same : HistoryEntry → Bool = λ e. text_eq (entry_key to_lower e) (normalize to_lower c) in
    let x' : HistoryEntry = record x { favorite = some (text_mem x.command s.favorites) } in
    let xs =
      keep
        (λ (e : HistoryEntry). not (text_eq (entry_key to_lower e) (normalize to_lower x.command)))
        (keep (λ e. not (same e)) s.entries) in
    omega (
      arith,
      length-keep-append same (xs ++ x' ∷ []) (keep same s.entries),
      length-keep-append same xs (x' ∷ []),
      length-keep_one same x' (rw q (text_eq_refl (normalize to_lower c))),
      ap length (keep-keep same s.entries),
      length-keep_pos same s.entries h,
    )
