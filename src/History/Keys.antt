-- ===== src/History/Keys.antt =====
-- One entry to a command, and the marks of the favorites, in every operation of the history.
use mathlib.Core.List.{map-append}
use racemo.Base.{
  ◌≡◌, refl, ◌∙◌, inl, inr, Bool, true, false, not, ◌&&◌, ◌||◌, Option, none, some, List, [], ◌∷◌,
  ◌++◌, map, arith, Bool-cases, Text, text_eq, text_eq_refl, text_eq_sound, text_eq_iff, Dict,
  dict_get, dict_set, keep, text_mem, Distinct, text_mem-append, snoc-Distinct,
}
use racemo.History.{
  HistoryEntry, RawHistoryItem, HistoryStore, to_set, values, is_newer, loaded_entry, with_favorite,
  normalize, entry_key, seen_item, seen_items, finish_load, add_live_entry, begin_delete,
  finish_delete, clear_all, finish_toggle,
}
use racemo.History.Marks.{
  Agrees, Agrees-keep, Agrees-snoc, Agrees-added, Agrees-removed, Agrees-dict_set, Agrees-append,
}

append-Distinct :
    (xs ys : List Text)
    → Distinct xs
    → Distinct ys
    → ((t : Text) → text_mem t ys ≡ true → text_mem t xs ≡ false)
    → Distinct (xs ++ ys)
unfolding text_mem
append-Distinct [] ys d e f = e
append-Distinct (x ∷ xs) ys (m, d) e f = (
  ground (arith, text_mem-append x xs ys, f x, text_eq_refl x),
  append-Distinct xs ys d e (λ t h. ground (arith, f t h)),
)

module _ (to_lower : Text → Text) where
  abbrev keys : List HistoryEntry → List Text
  keys es = map (entry_key to_lower) es

  -- No two entries are the same command up to case and white space, and the marks agree.
  pub record IsValid (s : HistoryStore) : Type 0 where
    pub distinct : Distinct (keys s.entries)
    pub agrees : Agrees s.favorites s.entries

  text_mem-keep_other :
      (u t : Text) (es : List HistoryEntry)
      → text_mem u (keys (keep (λ (e : HistoryEntry). not (text_eq (entry_key to_lower e) t)) es))
        ≡ (not (text_eq u t) && text_mem u (keys es))
  unfolding keep text_mem
  text_mem-keep_other u t [] = ground arith
  text_mem-keep_other u t (e ∷ es) = ground (
    arith,
    text_eq_iff (entry_key to_lower e) t,
    text_eq_iff (entry_key to_lower e) u,
    text_eq_iff u t,
    text_mem-keep_other u t es,
  )

  text_mem-keep_same :
      (u t : Text) (es : List HistoryEntry)
      → text_mem u (keys (keep (λ (e : HistoryEntry). text_eq (entry_key to_lower e) t) es))
        ≡ (text_eq u t && text_mem u (keys es))
  unfolding keep text_mem
  text_mem-keep_same u t [] = ground arith
  text_mem-keep_same u t (e ∷ es) = ground (
    arith,
    text_eq_iff (entry_key to_lower e) t,
    text_eq_iff (entry_key to_lower e) u,
    text_eq_iff u t,
    text_mem-keep_same u t es,
  )

  text_mem-keep :
      (p : HistoryEntry → Bool) (u : Text) (es : List HistoryEntry)
      → text_mem u (keys es) ≡ false
      → text_mem u (keys (keep p es)) ≡ false
  unfolding keep text_mem
  text_mem-keep p u [] h = h
  text_mem-keep p u (e ∷ es) h = ground (arith, text_mem-keep p u es)

  keep-Distinct :
      (p : HistoryEntry → Bool) (es : List HistoryEntry)
      → Distinct (keys es)
      → Distinct (keys (keep p es))
  unfolding keep
  keep-Distinct p [] d = d
  keep-Distinct p (e ∷ es) (m, d) = elim (Bool-cases (p e)) [
    | inl q ↦ rw q (text_mem-keep p (entry_key to_lower e) es m, keep-Distinct p es d)
    | inr q ↦ rw q (keep-Distinct p es d)
  ]

  add_live_entry-IsValid :
      (x : HistoryEntry) (s : HistoryStore) → IsValid s → IsValid (add_live_entry to_lower x s)
  unfolding add_live_entry
  add_live_entry-IsValid x s v =
      let k = normalize to_lower x.command in
      record {
        distinct = rw map-append (
            snoc-Distinct _ k (keep-Distinct _ s.entries v.distinct)
              (text_mem-keep_other k k s.entries ∙ ground (arith, text_eq_refl k)));
        agrees = Agrees-snoc s.favorites _ _ (Agrees-keep _ s.favorites s.entries v.agrees) refl;
      }

  keys-with_favorite :
      (c : Text) (b : Bool) (es : List HistoryEntry) → keys (map (with_favorite c b) es) ≡ keys es
  keys-with_favorite c b [] = refl
  keys-with_favorite c b (e ∷ es) = ground (arith, keys-with_favorite c b es)

  -- What `loadFromFile` collects: each entry stands under its key, and the keys differ.
  abbrev dict_keys : Dict HistoryEntry → List Text
  dict_keys [] = []
  dict_keys ((k, e) ∷ m) = k ∷ dict_keys m

  abbrev IsKeyed : Dict HistoryEntry → Type 0
  IsKeyed [] = Unit
  IsKeyed ((k, e) ∷ m) = (entry_key to_lower e ≡ k) × (text_mem k (dict_keys m) ≡ false) × IsKeyed m

  text_mem-dict_keys :
      (j k : Text) (e : HistoryEntry) (m : Dict HistoryEntry)
      → text_mem j (dict_keys (dict_set k e m)) ≡ (text_eq k j || text_mem j (dict_keys m))
  unfolding dict_set text_mem
  text_mem-dict_keys j k e [] = refl
  text_mem-dict_keys j k e ((i, x) ∷ m) =
      ground (arith, text_eq_iff i k, text_eq_iff k j, text_eq_iff i j, text_mem-dict_keys j k e m)

  dict_set-IsKeyed :
      (k : Text) (e : HistoryEntry) (m : Dict HistoryEntry)
      → entry_key to_lower e ≡ k
      → IsKeyed m
      → IsKeyed (dict_set k e m)
  unfolding dict_set text_mem
  dict_set-IsKeyed k e [] q h = (q, refl, tt)
  dict_set-IsKeyed k e ((i, x) ∷ m) q (p, n, h) = elim (Bool-cases (text_eq i k)) [
    | inl b ↦ let r : i ≡ k = text_eq_sound i k b in rw b (q, rw (← r) n, h)
    | inr b ↦ rw b (
      p,
      text_mem-dict_keys i k e m ∙ ground (arith, text_eq_iff i k, text_eq_iff k i),
      dict_set-IsKeyed k e m q h,
    )
  ]

  keys-values : (m : Dict HistoryEntry) → IsKeyed m → keys (values m) ≡ dict_keys m
  keys-values [] h = refl
  keys-values ((k, e) ∷ m) (p, n, h) = rw (p, keys-values m h)

  dict_keys-Distinct : (m : Dict HistoryEntry) → IsKeyed m → Distinct (dict_keys m)
  dict_keys-Distinct [] h = tt
  dict_keys-Distinct ((k, e) ∷ m) (p, n, h) = (n, dict_keys-Distinct m h)

  seen_items-lem :
      (fs : List Text) (xs : List RawHistoryItem) (m : Dict HistoryEntry)
      → IsKeyed m
      → Agrees fs (values m)
      → let r = seen_items to_lower fs xs m in IsKeyed r × Agrees fs (values r)
  unfolding seen_items seen_item
  seen_items-lem fs [] m h a = (h, a)
  seen_items-lem fs (x ∷ xs) m h a =
      let k = normalize to_lower x.command in
      elim (Bool-cases (is_newer x.timestamp (dict_get k m))) [
        | inl b ↦
            rw (b, seen_items)
              (seen_items-lem fs xs (dict_set k (loaded_entry fs x) m)
                (dict_set-IsKeyed k (loaded_entry fs x) m refl h)
                (Agrees-dict_set fs k (loaded_entry fs x) m a refl))
        | inr b ↦ rw (b, seen_items) (seen_items-lem fs xs m h a)
      ]

  finish_load-IsValid :
      (answer : Option (Text × List RawHistoryItem × List Text)) (s : HistoryStore)
      → IsValid s
      → IsValid (finish_load to_lower answer s)
  unfolding finish_load
  finish_load-IsValid none s v = record { distinct = v.distinct; agrees = v.agrees }
  finish_load-IsValid (some (path, items, fs)) s v =
      let (h, a) = seen_items-lem (to_set [] fs) items [] tt tt in
      record { distinct = rw (keys-values _ h) (dict_keys-Distinct _ h); agrees = a }

  begin_delete-IsValid :
      (c : Text) (s : HistoryStore) → IsValid s → IsValid (begin_delete to_lower c s).0
  unfolding begin_delete
  begin_delete-IsValid c s v = record {
    distinct = keep-Distinct _ s.entries v.distinct;
    agrees = Agrees-keep _ s.favorites s.entries v.agrees;
  }

  delete-IsValid :
      (ok : Bool) (c : Text) (s : HistoryStore)
      → IsValid s
      → let (s', removed) = begin_delete to_lower c s in IsValid (finish_delete ok removed s')
  unfolding finish_delete
  delete-IsValid true c s v = begin_delete-IsValid c s v
  delete-IsValid false c s v =
      unfold begin_delete in
      let k = normalize to_lower c in
      record {
        distinct = rw map-append (
            append-Distinct _ _ (keep-Distinct _ s.entries v.distinct)
              (keep-Distinct _ s.entries v.distinct)
              (λ t h.
                ground
                  (arith, text_mem-keep_other t k s.entries, text_mem-keep_same t k s.entries)));
        agrees =
            Agrees-append s.favorites _ _ (Agrees-keep _ s.favorites s.entries v.agrees)
              (Agrees-keep _ s.favorites s.entries v.agrees);
      }

  -- What the user and the shell do, with what the backend answers. A deletion may be under way, and
  -- one that is answered at once is `deletes`; a refusal that comes after other operations stands in
  -- `Rollback`.
  pub data Event : Type 0 where
    loads : Option (Text × List RawHistoryItem × List Text) → Event
    adds : HistoryEntry → Event
    begins_delete : Text → Event
    deletes : (ok : Bool) (command : Text) → Event
    clears : Bool → Event
    toggles : (ok is_favorite : Bool) (command : Text) → Event

  unfoldable pub step : Event → HistoryStore → HistoryStore
  step (loads answer) s = finish_load to_lower answer s
  step (adds x) s = add_live_entry to_lower x s
  step (begins_delete c) s = (begin_delete to_lower c s).0
  step (deletes ok c) s =
      let (s', removed) = begin_delete to_lower c s in finish_delete ok removed s'
  step (clears ok) s = clear_all ok s
  step (toggles ok f c) s = finish_toggle ok f c s

  clear_all-IsValid : (ok : Bool) (s : HistoryStore) → IsValid s → IsValid (clear_all ok s)
  unfolding clear_all
  clear_all-IsValid true s v = record { distinct = tt; agrees = tt }
  clear_all-IsValid false s v = v

  finish_toggle-IsValid :
      (ok f : Bool) (c : Text) (s : HistoryStore) → IsValid s → IsValid (finish_toggle ok f c s)
  unfolding finish_toggle
  finish_toggle-IsValid false f c s v = v
  finish_toggle-IsValid true true c s v = record {
    distinct = rw keys-with_favorite v.distinct;
    agrees = Agrees-removed c s.favorites s.entries v.agrees;
  }
  finish_toggle-IsValid true false c s v = record {
    distinct = rw keys-with_favorite v.distinct;
    agrees = Agrees-added c s.favorites s.entries v.agrees;
  }

  -- Loading, adding, deleting, clearing and toggling keep the history valid, whatever the backend
  -- answers, if its refusal of a deletion comes before any other operation: no command stands in it
  -- twice, up to case and white space, and an entry is marked exactly if its command is one of the
  -- favorites. The answer to loading may come at any time.
  pub history_step-IsValid : (e : Event) (s : HistoryStore) → IsValid s → IsValid (step e s)
  unfolding step
  history_step-IsValid (loads answer) s v = finish_load-IsValid answer s v
  history_step-IsValid (adds x) s v = add_live_entry-IsValid x s v
  history_step-IsValid (begins_delete c) s v = begin_delete-IsValid c s v
  history_step-IsValid (deletes ok c) s v = delete-IsValid ok c s v
  history_step-IsValid (clears ok) s v = clear_all-IsValid ok s v
  history_step-IsValid (toggles ok f c) s v = finish_toggle-IsValid ok f c s v
