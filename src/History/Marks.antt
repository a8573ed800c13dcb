-- ===== src/History/Marks.antt =====
-- The marks of the favorites in the history (src/stores/historyStore.ts).
use racemo.Base.{
  ◌≡◌, inl, inr, Bool, true, false, not, ◌&&◌, ◌||◌, some, List, [], ◌∷◌, ◌++◌, map, arith,
  Bool-cases, Text, text_eq, text_eq_iff, Dict, dict_set, keep, text_mem, text_mem-append,
}
use racemo.History.{HistoryEntry, set_add, set_delete, values, with_favorite}

-- Every entry is marked exactly if its command is a favorite.
abbrev pub Agrees : List Text → List HistoryEntry → Type 0
Agrees favorites [] = Unit
Agrees favorites (e ∷ es) = (e.favorite ≡ some (text_mem e.command favorites)) × Agrees favorites es

pub Agrees-keep :
    (p : HistoryEntry → Bool) (fs : List Text) (es : List HistoryEntry)
    → Agrees fs es
    → Agrees fs (keep p es)
unfolding keep
Agrees-keep p fs [] h = h
Agrees-keep p fs (e ∷ es) (h, hs) = elim (Bool-cases (p e)) [
  | inl q ↦ rw q (h, Agrees-keep p fs es hs)
  | inr q ↦ rw q (Agrees-keep p fs es hs)
]

pub Agrees-snoc :
    (fs : List Text) (es : List HistoryEntry) (x : HistoryEntry)
    → Agrees fs es
    → x.favorite ≡ some (text_mem x.command fs)
    → Agrees fs (es ++ x ∷ [])
Agrees-snoc fs [] x h k = (k, tt)
Agrees-snoc fs (e ∷ es) x (h, hs) k = (h, Agrees-snoc fs es x hs k)

text_mem-set_add :
    (t u : Text) (ts : List Text) → text_mem t (set_add u ts) ≡ (text_eq u t || text_mem t ts)
unfolding set_add text_mem
text_mem-set_add t u ts = ground (arith, text_eq_iff u t, text_mem-append t ts (u ∷ []))

text_mem-set_delete :
    (t u : Text) (ts : List Text)
    → text_mem t (set_delete u ts) ≡ (not (text_eq u t) && text_mem t ts)
unfolding set_delete text_mem keep
text_mem-set_delete t u [] = ground arith
text_mem-set_delete t u (v ∷ ts) =
    ground (arith, text_eq_iff v u, text_eq_iff u t, text_eq_iff v t, text_mem-set_delete t u ts)

pub Agrees-added :
    (c : Text) (fs : List Text) (es : List HistoryEntry)
    → Agrees fs es
    → Agrees (set_add c fs) (map (with_favorite c true) es)
Agrees-added c fs [] h = tt
Agrees-added c fs (e ∷ es) (h, hs) = (
  ground (arith, text_eq_iff c e.command, text_eq_iff e.command c, text_mem-set_add e.command c fs),
  Agrees-added c fs es hs,
)

pub Agrees-removed :
    (c : Text) (fs : List Text) (es : List HistoryEntry)
    → Agrees fs es
    → Agrees (set_delete c fs) (map (with_favorite c false) es)
Agrees-removed c fs [] h = tt
Agrees-removed c fs (e ∷ es) (h, hs) = (
  ground
      (arith, text_eq_iff c e.command, text_eq_iff e.command c, text_mem-set_delete e.command c fs),
  Agrees-removed c fs es hs,
)

pub Agrees-dict_set :
    (fs : List Text) (k : Text) (e : HistoryEntry) (m : Dict HistoryEntry)
    → Agrees fs (values m)
    → e.favorite ≡ some (text_mem e.command fs)
    → Agrees fs (values (dict_set k e m))
unfolding dict_set
Agrees-dict_set fs k e [] h q = (q, tt)
Agrees-dict_set fs k e ((j, x) ∷ m) (h, hs) q = elim (Bool-cases (text_eq j k)) [
  | inl b ↦ rw b (q, hs)
  | inr b ↦ rw b (h, Agrees-dict_set fs k e m hs q)
]

pub Agrees-append :
    (fs : List Text) (xs ys : List HistoryEntry)
    → Agrees fs xs
    → Agrees fs ys
    → Agrees fs (xs ++ ys)
Agrees-append fs [] ys h k = k
Agrees-append fs (x ∷ xs) ys (h, hs) k = (h, Agrees-append fs xs ys hs k)
