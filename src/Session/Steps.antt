-- ===== src/Session/Steps.antt =====
-- What holds of the sessions between two operations, and that every operation keeps it.
use mathlib.Core.List.{map-append}
use racemo.Base.{
  ℕ, ◌<◌, ◌≡◌, refl, sym, ap, ◌∙◌, inl, inr, Bool, true, false, not, ◌&&◌, ◌||◌, Option, none, some,
  List, [], ◌∷◌, ◌++◌, map, arith, if◌then◌else◌, Bool-cases, length, Text, text_eq, text_eq_refl,
  text_eq_iff, keep, some_of, remove_at, insert_at, last, text_mem, get_elem?-some, map-remove_at,
  map-insert_at, Distinct, text_mem-append, remove_at-Distinct, text_mem-remove_at_self,
  insert_at-Distinct, snoc-Distinct, get_elem?-map, text_mem-move,
}
use racemo.Tabs.{splice_move}
use racemo.Session.{
  Session, SessionStore, update_session, replaced, add_session, last_id, is_id, remove_session,
  set_active_session, reorder_sessions, renamed, rename_session, set_session, set_sessions,
  with_shells,
}

abbrev session_id : Session → Text
session_id x = x.id

abbrev pub ids : SessionStore → List Text
ids s = map session_id s.sessions

abbrev pub knows : List Text → Option Text → Bool
knows ts none = true
knows ts (some t) = text_mem t ts

-- The ids differ, and the active session is one of the list.
pub record IsValid (s : SessionStore) : Type 0 where
  pub distinct : Distinct (ids s)
  pub known : knows (ids s) s.active_session_id ≡ true

pub data Event : Type 0 where
  activates : Text → Event
  updates : Session → Event
  adds : Session → Event
  removes : Text → Event
  reorders : ℕ → ℕ → Event
  renames : (session_id name : Text) → Event
  puts : Session → Event
  lists : List Session → Event
  reattaches : List Session → Text → Event

unfoldable pub step : Event → SessionStore → Option SessionStore
step (activates t) s = some (set_active_session t s)
step (updates x) s = some (update_session x s)
step (adds x) s = some (add_session x s)
step (removes t) s = some (remove_session t s)
step (reorders from to) s = reorder_sessions from to s
step (renames t name) s = some (rename_session t name s)
step (puts x) s = some (set_session x s)
step (lists xs) s = some (set_sessions xs s)
step (reattaches xs t) s = some (set_active_session t (set_sessions xs s))

-- A session that is activated is there, one that is added is not, positions are in range, and a new
-- list has differing ids and among them the active session, which `setSessions` does not choose anew,
-- or the one that src/hooks/useIpcSetup.ts activates at once (`tryInit`).
abbrev pub Fits : Event → SessionStore → Type 0
Fits (activates t) s = text_mem t (ids s) ≡ true
Fits (adds x) s = text_mem x.id (ids s) ≡ false
Fits (reorders from to) s = from < length s.sessions
Fits (lists xs) s =
    Distinct (map session_id xs) × (knows (map session_id xs) s.active_session_id ≡ true)
Fits (reattaches xs t) s = Distinct (map session_id xs) × (text_mem t (map session_id xs) ≡ true)
Fits _ s = Unit

ids-replaced :
    (x : Session) (xs : List Session) → map session_id (map (replaced x) xs) ≡ map session_id xs
ids-replaced x [] = refl
ids-replaced x (y ∷ xs) = ground (arith, text_eq_iff y.id x.id, ids-replaced x xs)

ids-renamed :
    (t name : Text) (xs : List Session)
    → map session_id (map (renamed t name) xs) ≡ map session_id xs
ids-renamed t name [] = refl
ids-renamed t name (y ∷ xs) = ground (arith, ids-renamed t name xs)

-- `filter` on the sessions, seen on their ids.
text_mem-keep :
    (u t : Text) (xs : List Session)
    → text_mem u (map session_id (keep (λ (x : Session). not (text_eq x.id t)) xs))
      ≡ (not (text_eq u t) && text_mem u (map session_id xs))
unfolding keep text_mem
text_mem-keep u t [] = ground arith
text_mem-keep u t (x ∷ xs) =
    ground (arith, text_eq_iff x.id t, text_eq_iff x.id u, text_eq_iff u t, text_mem-keep u t xs)

keep-Distinct :
    (t : Text) (xs : List Session)
    → Distinct (map session_id xs)
    → Distinct (map session_id (keep (λ (x : Session). not (text_eq x.id t)) xs))
unfolding keep
keep-Distinct t [] d = d
keep-Distinct t (x ∷ xs) (m, d) = elim (Bool-cases (text_eq x.id t)) [
  | inl e ↦ rw e (keep-Distinct t xs d)
  | inr e ↦ rw e (ground (arith, text_mem-keep x.id t xs), keep-Distinct t xs d)
]

knows-cons :
    (t : Text) (ts : List Text) (o : Option Text) → knows ts o ≡ true → knows (t ∷ ts) o ≡ true
unfolding text_mem
knows-cons t ts none h = refl
knows-cons t ts (some u) h = ground arith

knows-last_id : (xs : List Session) → knows (map session_id xs) (last_id xs) ≡ true
unfolding last
knows-last_id [] = refl
knows-last_id (x ∷ []) = unfold text_mem in ground (arith, text_eq_refl x.id)
knows-last_id (x ∷ y ∷ xs) =
    knows-cons x.id (y.id ∷ map session_id xs) (last_id (y ∷ xs)) (knows-last_id (y ∷ xs))

knows-snoc : (t : Text) (ts : List Text) → knows (ts ++ t ∷ []) (some t) ≡ true
unfolding text_mem
knows-snoc t ts = text_mem-append t ts (t ∷ []) ∙ ground (arith, text_eq_refl t)

remove_session-IsValid : (t : Text) (s : SessionStore) → IsValid s → IsValid (remove_session t s)
unfolding remove_session
remove_session-IsValid t s v = record {
  distinct = keep-Distinct t s.sessions v.distinct;
  known = go s.active_session_id v.known;
}
  where
    rest : List Session
    rest = keep (λ (x : Session). not (text_eq x.id t)) s.sessions

    go :
        (o : Option Text)
        → knows (ids s) o ≡ true
        → knows (map session_id rest) (if is_id t o then last_id rest else o) ≡ true
    go none h = refl
    go (some u) h = elim (Bool-cases (text_eq u t)) [
      | inl e ↦ rw e (knows-last_id rest)
      | inr e ↦ rw e (text_mem-keep u t s.sessions ∙ rw (e, h))
    ]

reorder_sessions-IsValid :
    (from to : ℕ) (s : SessionStore)
    → from < length s.sessions
    → IsValid s
    → (s' : SessionStore) × (reorder_sessions from to s ≡ some s') × IsValid s'
unfolding reorder_sessions splice_move
reorder_sessions-IsValid from to s h v =
    let (x, e) = get_elem?-some s.sessions from h in
    let e' = get_elem?-map session_id s.sessions from e in
    let xs = insert_at (remove_at s.sessions from) to x in
    let m : map session_id xs ≡ insert_at (remove_at (ids s) from) to x.id =
      rw (map-insert_at, map-remove_at) in
    (
      record s { sessions = xs },
      rw (e, reorder_sessions, splice_move),
      record {
        distinct = rw m (
            insert_at-Distinct _ to x.id (remove_at-Distinct (ids s) from v.distinct)
              (text_mem-remove_at_self (ids s) from v.distinct e'));
        known =
            rw m (go s.active_session_id _ _ (λ t. text_mem-move t (ids s) from to e') ∙ v.known);
      },
    )
  where
    go :
        (o : Option Text) (ts us : List Text)
        → ((t : Text) → text_mem t ts ≡ text_mem t us)
        → knows ts o ≡ knows us o
    go none ts us q = refl
    go (some t) ts us q = q t

some_of-mem :
    (t : Text) (xs : List Session)
    → some_of (λ (y : Session). text_eq y.id t) xs ≡ text_mem t (map session_id xs)
unfolding some_of text_mem
some_of-mem t [] = refl
some_of-mem t (x ∷ xs) = ap (λ b. text_eq x.id t || b) (some_of-mem t xs)

-- From a valid store every operation on the list of sessions succeeds and gives a valid store: the
-- ids differ and the active session is one of the list, also after the active one is removed. It is
-- asked that a session to activate is in the list, one to add is not, the position that a session is
-- moved from is in range, and a list that replaces all sessions has differing ids and among them the
-- active session, or the one that is activated at once.
pub session_step-IsValid :
    (e : Event) (s : SessionStore)
    → IsValid s
    → Fits e s
    → (s' : SessionStore) × (step e s ≡ some s') × IsValid s'
unfolding step set_session
session_step-IsValid (activates t) s v f = (
  set_active_session t s,
  refl,
  unfold set_active_session in record { distinct = v.distinct; known = f },
)
session_step-IsValid (updates x) s v f = (
  update_session x s,
  refl,
  unfold update_session in
      record { distinct = rw ids-replaced v.distinct; known = rw ids-replaced v.known },
)
session_step-IsValid (adds x) s v f = (
  add_session x s,
  refl,
  unfold add_session in
      record {
        distinct = rw map-append (snoc-Distinct (ids s) x.id v.distinct f);
        known = rw map-append (knows-snoc x.id (ids s));
      },
)
session_step-IsValid (removes t) s v f = (remove_session t s, refl, remove_session-IsValid t s v)
session_step-IsValid (reorders from to) s v f = reorder_sessions-IsValid from to s f v
session_step-IsValid (renames t name) s v f = (
  rename_session t name s,
  refl,
  unfold rename_session in
      record { distinct = rw ids-renamed v.distinct; known = rw ids-renamed v.known },
)
session_step-IsValid (lists xs) s v (d, k) =
    (set_sessions xs s, refl, unfold set_sessions in record { distinct = d; known = k })
session_step-IsValid (reattaches xs t) s v (d, k) = (
  set_active_session t (set_sessions xs s),
  refl,
  unfold set_active_session set_sessions in record { distinct = d; known = k },
)
session_step-IsValid (puts x) s v f =
    elim (Bool-cases (some_of (λ (y : Session). text_eq y.id x.id) s.sessions)) [
      | inl e ↦ (
        record s {
          sessions = map (replaced x) s.sessions;
          pane_shell_types = with_shells x.root_pane s;
        },
        rw (e, set_session),
        record { distinct = rw ids-replaced v.distinct; known = rw ids-replaced v.known },
      )
      | inr e ↦ (
        record s {
          sessions = s.sessions ++ x ∷ [];
          active_session_id = some x.id;
          pane_shell_types = with_shells x.root_pane s;
        },
        rw (e, set_session),
        record {
          distinct =
              rw map-append
                (snoc-Distinct (ids s) x.id v.distinct (sym (some_of-mem x.id s.sessions) ∙ e));
          known = rw map-append (knows-snoc x.id (ids s));
        },
      )
    ]
