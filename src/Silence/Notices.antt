-- ===== src/Silence/Notices.antt =====
-- When the detector of silence notifies, and when it does not (src/lib/silenceDetector.ts).
use racemo.Base.{
  ℕ, ◌+◌, ◌≤◌, ◌≡◌, refl, sym, ap, ◌∙◌, ◌⊎◌, inl, inr, true, false, some, List, [], ◌∷◌, arith, leb,
  Bool-cases, Option-cases, Text, text_eq, text_eq_refl, dict_get, dict_set, dict_get_or,
  dict_get-dict_set, dict_get_or-dict_set, text_mem,
}
use racemo.Session.{Session, SessionStore}
use racemo.Silence.{
  NoticeSettings, SilenceState, silence_grace_ms, clear_silence_timer, reset_silence_timer, has_key,
  on_silence_output, start_grace, pty_ids_of, on_session_deactivated, quiet, on_session_activated,
  target_session, must_notify, Silence, check_silence,
}

check_silence-notified :
    (st : NoticeSettings) (pty_id : Text) (w : Silence)
    → dict_get_or pty_id false w.detector.ptr_notified ≡ true
    → check_silence st pty_id w ≡ w
unfolding check_silence
check_silence-notified st pty_id w h = rw h

check_silence-quiet :
    (st : NoticeSettings) (pty_id : Text) (w : Silence)
    → ((x : Session)
        → target_session pty_id w.store.sessions ≡ some x
        → must_notify pty_id x w.store w.detector ≡ false)
    → check_silence st pty_id w ≡ w
unfolding check_silence
check_silence-quiet st pty_id w h =
    elim (Bool-cases (dict_get_or pty_id false w.detector.ptr_notified)) [
      | inl e ↦ rw e
      | inr e ↦ elim (Option-cases (target_session pty_id w.store.sessions)) [
        | inl f ↦ rw (e, f) refl
        | inr (x, f) ↦ rw (e, f) (rw (h x f) refl)
      ]
    ]

some-inj : (x y : Session) → some x ≡ some y → x ≡ y
some-inj x y e = cc

check_silence-cases :
    (st : NoticeSettings) (pty_id : Text) (w : Silence)
    → (check_silence st pty_id w ≡ w)
      ⊎ (dict_get_or pty_id false (check_silence st pty_id w).detector.ptr_notified ≡ true)
unfolding check_silence
check_silence-cases st pty_id w =
    elim (Bool-cases (dict_get_or pty_id false w.detector.ptr_notified)) [
      | inl e ↦ inl (rw e)
      | inr e ↦ elim (Option-cases (target_session pty_id w.store.sessions)) [
        | inl f ↦ inl (rw (e, f) refl)
        | inr (x, f) ↦ elim (Bool-cases (must_notify pty_id x w.store w.detector)) [
          | inl g ↦ inr (
              rw (e, f)
                (rw g (
                  dict_get_or-dict_set pty_id pty_id false true w.detector.ptr_notified
                  ∙ rw text_eq_refl)))
          | inr g ↦ inl (rw (e, f) (rw g refl))
        ]
      ]
    ]

-- A silence is notified once: when its timer runs again, with no output between, nothing changes.
pub check_silence_idem :
    (st : NoticeSettings) (pty_id : Text) (w : Silence)
    → check_silence st pty_id (check_silence st pty_id w) ≡ check_silence st pty_id w
check_silence_idem st pty_id w = elim (check_silence-cases st pty_id w) [
  | inl e ↦ ap (check_silence st pty_id) e
  | inr h ↦ check_silence-notified st pty_id (check_silence st pty_id w) h
]

start_grace-session_deactivated_at :
    (now : ℕ) (ids : List Text) (s : SilenceState)
    → (start_grace now ids s).session_deactivated_at ≡ s.session_deactivated_at
unfolding start_grace clear_silence_timer
start_grace-session_deactivated_at now [] s = refl
start_grace-session_deactivated_at now (id ∷ ids) s = start_grace-session_deactivated_at now ids _

on_silence_output_lem :
    (st : NoticeSettings) (now : ℕ) (pty_id : Text) (s : SilenceState)
    → let t = on_silence_output st now pty_id s in
      (t.session_deactivated_at ≡ s.session_deactivated_at)
      × (t.pty_last_output_at ≡ dict_set pty_id now s.pty_last_output_at)
unfolding on_silence_output reset_silence_timer
on_silence_output_lem st now pty_id s = elim (Bool-cases (has_key pty_id s.silence_grace)) [
  | inl e ↦ rw e (refl, refl)
  | inr e ↦ rw e (refl, refl)
]

must_notify-early :
    (pty_id : Text) (x : Session) (store : SessionStore) (s : SilenceState) (at n : ℕ)
    → dict_get x.id s.session_deactivated_at ≡ some at
    → dict_get_or pty_id 0 s.pty_last_output_at ≡ n
    → n ≤ at
    → must_notify pty_id x store s ≡ false
unfolding must_notify
must_notify-early pty_id x store s at n e f h =
    let g : leb n at ≡ true = ground arith in rw (e, f, g) (ground arith)

-- Output of a terminal in the time of grace of its session, which begins when the session is left, is
-- not notified, at whatever time the timer of silence runs.
pub check_silence-grace :
    (st : NoticeSettings) (left now : ℕ) (pty_id : Text) (x : Session) (w : Silence)
    → target_session pty_id w.store.sessions ≡ some x
    → now ≤ left + silence_grace_ms
    → let d =
        on_silence_output st now pty_id (on_session_deactivated left x.id w.store w.detector) in
      check_silence st pty_id (record w { detector = d }) ≡ record w { detector = d }
unfolding on_session_deactivated
check_silence-grace st left now pty_id x w e h =
    let u = on_session_deactivated left x.id w.store w.detector in
    let d = on_silence_output st now pty_id u in
    let (a, b) = on_silence_output_lem st now pty_id u in
    check_silence-quiet st pty_id (record w { detector = d })
      (λ y f.
        let q : x ≡ y = some-inj x y (sym e ∙ f) in
        rw (sym q) (
          must_notify-early pty_id x w.store d (left + silence_grace_ms) now
            (ap (dict_get x.id)
                (a ∙ start_grace-session_deactivated_at left (pty_ids_of x.id w.store.sessions) _)
              ∙ dict_get-dict_set x.id x.id (left + silence_grace_ms)
                  w.detector.session_deactivated_at
              ∙ rw text_eq_refl)
            (ap (dict_get_or pty_id 0) b
              ∙ dict_get_or-dict_set pty_id pty_id 0 now u.pty_last_output_at
              ∙ rw text_eq_refl)
            h))

quiet-ptr_notified :
    (pty_id : Text) (ids : List Text) (s : SilenceState)
    → (text_mem pty_id ids ≡ true) ⊎ (dict_get_or pty_id false s.ptr_notified ≡ true)
    → dict_get_or pty_id false (quiet ids s).ptr_notified ≡ true
unfolding quiet clear_silence_timer text_mem
quiet-ptr_notified pty_id [] s (inl h) = cc
quiet-ptr_notified pty_id [] s (inr h) = h
quiet-ptr_notified pty_id (id ∷ ids) s h =
    let p = dict_get_or-dict_set id pty_id false true s.ptr_notified in
    quiet-ptr_notified pty_id ids _ (elim (Bool-cases (text_eq id pty_id)) [
      | inl e ↦ inr (p ∙ rw e)
      | inr e ↦ elim h [ inl k ↦ inl (rw e at k) | inr k ↦ inr (p ∙ rw e k) ]
    ])

-- Once a session has become the active one, the timers of its terminals notify nothing until more
-- output comes, whatever the sessions are by then.
pub check_silence-on_session_activated :
    (st : NoticeSettings) (pty_id session_id : Text) (store later : SessionStore) (s : SilenceState)
    → text_mem pty_id (pty_ids_of session_id store.sessions) ≡ true
    → let w : Silence = record {
      detector = on_session_activated session_id store s;
      store = later;
    } in
      check_silence st pty_id w ≡ w
unfolding on_session_activated
check_silence-on_session_activated st pty_id session_id store later s h =
    check_silence-notified st pty_id _
      (quiet-ptr_notified pty_id (pty_ids_of session_id store.sessions) s (inl h))
