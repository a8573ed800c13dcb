-- ===== src/Tracker/Cycle.antt =====
-- A command from its text to its end.
use racemo.Base.{
  ℕ, ◌≡◌, refl, ap, ◌∙◌, inl, inr, true, false, Option, none, some, [], ◌∷◌, ◌++◌, if◌then◌else◌,
  Bool-cases, Option-cases, Text, text_eq_refl, truthy, trim, Dict, dict_get, dict_set, dict_delete,
  dict_get-dict_set, dict_get-dict_delete,
}
use racemo.History.{HistoryEntry, live, add_live_entry}
use racemo.Tracker.{
  CommandState, CommandError, TrackerState, Context, clear_error, set_error, on_command_text,
  get_pending_command_text, on_command_start, failed, code_of, nonempty, stopped, record_command,
  end_running, on_command_end, is_command_running, remove_command_state,
}

get-set_self : {V : Type 0} (k : Text) (v : V) (m : Dict V) → dict_get k (dict_set k v m) ≡ some v
get-set_self k v m = dict_get-dict_set k k v m ∙ rw text_eq_refl

get-delete_self : {V : Type 0} (k : Text) (m : Dict V) → dict_get k (dict_delete k m) ≡ none
get-delete_self k m = dict_get-dict_delete k k m ∙ rw text_eq_refl

nonempty-truthy : (w : Text) → truthy w ≡ true → nonempty (some w) ≡ some w
nonempty-truthy [] h = cc
nonempty-truthy (c ∷ w) h = refl

abbrev pub error_of : Context → Text → Option ℕ → CommandError
error_of d w code = record {
  command = w;
  exit_code = code_of code;
  timestamp = d.now;
  terminal_output = none;
}

abbrev pub entry_of : Context → Text → Text → HistoryEntry
entry_of d p w = record {
  command = w;
  timestamp = some d.now;
  source = live;
  session_id = d.active_session_id;
  cwd = dict_get p d.pane_cwds;
  favorite = none;
}

is_running-stopped :
    (p : Text) (st : CommandState) (m : Dict CommandState) (s : TrackerState)
    → s.command_states ≡ dict_set p (record st { is_running = false }) m
    → is_command_running p s ≡ false
unfolding is_command_running
is_running-stopped p st m s e =
    rw (e, is_command_running) (rw (get-set_self p (record st { is_running = false }) m))

module _ (to_lower : Text → Text) where
  -- The three marks that a shell sends for one command.
  abbrev pub cycle : Context → Context → Text → Text → Option ℕ → TrackerState → TrackerState
  cycle c d p text code s =
      on_command_end to_lower d p code (on_command_start c p (on_command_text p text s))

  end_running-record :
      (d : Context) (p w : Text) (code : Option ℕ) (st : CommandState) (t : TrackerState)
      → dict_get p t.command_states ≡ some st
      → st.is_running ≡ true
      → dict_get p t.pending_command_text ≡ some w
      → truthy w ≡ true
      → on_command_end to_lower d p code t
        ≡ record_command to_lower d p code (some w) (stopped p st t)
  unfolding on_command_end end_running
  end_running-record d p w code st t e r q h =
      rw (e, on_command_end, r, q)
        (ap (λ o. record_command to_lower d p code o (stopped p st t)) (nonempty-truthy w h))

  record_command_lem :
      (d : Context) (p w : Text) (code : Option ℕ) (u : TrackerState)
      → dict_get p u.errors ≡ none
      → let s' = record_command to_lower d p code (some w) u in
        (s'.command_states ≡ u.command_states)
        × (dict_get p s'.pending_command_text ≡ none)
        × (dict_get p s'.errors ≡ (if failed code then some (error_of d w code) else none))
        × (s'.saved ≡ (if failed code then u.saved else u.saved ++ w ∷ []))
        × (s'.history ≡ (
            if failed code then u.history else add_live_entry to_lower (entry_of d p w) u.history))
  unfolding record_command set_error
  record_command_lem d p w code u e = elim (Bool-cases (failed code)) [
    | inl q ↦
        rw (q, record_command)
          (
            refl,
            get-delete_self p u.pending_command_text,
            get-set_self p (error_of d w code) u.errors,
            refl,
            refl,
          )
    | inr q ↦ rw (q, record_command) (refl, get-delete_self p u.pending_command_text, e, refl, refl)
  ]

  -- A command with a text that is not blank, started and ended: if it failed its error is kept under
  -- the terminal and the history is as before, else it is added to the history, is saved once and
  -- there is no error; its text no longer waits, and the terminal is idle.
  pub cycle_lem :
      (c d : Context) (p text : Text) (code : Option ℕ) (s : TrackerState)
      → truthy (trim text) ≡ true
      → let s' = cycle c d p text code s in
        (is_command_running p s' ≡ false)
        × (get_pending_command_text p s' ≡ none)
        × (dict_get p s'.errors
            ≡ (if failed code then some (error_of d (trim text) code) else none))
        × (s'.saved ≡ (if failed code then s.saved else s.saved ++ trim text ∷ []))
        × (s'.history ≡ (
            if failed code
            then s.history
            else add_live_entry to_lower (entry_of d p (trim text)) s.history))
  unfolding on_command_text on_command_start clear_error is_command_running get_pending_command_text
  cycle_lem c d p text code s h =
      let st : CommandState = record { start_time = c.now; is_running = true } in
      let t : TrackerState = record s {
        pending_command_text = dict_set p (trim text) s.pending_command_text;
        command_states = dict_set p st s.command_states;
        errors = dict_delete p s.errors;
      } in
      let e : on_command_start c p (on_command_text p text s) ≡ t = rw (h, on_command_text) in
      let q : cycle c d p text code s
          ≡ record_command to_lower d p code (some (trim text)) (stopped p st t) =
        ap (on_command_end to_lower d p code) e
        ∙ end_running-record d p (trim text) code st t (get-set_self p st s.command_states) refl
            (get-set_self p (trim text) s.pending_command_text) h in
      let (cs, pt, er, sv, hi) =
        record_command_lem d p (trim text) code (stopped p st t) (get-delete_self p s.errors) in
      rw q (
        is_running-stopped p st t.command_states
            (record_command to_lower d p code (some (trim text)) (stopped p st t)) cs,
        pt,
        er,
        sv,
        hi,
      )

  command_states-record_command :
      (d : Context) (p : Text) (code : Option ℕ) (o : Option Text) (u : TrackerState)
      → (record_command to_lower d p code o u).command_states ≡ u.command_states
  unfolding record_command set_error
  command_states-record_command d p code none u = refl
  command_states-record_command d p code (some w) u = elim (Bool-cases (failed code)) [
    | inl q ↦ rw (q, record_command)
    | inr q ↦ rw (q, record_command)
  ]

  on_command_end_idle :
      (d : Context) (p : Text) (code : Option ℕ) (s : TrackerState)
      → is_command_running p s ≡ false
      → on_command_end to_lower d p code s ≡ s
  unfolding on_command_end end_running is_command_running
  on_command_end_idle d p code s h = elim (Option-cases (dict_get p s.command_states)) [
    | inl e ↦ rw (e, on_command_end)
    | inr (st, e) ↦
        let r : st.is_running ≡ false = rw (e, is_command_running) at h in rw (e, on_command_end, r)
  ]

  is_command_running-on_command_end :
      (d : Context) (p : Text) (code : Option ℕ) (s : TrackerState)
      → is_command_running p (on_command_end to_lower d p code s) ≡ false
  unfolding on_command_end end_running
  is_command_running-on_command_end d p code s = elim (Option-cases (dict_get p s.command_states)) [
    | inl e ↦ rw (e, on_command_end) (unfold is_command_running in rw (e, is_command_running))
    | inr (st, e) ↦ elim (Bool-cases st.is_running) [
      | inl r ↦
          let o = nonempty (dict_get p s.pending_command_text) in
          rw (e, on_command_end, r)
            (is_running-stopped p st s.command_states
              (record_command to_lower d p code o (stopped p st s))
              (command_states-record_command d p code o (stopped p st s)))
      | inr r ↦
          rw (e, on_command_end, r) (unfold is_command_running in rw (e, is_command_running, r))
    ]
  ]

  -- A command ends once: a second end, with any code, changes nothing.
  pub on_command_end_idem :
      (c d : Context) (p : Text) (code again : Option ℕ) (s : TrackerState)
      → on_command_end to_lower d p again (on_command_end to_lower c p code s)
        ≡ on_command_end to_lower c p code s
  on_command_end_idem c d p code again s =
      on_command_end_idle d p again (on_command_end to_lower c p code s)
        (is_command_running-on_command_end c p code s)

-- What is kept of a terminal that is removed: no state and no error, but the text that waits stays.
pub remove_command_state_lem :
    (p : Text) (s : TrackerState)
    → let s' = remove_command_state p s in
      (is_command_running p s' ≡ false)
      × (dict_get p s'.errors ≡ none)
      × (get_pending_command_text p s' ≡ get_pending_command_text p s)
unfolding remove_command_state clear_error is_command_running get_pending_command_text
remove_command_state_lem p s =
    (rw (get-delete_self p s.command_states, is_command_running), get-delete_self p s.errors, refl)
