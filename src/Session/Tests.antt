-- ===== src/Session/Tests.antt =====
-- Runs of the session store, and the theorems at a concrete state.
use racemo.Base.{
  ℕ, ◌≤◌, ◌<◌, ◌≡◌, refl, true, false, none, some, [], ◌∷◌, Text, codes, text_eq, text_mem,
}
use racemo.Pane.{LeafPane}
use racemo.Pane
use racemo.Session.{Session, SessionStore, set_sessions}
use racemo.Session.TabName.{
  has_line_end, tab_number, used_numbers, number_mem, tab_name, next_tab_name,
}
use racemo.Session.Fresh.{next_tab_name_fresh}
use racemo.Session.Steps.{IsValid, removes, step, session_step-IsValid}

abbrev session : ℕ → Text → Session
session n name = record {
  id = n ∷ [];
  name = name;
  root_pane =
      Pane.leaf
        (record { id = n ∷ []; pty_id = n ∷ []; cwd = none; shell = none; last_command = none });
  created_at = n;
  pane_count = 1;
  is_remote = none;
  remote_os = none;
}

abbrev two : SessionStore
two = record {
  sessions = session 1 (codes "tab-01") ∷ session 2 (codes "tab-03") ∷ [];
  active_session_id = some (2 ∷ []);
  focused_pane_id = none;
  tab_counter = 0;
  pane_cwds = [];
  pane_shell_types = [];
  tab_badges = [];
  pane_active = [];
  pane_last_commands = [];
  pinned_cwds = [];
  is_ipc_ready = true;
  last_session_id = none;
}

two-IsValid : IsValid two
unfolding text_mem text_eq
two-IsValid = record { distinct = (refl, (refl, tt)); known = refl }

session_step-IsValid_example :
    (s' : SessionStore) × (step (removes (2 ∷ [])) two ≡ some s') × IsValid s'
session_step-IsValid_example = session_step-IsValid (removes (2 ∷ [])) two two-IsValid tt

-- An empty list keeps the active session, which is gone then.
stale_active :
    ((set_sessions [] two).sessions ≡ [])
    × ((set_sessions [] two).active_session_id ≡ two.active_session_id)
unfolding set_sessions
stale_active = (refl, refl)

name_of_two : tab_name (codes "tab") 2 ≡ codes "tab-02"
unfolding tab_name
name_of_two = refl

number_of_name : tab_number (codes "tab-03") ≡ some 3
unfolding tab_number
number_of_name = refl

next_tab_name_fresh_example :
    (n : ℕ) × (next_tab_name (codes "tab") two
      ≡ some (tab_name (codes "tab") n, record two { tab_counter = n }))
    × (text_mem (tab_name (codes "tab") n) (codes "tab-01" ∷ codes "tab-03" ∷ []) ≡ false)
    × (tab_number (tab_name (codes "tab") n) ≡ some n)
    × ((j : ℕ) → 1 ≤ j → j < n → number_mem j (used_numbers two.sessions) ≡ true)
unfolding has_line_end
next_tab_name_fresh_example = next_tab_name_fresh (codes "tab") two refl refl
