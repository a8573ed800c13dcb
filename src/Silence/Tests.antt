-- ===== src/Silence/Tests.antt =====
-- A terminal in the background, and the properties at it.
use racemo.Base.{
  ◌≡◌, refl, true, false, none, some, [], ◌∷◌, arith, Text, codes, text_eq, dict_get, dict_set,
  dict_get_or, find, text_mem,
}
use racemo.Pane
use racemo.Pane.{collect_pty_ids}
use racemo.Session.{Session, SessionStore}
use racemo.Silence.{
  NoticeSettings, chime, slack, SilenceState, on_silence_output, reset_silence_timer, start_grace,
  clear_silence_timer, on_session_deactivated, on_session_activated, target_session, must_notify,
  notices_for, Silence, check_silence,
}
use racemo.Silence.Notices.{
  check_silence_idem, check_silence-grace, check_silence-on_session_activated,
}

abbrev tab : Text → Text → Session
tab id pty_id = record {
  id = id;
  name = id;
  root_pane =
      Pane.leaf
        (record { id = pty_id; pty_id = pty_id; cwd = none; shell = none; last_command = none });
  created_at = 0;
  pane_count = 1;
  is_remote = none;
  remote_os = none;
}

abbrev two : SessionStore
two = record {
  sessions = tab (codes "a") (codes "p") ∷ tab (codes "b") (codes "q") ∷ [];
  active_session_id = some (codes "b");
  focused_pane_id = none;
  tab_counter = 2;
  pane_cwds = [];
  pane_shell_types = [];
  tab_badges = [];
  pane_active = [];
  pane_last_commands = [];
  pinned_cwds = [];
  is_ipc_ready = true;
  last_session_id = none;
}

abbrev settings : NoticeSettings
settings = record {
  notification_threshold = 5;
  sound_enabled = true;
  notification_enabled = false;
  slack_webhook_url = codes "u";
  telegram_bot_token = [];
  telegram_chat_id = [];
}

abbrev start : SilenceState
start = record {
  session_deactivated_at = [];
  pty_last_output_at = [];
  ptr_notified = [];
  silence_timers = [];
  silence_grace = [];
  notices = [];
}

-- The session of the terminal is left at 1000, and there is output at 3000.
abbrev left : Silence
left = record {
  detector =
      on_silence_output settings 3000 (codes "p")
        (on_session_deactivated 1000 (codes "a") two start);
  store = two;
}

notified :
    (check_silence settings (codes "p") left).detector.notices ≡ chime ∷ slack (codes "a") ∷ []
unfolding check_silence target_session collect_pty_ids text_mem text_eq find must_notify notices_for
    dict_get dict_get_or dict_set on_silence_output on_session_deactivated start_grace
    clear_silence_timer reset_silence_timer
notified = refl

check_silence_idem_example :
    check_silence settings (codes "p") (check_silence settings (codes "p") left)
    ≡ check_silence settings (codes "p") left
check_silence_idem_example = check_silence_idem settings (codes "p") left

check_silence-grace_example :
    let d =
      on_silence_output settings 2000
        (codes "p")
        (on_session_deactivated 1000 (codes "a") two left.detector) in
    check_silence settings (codes "p") (record left { detector = d }) ≡ record left { detector = d }
unfolding target_session collect_pty_ids text_mem text_eq find
check_silence-grace_example =
    check_silence-grace settings 1000 2000 (codes "p") (tab (codes "a") (codes "p")) left refl
      (omega arith)

check_silence-on_session_activated_example :
    let w : Silence = record {
      detector = on_session_activated (codes "a") two left.detector;
      store = two;
    } in
    check_silence settings (codes "p") w ≡ w
unfolding text_mem text_eq find collect_pty_ids
check_silence-on_session_activated_example =
    check_silence-on_session_activated settings (codes "p") (codes "a") two two left.detector refl
