-- ===== src/Silence.antt =====
-- The detector of silence after output (src/lib/silenceDetector.ts). The maps of the module are a
-- state; the timers of silence and of the grace period are maps from the terminal to the time at which
-- they are due, and run by `check_silence` and `grace_ends`. The badges are in the store of the
-- sessions; the sound and the messages that leave are kept in a list. Times are in milliseconds.

pub mod Notices
mod Tests
use racemo.Base.{
  ℕ, ◌+◌, ◌*◌, not, ◌&&◌, Bool, true, false, Option, none, some, List, [], ◌∷◌, ◌++◌, leb,
  if◌then◌else◌, Text, text_eq, truthy, text_mem, find, Dict, dict_get, dict_set, dict_delete,
  dict_get_or,
}
use racemo.Pane.{collect_pty_ids}
use racemo.Session.{Session, SessionStore, increment_tab_badge}

-- What is read of the settings.
pub record NoticeSettings : Type 0 where
  pub notification_threshold : ℕ
  pub sound_enabled : Bool
  pub notification_enabled : Bool
  pub slack_webhook_url : Text
  pub telegram_bot_token : Text
  pub telegram_chat_id : Text

-- The name in a message is that of the session.
pub data Notice : Type 0 where
  chime : Notice
  os_notification : Text → Text → Notice
  slack telegram : Text → Notice

pub record SilenceState : Type 0 where
  pub session_deactivated_at : Dict ℕ
  pub pty_last_output_at : Dict ℕ
  pub ptr_notified : Dict Bool
  pub silence_timers : Dict ℕ
  pub silence_grace : Dict ℕ
  pub notices : List Notice

abbrev pub silence_grace_ms : ℕ
silence_grace_ms = 1500

unfoldable pub clear_silence_timer : Text → SilenceState → SilenceState
clear_silence_timer pty_id s = record s { silence_timers = dict_delete pty_id s.silence_timers }

unfoldable pub reset_silence_timer : NoticeSettings → ℕ → Text → SilenceState → SilenceState
reset_silence_timer st now pty_id s = record s {
  silence_timers = dict_set pty_id (now + st.notification_threshold * 1000) s.silence_timers;
}

abbrev pub has_key {ℓ} : {V : Type ℓ} → Text → Dict V → Bool
has_key k m = elim (dict_get k m) [ none ↦ false | some v ↦ true ]

unfoldable pub on_silence_output : NoticeSettings → ℕ → Text → SilenceState → SilenceState
unfolding reset_silence_timer
on_silence_output st now pty_id s =
    let t : SilenceState = record s {
      pty_last_output_at = dict_set pty_id now s.pty_last_output_at;
      ptr_notified = dict_set pty_id false s.ptr_notified;
    } in
    if has_key pty_id s.silence_grace then t else reset_silence_timer st now pty_id t

-- The timer of silence is stopped, and that of the grace period is started anew, for each terminal.
unfoldable pub start_grace : ℕ → List Text → SilenceState → SilenceState
unfolding clear_silence_timer
start_grace now [] s = s
start_grace now (id ∷ ids) s =
    let t = clear_silence_timer id s in
    start_grace now ids
      (record t { silence_grace = dict_set id (now + silence_grace_ms) t.silence_grace })

abbrev pub pty_ids_of : Text → List Session → List Text
pty_ids_of session_id sessions = elim (find (λ (x : Session). text_eq x.id session_id) sessions) [
  | none ↦ []
  | some x ↦ collect_pty_ids x.root_pane
]

unfoldable pub on_session_deactivated : ℕ → Text → SessionStore → SilenceState → SilenceState
on_session_deactivated now session_id store s =
    start_grace now (pty_ids_of session_id store.sessions) (record s {
      session_deactivated_at =
          dict_set session_id (now + silence_grace_ms) s.session_deactivated_at;
    })

-- The timer of a grace period runs.
unfoldable pub grace_ends : NoticeSettings → ℕ → Text → SilenceState → SilenceState
unfolding reset_silence_timer
grace_ends st now pty_id s =
    let t : SilenceState = record s { silence_grace = dict_delete pty_id s.silence_grace } in
    if has_key pty_id s.pty_last_output_at then reset_silence_timer st now pty_id t else t

unfoldable pub quiet : List Text → SilenceState → SilenceState
unfolding clear_silence_timer
quiet [] s = s
quiet (id ∷ ids) s =
    let t = clear_silence_timer id s in
    quiet ids (record t { ptr_notified = dict_set id true t.ptr_notified })

unfoldable pub on_session_activated : Text → SessionStore → SilenceState → SilenceState
on_session_activated session_id store s = quiet (pty_ids_of session_id store.sessions) s

unfoldable pub remove_silence_detector : Text → SilenceState → SilenceState
remove_silence_detector pty_id s = record s {
  silence_timers = dict_delete pty_id s.silence_timers;
  pty_last_output_at = dict_delete pty_id s.pty_last_output_at;
  ptr_notified = dict_delete pty_id s.ptr_notified;
  silence_grace = dict_delete pty_id s.silence_grace;
}

unfoldable pub remove_session_deactivation : Text → SilenceState → SilenceState
remove_session_deactivation session_id s = record s {
  session_deactivated_at = dict_delete session_id s.session_deactivated_at;
}

-- The session that holds a terminal.
unfoldable pub target_session : Text → List Session → Option Session
target_session pty_id sessions =
    find (λ (x : Session). text_mem pty_id (collect_pty_ids x.root_pane)) sessions

abbrev pub is_active : Text → SessionStore → Bool
is_active id store = elim store.active_session_id [ none ↦ false | some a ↦ text_eq id a ]

-- The guards of `checkSilence` that follow the search for the session.
unfoldable pub must_notify : Text → Session → SessionStore → SilenceState → Bool
must_notify pty_id x store s =
    truthy x.id && not (is_active x.id store) && elim (dict_get x.id s.session_deactivated_at) [
      | none ↦ false
      | some at ↦ not (leb (dict_get_or pty_id 0 s.pty_last_output_at) at)
    ]

unfoldable pub notices_for : NoticeSettings → Session → List Notice
notices_for st x =
    ((if st.sound_enabled then chime ∷ [] else [])
      ++ (if st.notification_enabled then os_notification x.name x.id ∷ [] else []))
    ++ ((if truthy st.slack_webhook_url then slack x.name ∷ [] else [])
        ++ (if truthy st.telegram_bot_token && truthy st.telegram_chat_id
            then telegram x.name ∷ []
            else []))

-- The state of the detector and the store of the sessions, which has the badges.
pub record Silence : Type 0 where
  pub detector : SilenceState
  pub store : SessionStore

abbrev pub notify_session : NoticeSettings → Text → Option Session → Silence → Silence
notify_session st pty_id none w = w
notify_session st pty_id (some x) w =
    if must_notify pty_id x w.store w.detector
    then record {
      detector = record w.detector {
        ptr_notified = dict_set pty_id true w.detector.ptr_notified;
        notices = w.detector.notices ++ notices_for st x;
      };
      store = increment_tab_badge x.id w.store;
    }
    else w

-- The timer of silence runs. It stays in its map.
unfoldable pub check_silence : NoticeSettings → Text → Silence → Silence
check_silence st pty_id w =
    if dict_get_or pty_id false w.detector.ptr_notified
    then w
    else notify_session st pty_id (target_session pty_id w.store.sessions) w
