-- ===== src/Auth.antt =====
-- The store of the account (src/stores/authStore.ts) and the polling for its token. What waits for the
-- backend is cut in two; a poller whose timer runs is in `waiting`, with the delay that was set, and one
-- whose question is at the backend is in `asked`. The dialog's texts and the address of the server are
-- arguments; the store of the remote connections has the mark that is cleared.
pub mod Account
mod Tests
use racemo.Base.{
  ℕ, ◌+◌, ◌*◌, ◌||◌, not, Bool, true, false, Option, none, some, List, [], ◌∷◌, ◌++◌, ltb,
  if◌then◌else◌, Text, codes, text_eq, truthy, starts_with,
}
use racemo.Remote.{RemoteStore, set_pending_host_after_login}

pub data Plan : Type 0 where
  starter pro : Plan

pub record AuthUser : Type 0 where
  pub id : ℕ
  pub github_id : ℕ
  pub login : Text
  pub name : Option Text
  pub avatar_url : Option Text
  pub plan : Plan

pub record DeviceCodeResponse : Type 0 where
  pub device_code : Text
  pub user_code : Text
  pub verification_uri : Text
  pub expires_in : ℕ
  pub interval : ℕ

pub record TokenResponse : Type 0 where
  pub status : Text
  pub access_token : Option Text
  pub refresh_token : Option Text
  pub user : Option AuthUser
  pub message : Option Text

pub record DeviceFlow : Type 0 where
  pub user_code : Option Text
  pub verification_uri : Option Text
  pub device_code : Option Text
  pub is_polling : Bool
  pub is_dialog_open : Bool
  pub interval : ℕ

pub record AuthStore : Type 0 where
  pub user : Option AuthUser
  pub is_authenticated : Bool
  pub is_loading : Bool
  pub is_starting_login : Bool
  pub error : Option Text
  pub device_flow : DeviceFlow

-- The arguments of `pollForToken`, with its deadline.
pub record Poller : Type 0 where
  pub device_code : Text
  pub interval : ℕ
  pub deadline : ℕ

pub record AuthWorld : Type 0 where
  pub auth : AuthStore
  pub remote : RemoteStore
  pub waiting : List (Poller × ℕ)
  pub asked : List Poller
  pub dialogs : List Text

abbrev pub no_flow : DeviceFlow
no_flow = record {
  user_code = none;
  verification_uri = none;
  device_code = none;
  is_polling = false;
  is_dialog_open = false;
  interval = 5;
}

unfoldable pub initial_auth : AuthStore
initial_auth = record {
  user = none;
  is_authenticated = false;
  is_loading = true;
  is_starting_login = false;
  error = none;
  device_flow = no_flow;
}

abbrev pub on_auth : (AuthStore → AuthStore) → AuthWorld → AuthWorld
on_auth f w = record w { auth = f w.auth }

abbrev pub clear_pending_intents : AuthWorld → AuthWorld
unfolding set_pending_host_after_login
clear_pending_intents w = record w { remote = set_pending_host_after_login false w.remote }

-- `s.includes(t)`
unfoldable pub includes : Text → Text → Bool
includes [] t = starts_with [] t
includes (c ∷ s) t = starts_with (c ∷ s) t || includes s t

unfoldable pub start_login : AuthStore → AuthStore
start_login s = record s { error = none; is_starting_login = true }

unfoldable pub start_login_done : ℕ → DeviceCodeResponse → AuthWorld → AuthWorld
start_login_done now res w =
    let p : Poller = record {
      device_code = res.device_code;
      interval = res.interval;
      deadline = now + res.expires_in * 1000;
    } in
    record w {
      auth = record w.auth {
        device_flow = record {
          user_code = some res.user_code;
          verification_uri = some res.verification_uri;
          device_code = some res.device_code;
          is_polling = true;
          is_dialog_open = true;
          interval = res.interval;
        };
        is_starting_login = false;
      };
      waiting = w.waiting ++ (p, res.interval * 1000) ∷ [];
    }

abbrev pub is_unreachable : Text → Bool
unfolding includes
is_unreachable e =
    includes e (codes "error sending request")
    || includes e (codes "unreachable")
    || includes e (codes "Connection")

unfoldable pub start_login_failed : Text → Text → AuthWorld → AuthWorld
unfolding is_unreachable
start_login_failed url e w =
    let shown = codes "Signaling server unreachable (" ++ url ++ codes ")" in
    let failed =
      λ (t : Text) (s : AuthStore). record s { error = some t; is_starting_login = false } in
    if is_unreachable e
    then record w { auth = failed shown w.auth; dialogs = w.dialogs ++ shown ∷ [] }
    else on_auth (failed e) w

unfoldable pub cancel_login : AuthWorld → AuthWorld
unfolding clear_pending_intents
cancel_login w =
    clear_pending_intents
      (on_auth (λ (s : AuthStore). record s { device_flow = no_flow; error = none }) w)

unfoldable pub dismiss_login_dialog : AuthStore → AuthStore
dismiss_login_dialog s = record s { device_flow = record s.device_flow { is_dialog_open = false } }

-- The end of `logout`, whether the backend's call failed or not.
unfoldable pub log_out : AuthStore → AuthStore
log_out s = record s { user = none; is_authenticated = false; error = none }

unfoldable pub check_auth : AuthStore → AuthStore
check_auth s = record s { is_loading = true }

abbrev pub is_some {ℓ} : {A : Type ℓ} → Option A → Bool
is_some none = false
is_some (some a) = true

unfoldable pub check_auth_done : Option AuthUser → AuthStore → AuthStore
check_auth_done user s = record s {
  user = user;
  is_authenticated = is_some user;
  is_loading = false;
}

unfoldable pub check_auth_failed : AuthStore → AuthStore
check_auth_failed s = record s { user = none; is_authenticated = false; is_loading = false }

-- The polling ends with an error.
unfoldable pub poll_stops : Text → AuthWorld → AuthWorld
unfolding clear_pending_intents
poll_stops e w = clear_pending_intents (
    on_auth
      (λ (s : AuthStore). record s {
        error = some e;
        device_flow = record s.device_flow { is_polling = false; is_dialog_open = false };
      })
      w)

-- The timer of a poller runs.
unfoldable pub poll : ℕ → Poller → AuthWorld → AuthWorld
unfolding poll_stops
poll now p w =
    if not w.auth.device_flow.is_polling
    then w
    else if ltb p.deadline now
    then poll_stops (codes "Login timed out. Please try again.") w
    else record w { asked = w.asked ++ p ∷ [] }

abbrev pub error_text : TokenResponse → Text
error_text res = elim res.message [
  | none ↦ codes "Login failed: " ++ res.status
  | some m ↦ if truthy m then m else codes "Login failed: " ++ res.status
]

abbrev pub is_status : Text → TokenResponse → Bool
is_status t res = text_eq res.status t

-- An answer that does not log in.
unfoldable pub go_on : Poller → TokenResponse → AuthWorld → AuthWorld
unfolding poll_stops
go_on p res w =
    if is_status (codes "slow_down") res
    then record w { waiting = w.waiting ++ (p, (p.interval + 5) * 1000) ∷ [] }
    else if is_status (codes "authorization_pending") res
    then record w { waiting = w.waiting ++ (p, p.interval * 1000) ∷ [] }
    else poll_stops (error_text res) w

abbrev pub logged_in : AuthUser → AuthStore → AuthStore
logged_in u s = record s {
  user = some u;
  is_authenticated = true;
  device_flow = no_flow;
  error = none;
}

abbrev pub take_user : Poller → TokenResponse → Option AuthUser → AuthWorld → AuthWorld
unfolding go_on
take_user p res none w = go_on p res w
take_user p res (some u) w =
    if is_status (codes "success") res then on_auth (logged_in u) w else go_on p res w

-- The backend answers a poller.
unfoldable pub poll_answered : Poller → TokenResponse → AuthWorld → AuthWorld
unfolding take_user
poll_answered p res w = take_user p res res.user w

unfoldable pub poll_failed : Text → AuthWorld → AuthWorld
unfolding poll_stops
poll_failed e w = poll_stops e w
