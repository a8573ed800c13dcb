-- ===== src/Auth/Tests.antt =====
-- A login that is cancelled while its poller waits for an answer.
use racemo.Base.{◌≡◌, refl, true, none, some, [], codes, starts_with, text_eq}
use racemo.Remote.{initial_remote}
use racemo.Auth.{
  AuthUser, starter, TokenResponse, Poller, AuthWorld, initial_auth, includes, cancel_login,
  poll_answered, take_user,
}
use racemo.Auth.Account.{answered, IsConsistent, AuthStep-IsConsistent}

abbrev user : AuthUser
user = record {
  id = 1;
  github_id = 2;
  login = codes "me";
  name = none;
  avatar_url = none;
  plan = starter;
}

abbrev start : AuthWorld
unfolding initial_auth initial_remote
start = record {
  auth = initial_auth;
  remote = initial_remote;
  waiting = [];
  asked = [];
  dialogs = [];
}

abbrev poller : Poller
poller = record { device_code = codes "d"; interval = 5; deadline = 900000 }

abbrev success : TokenResponse
success = record {
  status = codes "success";
  access_token = none;
  refresh_token = none;
  user = some user;
  message = none;
}

connection_found : includes (codes "no Connection") (codes "Connection") ≡ true
unfolding includes starts_with
connection_found = refl

AuthStep-IsConsistent_example : IsConsistent (poll_answered poller success start).auth
unfolding start initial_auth
AuthStep-IsConsistent_example = AuthStep-IsConsistent (answered start poller success) refl

-- The answer that comes after the login was cancelled logs the user in.
cancelled_too_late : (poll_answered poller success (cancel_login start)).auth.user ≡ some user
unfolding poll_answered take_user text_eq
cancelled_too_late = refl
