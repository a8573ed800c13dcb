-- ===== src/Auth/Account.antt =====
-- Who is logged in, and when (src/stores/authStore.ts).
use racemo.Base.{
  ℕ, ◌≡◌, refl, Bool, true, false, not, Option, none, some, ltb, if◌then◌else◌, Text, codes,
}
use racemo.Auth.{
  AuthUser, DeviceCodeResponse, TokenResponse, AuthStore, Poller, AuthWorld, on_auth, is_some,
  start_login, start_login_done, is_unreachable, start_login_failed, cancel_login,
  dismiss_login_dialog, log_out, check_auth, check_auth_done, check_auth_failed, poll_stops, poll,
  is_status, go_on, take_user, poll_answered, poll_failed,
}

-- The operations, the timers and the answers, in any order.
pub data AuthStep : AuthWorld → AuthWorld → Type 0 where
  starts : (w : AuthWorld) → AuthStep w (on_auth start_login w)
  started :
      (w : AuthWorld) (now : ℕ) (r : DeviceCodeResponse) → AuthStep w (start_login_done now r w)
  starting_failed : (w : AuthWorld) (url e : Text) → AuthStep w (start_login_failed url e w)
  cancels : (w : AuthWorld) → AuthStep w (cancel_login w)
  dismisses : (w : AuthWorld) → AuthStep w (on_auth dismiss_login_dialog w)
  logs_out : (w : AuthWorld) → AuthStep w (on_auth log_out w)
  checks : (w : AuthWorld) → AuthStep w (on_auth check_auth w)
  checked : (w : AuthWorld) (u : Option AuthUser) → AuthStep w (on_auth (check_auth_done u) w)
  checking_failed : (w : AuthWorld) → AuthStep w (on_auth check_auth_failed w)
  polls : (w : AuthWorld) (now : ℕ) (p : Poller) → AuthStep w (poll now p w)
  answered : (w : AuthWorld) (p : Poller) (r : TokenResponse) → AuthStep w (poll_answered p r w)
  failed : (w : AuthWorld) (e : Text) → AuthStep w (poll_failed e w)

abbrev pub IsConsistent : AuthStore → Type 0
IsConsistent s = s.is_authenticated ≡ is_some s.user

if-IsConsistent :
    (b : Bool) (u v : AuthWorld)
    → IsConsistent u.auth
    → IsConsistent v.auth
    → IsConsistent (if b then u else v).auth
if-IsConsistent true u v h k = h
if-IsConsistent false u v h k = k

go_on-IsConsistent :
    (p : Poller) (r : TokenResponse) (w : AuthWorld)
    → IsConsistent w.auth
    → IsConsistent (go_on p r w).auth
unfolding go_on poll_stops
go_on-IsConsistent p r w h =
    if-IsConsistent (is_status (codes "slow_down") r) _ _ h
      (if-IsConsistent (is_status (codes "authorization_pending") r) _ _ h h)

take_user-IsConsistent :
    (p : Poller) (r : TokenResponse) (u : Option AuthUser) (w : AuthWorld)
    → IsConsistent w.auth
    → IsConsistent (take_user p r u w).auth
unfolding take_user
take_user-IsConsistent p r none w h = go_on-IsConsistent p r w h
take_user-IsConsistent p r (some u) w h =
    if-IsConsistent (is_status (codes "success") r) _ _ refl (go_on-IsConsistent p r w h)

-- Every operation, timer and answer keeps the account marked as logged in just when there is a user.
pub AuthStep-IsConsistent :
    {v w : AuthWorld} → AuthStep v w → IsConsistent v.auth → IsConsistent w.auth
unfolding start_login start_login_done start_login_failed cancel_login dismiss_login_dialog log_out
    check_auth check_auth_done check_auth_failed poll poll_stops poll_answered poll_failed
AuthStep-IsConsistent (logs_out w) h = refl
AuthStep-IsConsistent (checked w u) h = refl
AuthStep-IsConsistent (checking_failed w) h = refl
AuthStep-IsConsistent (starting_failed w url e) h = if-IsConsistent (is_unreachable e) _ _ h h
AuthStep-IsConsistent (polls w now p) h =
    if-IsConsistent (not w.auth.device_flow.is_polling) _ _ h
      (if-IsConsistent (ltb p.deadline now) _ _ h h)
AuthStep-IsConsistent (answered w p r) h = take_user-IsConsistent p r r.user w h
AuthStep-IsConsistent _ h = h
