-- ===== src/Remote/LocalTabs.antt =====
-- The tabs of a device's sessions (src/stores/remoteStore.ts, on src/stores/sessionStore.ts).
use racemo.Base.{
  ◌≡◌, refl, sym, ap, ◌∙◌, inl, inr, Bool, true, false, not, ◌&&◌, ◌||◌, Option, none, some, List,
  [], ◌∷◌, arith, if◌then◌else◌, Bool-cases, Text, text_eq, text_eq_sound, text_eq_iff, truthy,
  dict_get, keep, some_of, text_mem,
}
use racemo.Session.{Session, SessionStore, remove_session}
use racemo.Remote.{RemoteSessionInfo, DeviceConnection, World}
use racemo.Remote.Client.{
  local_id, has_session, close_tabs, close_tabs_of, close_device_tabs, disconnect,
}
use racemo.Remote.Devices.{disconnect_lem, target_ids-one}

-- The ids of the tabs of remote sessions.
abbrev pub local_ids : List RemoteSessionInfo → List Text
local_ids [] = []
local_ids (rs ∷ rest) = local_id rs.id ∷ local_ids rest

abbrev pub local_ids_of : Option DeviceConnection → List Text
local_ids_of none = []
local_ids_of (some c) = local_ids c.sessions

has_session-keep :
    (x id : Text) (xs : List Session)
    → has_session x (keep (λ (s : Session). not (text_eq s.id id)) xs)
      ≡ (has_session x xs && not (text_eq id x))
unfolding keep some_of
has_session-keep x id [] = refl
has_session-keep x id (s ∷ xs) =
    ground
      (arith, has_session-keep x id xs, text_eq_iff s.id id, text_eq_iff s.id x, text_eq_iff id x)

has_session-remove_session :
    (x id : Text) (s : SessionStore)
    → has_session x (remove_session id s).sessions
      ≡ (has_session x s.sessions && not (text_eq id x))
unfolding remove_session
has_session-remove_session x id s = has_session-keep x id s.sessions

absent :
    (x id : Text) (b c : Bool) (xs : List Session)
    → has_session id xs ≡ c
    → (c ≡ true → b ≡ true)
    → b ≡ false
    → has_session x xs ≡ (has_session x xs && not (text_eq id x))
absent x id b c xs e h f = elim (Bool-cases (text_eq id x)) [
  | inl q ↦
      let p : has_session x xs ≡ c = rw (sym (text_eq_sound id x q)) e in
      elim (Bool-cases c) [
        | inl t ↦ absurd (let n : true ≡ false = sym (h t) ∙ f in cc)
        | inr t ↦ rw (p, t) refl
      ]
  | inr q ↦ rw q (ground arith)
]

and_left : (a b : Bool) → (a && b) ≡ true → a ≡ true
and_left a b h = ground arith

and_assoc : (a b c : Bool) → ((a && not b) && not c) ≡ (a && not (b || c))
and_assoc a b c = ground arith

-- A tab that is not there need not be closed.
has_session_step :
    (x id : Text) (there : List Session) (s : SessionStore)
    → ((y : Text) → has_session y s.sessions ≡ true → has_session y there ≡ true)
    → let t = if has_session id there then remove_session id s else s in
      has_session x t.sessions ≡ (has_session x s.sessions && not (text_eq id x))
has_session_step x id there s h = elim (Bool-cases (has_session id there)) [
  | inl e ↦ rw e (has_session-remove_session x id s)
  | inr e ↦
      rw e (absent x id (has_session id there) (has_session id s.sessions) s.sessions refl (h id) e)
]

has_session-close_tabs :
    (x : Text) (rs : List RemoteSessionInfo) (there : List Session) (s : SessionStore)
    → ((y : Text) → has_session y s.sessions ≡ true → has_session y there ≡ true)
    → has_session x (close_tabs rs there s).sessions
      ≡ (has_session x s.sessions && not (text_mem x (local_ids rs)))
unfolding close_tabs text_mem
has_session-close_tabs x [] there s h = ground arith
has_session-close_tabs x (r ∷ rs) there s h =
    let id = local_id r.id in
    let t : SessionStore = if has_session id there then remove_session id s else s in
    let fewer : (y : Text) → has_session y t.sessions ≡ true → has_session y there ≡ true = λ y e.
      h y (
        and_left (has_session y s.sessions) (not (text_eq id y))
          (sym (has_session_step y id there s h) ∙ e)) in
    has_session-close_tabs x rs there t fewer
    ∙ ap (λ b. b && not (text_mem x (local_ids rs))) (has_session_step x id there s h)
    ∙ and_assoc (has_session x s.sessions) (text_eq id x) (text_mem x (local_ids rs))

has_session-close_tabs_of :
    (x : Text) (c : Option DeviceConnection) (s : SessionStore)
    → has_session x (close_tabs_of c s).sessions
      ≡ (has_session x s.sessions && not (text_mem x (local_ids_of c)))
unfolding text_mem
has_session-close_tabs_of x none s = ground arith
has_session-close_tabs_of x (some c) s = has_session-close_tabs x c.sessions s.sessions s (λ y e. e)

-- When a device is disconnected, the tabs that are left are those that were open and that are not of a
-- session of this device.
pub has_session-disconnect :
    (tauri : Bool) (did x : Text) (w : World)
    → truthy did ≡ true
    → has_session x (disconnect tauri (some did) w).local.sessions ≡ (
        has_session x w.local.sessions
        && not (text_mem x (local_ids_of (dict_get did w.remote.connections))))
unfolding close_device_tabs
has_session-disconnect tauri did x w h =
    let (e, f, g) = disconnect_lem tauri (some did) w in
    rw (g, target_ids-one did w.remote h)
      (has_session-close_tabs_of x (dict_get did w.remote.connections) w.local)
