-- ===== src/Remote/Events.antt =====
-- The events of the backend that the store of the remote connections listens to
-- (src/stores/remoteStore.ts). `parse` is `JSON.parse` of a layout; `none` is that it throws.
use racemo.Base.{
  ℕ, not, ◌&&◌, ◌||◌, Bool, false, Option, none, some, List, [], ◌∷◌, ◌++◌, map, if◌then◌else◌,
  Text, codes, text_eq, truthy, Dict, dict_get, dict_set, dict_delete, keep, find, text_mem,
}
use racemo.Pane.{PaneNode, collect_pty_ids, collect_leaf_ids, collect_leaf_cwds, first_leaf_id}
use racemo.Session.{Session, SessionStore, update_session, set_pane_cwd, set_focused_pane}
use racemo.Remote.{
  ConnectionStep, RemoteClient, RemoteSessionInfo, DeviceConnection, RemoteStore,
  start_account_hosting, dispose_terminals, clear_buffers, set_share_alive, logout, World,
  on_remote, on_local, tell, normalize_status, values, derive_client_status, all_sessions,
  all_pane_ids,
}
use racemo.Remote.Client.{
  local_id, close_tabs_of, keys_of, unmap_device, new_connection, refresh_remote_sessions,
}

unfoldable pub on_host_status : Text → Option Text → Option Text → World → World
on_host_status status pairing_code error w =
    if text_eq status (codes "needs_reauth")
    then tell start_account_hosting w
    else on_remote
        (λ (s : RemoteStore). record s {
          host_status = normalize_status status;
          pairing_code = elim pairing_code [ none ↦ s.pairing_code | some c ↦ some c ];
          host_error = error;
        })
        w

unfoldable pub on_reauth_done : RemoteStore → RemoteStore
on_reauth_done s = record s { host_status = codes "waiting" }

unfoldable pub on_reauth_failed : World → World
on_reauth_failed w =
    on_remote
      (λ (s : RemoteStore). record s { host_status = codes "disconnected"; host_error = none })
      (tell logout (tell (set_share_alive false) w))

-- `x ?? d`
abbrev pub or_else : Option Text → Text → Text
or_else none d = d
or_else (some t) d = t

unfoldable pub forget_device : Text → Option Text → RemoteStore → RemoteStore
forget_device did error s =
    let connections = dict_delete did s.connections in
    let remaining = all_sessions (values connections) in
    record s {
      connections = connections;
      client_status = derive_client_status connections;
      client_error = error;
      remote_sessions = remaining;
      remote_pane_ids = all_pane_ids remaining;
      pane_to_device = unmap_device did s.pane_to_device;
      session_to_device = unmap_device did s.session_to_device;
    }

-- What is done for a device that has a connection, before it is forgotten.
abbrev pub release_device : Text → Option DeviceConnection → World → World
release_device did none w = w
release_device did (some c) w =
    let ids = keys_of (did ∷ []) w.remote.pane_to_device in
    on_local (close_tabs_of (some c)) (tell (clear_buffers ids) (tell (dispose_terminals ids) w))

abbrev pub updated_connection :
    Text → Text → Option Text → Option DeviceConnection → DeviceConnection
updated_connection did status error none = new_connection did status error
updated_connection did status error (some c) = record c { status = status; error = error }

unfoldable pub set_device_status : Text → Text → Option Text → RemoteStore → RemoteStore
set_device_status did status error s =
    let connections =
      dict_set did (updated_connection did status error (dict_get did s.connections))
        s.connections in
    record s {
      connections = connections;
      client_status = derive_client_status connections;
      client_error = error;
    }

abbrev pub is_down : Text → Bool
is_down status = text_eq status (codes "disconnected") || text_eq status (codes "failed")

unfoldable pub on_client_status : Bool → Text → Option Text → Option Text → World → World
unfolding normalize_status
on_client_status tauri status error device_id w =
    let did = or_else device_id (codes "__pairing__") in
    let normalized = normalize_status status in
    let up = on_remote (set_device_status did normalized error) w in
    if is_down normalized
    then on_remote (forget_device did error)
        (release_device did (dict_get did w.remote.connections) w)
    else (if text_eq normalized (codes "connected")
        then refresh_remote_sessions tauri (some did) up
        else up)

abbrev pub mapped_to : Text → Option Text → Bool
mapped_to did none = false
mapped_to did (some d) = text_eq d did

abbrev pub map_output : Text → Option Text → Dict Text → Dict Text
map_output pane_id none m = m
map_output pane_id (some d) m =
    if truthy d && not (mapped_to d (dict_get pane_id m)) then dict_set pane_id d m else m

unfoldable pub on_pty_output : Text → Option Text → RemoteStore → RemoteStore
on_pty_output pane_id device_id s = record s {
  remote_pane_ids =
      if text_mem pane_id s.remote_pane_ids
      then s.remote_pane_ids
      else s.remote_pane_ids ++ pane_id ∷ [];
  pane_to_device = map_output pane_id device_id s.pane_to_device;
}

unfoldable pub map_all : Text → List Text → Dict Text → Dict Text
map_all did [] m = m
map_all did (k ∷ ks) m = map_all did ks (dict_set k did m)

abbrev pub session_ids : List RemoteSessionInfo → List Text
session_ids [] = []
session_ids (s ∷ ss) = s.id ∷ session_ids ss

abbrev pub with_sessions :
    Text
    → List RemoteSessionInfo
    → Option DeviceConnection
    → Dict DeviceConnection
    → Dict DeviceConnection
with_sessions did sessions none m = m
with_sessions did sessions (some c) m = dict_set did (record c { sessions = sessions }) m

unfoldable pub on_session_list : List RemoteSessionInfo → Option Text → RemoteStore → RemoteStore
on_session_list sessions device_id s =
    let did = or_else device_id (codes "__unknown__") in
    let connections = with_sessions did sessions (dict_get did s.connections) s.connections in
    record s {
      connections = connections;
      remote_sessions = all_sessions (values connections);
      remote_sessions_loading = false;
      session_to_device = map_all did (session_ids sessions) s.session_to_device;
      pane_to_device = map_all did (all_pane_ids sessions) s.pane_to_device;
    }

-- A layout that came: its text, its number of panes and the ids of its terminals.
pub record Layout : Type 0 where
  pub session_id : Text
  pub layout_json : Text
  pub pane_count : ℕ
  pub pane_ids : List Text

abbrev pub laid_out : Layout → RemoteSessionInfo → RemoteSessionInfo
laid_out l s =
    if text_eq s.id l.session_id
    then record s { layout_json = l.layout_json; pane_count = l.pane_count; pane_ids = l.pane_ids }
    else s

abbrev pub lay_out_active : Layout → Option RemoteSessionInfo → Option RemoteSessionInfo
lay_out_active l none = none
lay_out_active l (some s) = some (laid_out l s)

abbrev pub lay_out_device :
    Layout → Text → Option DeviceConnection → Dict DeviceConnection → Dict DeviceConnection
lay_out_device l did none m = m
lay_out_device l did (some c) m =
    dict_set did (record c { sessions = map (laid_out l) c.sessions }) m

abbrev pub lay_out_connections :
    Layout → Option Text → Dict DeviceConnection → Dict DeviceConnection
lay_out_connections l none m = m
lay_out_connections l (some did) m =
    if truthy did then lay_out_device l did (dict_get did m) m else m

abbrev pub map_panes : Option Text → List Text → Dict Text → Dict Text
map_panes none ids m = m
map_panes (some did) ids m = if truthy did then map_all did ids m else m

unfoldable pub lay_out : Layout → Option Text → RemoteStore → RemoteStore
lay_out l did s =
    let connections = lay_out_connections l did s.connections in
    record s {
      pane_to_device = map_panes did l.pane_ids s.pane_to_device;
      connections = connections;
      active_remote_session = lay_out_active l s.active_remote_session;
      remote_sessions = all_sessions (values connections);
    }

unfoldable pub set_cwds : List (Text × Text) → SessionStore → SessionStore
set_cwds [] s = s
set_cwds ((pty_id, cwd) ∷ rest) s = set_cwds rest (set_pane_cwd pty_id cwd s)

-- The focus goes to the first leaf when the pane that had it is gone.
abbrev pub refocus : Text → PaneNode → Option Text → Option Text → SessionStore → SessionStore
refocus id root (some pane) (some active) s =
    if truthy pane && text_eq active id && not (text_mem pane (collect_leaf_ids root))
    then set_focused_pane (first_leaf_id root) s
    else s
refocus id root _ _ s = s

-- `focused` and `active` are those before the update.
abbrev pub sync_local : Layout → PaneNode → Option Session → SessionStore → SessionStore
sync_local l root none s = s
sync_local l root (some x) s =
    refocus (local_id l.session_id) root s.focused_pane_id s.active_session_id (
      set_cwds (collect_leaf_cwds root)
        (update_session (record x { root_pane = root; pane_count = l.pane_count }) s))

abbrev pub local_session : Layout → SessionStore → Option Session
local_session l s = find (λ (x : Session). text_eq x.id (local_id l.session_id)) s.sessions

abbrev pub device_of : Option Text → Text → RemoteStore → Option Text
device_of none session_id s = dict_get session_id s.session_to_device
device_of (some d) session_id s = some d

unfoldable pub on_layout_update :
    (Text → Option PaneNode) → Text → Text → ℕ → Option Text → World → World
on_layout_update parse session_id layout_json pane_count device_id w = elim (parse layout_json) [
  | none ↦ w
  | some root ↦
      let l : Layout = record {
        session_id = session_id;
        layout_json = layout_json;
        pane_count = pane_count;
        pane_ids = collect_pty_ids root;
      } in
      on_local (λ (s : SessionStore). sync_local l root (local_session l s) s)
        (on_remote (lay_out l (device_of device_id session_id w.remote)) w)
]

unfoldable pub on_connection_request : Text → Text → Text → RemoteStore → RemoteStore
on_connection_request room_code from_login from_device s = record s {
  pending_connection_requests =
      s.pending_connection_requests
      ++ record { room_code = room_code; from_login = from_login; from_device = from_device } ∷ [];
}

unfoldable pub on_client_connected : ℕ → Text → Text → Text → RemoteStore → RemoteStore
on_client_connected now room_code from_login from_device s = record s {
  connected_clients =
      s.connected_clients
      ++ record {
        id = room_code;
        name =
            if text_eq from_login (codes "unknown") then from_device else codes "@" ++ from_login;
        connected_at = now;
      }
        ∷ [];
}

unfoldable pub on_client_disconnected : Text → RemoteStore → RemoteStore
on_client_disconnected room_code s = record s {
  connected_clients = keep (λ (c : RemoteClient). not (text_eq c.id room_code)) s.connected_clients;
}

abbrev pub with_step :
    Text → ConnectionStep → Option DeviceConnection → Dict DeviceConnection → Dict DeviceConnection
with_step did e none m = m
with_step did e (some c) m =
    dict_set did (record c { connection_steps = c.connection_steps ++ e ∷ [] }) m

unfoldable pub on_client_progress : Text → Text → ℕ → Option Text → RemoteStore → RemoteStore
on_client_progress step label elapsed_ms device_id s =
    let did = or_else device_id (codes "__pairing__") in
    let e : ConnectionStep = record { step = step; label = label; elapsed_ms = elapsed_ms } in
    record s {
      connections = with_step did e (dict_get did s.connections) s.connections;
      connection_steps = s.connection_steps ++ e ∷ [];
    }
