-- ===== src/Remote/Client.antt =====
-- Connecting and disconnecting devices (src/stores/remoteStore.ts).
use racemo.Base.{
  not, ◌||◌, Bool, true, false, Option, none, some, List, [], ◌∷◌, ◌++◌, if◌then◌else◌, Text, codes,
  text_eq, truthy, Dict, dict_get, dict_set, dict_delete, dict_get_or, some_of, text_mem,
}
use racemo.Session.{Session, SessionStore, remove_session}
use racemo.Remote.{
  RemoteSessionInfo, pairing, account, DeviceConnection, RemoteStore, connect_to_remote_host,
  connect_to_device_account, disconnect_remote, request_remote_session_list, browser_connect,
  browser_disconnect, browser_session_list, dispose_terminals, clear_buffers, dispose_all_terminals,
  clear_all_buffers, World, on_remote, on_local, tell, is_remote_id, invalid_id, values, keys,
  derive_client_status, all_sessions, all_pane_ids,
}

-- `localId`
unfoldable pub local_id : Text → Text
local_id id = codes "remote:" ++ id

abbrev pub has_session : Text → List Session → Bool
has_session id sessions = some_of (λ (x : Session). text_eq x.id id) sessions

-- The tabs of a device's sessions are closed, those that were there when the loop began.
unfoldable pub close_tabs : List RemoteSessionInfo → List Session → SessionStore → SessionStore
close_tabs [] there s = s
close_tabs (rs ∷ rest) there s =
    close_tabs rest there
      (if has_session (local_id rs.id) there then remove_session (local_id rs.id) s else s)

abbrev pub close_tabs_of : Option DeviceConnection → SessionStore → SessionStore
close_tabs_of none s = s
close_tabs_of (some c) s = close_tabs c.sessions s.sessions s

unfoldable pub close_device_tabs : List Text → Dict DeviceConnection → SessionStore → SessionStore
close_device_tabs [] connections s = s
close_device_tabs (did ∷ dids) connections s =
    close_device_tabs dids connections (close_tabs_of (dict_get did connections) s)

-- The keys that are mapped to one of the devices.
unfoldable pub keys_of : List Text → Dict Text → List Text
keys_of dids [] = []
keys_of dids ((k, d) ∷ m) = let rest = keys_of dids m in if text_mem d dids then k ∷ rest else rest

-- The loop that deletes the entries of one device.
unfoldable pub unmap_device : Text → Dict Text → Dict Text
unmap_device did [] = []
unmap_device did ((k, d) ∷ m) =
    let rest = unmap_device did m in if text_eq d did then rest else (k, d) ∷ rest

unfoldable pub unmap_devices : List Text → Dict Text → Dict Text
unmap_devices [] m = m
unmap_devices (did ∷ dids) m = unmap_devices dids (unmap_device did m)

unfoldable pub delete_all {ℓ} : {V : Type ℓ} → List Text → Dict V → Dict V
delete_all [] m = m
delete_all (k ∷ ks) m = delete_all ks (dict_delete k m)

-- `if (x)` and `!x` for an optional text.
abbrev pub given : Option Text → Bool
given none = false
given (some t) = truthy t

abbrev pub same_text : Option Text → Option Text → Bool
same_text none none = true
same_text none (some _) = false
same_text (some _) none = false
same_text (some a) (some b) = text_eq a b

abbrev pub target_ids : Option Text → RemoteStore → List Text
target_ids none s = keys s.connections
target_ids (some d) s = if truthy d then d ∷ [] else keys s.connections

-- Whether the device of the active session is one of those that go.
abbrev pub session_goes : List Text → Option RemoteSessionInfo → Dict Text → Bool
session_goes dids none m = false
session_goes dids (some a) m = text_mem (dict_get_or a.id [] m) dids

abbrev pub release : Option Text → World → World
release device_id w =
    let ids = keys_of (target_ids device_id w.remote) w.remote.pane_to_device in
    if given device_id
    then tell (clear_buffers ids) (tell (dispose_terminals ids) w)
    else tell clear_all_buffers (tell dispose_all_terminals w)

-- The new state of the store.
unfoldable pub forget_devices : Option Text → RemoteStore → RemoteStore
forget_devices device_id s =
    let dids = target_ids device_id s in
    let connections = delete_all dids s.connections in
    let remaining = all_sessions (values connections) in
    let clear_active =
      not (given device_id)
      || same_text s.connected_device_id device_id
      || not (given s.connected_device_id) in
    let clear_session =
      not (given device_id) || session_goes dids s.active_remote_session s.session_to_device in
    record s {
      connections = connections;
      client_status = derive_client_status connections;
      client_error = none;
      remote_pane_ids = all_pane_ids remaining;
      remote_sessions = remaining;
      active_remote_session = if clear_session then none else s.active_remote_session;
      connected_device_id = if clear_active then none else s.connected_device_id;
      connection_steps = if clear_active then [] else s.connection_steps;
      connection_mode = if clear_active then none else s.connection_mode;
      pane_to_device = unmap_devices dids s.pane_to_device;
      session_to_device = unmap_devices dids s.session_to_device;
    }

abbrev pub valid_or_absent : Option Text → Bool
valid_or_absent none = true
valid_or_absent (some d) = not (truthy d) || is_remote_id d

abbrev pub client_fails : Text → World → World
client_fails e w = on_remote (λ (s : RemoteStore). record s { client_error = some e }) w

abbrev pub send_disconnect : Bool → Option Text → World → World
send_disconnect tauri device_id w =
    if not tauri
    then tell browser_disconnect w
    else if valid_or_absent device_id
    then tell (disconnect_remote device_id) w
    else client_fails (invalid_id (codes "device ID")) w

-- `tauri` is the test `isTauri`.
unfoldable pub disconnect : Bool → Option Text → World → World
disconnect tauri device_id w =
    let dids = target_ids device_id w.remote in
    send_disconnect tauri device_id (
      on_remote (forget_devices device_id)
        (release device_id (on_local (close_device_tabs dids w.remote.connections) w)))

unfoldable pub disconnect_failed : Text → World → World
disconnect_failed e w = client_fails e w

unfoldable pub connect_to_host_failed : Text → World → World
connect_to_host_failed e w =
    on_remote
      (λ (s : RemoteStore). record s { client_status = codes "failed"; client_error = some e }) w

unfoldable pub connect_to_host : Bool → Text → World → World
connect_to_host tauri code w =
    let v =
      on_remote
        (λ (s : RemoteStore). record s {
          client_error = none;
          client_status = codes "connecting";
          connection_steps = [];
          connection_mode = some pairing;
          connected_device_id = some (codes "__pairing__");
        })
        w in
    if not tauri
    then tell (browser_connect code) v
    else if is_remote_id code
    then tell (connect_to_remote_host code) v
    else connect_to_host_failed (invalid_id (codes "pairing code")) v

abbrev pub new_connection : Text → Text → Option Text → DeviceConnection
new_connection did status error = record {
  device_id = did;
  status = status;
  error = error;
  sessions = [];
  connection_steps = [];
  connection_mode = some account;
}

abbrev pub failed_connection :
    Text → Option DeviceConnection → Text → Dict DeviceConnection → Dict DeviceConnection
failed_connection did none e m = m
failed_connection did (some c) e m =
    dict_set did (record c { status = codes "failed"; error = some e }) m

unfoldable pub connect_to_device_failed : Text → Text → World → World
connect_to_device_failed did e w =
    on_remote
      (λ (s : RemoteStore).
        let connections = failed_connection did (dict_get did s.connections) e s.connections in
        record s {
          connections = connections;
          client_status = derive_client_status connections;
          client_error = some e;
        })
      w

unfoldable pub connect_to_device : Text → World → World
connect_to_device did w =
    let v =
      on_remote
        (λ (s : RemoteStore). record s {
          connections = dict_set did (new_connection did (codes "connecting") none) s.connections;
          client_status = codes "connecting";
          client_error = none;
          connected_device_id = some did;
          connection_steps = [];
          connection_mode = some account;
        })
        w in
    if is_remote_id did
    then tell (connect_to_device_account did) v
    else connect_to_device_failed did (invalid_id (codes "device ID")) v

unfoldable pub refresh_remote_sessions_failed : Text → World → World
refresh_remote_sessions_failed e w =
    on_remote
      (λ (s : RemoteStore). record s { client_error = some e; remote_sessions_loading = false }) w

unfoldable pub refresh_remote_sessions : Bool → Option Text → World → World
refresh_remote_sessions tauri device_id w =
    let v = on_remote (λ (s : RemoteStore). record s { remote_sessions_loading = true }) w in
    if not tauri
    then tell browser_session_list v
    else if valid_or_absent device_id
    then tell (request_remote_session_list device_id) v
    else refresh_remote_sessions_failed (invalid_id (codes "device ID")) v
