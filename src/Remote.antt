-- ===== src/Remote.antt =====
-- The store of the remote connections (src/stores/remoteStore.ts): its state, and what only sets a
-- field. A call of the backend, of the browser's client or of another module without a model here
-- is an entry of `calls`; what a call comes back with is an operation of its own (`…_done`,
-- `…_failed`), so that other events may come between.
pub mod Host
pub mod Client
pub mod Events
pub mod Devices
pub mod LocalTabs
pub mod Steps
pub mod Merged
pub mod Calls
pub mod Status
mod Tests
use racemo.Base.{
  ℕ, ◌-◌, ◌&&◌, ◌||◌, Bool, true, false, Option, none, List, [], ◌∷◌, ◌++◌, map, leb, ◌==◌,
  if◌then◌else◌, Text, codes, text_eq, length, Dict, dict_get, text_mem,
}
use racemo.Session.{Session, SessionStore}

pub record ConnectionStep : Type 0 where
  pub step : Text
  pub label : Text
  pub elapsed_ms : ℕ

pub record RemoteClient : Type 0 where
  pub id : Text
  pub name : Text
  pub connected_at : ℕ

pub record RemoteSessionInfo : Type 0 where
  pub id : Text
  pub name : Text
  pub pane_count : ℕ
  pub created_at : ℕ
  pub pane_ids : List Text
  pub layout_json : Text
  pub host_os : Text

pub record DeviceSession : Type 0 where
  pub name : Text
  pub pane_count : ℕ

pub record RemoteDevice : Type 0 where
  pub id : Text
  pub name : Text
  pub os : Option Text
  pub online : Bool
  pub sessions : List DeviceSession

pub data ConnectionMode : Type 0 where
  pairing account : ConnectionMode

pub data DialogMode : Type 0 where
  host client : DialogMode

-- A status is the text that the backend sends.
pub record DeviceConnection : Type 0 where
  pub device_id : Text
  pub status : Text
  pub error : Option Text
  pub sessions : List RemoteSessionInfo
  pub connection_steps : List ConnectionStep
  pub connection_mode : Option ConnectionMode

pub record ConnectionRequest : Type 0 where
  pub room_code : Text
  pub from_login : Text
  pub from_device : Text

pub record RemoteStore : Type 0 where
  pub host_status : Text
  pub host_error : Option Text
  pub connections : Dict DeviceConnection
  pub client_status : Text
  pub client_error : Option Text
  pub pairing_code : Option Text
  pub is_dialog_open : Bool
  pub dialog_mode : DialogMode
  pub connected_clients : List RemoteClient
  pub remote_pane_ids : List Text
  pub remote_sessions : List RemoteSessionInfo
  pub remote_sessions_loading : Bool
  pub active_remote_session : Option RemoteSessionInfo
  pub my_devices : List RemoteDevice
  pub my_devices_loading : Bool
  pub my_devices_error : Option Text
  pub current_device_name : Option Text
  pub connected_device_id : Option Text
  pub pending_connection_requests : List ConnectionRequest
  pub connection_steps : List ConnectionStep
  pub connection_mode : Option ConnectionMode
  pub host_toast : Option Text
  pub pending_host_after_login : Bool
  pub pane_to_device : Dict Text
  pub session_to_device : Dict Text

-- What the store asks of others.
pub data Call : Type 0 where
  start_remote_hosting stop_remote_hosting start_account_hosting get_remote_status : Call
  fetch_my_devices get_current_device_name : Call
  connect_to_remote_host connect_to_device_account : Text → Call
  approve_account_connection : Text → Bool → Call
  disconnect_remote request_remote_session_list : Option Text → Call
  browser_connect : Text → Call
  browser_disconnect browser_session_list : Call
  dispose_terminals clear_buffers : List Text → Call
  dispose_all_terminals clear_all_buffers : Call
  set_share_alive : Bool → Call
  logout : Call
  show_sharing_failed : Text → Call
  clear_toast_later : ℕ → Call

-- The store, the store of the sessions, and the calls that were made, the newest last.
pub record World : Type 0 where
  pub remote : RemoteStore
  pub local : SessionStore
  pub calls : List Call

abbrev pub on_remote : (RemoteStore → RemoteStore) → World → World
on_remote f w = record w { remote = f w.remote }

abbrev pub on_local : (SessionStore → SessionStore) → World → World
on_local f w = record w { local = f w.local }

abbrev pub tell : Call → World → World
tell c w = record w { calls = w.calls ++ c ∷ [] }

unfoldable pub initial_remote : RemoteStore
initial_remote = record {
  host_status = codes "disconnected";
  host_error = none;
  connections = [];
  client_status = codes "disconnected";
  client_error = none;
  pairing_code = none;
  is_dialog_open = false;
  dialog_mode = client;
  connected_clients = [];
  remote_pane_ids = [];
  remote_sessions = [];
  remote_sessions_loading = false;
  active_remote_session = none;
  my_devices = [];
  my_devices_loading = false;
  my_devices_error = none;
  current_device_name = none;
  connected_device_id = none;
  pending_connection_requests = [];
  connection_steps = [];
  connection_mode = none;
  host_toast = none;
  pending_host_after_login = false;
  pane_to_device = [];
  session_to_device = [];
}

-- The class `[A-Za-z0-9_-]`.
unfoldable pub is_id_char : ℕ → Bool
is_id_char c =
    (leb 65 c && leb c 90)
    || (leb 97 c && leb c 122)
    || (leb 48 c && leb c 57)
    || c == 95
    || c == 45

abbrev pub all_id_chars : Text → Bool
unfolding is_id_char
all_id_chars [] = true
all_id_chars (c ∷ t) = is_id_char c && all_id_chars t

unfoldable pub is_remote_id : Text → Bool
is_remote_id t = all_id_chars t && leb 1 (length t) && leb (length t) 64

-- The text of the error that `validateRemoteId` throws.
unfoldable pub invalid_id : Text → Text
invalid_id label =
    codes "Error: Invalid "
    ++ label
    ++ codes ": must be 1-64 alphanumeric/dash/underscore characters"

unfoldable pub normalize_status : Text → Text
normalize_status s =
    if text_eq s (codes "account_waiting") || text_eq s (codes "waiting_approval")
    then codes "waiting"
    else s

-- `Object.values` and `Object.keys`.
abbrev pub values {ℓ} : {V : Type ℓ} → Dict V → List V
values [] = []
values ((k, v) ∷ m) = v ∷ values m

abbrev pub keys {ℓ} : {V : Type ℓ} → Dict V → List Text
keys [] = []
keys ((k, v) ∷ m) = k ∷ keys m

unfoldable pub derive_client_status : Dict DeviceConnection → Text
derive_client_status connections =
    let statuses = map (λ (c : DeviceConnection). c.status) (values connections) in
    if text_mem (codes "connected") statuses
    then codes "connected"
    else if text_mem (codes "connecting") statuses
    then codes "connecting"
    else if text_mem (codes "failed") statuses
    then codes "failed"
    else codes "disconnected"

-- `Object.values(connections).flatMap((c) => c.sessions)`
abbrev pub all_sessions : List DeviceConnection → List RemoteSessionInfo
all_sessions [] = []
all_sessions (c ∷ cs) = c.sessions ++ all_sessions cs

-- `sessions.flatMap((s) => s.pane_ids)`
abbrev pub all_pane_ids : List RemoteSessionInfo → List Text
all_pane_ids [] = []
all_pane_ids (s ∷ ss) = s.pane_ids ++ all_pane_ids ss

unfoldable pub set_pending_host_after_login : Bool → RemoteStore → RemoteStore
set_pending_host_after_login pending s = record s { pending_host_after_login = pending }

unfoldable pub open_dialog : RemoteStore → RemoteStore
open_dialog s = record s { is_dialog_open = true }

unfoldable pub close_dialog : RemoteStore → RemoteStore
close_dialog s = record s { is_dialog_open = false }

unfoldable pub set_dialog_mode : DialogMode → RemoteStore → RemoteStore
set_dialog_mode mode s = record s { dialog_mode = mode }

abbrev pub connected_ids : Dict DeviceConnection → List Text
connected_ids [] = []
connected_ids ((k, c) ∷ m) =
    let rest = connected_ids m in if text_eq c.status (codes "connected") then k ∷ rest else rest

unfoldable pub get_connected_device_ids : RemoteStore → List Text
get_connected_device_ids s = connected_ids s.connections

unfoldable pub get_device_connection : Text → RemoteStore → Option DeviceConnection
get_device_connection device_id s = dict_get device_id s.connections
