-- ===== src/Remote/Steps.antt =====
-- The runs of the store of the remote connections (src/stores/remoteStore.ts): its operations and the
-- events it listens to, in any order.
use racemo.Base.{ℕ, ◌≡◌, Bool, Option, none, some, List, [], Text, dict_get}
use racemo.Pane.{PaneNode}
use racemo.Remote.{
  RemoteSessionInfo, RemoteDevice, DialogMode, DeviceConnection, RemoteStore, World, on_remote,
  set_pending_host_after_login, open_dialog, close_dialog, set_dialog_mode,
}
use racemo.Remote.Host.{
  start_hosting, start_hosting_done, start_hosting_failed, stop_hosting, stop_hosting_failed,
  begin_account_hosting, begin_account_hosting_done, begin_account_hosting_failed, clear_host_toast,
  approve_client, reject_client, answer_client_failed, get_status, get_status_done,
  get_status_failed, fetch_devices, fetch_devices_done, fetch_devices_failed,
}
use racemo.Remote.Client.{
  disconnect, disconnect_failed, connect_to_host, connect_to_host_failed, connect_to_device,
  connect_to_device_failed, refresh_remote_sessions, refresh_remote_sessions_failed,
}
use racemo.Remote.Events.{
  on_host_status, on_reauth_done, on_reauth_failed, on_client_status, on_pty_output,
  on_session_list, on_layout_update, on_connection_request, on_client_connected,
  on_client_disconnected, on_client_progress,
}

abbrev pub sessions_of : Option DeviceConnection → List RemoteSessionInfo
sessions_of none = []
sessions_of (some c) = c.sessions

-- The operations on the store alone.
pub data StoreStep : RemoteStore → RemoteStore → Type 0 where
  pending_set : (s : RemoteStore) (b : Bool) → StoreStep s (set_pending_host_after_login b s)
  dialog_opened : (s : RemoteStore) → StoreStep s (open_dialog s)
  dialog_closed : (s : RemoteStore) → StoreStep s (close_dialog s)
  dialog_mode_set : (s : RemoteStore) (m : DialogMode) → StoreStep s (set_dialog_mode m s)
  hosting_started : (s : RemoteStore) (c : Text) → StoreStep s (start_hosting_done c s)
  hosting_failed : (s : RemoteStore) (e : Text) → StoreStep s (start_hosting_failed e s)
  stopping_failed : (s : RemoteStore) (e : Text) → StoreStep s (stop_hosting_failed e s)
  toast_cleared : (s : RemoteStore) → StoreStep s (clear_host_toast s)
  answer_failed : (s : RemoteStore) (e : Text) → StoreStep s (answer_client_failed e s)
  status_got : (s : RemoteStore) (t : Text) (c : Option Text) → StoreStep s (get_status_done t c s)
  status_failed : (s : RemoteStore) (e : Text) → StoreStep s (get_status_failed e s)
  devices_fetched :
      (s : RemoteStore) (ds : List RemoteDevice) (n : Text)
      → StoreStep s (fetch_devices_done ds n s)
  fetching_failed : (s : RemoteStore) (e : Text) → StoreStep s (fetch_devices_failed e s)
  reauthorized : (s : RemoteStore) → StoreStep s (on_reauth_done s)
  output_came : (s : RemoteStore) (p : Text) (d : Option Text) → StoreStep s (on_pty_output p d s)
  sessions_listed :
      (s : RemoteStore) (ss : List RemoteSessionInfo) (d : Option Text)
      → StoreStep s (on_session_list ss d s)
  requested : (s : RemoteStore) (r l f : Text) → StoreStep s (on_connection_request r l f s)
  client_came :
      (s : RemoteStore) (now : ℕ) (r l f : Text) → StoreStep s (on_client_connected now r l f s)
  client_went : (s : RemoteStore) (r : Text) → StoreStep s (on_client_disconnected r s)
  progressed :
      (s : RemoteStore) (t l : Text) (ms : ℕ) (d : Option Text)
      → StoreStep s (on_client_progress t l ms d s)

module _ (tauri : Bool) (parse : Text → Option PaneNode) where
  -- A device is connected to when no sessions of it are listed.
  pub data RemoteStep : World → World → Type 0 where
    in_store :
        (w : World) (s : RemoteStore) → StoreStep w.remote s → RemoteStep w (on_remote (λ _. s) w)
    starts_hosting : (w : World) → RemoteStep w (start_hosting w)
    stops_hosting : (w : World) → RemoteStep w (stop_hosting w)
    begins_account : (w : World) → RemoteStep w (begin_account_hosting w)
    account_began : (w : World) (t : Text) → RemoteStep w (begin_account_hosting_done t w)
    account_failed : (w : World) (e : Text) → RemoteStep w (begin_account_hosting_failed e w)
    approves : (w : World) (r : Text) → RemoteStep w (approve_client r w)
    rejects : (w : World) (r : Text) → RemoteStep w (reject_client r w)
    gets_status : (w : World) → RemoteStep w (get_status w)
    fetches : (w : World) → RemoteStep w (fetch_devices w)
    disconnects : (w : World) (d : Option Text) → RemoteStep w (disconnect tauri d w)
    disconnecting_failed : (w : World) (e : Text) → RemoteStep w (disconnect_failed e w)
    connects : (w : World) (c : Text) → RemoteStep w (connect_to_host tauri c w)
    connecting_failed : (w : World) (e : Text) → RemoteStep w (connect_to_host_failed e w)
    connects_device :
        (w : World) (d : Text)
        → sessions_of (dict_get d w.remote.connections) ≡ []
        → RemoteStep w (connect_to_device d w)
    device_failed : (w : World) (d e : Text) → RemoteStep w (connect_to_device_failed d e w)
    refreshes : (w : World) (d : Option Text) → RemoteStep w (refresh_remote_sessions tauri d w)
    refreshing_failed : (w : World) (e : Text) → RemoteStep w (refresh_remote_sessions_failed e w)
    host_status_came :
        (w : World) (t : Text) (c e : Option Text) → RemoteStep w (on_host_status t c e w)
    reauth_failed : (w : World) → RemoteStep w (on_reauth_failed w)
    client_status_came :
        (w : World) (t : Text) (e d : Option Text) → RemoteStep w (on_client_status tauri t e d w)
    layout_came :
        (w : World) (i j : Text) (n : ℕ) (d : Option Text)
        → RemoteStep w (on_layout_update parse i j n d w)

  pub data RemoteRun (w : World) : World → Type 0 where
    here : RemoteRun w w
    then_step : {u v : World} → RemoteRun w u → RemoteStep u v → RemoteRun w v
