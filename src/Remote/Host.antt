-- ===== src/Remote/Host.antt =====
-- The operations of the host, and those on the user's devices (src/stores/remoteStore.ts).
use racemo.Base.{
  not, Bool, true, false, Option, none, some, List, [], if◌then◌else◌, Text, codes, text_eq, keep,
}
use racemo.Remote.{
  RemoteDevice, ConnectionRequest, RemoteStore, World, on_remote, tell, is_remote_id, invalid_id,
  host, start_remote_hosting, stop_remote_hosting, start_account_hosting, get_remote_status,
  fetch_my_devices, get_current_device_name, approve_account_connection, show_sharing_failed,
  clear_toast_later,
}

unfoldable pub start_hosting : World → World
start_hosting w = tell start_remote_hosting (
    on_remote
      (λ (s : RemoteStore). record s { host_error = none; host_status = codes "connecting" }) w)

unfoldable pub start_hosting_done : Text → RemoteStore → RemoteStore
start_hosting_done pairing_code s = record s {
  pairing_code = some pairing_code;
  host_status = codes "waiting";
}

unfoldable pub start_hosting_failed : Text → RemoteStore → RemoteStore
start_hosting_failed e s = record s { host_status = codes "failed"; host_error = some e }

unfoldable pub stop_hosting : World → World
stop_hosting w = tell stop_remote_hosting (
    on_remote
      (λ (s : RemoteStore). record s {
        host_status = codes "disconnected";
        pairing_code = none;
        host_error = none;
        host_toast = none;
        connected_clients = [];
      })
      w)

unfoldable pub stop_hosting_failed : Text → RemoteStore → RemoteStore
stop_hosting_failed e s = record s { host_error = some e }

unfoldable pub begin_account_hosting : World → World
begin_account_hosting w = tell start_account_hosting (
    on_remote
      (λ (s : RemoteStore). record s {
        host_error = none;
        host_status = codes "connecting";
        dialog_mode = host;
      })
      w)

-- The text of the toast is the argument; the toast is cleared by `clear_host_toast`.
unfoldable pub begin_account_hosting_done : Text → World → World
begin_account_hosting_done toast w = tell (clear_toast_later 3000) (
    on_remote
      (λ (s : RemoteStore). record s { host_status = codes "waiting"; host_toast = some toast }) w)

unfoldable pub clear_host_toast : RemoteStore → RemoteStore
clear_host_toast s = record s { host_toast = none }

unfoldable pub begin_account_hosting_failed : Text → World → World
begin_account_hosting_failed e w = tell (show_sharing_failed e) (
    on_remote (λ (s : RemoteStore). record s { host_status = codes "failed"; host_error = some e })
      w)

-- `approveClient` and `rejectClient`.
unfoldable pub answer_client : Bool → Text → World → World
unfolding is_remote_id
answer_client approved room_code w =
    let v =
      on_remote
        (λ (s : RemoteStore). record s {
          pending_connection_requests =
              keep (λ (r : ConnectionRequest). not (text_eq r.room_code room_code))
                s.pending_connection_requests;
        })
        w in
    if is_remote_id room_code
    then tell (approve_account_connection room_code approved) v
    else on_remote
        (λ (s : RemoteStore). record s { host_error = some (invalid_id (codes "room code")) }) v

unfoldable pub approve_client : Text → World → World
approve_client room_code w = answer_client true room_code w

unfoldable pub reject_client : Text → World → World
reject_client room_code w = answer_client false room_code w

unfoldable pub answer_client_failed : Text → RemoteStore → RemoteStore
answer_client_failed e s = record s { host_error = some e }

unfoldable pub get_status : World → World
get_status w = tell get_remote_status w

unfoldable pub get_status_done : Text → Option Text → RemoteStore → RemoteStore
get_status_done status pairing_code s = record s {
  host_status = status;
  pairing_code = pairing_code;
}

unfoldable pub get_status_failed : Text → RemoteStore → RemoteStore
get_status_failed e s = record s { host_error = some e }

unfoldable pub fetch_devices : World → World
fetch_devices w = tell get_current_device_name (
    tell fetch_my_devices (
      on_remote
        (λ (s : RemoteStore). record s {
          my_devices_loading = true;
          my_devices_error = none;
          my_devices = [];
        })
        w))

unfoldable pub fetch_devices_done : List RemoteDevice → Text → RemoteStore → RemoteStore
fetch_devices_done devices device_name s = record s {
  my_devices = devices;
  my_devices_loading = false;
  current_device_name = some device_name;
}

unfoldable pub fetch_devices_failed : Text → RemoteStore → RemoteStore
fetch_devices_failed e s = record s { my_devices_error = some e; my_devices_loading = false }
