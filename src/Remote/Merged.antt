-- ===== src/Remote/Merged.antt =====
-- The list of the remote sessions against the connections (src/stores/remoteStore.ts).
use racemo.Base.{
  ℕ, ◌≡◌, refl, sym, ◌∙◌, inl, inr, Bool, true, false, not, Option, none, some, [], ◌∷◌,
  if◌then◌else◌, Bool-cases, Option-cases, Text, codes, text_eq, Dict, dict_get, dict_set,
}
use racemo.Pane.{PaneNode}
use racemo.Remote.{
  ConnectionStep, DeviceConnection, RemoteStore, World, values, all_sessions, is_remote_id,
  set_pending_host_after_login, open_dialog, close_dialog, set_dialog_mode, normalize_status,
}
use racemo.Remote.Host.{
  start_hosting, start_hosting_done, start_hosting_failed, stop_hosting, stop_hosting_failed,
  begin_account_hosting, begin_account_hosting_done, begin_account_hosting_failed, clear_host_toast,
  answer_client, approve_client, reject_client, answer_client_failed, get_status, get_status_done,
  get_status_failed, fetch_devices, fetch_devices_done, fetch_devices_failed,
}
use racemo.Remote.Client.{
  disconnect, disconnect_failed, connect_to_host, connect_to_host_failed, connect_to_device,
  connect_to_device_failed, refresh_remote_sessions, refresh_remote_sessions_failed, forget_devices,
  failed_connection, valid_or_absent, new_connection,
}
use racemo.Remote.Events.{
  on_host_status, on_reauth_done, on_reauth_failed, on_client_status, on_pty_output,
  on_session_list, on_layout_update, on_connection_request, on_client_connected,
  on_client_disconnected, on_client_progress, lay_out, with_step, or_else, set_device_status,
  updated_connection, forget_device, is_down,
}
use racemo.Remote.Devices.{disconnect_lem}
use racemo.Remote.Steps.{sessions_of, StoreStep, RemoteStep, RemoteRun, here, then_step}
use racemo.Remote.Steps

abbrev pub Merged : RemoteStore → Type 0
Merged s = s.remote_sessions ≡ all_sessions (values s.connections)

-- A connection with the same sessions changes nothing of the merged list.
all_sessions-dict_set :
    (did : Text) (c : DeviceConnection) (m : Dict DeviceConnection)
    → c.sessions ≡ sessions_of (dict_get did m)
    → all_sessions (values (dict_set did c m)) ≡ all_sessions (values m)
unfolding dict_get dict_set
all_sessions-dict_set did c [] h = rw h
all_sessions-dict_set did c ((k, d) ∷ m) h = elim (Bool-cases (text_eq k did)) [
  | inl e ↦ let f : c.sessions ≡ d.sessions = rw e at h in rw e (rw f)
  | inr e ↦
      let f : c.sessions ≡ sessions_of (dict_get did m) = rw e at h in
      rw e (rw (all_sessions-dict_set did c m f))
]

with_step-sessions :
    (did : Text) (e : ConnectionStep) (m : Dict DeviceConnection)
    → all_sessions (values (with_step did e (dict_get did m) m)) ≡ all_sessions (values m)
with_step-sessions did e m = elim (Option-cases (dict_get did m)) [
  | inl q ↦ rw q
  | inr (c, q) ↦ rw q (all_sessions-dict_set did _ m (rw q refl))
]

failed_connection-sessions :
    (did e : Text) (m : Dict DeviceConnection)
    → all_sessions (values (failed_connection did (dict_get did m) e m)) ≡ all_sessions (values m)
failed_connection-sessions did e m = elim (Option-cases (dict_get did m)) [
  | inl q ↦ rw q
  | inr (c, q) ↦ rw q (all_sessions-dict_set did _ m (rw q refl))
]

updated_connection-sessions :
    (did status : Text) (error : Option Text) (o : Option DeviceConnection)
    → (updated_connection did status error o).sessions ≡ sessions_of o
updated_connection-sessions did status error none = refl
updated_connection-sessions did status error (some c) = refl

StoreStep-Merged : {s t : RemoteStore} → StoreStep s t → Merged s → Merged t
unfolding set_pending_host_after_login open_dialog close_dialog set_dialog_mode start_hosting_done
    start_hosting_failed stop_hosting_failed clear_host_toast answer_client_failed get_status_done
    get_status_failed fetch_devices_done fetch_devices_failed on_reauth_done on_pty_output
    on_session_list on_connection_request on_client_connected on_client_disconnected
    on_client_progress
StoreStep-Merged (Steps.sessions_listed s ss d) h = refl
StoreStep-Merged (Steps.progressed s t l ms d) h =
    h
    ∙ sym (
        with_step-sessions (or_else d (codes "__pairing__"))
          (record { step = t; label = l; elapsed_ms = ms }) s.connections)
StoreStep-Merged _ h = h

if-Merged :
    (b : Bool) (u v : World)
    → Merged u.remote
    → Merged v.remote
    → Merged (if b then u else v).remote
if-Merged true u v h k = h
if-Merged false u v h k = k

answer_client-Merged :
    (b : Bool) (r : Text) (w : World) → Merged w.remote → Merged (answer_client b r w).remote
unfolding answer_client
answer_client-Merged b r w h = if-Merged (is_remote_id r) _ _ h h

refresh-Merged :
    (tauri : Bool) (d : Option Text) (w : World)
    → Merged w.remote
    → Merged (refresh_remote_sessions tauri d w).remote
unfolding refresh_remote_sessions refresh_remote_sessions_failed
refresh-Merged tauri d w h = if-Merged (not tauri) _ _ h (if-Merged (valid_or_absent d) _ _ h h)

disconnect-Merged :
    (tauri : Bool) (d : Option Text) (w : World) → Merged (disconnect tauri d w).remote
unfolding forget_devices
disconnect-Merged tauri d w = let (e, f, g) = disconnect_lem tauri d w in rw f refl

connect_to_host-Merged :
    (tauri : Bool) (c : Text) (w : World)
    → Merged w.remote
    → Merged (connect_to_host tauri c w).remote
unfolding connect_to_host connect_to_host_failed
connect_to_host-Merged tauri c w h =
    if-Merged (not tauri) _ _ h (if-Merged (is_remote_id c) _ _ h h)

connect_to_device_failed-Merged :
    (d e : Text) (w : World) → Merged w.remote → Merged (connect_to_device_failed d e w).remote
unfolding connect_to_device_failed
connect_to_device_failed-Merged d e w h =
    h ∙ sym (failed_connection-sessions d e w.remote.connections)

connect_to_device-Merged :
    (d : Text) (w : World)
    → sessions_of (dict_get d w.remote.connections) ≡ []
    → Merged w.remote
    → Merged (connect_to_device d w).remote
unfolding connect_to_device
connect_to_device-Merged d w e h =
    let f =
      h
      ∙ sym (
          all_sessions-dict_set d (new_connection d (codes "connecting") none) w.remote.connections
            (sym e)) in
    if-Merged (is_remote_id d) _ _ f (connect_to_device_failed-Merged d _ _ f)

on_client_status-Merged :
    (tauri : Bool) (t : Text) (e d : Option Text) (w : World)
    → Merged w.remote
    → Merged (on_client_status tauri t e d w).remote
unfolding on_client_status normalize_status forget_device set_device_status
on_client_status-Merged tauri t e d w h =
    let did = or_else d (codes "__pairing__") in
    let n = normalize_status t in
    let f =
      h
      ∙ sym (
          all_sessions-dict_set did (updated_connection did n e (dict_get did w.remote.connections))
            w.remote.connections
            (updated_connection-sessions did n e (dict_get did w.remote.connections))) in
    if-Merged (is_down n) _ _ refl
      (if-Merged (text_eq n (codes "connected")) _ _ (refresh-Merged tauri (some did) _ f) f)

on_layout_update-Merged :
    (parse : Text → Option PaneNode) (i j : Text) (n : ℕ) (d : Option Text) (w : World)
    → Merged w.remote
    → Merged (on_layout_update parse i j n d w).remote
unfolding on_layout_update lay_out
on_layout_update-Merged parse i j n d w h = elim (Option-cases (parse j)) [
  | inl e ↦ rw (e, on_layout_update) h
  | inr (root, e) ↦ rw (e, on_layout_update) refl
]

module _ (tauri : Bool) (parse : Text → Option PaneNode) where
  RemoteStep-Merged : {v w : World} → RemoteStep tauri parse v w → Merged v.remote → Merged w.remote
  unfolding start_hosting stop_hosting begin_account_hosting begin_account_hosting_done
      begin_account_hosting_failed approve_client reject_client get_status fetch_devices
      disconnect_failed connect_to_host_failed refresh_remote_sessions_failed on_host_status
      on_reauth_failed
  RemoteStep-Merged (Steps.in_store w s t) h = StoreStep-Merged t h
  RemoteStep-Merged (Steps.approves w r) h = answer_client-Merged true r w h
  RemoteStep-Merged (Steps.rejects w r) h = answer_client-Merged false r w h
  RemoteStep-Merged (Steps.disconnects w d) h = disconnect-Merged tauri d w
  RemoteStep-Merged (Steps.connects w c) h = connect_to_host-Merged tauri c w h
  RemoteStep-Merged (Steps.connects_device w d e) h = connect_to_device-Merged d w e h
  RemoteStep-Merged (Steps.device_failed w d e) h = connect_to_device_failed-Merged d e w h
  RemoteStep-Merged (Steps.refreshes w d) h = refresh-Merged tauri d w h
  RemoteStep-Merged (Steps.host_status_came w t c e) h =
      if-Merged (text_eq t (codes "needs_reauth")) _ _ h h
  RemoteStep-Merged (Steps.client_status_came w t e d) h = on_client_status-Merged tauri t e d w h
  RemoteStep-Merged (Steps.layout_came w i j n d) h = on_layout_update-Merged parse i j n d w h
  RemoteStep-Merged _ h = h

  -- In any run of operations and events in which a device is connected to only when no session of it
  -- is listed, the list of the remote sessions stays that of all connections.
  pub RemoteRun-Merged :
      {v w : World} → RemoteRun tauri parse v w → Merged v.remote → Merged w.remote
  RemoteRun-Merged here h = h
  RemoteRun-Merged (then_step r t) h = RemoteStep-Merged t (RemoteRun-Merged r h)
