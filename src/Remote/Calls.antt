-- ===== src/Remote/Calls.antt =====
-- The ids that the store of the remote connections sends to the backend (src/stores/remoteStore.ts).
use racemo.Base.{
  ℕ, ◌≡◌, refl, inl, inr, Bool, true, false, not, Option, none, some, List, [], ◌∷◌, ◌++◌,
  if◌then◌else◌, Option-cases, Text, codes, text_eq, dict_get,
}
use racemo.Pane.{PaneNode}
use racemo.Remote.{
  Call, start_remote_hosting, stop_remote_hosting, start_account_hosting, get_remote_status,
  fetch_my_devices, get_current_device_name, browser_connect, browser_disconnect,
  browser_session_list, dispose_terminals, clear_buffers, dispose_all_terminals, clear_all_buffers,
  set_share_alive, logout, show_sharing_failed, clear_toast_later, on_local, connect_to_remote_host,
  connect_to_device_account, approve_account_connection, disconnect_remote,
  request_remote_session_list, DeviceConnection, World, on_remote, is_remote_id, normalize_status,
}
use racemo.Remote.Host.{
  start_hosting, stop_hosting, begin_account_hosting, begin_account_hosting_done,
  begin_account_hosting_failed, answer_client, approve_client, reject_client, get_status,
  fetch_devices,
}
use racemo.Remote.Client.{
  disconnect, disconnect_failed, connect_to_host, connect_to_host_failed, connect_to_device,
  connect_to_device_failed, refresh_remote_sessions, refresh_remote_sessions_failed,
  close_device_tabs, keys_of, target_ids, release, valid_or_absent, given,
}
use racemo.Remote.Events.{
  on_host_status, on_reauth_failed, on_client_status, on_layout_update, or_else, set_device_status,
  release_device, is_down,
}
use racemo.Remote.Steps.{sessions_of, StoreStep, RemoteStep}
use racemo.Remote.Steps

-- Whether the id of a call, if it has one, is an id of the right form.
abbrev pub is_valid_call : Call → Bool
is_valid_call (connect_to_remote_host c) = is_remote_id c
is_valid_call (connect_to_device_account d) = is_remote_id d
is_valid_call (approve_account_connection r b) = is_remote_id r
is_valid_call (disconnect_remote d) = valid_or_absent d
is_valid_call (request_remote_session_list d) = valid_or_absent d
is_valid_call _ = true

abbrev pub ValidCalls : List Call → Type 0
ValidCalls [] = Unit
ValidCalls (c ∷ cs) = (is_valid_call c ≡ true) × ValidCalls cs

snoc-ValidCalls :
    (cs : List Call) (c : Call) → is_valid_call c ≡ true → ValidCalls cs → ValidCalls (cs ++ c ∷ [])
snoc-ValidCalls [] c e h = (e, tt)
snoc-ValidCalls (d ∷ cs) c e (f, h) = (f, snoc-ValidCalls cs c e h)

-- Two calls without an id.
pair-ValidCalls :
    (cs : List Call) (c d : Call)
    → is_valid_call c ≡ true
    → is_valid_call d ≡ true
    → ValidCalls cs
    → ValidCalls ((cs ++ c ∷ []) ++ d ∷ [])
pair-ValidCalls cs c d e f h = snoc-ValidCalls (cs ++ c ∷ []) d f (snoc-ValidCalls cs c e h)

-- A call under the test of its id.
checked-ValidCalls :
    (b : Bool) (u v : World)
    → (b ≡ true → ValidCalls u.calls)
    → ValidCalls v.calls
    → ValidCalls (if b then u else v).calls
checked-ValidCalls true u v h k = h refl
checked-ValidCalls false u v h k = k

answer_client-ValidCalls :
    (b : Bool) (r : Text) (w : World) → ValidCalls w.calls → ValidCalls (answer_client b r w).calls
unfolding answer_client
answer_client-ValidCalls b r w h =
    checked-ValidCalls (is_remote_id r) _ _
      (λ e. snoc-ValidCalls w.calls (approve_account_connection r b) e h) h

refresh-ValidCalls :
    (tauri : Bool) (d : Option Text) (w : World)
    → ValidCalls w.calls
    → ValidCalls (refresh_remote_sessions tauri d w).calls
unfolding refresh_remote_sessions refresh_remote_sessions_failed
refresh-ValidCalls tauri d w h =
    checked-ValidCalls (not tauri) _ _ (λ e. snoc-ValidCalls w.calls browser_session_list refl h)
      (checked-ValidCalls (valid_or_absent d) _ _
        (λ e. snoc-ValidCalls w.calls (request_remote_session_list d) e h) h)

release-ValidCalls :
    (d : Option Text) (w : World) → ValidCalls w.calls → ValidCalls (release d w).calls
release-ValidCalls d w h =
    let ids = keys_of (target_ids d w.remote) w.remote.pane_to_device in
    checked-ValidCalls (given d) _ _
      (λ e. pair-ValidCalls w.calls (dispose_terminals ids) (clear_buffers ids) refl refl h)
      (pair-ValidCalls w.calls dispose_all_terminals clear_all_buffers refl refl h)

disconnect-ValidCalls :
    (tauri : Bool) (d : Option Text) (w : World)
    → ValidCalls w.calls
    → ValidCalls (disconnect tauri d w).calls
unfolding disconnect
disconnect-ValidCalls tauri d w h =
    let v =
      release d (on_local (close_device_tabs (target_ids d w.remote) w.remote.connections) w) in
    let f =
      release-ValidCalls d
        (on_local (close_device_tabs (target_ids d w.remote) w.remote.connections) w) h in
    checked-ValidCalls (not tauri) _ _ (λ e. snoc-ValidCalls v.calls browser_disconnect refl f)
      (checked-ValidCalls (valid_or_absent d) _ _
        (λ e. snoc-ValidCalls v.calls (disconnect_remote d) e f) f)

connect_to_host-ValidCalls :
    (tauri : Bool) (c : Text) (w : World)
    → ValidCalls w.calls
    → ValidCalls (connect_to_host tauri c w).calls
unfolding connect_to_host connect_to_host_failed
connect_to_host-ValidCalls tauri c w h =
    checked-ValidCalls (not tauri) _ _ (λ e. snoc-ValidCalls w.calls (browser_connect c) refl h)
      (checked-ValidCalls (is_remote_id c) _ _
        (λ e. snoc-ValidCalls w.calls (connect_to_remote_host c) e h) h)

connect_to_device-ValidCalls :
    (d : Text) (w : World) → ValidCalls w.calls → ValidCalls (connect_to_device d w).calls
unfolding connect_to_device connect_to_device_failed
connect_to_device-ValidCalls d w h =
    checked-ValidCalls (is_remote_id d) _ _
      (λ e. snoc-ValidCalls w.calls (connect_to_device_account d) e h) h

release_device-ValidCalls :
    (d : Text) (c : Option DeviceConnection) (w : World)
    → ValidCalls w.calls
    → ValidCalls (release_device d c w).calls
release_device-ValidCalls d none w h = h
release_device-ValidCalls d (some c) w h =
    let ids = keys_of (d ∷ []) w.remote.pane_to_device in
    pair-ValidCalls w.calls (dispose_terminals ids) (clear_buffers ids) refl refl h

on_client_status-ValidCalls :
    (tauri : Bool) (t : Text) (e d : Option Text) (w : World)
    → ValidCalls w.calls
    → ValidCalls (on_client_status tauri t e d w).calls
unfolding on_client_status
on_client_status-ValidCalls tauri t e d w h =
    let did = or_else d (codes "__pairing__") in
    let n = normalize_status t in
    let up : World = on_remote (set_device_status did n e) w in
    checked-ValidCalls (is_down n) _ _
      (λ q. release_device-ValidCalls did (dict_get did w.remote.connections) w h)
      (checked-ValidCalls (text_eq n (codes "connected")) _ _
        (λ q. refresh-ValidCalls tauri (some did) up h) h)

on_layout_update-ValidCalls :
    (parse : Text → Option PaneNode) (i j : Text) (n : ℕ) (d : Option Text) (w : World)
    → ValidCalls w.calls
    → ValidCalls (on_layout_update parse i j n d w).calls
unfolding on_layout_update
on_layout_update-ValidCalls parse i j n d w h = elim (Option-cases (parse j)) [
  | inl e ↦ rw (e, on_layout_update) h
  | inr (root, e) ↦ rw (e, on_layout_update) h
]

module _ (tauri : Bool) (parse : Text → Option PaneNode) where
  RemoteStep-ValidCalls :
      {v w : World} → RemoteStep tauri parse v w → ValidCalls v.calls → ValidCalls w.calls
  unfolding start_hosting stop_hosting begin_account_hosting begin_account_hosting_done
      begin_account_hosting_failed approve_client reject_client get_status fetch_devices
      disconnect_failed connect_to_host_failed connect_to_device_failed
      refresh_remote_sessions_failed on_host_status on_reauth_failed
  RemoteStep-ValidCalls (Steps.in_store w s t) h = h
  RemoteStep-ValidCalls (Steps.approves w r) h = answer_client-ValidCalls true r w h
  RemoteStep-ValidCalls (Steps.rejects w r) h = answer_client-ValidCalls false r w h
  RemoteStep-ValidCalls (Steps.disconnects w d) h = disconnect-ValidCalls tauri d w h
  RemoteStep-ValidCalls (Steps.disconnecting_failed w e) h = h
  RemoteStep-ValidCalls (Steps.connects w c) h = connect_to_host-ValidCalls tauri c w h
  RemoteStep-ValidCalls (Steps.connecting_failed w e) h = h
  RemoteStep-ValidCalls (Steps.connects_device w d e) h = connect_to_device-ValidCalls d w h
  RemoteStep-ValidCalls (Steps.device_failed w d e) h = h
  RemoteStep-ValidCalls (Steps.refreshes w d) h = refresh-ValidCalls tauri d w h
  RemoteStep-ValidCalls (Steps.refreshing_failed w e) h = h
  RemoteStep-ValidCalls (Steps.host_status_came w t c e) h =
      checked-ValidCalls (text_eq t (codes "needs_reauth")) _ _
        (λ q. snoc-ValidCalls w.calls start_account_hosting refl h) h
  RemoteStep-ValidCalls (Steps.client_status_came w t e d) h =
      on_client_status-ValidCalls tauri t e d w h
  RemoteStep-ValidCalls (Steps.layout_came w i j n d) h =
      on_layout_update-ValidCalls parse i j n d w h
  RemoteStep-ValidCalls (Steps.fetches w) h =
      pair-ValidCalls w.calls fetch_my_devices get_current_device_name refl refl h
  RemoteStep-ValidCalls (Steps.reauth_failed w) h =
      pair-ValidCalls w.calls (set_share_alive false) logout refl refl h
  RemoteStep-ValidCalls (Steps.starts_hosting w) h =
      snoc-ValidCalls w.calls start_remote_hosting refl h
  RemoteStep-ValidCalls (Steps.stops_hosting w) h =
      snoc-ValidCalls w.calls stop_remote_hosting refl h
  RemoteStep-ValidCalls (Steps.begins_account w) h =
      snoc-ValidCalls w.calls start_account_hosting refl h
  RemoteStep-ValidCalls (Steps.account_began w t) h =
      snoc-ValidCalls w.calls (clear_toast_later 3000) refl h
  RemoteStep-ValidCalls (Steps.account_failed w e) h =
      snoc-ValidCalls w.calls (show_sharing_failed e) refl h
  RemoteStep-ValidCalls (Steps.gets_status w) h = snoc-ValidCalls w.calls get_remote_status refl h

  -- The steps of `RemoteStep`, and connecting to a device of which sessions are listed.
  pub data AnyStep : World → World → Type 0 where
    does : {v w : World} → RemoteStep tauri parse v w → AnyStep v w
    connects_again : (w : World) (d : Text) → AnyStep w (connect_to_device d w)

  pub data AnyRun (v : World) : World → Type 0 where
    begins : AnyRun v v
    goes_on : {u w : World} → AnyRun v u → AnyStep u w → AnyRun v w

  AnyStep-ValidCalls : {v w : World} → AnyStep v w → ValidCalls v.calls → ValidCalls w.calls
  AnyStep-ValidCalls (does t) h = RemoteStep-ValidCalls t h
  AnyStep-ValidCalls (connects_again w d) h = connect_to_device-ValidCalls d w h

  -- In any run of operations and events, connecting again to a device with sessions included, every
  -- code or id that is sent to the backend has one to sixty-four letters, digits, dashes and
  -- underscores, if it was so before; only an absent or empty id may stand for all.
  pub AnyRun-ValidCalls : {v w : World} → AnyRun v w → ValidCalls v.calls → ValidCalls w.calls
  AnyRun-ValidCalls begins h = h
  AnyRun-ValidCalls (goes_on r t) h = AnyStep-ValidCalls t (AnyRun-ValidCalls r h)
