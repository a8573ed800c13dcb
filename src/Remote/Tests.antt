-- ===== src/Remote/Tests.antt =====
-- Two devices that are connected, and the properties at them.
use racemo.Base.{
  ◌≡◌, refl, true, not, ◌&&◌, Option, none, some, [], ◌∷◌, if◌then◌else◌, Text, codes, text_eq,
  dict_get, dict_set, dict_get_or, text_mem,
}
use racemo.Pane
use racemo.Pane.{PaneNode}
use racemo.Session.{SessionStore}
use racemo.Remote.{
  RemoteSessionInfo, World, initial_remote, values, all_sessions, derive_client_status,
  is_remote_id, is_id_char, all_id_chars, normalize_status,
}
use racemo.Remote.Client.{
  refresh_remote_sessions, forget_devices, has_session, disconnect, connect_to_device,
}
use racemo.Remote.Events.{
  map_all, forget_device, set_device_status, on_client_status, on_session_list,
}
use racemo.Remote.Devices.{Unmapped, SameLeft, disconnect-Unmapped, disconnect-on_client_status}
use racemo.Remote.LocalTabs.{local_ids_of, has_session-disconnect}
use racemo.Remote.Steps.{RemoteRun, here, then_step}
use racemo.Remote.Steps
use racemo.Remote.Merged.{Merged, RemoteRun-Merged}
use racemo.Remote.Calls.{
  ValidCalls, AnyRun, begins, goes_on, does, connects_again, AnyRun-ValidCalls,
}

abbrev no_layout : Text → Option PaneNode
no_layout t = none

abbrev shared : RemoteSessionInfo
shared = record {
  id = codes "s";
  name = codes "work";
  pane_count = 1;
  created_at = 5;
  pane_ids = codes "p" ∷ [];
  layout_json = [];
  host_os = codes "linux";
}

abbrev tabs : SessionStore
tabs = record {
  sessions =
      record {
        id = codes "remote:s";
        name = codes "work";
        root_pane = Pane.leaf (record {
          id = codes "l";
          pty_id = codes "p";
          shell = none;
          cwd = none;
          last_command = none;
        });
        created_at = 5;
        pane_count = 1;
        is_remote = some true;
        remote_os = none;
      }
      ∷ [];
  active_session_id = some (codes "remote:s");
  focused_pane_id = none;
  tab_counter = 1;
  pane_cwds = [];
  pane_shell_types = [];
  tab_badges = [];
  pane_active = [];
  pane_last_commands = [];
  pinned_cwds = [];
  is_ipc_ready = true;
  last_session_id = none;
}

abbrev fresh : World
unfolding initial_remote
fresh = record { remote = initial_remote; local = tabs; calls = [] }

-- A device is connected to, comes up, and lists its session.
abbrev up : World
up =
    on_client_status true (codes "connected") none (some (codes "d"))
      (connect_to_device (codes "d") fresh)

abbrev listed : World
listed = record up { remote = on_session_list (shared ∷ []) (some (codes "d")) up.remote }

run : RemoteRun true no_layout fresh listed
unfolding dict_get fresh
run =
    then_step
      (then_step (then_step here (Steps.connects_device fresh (codes "d") refl))
        (Steps.client_status_came _ (codes "connected") none (some (codes "d"))))
      (Steps.in_store up _ (Steps.sessions_listed up.remote (shared ∷ []) (some (codes "d"))))

-- Connecting once more to a device with sessions leaves its sessions in the merged list.
connected_twice :
    let s = (connect_to_device (codes "d") listed).remote in
    (s.remote_sessions ≡ shared ∷ []) × (all_sessions (values s.connections) ≡ [])
unfolding connect_to_device is_remote_id is_id_char on_session_list dict_get on_client_status
    text_eq refresh_remote_sessions set_device_status dict_set fresh all_id_chars normalize_status
connected_twice = (refl, refl)

-- The event that the device went keeps the active session, which disconnecting clears.
event_keeps_active :
    let w : World = record listed {
      remote = record listed.remote { active_remote_session = some shared };
    } in
    ((disconnect true (some (codes "d")) w).remote.active_remote_session ≡ none)
    × ((on_client_status true
          (codes "disconnected")
          none
          (some (codes "d"))
          w).remote.active_remote_session
        ≡ some shared)
unfolding connect_to_device is_remote_id is_id_char on_session_list dict_get on_client_status
    text_eq refresh_remote_sessions set_device_status dict_set disconnect forget_devices text_mem
    dict_get_or map_all forget_device fresh all_id_chars normalize_status
event_keeps_active = (refl, refl)

disconnect-Unmapped_example :
    let s = listed.remote in
    let s' = (disconnect true (some (codes "d")) listed).remote in
    ((d : Text)
      → dict_get d s'.connections
        ≡ (if text_eq (codes "d") d then none else dict_get d s.connections))
    × Unmapped (codes "d") s.pane_to_device s'.pane_to_device
    × Unmapped (codes "d") s.session_to_device s'.session_to_device
    × (s'.remote_sessions ≡ all_sessions (values s'.connections))
    × (s'.client_status ≡ derive_client_status s'.connections)
disconnect-Unmapped_example = disconnect-Unmapped true (codes "d") listed refl

disconnect-on_client_status_example :
    SameLeft
      (disconnect true (some (codes "d")) listed)
      (on_client_status true (codes "disconnected") none (some (codes "d")) listed)
disconnect-on_client_status_example = disconnect-on_client_status true (codes "d") none listed refl

has_session-disconnect_example :
    has_session (codes "remote:s") (disconnect true (some (codes "d")) listed).local.sessions ≡ (
      has_session (codes "remote:s") listed.local.sessions
      && not (
          text_mem
            (codes "remote:s")
            (local_ids_of (dict_get (codes "d") listed.remote.connections))))
has_session-disconnect_example =
    has_session-disconnect true (codes "d") (codes "remote:s") listed refl

RemoteRun-Merged_example : Merged listed.remote
unfolding fresh
RemoteRun-Merged_example = RemoteRun-Merged true no_layout run refl

-- The device is connected to once more while its session is listed.
again : AnyRun true no_layout fresh (connect_to_device (codes "d") listed)
again =
    goes_on
      (goes_on
        (goes_on (goes_on begins (connects_again fresh (codes "d")))
          (does (Steps.client_status_came _ (codes "connected") none (some (codes "d")))))
        (does
          (Steps.in_store up _ (Steps.sessions_listed up.remote (shared ∷ []) (some (codes "d"))))))
      (connects_again listed (codes "d"))

AnyRun-ValidCalls_example : ValidCalls (connect_to_device (codes "d") listed).calls
unfolding fresh
AnyRun-ValidCalls_example = AnyRun-ValidCalls true no_layout again tt
