-- ===== src/Remote/Devices.antt =====
-- What the store of the remote connections knows of a device that is disconnected
-- (src/stores/remoteStore.ts).
use racemo.Base.{
  ◌≡◌, refl, sym, ap, ◌∙◌, ◌≢◌, inl, inr, Bool, true, false, Option, none, some, [], ◌∷◌,
  if◌then◌else◌, Bool-cases, Text, codes, text_eq, text_eq_refl, text_eq_sound, truthy, Dict,
  dict_get, dict_get-dict_delete,
}
use racemo.Remote.{
  DeviceConnection, RemoteStore, World, on_remote, on_local, values, normalize_status,
  derive_client_status, all_sessions,
}
use racemo.Remote.Client.{
  close_device_tabs, close_tabs_of, unmap_device, unmap_devices, delete_all, forget_devices,
  target_ids, send_disconnect, release, valid_or_absent, disconnect,
}
use racemo.Remote.Events.{forget_device, on_client_status, release_device}

pub dict_get-unmap_device :
    (did k : Text) (m : Dict Text) → dict_get k (unmap_device did m) ≢ some did
unfolding dict_get unmap_device
dict_get-unmap_device did k [] e = cc
dict_get-unmap_device did k ((j, d) ∷ m) e = elim (Bool-cases (text_eq d did)) [
  | inl f ↦ dict_get-unmap_device did k m (rw f at e)
  | inr f ↦ elim (Bool-cases (text_eq j k)) [
    | inl g ↦
        let n : some d ≡ some did = rw (f, g) at e in
        let q : d ≡ did = cc in let r : text_eq d did ≡ true = rw q (text_eq_refl did) in cc
    | inr g ↦ dict_get-unmap_device did k m (rw (f, g) at e)
  ]
]

pub dict_get-unmap_device_other :
    (did k d : Text) (m : Dict Text)
    → d ≢ did
    → dict_get k m ≡ some d
    → dict_get k (unmap_device did m) ≡ some d
unfolding dict_get unmap_device
dict_get-unmap_device_other did k d [] n e = cc
dict_get-unmap_device_other did k d ((j, c) ∷ m) n e = elim (Bool-cases (text_eq j k)) [
  | inl g ↦
      let f : some c ≡ some d = rw g at e in
      let q : c ≡ d = cc in
      elim (Bool-cases (text_eq c did)) [
        | inl h ↦ absurd (n (sym q ∙ text_eq_sound c did h))
        | inr h ↦ rw (h, g) f
      ]
  | inr g ↦
      let f : dict_get k m ≡ some d = rw g at e in
      let r = dict_get-unmap_device_other did k d m n f in
      elim (Bool-cases (text_eq c did)) [ inl h ↦ rw h r | inr h ↦ rw (h, g) r ]
]

-- The call of the backend changes nothing of the store but the error.
pub send_disconnect-remote :
    (tauri : Bool) (device_id : Option Text) (w : World)
    → (e : Option Text) × ((send_disconnect tauri device_id w).remote
        ≡ record w.remote { client_error = e })
      × ((send_disconnect tauri device_id w).local ≡ w.local)
send_disconnect-remote false device_id w = (w.remote.client_error, refl, refl)
send_disconnect-remote true device_id w = elim (Bool-cases (valid_or_absent device_id)) [
  | inl h ↦ rw h (w.remote.client_error, refl, refl)
  | inr h ↦ rw h (_, refl, refl)
]

pub target_ids-one :
    (did : Text) (s : RemoteStore) → truthy did ≡ true → target_ids (some did) s ≡ did ∷ []
target_ids-one did s h = rw h

release-remote :
    (device_id : Option Text) (w : World)
    → ((release device_id w).remote ≡ w.remote) × ((release device_id w).local ≡ w.local)
release-remote none w = (refl, refl)
release-remote (some d) w = elim (Bool-cases (truthy d)) [
  | inl h ↦ rw h (refl, refl)
  | inr h ↦ rw h (refl, refl)
]

-- The stores after a device is disconnected, but for the error.
pub disconnect_lem :
    (tauri : Bool) (device_id : Option Text) (w : World)
    → (e : Option Text) × ((disconnect tauri device_id w).remote
        ≡ record (forget_devices device_id w.remote) { client_error = e })
      × ((disconnect tauri device_id w).local
          ≡ close_device_tabs (target_ids device_id w.remote) w.remote.connections w.local)
unfolding disconnect
disconnect_lem tauri device_id w =
    let v = on_local (close_device_tabs (target_ids device_id w.remote) w.remote.connections) w in
    let (a, b) = release-remote device_id v in
    let (e, f, g) =
      send_disconnect-remote tauri device_id
        (on_remote (forget_devices device_id) (release device_id v)) in
    (
      e,
      f ∙ ap (λ (s : RemoteStore). record (forget_devices device_id s) { client_error = e }) a,
      g ∙ b,
    )

-- Nothing of a map of the devices points to one device, and what points to another device is kept.
abbrev pub Unmapped : Text → Dict Text → Dict Text → Type 0
Unmapped did m m' =
    ((k : Text) → dict_get k m' ≢ some did)
    × ((k d : Text) → d ≢ did → dict_get k m ≡ some d → dict_get k m' ≡ some d)

unmap_device-Unmapped : (did : Text) (m : Dict Text) → Unmapped did m (unmap_device did m)
unmap_device-Unmapped did m =
    (λ k. dict_get-unmap_device did k m, λ k d. dict_get-unmap_device_other did k d m)

-- A device that is disconnected has no connection any more, and no pane and no session is mapped to
-- it; the connections of the other devices, and the panes and sessions mapped to them, are kept. The
-- list of the remote sessions is that of the connections that are left.
pub disconnect-Unmapped :
    (tauri : Bool) (did : Text) (w : World)
    → truthy did ≡ true
    → let s = w.remote in
      let s' = (disconnect tauri (some did) w).remote in
      ((d : Text)
        → dict_get d s'.connections ≡ (if text_eq did d then none else dict_get d s.connections))
      × Unmapped did s.pane_to_device s'.pane_to_device
      × Unmapped did s.session_to_device s'.session_to_device
      × (s'.remote_sessions ≡ all_sessions (values s'.connections))
      × (s'.client_status ≡ derive_client_status s'.connections)
unfolding forget_devices delete_all unmap_devices
disconnect-Unmapped tauri did w h =
    let (e, f, g) = disconnect_lem tauri (some did) w in
    rw (f, forget_devices, target_ids-one did w.remote h)
      (
        λ d. dict_get-dict_delete did d w.remote.connections,
        unmap_device-Unmapped did w.remote.pane_to_device,
        unmap_device-Unmapped did w.remote.session_to_device,
        refl,
        refl,
      )

-- What a device's going leaves of the two stores.
abbrev pub SameLeft : World → World → Type 0
SameLeft v w =
    (v.local ≡ w.local)
    × (v.remote.connections ≡ w.remote.connections)
    × (v.remote.client_status ≡ w.remote.client_status)
    × (v.remote.remote_sessions ≡ w.remote.remote_sessions)
    × (v.remote.remote_pane_ids ≡ w.remote.remote_pane_ids)
    × (v.remote.pane_to_device ≡ w.remote.pane_to_device)
    × (v.remote.session_to_device ≡ w.remote.session_to_device)

release_device-local :
    (did : Text) (c : Option DeviceConnection) (w : World)
    → ((release_device did c w).remote ≡ w.remote)
      × ((release_device did c w).local ≡ close_tabs_of c w.local)
release_device-local did none w = (refl, refl)
release_device-local did (some c) w = (refl, refl)

-- The user's disconnecting of a device and the event that the device went leave the same connections,
-- the same status, remote sessions and panes, the same maps and the same tabs.
pub disconnect-on_client_status :
    (tauri : Bool) (did : Text) (error : Option Text) (w : World)
    → truthy did ≡ true
    → SameLeft
        (disconnect tauri (some did) w)
        (on_client_status tauri (codes "disconnected") error (some did) w)
unfolding forget_devices forget_device delete_all unmap_devices on_client_status normalize_status
    close_device_tabs text_eq
disconnect-on_client_status tauri did error w h =
    let (e, f, g) = disconnect_lem tauri (some did) w in
    let (a, b) = release_device-local did (dict_get did w.remote.connections) w in
    rw (f, g, a, b, forget_devices, target_ids-one did w.remote h)
      (refl, refl, refl, refl, refl, refl, refl)
