-- ===== src/Remote/Status.antt =====
-- The status of the client against its connections (src/stores/remoteStore.ts).
use racemo.Base.{
  ◌≡◌, refl, ◌≢◌, ◌↔◌, inl, inr, Bool, true, false, List, [], ◌∷◌, map, if◌then◌else◌, Bool-cases,
  Text, codes, text_eq, Dict, text_mem,
}
use racemo.Remote.{
  DeviceConnection, RemoteStore, values, derive_client_status, connected_ids,
  get_connected_device_ids,
}

abbrev statuses : Dict DeviceConnection → List Text
statuses m = map (λ (c : DeviceConnection). c.status) (values m)

-- The status "connected" is among those of the connections just when an id is listed.
statuses-connected_ids :
    (m : Dict DeviceConnection)
    → (text_mem (codes "connected") (statuses m) ≡ true) ↔ (connected_ids m ≢ [])
unfolding text_mem
statuses-connected_ids [] = (λ h. cc, λ h. absurd (h refl))
statuses-connected_ids ((k, c) ∷ m) = elim (Bool-cases (text_eq c.status (codes "connected"))) [
  | inl e ↦ rw e (λ h f. cc, λ h. refl)
  | inr e ↦ rw e (statuses-connected_ids m)
]

other_status :
    (a b : Bool)
    → (if a then codes "connecting" else if b then codes "failed" else codes "disconnected")
      ≢ codes "connected"
other_status true b h = cc
other_status false true h = cc
other_status false false h = cc

-- The status that is derived is "connected" just when some device is listed as connected.
pub derive_client_status-connected_ids :
    (s : RemoteStore)
    → (derive_client_status s.connections ≡ codes "connected") ↔ (get_connected_device_ids s ≢ [])
unfolding derive_client_status get_connected_device_ids
derive_client_status-connected_ids s =
    let (f, g) = statuses-connected_ids s.connections in
    elim (Bool-cases (text_mem (codes "connected") (statuses s.connections))) [
      | inl e ↦ rw e (λ h. f e, λ h. refl)
      | inr e ↦ rw e (λ h. absurd (other_status _ _ h), λ h. absurd (let n = g h in cc))
    ]
