-- ===== src/Device/Coherent.antt =====
-- What holds of a `DeviceManager` between two calls.
use ios_pilot.Base.{String, ◌≡◌, ◌≢◌, refl, inl, inr, none, arith, Option-cases}
use ios_pilot.Errors.{Result, ok, err}
use ios_pilot.Driver.{DeviceInfo, WdaDriver}
use ios_pilot.Device.{
  unset, full, DeviceManager, Drivers, Sys, new_device_manager, local_wda_url, connect,
  connect_udid, connect_device, resolve_udid, disconnect, establish, probe_wda, open_session,
  open_tunnel,
}

-- Without a device nothing is held; with one the mode is known, and a session means full mode.
pub record IsCoherent (dm : DeviceManager) : Type 0 where
  pub at_rest : dm.connected ≡ none → dm ≡ new_device_manager
  pub mode_set : dm.connected ≢ none → dm.mode ≢ unset
  pub url_set : dm.connected ≢ none → dm.wda_url ≡ local_wda_url
  pub session_full : dm.wda_session_id ≢ "" → dm.mode ≡ full

pub new-IsCoherent : IsCoherent new_device_manager
new-IsCoherent = record {
  at_rest = λ _. refl;
  mode_set = λ h. absurd (h refl);
  url_set = λ h. absurd (h refl);
  session_full = λ h. absurd (h refl);
}

module _ {W : Type 0} (drv : Drivers W) where
  open_session_outcome :
      (d : WdaDriver W) (s : Sys W)
      → let r = open_session drv d s in (r.0 ≢ unset) × (r.1 ≢ "" → r.0 ≡ full)
  unfolding open_session
  open_session_outcome d s = ground arith

  pub probe_outcome :
      (udid : String) (s : Sys W)
      → let r = probe_wda drv udid s in (r.0 ≢ unset) × (r.1 ≢ "" → r.0 ≡ full)
  unfolding probe_wda
  probe_outcome udid s = ground (arith, λ (d : WdaDriver W) (x : Sys W). open_session_outcome d x)

  establish-IsCoherent :
      (udid : String) (info : DeviceInfo) (s : Sys W)
      → IsCoherent (establish drv udid info s).manager
  unfolding establish
  establish-IsCoherent udid info s = ground (arith, probe_outcome udid (open_tunnel drv udid s))

  connect_device-IsCoherent :
      (udid : String) (found : Result DeviceInfo) (s : Sys W)
      → IsCoherent s.manager
      → IsCoherent (connect_device drv udid found s).1.manager
  unfolding connect_device
  connect_device-IsCoherent udid (err e) s h = h
  connect_device-IsCoherent udid (ok info) s h = establish-IsCoherent udid info s

  connect_udid-IsCoherent :
      (resolved : Result String) (s : Sys W)
      → IsCoherent s.manager
      → IsCoherent (connect_udid drv resolved s).1.manager
  unfolding connect_udid
  connect_udid-IsCoherent (err e) s h = h
  connect_udid-IsCoherent (ok udid) s h =
      let (found, w) = drv.device_driver.get_device udid s.world in
      connect_device-IsCoherent udid found (record s { world = w }) h

  -- Whatever the drivers answer, `Connect` takes a coherent manager to a coherent one: without a
  -- device it is as new; with one its mode is degraded or full, its URL is that of the local
  -- port, and an identifier of a session that is not empty means full mode.
  pub connect-IsCoherent :
      (requested : String) (s : Sys W)
      → IsCoherent s.manager
      → IsCoherent (connect drv requested s).1.manager
  unfolding connect
  connect-IsCoherent requested s h =
      let (resolved, w) = resolve_udid drv requested s.world in
      connect_udid-IsCoherent resolved (record s { world = w }) h

  -- `Disconnect` takes a coherent manager to a new one, whether or not a device was connected.
  pub disconnect-eq-new :
      (s : Sys W) → IsCoherent s.manager → (disconnect drv s).manager ≡ new_device_manager
  unfolding disconnect
  disconnect-eq-new s h = elim (Option-cases s.manager.connected) [
    | inl gone ↦ ground (arith, h.at_rest gone)
    | inr (d, here) ↦ rw here
  ]
