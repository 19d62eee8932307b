-- ===== src/Device/Connect.antt =====
-- What `Connect` returns, and what its outcome depends on.
use ios_pilot.Base.{
  ℕ, String, ◌≡◌, ◌≢◌, refl, sym, ◌∙◌, ◌↔◌, Bool, true, false, Option, some, [], ◌∷◌, arith, eq_iff,
}
use ios_pilot.Errors.{GoError, Result, ok, err, is_ok, Call}
use ios_pilot.Driver.{DeviceInfo, DeviceDriver, TunnelDriver, WdaDriver, WdaProcessDriver}
use ios_pilot.Device.{
  unset, full, running, DeviceStatus, DeviceManager, Drivers, Sys, build_status, connected_udid,
  connect, connect_udid, connect_device, resolve_udid, only_device, list_devices, establish,
  open_tunnel,
}
use ios_pilot.Device.Coherent.{probe_outcome}

-- The report of a connected manager whose mode is known.
status_of_connected :
    (dm : DeviceManager) (info : DeviceInfo)
    → dm.connected ≡ some info
    → dm.mode ≢ unset
    → let st = build_status dm in
      (st.connected ≡ true)
      × (st.udid ≡ info.udid)
      × (st.name ≡ info.name)
      × (st.ios_version ≡ info.ios_version)
      × (st.wda.mode ≢ unset)
      × ((st.wda.status ≡ running) ↔ (st.wda.mode ≡ full))
unfolding build_status
status_of_connected dm info here known = ground arith

-- The status is the report of this manager, which holds a device.
abbrev pub IsReport : DeviceStatus → DeviceManager → Type 0
IsReport st dm = (st ≡ build_status dm) × (st.connected ≡ true) × (st.udid ≡ connected_udid dm)

module _ {W : Type 0} (drv : Drivers W) where
  -- When the UDID is resolved and the device is found, `Connect` succeeds, whatever the tunnel, the
  -- port forwarding and WDA do. The manager then holds that device, the returned status is the one
  -- that `Status` reports from then on, it shows the device, and WDA is running in it exactly in
  -- full mode.
  pub connect_succeeds :
      (requested udid : String) (info : DeviceInfo) (s : Sys W) (w w' : W)
      → resolve_udid drv requested s.world ≡ (ok udid, w)
      → drv.device_driver.get_device udid w ≡ (ok info, w')
      → let (r, s') = connect drv requested s in
        (r ≡ ok (build_status s'.manager))
        × (s'.manager.connected ≡ some info)
        × ((build_status s'.manager).connected ≡ true)
        × ((build_status s'.manager).udid ≡ info.udid)
        × ((build_status s'.manager).wda.mode ≢ unset)
        × (((build_status s'.manager).wda.status ≡ running)
            ↔ ((build_status s'.manager).wda.mode ≡ full))
  unfolding connect establish
  connect_succeeds requested udid info s w w' resolved found =
      let s₂ : Sys W = record s { world = w' } in
      let shown =
        status_of_connected (establish drv udid info s₂).manager info refl
          (probe_outcome drv udid (open_tunnel drv udid s₂)).0 in
      rw (resolved, found) (refl, refl, shown.0, shown.1, shown.4, shown.5)

  connect_device_error :
      (udid : String) (found : Result DeviceInfo) (s : Sys W) (e : GoError)
      → (connect_device drv udid found s).0 ≡ err e
      → (connect_device drv udid found s).1.manager ≡ s.manager
  unfolding connect_device
  connect_device_error udid (err x) s e h = refl
  connect_device_error udid (ok info) s e h = cc

  connect_udid_error :
      (resolved : Result String) (s : Sys W) (e : GoError)
      → (connect_udid drv resolved s).0 ≡ err e
      → (connect_udid drv resolved s).1.manager ≡ s.manager
  unfolding connect_udid
  connect_udid_error (err x) s e h = refl
  connect_udid_error (ok udid) s e h =
      let (found, w) = drv.device_driver.get_device udid s.world in
      connect_device_error udid found (record s { world = w }) e h

  connect_device_status :
      (udid : String) (found : Result DeviceInfo) (s : Sys W) (st : DeviceStatus)
      → (connect_device drv udid found s).0 ≡ ok st
      → IsReport st (connect_device drv udid found s).1.manager
  unfolding connect_device establish build_status
  connect_device_status udid (err x) s st h = absurd cc
  connect_device_status udid (ok info) s st h = ground arith

  connect_udid_status :
      (resolved : Result String) (s : Sys W) (st : DeviceStatus)
      → (connect_udid drv resolved s).0 ≡ ok st
      → IsReport st (connect_udid drv resolved s).1.manager
  unfolding connect_udid
  connect_udid_status (err x) s st h = absurd cc
  connect_udid_status (ok udid) s st h =
      let (found, w) = drv.device_driver.get_device udid s.world in
      connect_device_status udid found (record s { world = w }) st h

  -- the status that a successful `Connect` returns
  pub connect_status :
      (requested : String) (s : Sys W) (st : DeviceStatus)
      → (connect drv requested s).0 ≡ ok st
      → IsReport st (connect drv requested s).1.manager
  unfolding connect
  connect_status requested s st h =
      let (resolved, w) = resolve_udid drv requested s.world in
      connect_udid_status resolved (record s { world = w }) st h

  -- A failed `Connect` leaves the manager as it was, a connection that it held included.
  pub connect_error_unchanged :
      (requested : String) (s : Sys W) (e : GoError)
      → (connect drv requested s).0 ≡ err e
      → (connect drv requested s).1.manager ≡ s.manager
  unfolding connect
  connect_error_unchanged requested s e h =
      let (resolved, w) = resolve_udid drv requested s.world in
      connect_udid_error resolved (record s { world = w }) e h

  -- An empty UDID stands for the only device: `Connect` does what it does with the UDID of that
  -- device, after the devices were listed.
  pub connect_only_device :
      (s : Sys W) (d : DeviceInfo) (w : W)
      → list_devices drv s.world ≡ (ok (d ∷ []), w)
      → d.udid ≢ ""
      → connect drv "" s ≡ connect drv d.udid (record s { world = w })
  unfolding connect resolve_udid only_device
  connect_only_device s d w listed named = ground (arith, eq_iff d.udid "")

is_ok-connect_device :
    {W : Type 0} (drv : Drivers W) (udid : String) (found : Result DeviceInfo) (s : Sys W)
    → is_ok (connect_device drv udid found s).0 ≡ is_ok found
unfolding connect_device
is_ok-connect_device drv udid (ok info) s = refl
is_ok-connect_device drv udid (err e) s = refl

-- the device driver's part of `Connect`
find_device : {W : Type 0} → DeviceDriver W → Result String × W → Bool
find_device dd (err e, w) = false
find_device dd (ok udid, w) = is_ok (dd.get_device udid w).0

is_ok-connect_udid :
    {W : Type 0} (drv : Drivers W) (resolved : Result String) (s : Sys W)
    → is_ok (connect_udid drv resolved s).0 ≡ find_device drv.device_driver (resolved, s.world)
unfolding connect_udid find_device
is_ok-connect_udid drv (err e) s = refl
is_ok-connect_udid drv (ok udid) s =
    is_ok-connect_device drv udid (drv.device_driver.get_device udid s.world).0 _

-- Whether `Connect` succeeds is a matter of the device driver alone.
pub connect_needs_device :
    {W : Type 0} (drv : Drivers W) (tunnel : Option (TunnelDriver W)) (wda : Option (WdaDriver W))
    (process : Option (WdaProcessDriver W)) (close : ℕ → Call W (Unit {0})) (requested : String)
    (s : Sys W)
    → is_ok (connect drv requested s).0
      ≡ is_ok
          (connect
            (record drv {
              tunnel_driver = tunnel;
              wda_driver = wda;
              wda_process_driver = process;
              close = close;
            })
            requested
            s).0
unfolding connect
connect_needs_device drv tunnel wda process close requested s =
    let (resolved, w) = resolve_udid drv requested s.world in
    is_ok-connect_udid drv resolved (record s { world = w })
    ∙ sym (
        is_ok-connect_udid
          (record drv {
            tunnel_driver = tunnel;
            wda_driver = wda;
            wda_process_driver = process;
            close = close;
          })
          resolved (record s { world = w }))
