-- ===== src/Device/Threads.antt =====
-- `Connect` and `Disconnect` (internal/core/device_manager.go) in goroutines of their own, as the
-- connections of internal/daemon/server.go run them. `Connect` takes the lock of the manager only
-- where it writes or reads its fields, so a goroutine goes on in steps of at most one call of a driver
-- or one locked part; `Disconnect` holds the lock throughout and is one step.
pub mod Alone
pub mod Orderly
pub mod Races
mod Tests
use ios_pilot.Base.{
  ℕ, zero, suc, String, Bool, true, false, none, some, List, [], ◌∷◌, if◌then◌else◌,
}
use ios_pilot.Errors.{wrapped, Result, ok, err}
use ios_pilot.Base.Text.{concat}
use ios_pilot.Driver.{DeviceInfo, TunnelDriver, WdaDriver, WdaProcessDriver}
use ios_pilot.Device.{
  Mode, degraded, full, DeviceStatus, Drivers, Sys, local_wda_url, build_status, resolve_udid,
  alive, disconnect,
}

-- Where a goroutine stands, with its local variables. In `Connect` it is before: the resolution of the
-- UDID, GetDevice, EnsureTunnel, ForwardPort, the write of the forwarder, Status, StartWDA, the write
-- of the process, the second Status, CreateSession, the write of the connection, and buildStatus.
pub data Thread (W : Type 0) : Type 0 where
  requested : String → Thread W
  resolved : String → Thread W
  found : String → DeviceInfo → Thread W
  tunnelled : TunnelDriver W → String → DeviceInfo → Thread W
  forwarded : String → DeviceInfo → ℕ → Thread W
  probing : String → DeviceInfo → Thread W
  launching : WdaDriver W → WdaProcessDriver W → String → DeviceInfo → Thread W
  launched : WdaDriver W → DeviceInfo → ℕ → Thread W
  asking : WdaDriver W → DeviceInfo → Thread W
  opening : WdaDriver W → DeviceInfo → Thread W
  probed : DeviceInfo → Mode → String → Thread W
  committed : Thread W
  returned : Result DeviceStatus → Thread W
  leaving : Thread W
  left : Thread W

abbrev pub after_resolve : {W : Type 0} → Result String → Thread W
after_resolve (ok udid) = resolved udid
after_resolve (err e) = returned (err e)

abbrev pub after_get : {W : Type 0} → String → Result DeviceInfo → Thread W
after_get udid (ok info) = found udid info
after_get udid (err e) = returned (err (wrapped (concat ("get device " ∷ udid ∷ [])) e))

abbrev pub after_forward : {W : Type 0} → String → DeviceInfo → Result ℕ → Thread W
after_forward udid info (ok h) = forwarded udid info h
after_forward udid info (err e) = probing udid info

abbrev pub after_launch : {W : Type 0} → WdaDriver W → DeviceInfo → Result ℕ → Thread W
after_launch d info (ok h) = launched d info h
after_launch d info (err e) = probed info degraded ""

abbrev pub after_session : {W : Type 0} → DeviceInfo → Result String → Thread W
after_session info (ok sid) = probed info full sid
after_session info (err e) = probed info degraded ""

-- what the goroutines share, and where they stand
pub record System (W : Type 0) : Type 0 where
  pub goroutines : List (Thread W)
  pub sys : Sys W

-- a goroutine calls `Connect` or `Disconnect`, or the one with this number makes a step
pub data Event : Type 0 where
  connects : String → Event
  disconnects : Event
  moves : ℕ → Event

module _ {W : Type 0} (drv : Drivers W) where
  abbrev pub after_status : WdaDriver W → String → DeviceInfo → Bool → Thread W
  after_status d udid info true = opening d info
  after_status d udid info false = elim drv.wda_process_driver [
    | none ↦ probed info degraded ""
    | some p ↦ launching d p udid info
  ]

  -- one step of a goroutine
  unfoldable pub step : Thread W → Sys W → Thread W × Sys W
  unfolding resolve_udid alive build_status disconnect
  step (requested udid) s =
      let (r, w) = resolve_udid drv udid s.world in (after_resolve r, record s { world = w })
  step (resolved udid) s =
      let (r, w) = drv.device_driver.get_device udid s.world in
      (after_get udid r, record s { world = w })
  step (found udid info) s = elim drv.tunnel_driver [
    | none ↦ (probing udid info, s)
    | some t ↦
        let (_, w) = t.ensure_tunnel udid s.world in (tunnelled t udid info, record s { world = w })
  ]
  step (tunnelled t udid info) s =
      let (r, w) = t.forward_port udid 8100 8100 s.world in
      (after_forward udid info r, record s { world = w })
  step (forwarded udid info h) s =
      (probing udid info, record s { manager = record (s.manager) { port_forwarder = some h } })
  step (probing udid info) s = elim drv.wda_driver [
    | none ↦ (probed info degraded "", s)
    | some d ↦
        let (up, w) = alive drv d s.world in (after_status d udid info up, record s { world = w })
  ]
  step (launching d p udid info) s =
      let (r, w) = p.start_wda udid s.world in (after_launch d info r, record s { world = w })
  step (launched d info h) s =
      (asking d info, record s { manager = record (s.manager) { wda_process = some h } })
  step (asking d info) s =
      let (up, w) = alive drv d s.world in
      (if up then opening d info else probed info degraded "", record s { world = w })
  step (opening d info) s =
      let (r, w) = d.create_session local_wda_url s.world in
      (after_session info r, record s { world = w })
  step (probed info mode sid) s = (
    committed,
    record s {
      manager = record (s.manager) {
        connected = some info;
        wda_url = local_wda_url;
        wda_session_id = sid;
        mode = mode;
      };
    },
  )
  step committed s = (returned (ok (build_status s.manager)), s)
  step (returned r) s = (returned r, s)
  step leaving s = (left, disconnect drv s)
  step left s = (left, s)

  -- a step of the goroutine with this number
  unfoldable pub step_at : ℕ → List (Thread W) → Sys W → List (Thread W) × Sys W
  unfolding step
  step_at i [] s = ([], s)
  step_at zero (t ∷ ts) s = let (t', s') = step t s in (t' ∷ ts, s')
  step_at (suc i) (t ∷ ts) s = let (ts', s') = step_at i ts s in (t ∷ ts', s')

  unfoldable pub happen : Event → System W → System W
  unfolding step_at
  happen (connects udid) c = record c { goroutines = requested udid ∷ c.goroutines }
  happen disconnects c = record c { goroutines = leaving ∷ c.goroutines }
  happen (moves i) c =
      let (ts, s) = step_at i c.goroutines c.sys in record { goroutines = ts; sys = s }

  -- the events in their order
  unfoldable pub interleave : List Event → System W → System W
  unfolding happen
  interleave [] c = c
  interleave (e ∷ es) c = interleave es (happen e c)

  -- a goroutine that runs on with no other
  unfoldable pub alone : ℕ → Thread W → Sys W → Thread W × Sys W
  unfolding step
  alone zero t s = (t, s)
  alone (suc n) t s = let (t', s') = step t s in alone n t' s'
