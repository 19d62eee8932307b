-- ===== src/Device/Handles.antt =====
-- The handles of the forwarded port and of the WDA process.
use ios_pilot.Base.{ℕ, String, ◌≡◌, refl, ◌∙◌, ◌⊎◌, inl, inr, Option, none, some, arith}
use ios_pilot.Errors.{ok, Call}
use ios_pilot.Driver.{DeviceInfo, TunnelDriver}
use ios_pilot.Device.{
  DeviceManager, Drivers, Sys, connect, connect_udid, connect_device, resolve_udid, disconnect,
  close_handle, list_devices, open_tunnel, alive, launch_wda, find_wda, open_session, probe_wda,
  establish,
}

-- A handle that the manager holds.
abbrev pub Holds : DeviceManager → ℕ → Type 0
Holds dm h = (dm.port_forwarder ≡ some h) ⊎ (dm.wda_process ≡ some h)

module _ {W : Type 0} (drv : Drivers W) (IsClosed : ℕ → W → Type 0)
    (closes : (h : ℕ) (w : W) → IsClosed h (drv.close h w).1)
    (stays : (h k : ℕ) (w : W) → IsClosed h w → IsClosed h (drv.close k w).1) where
  stays-IsClosed : (h : ℕ) (o : Option ℕ) (w : W) → IsClosed h w → IsClosed h (close_handle drv o w)
  unfolding close_handle
  stays-IsClosed h none w c = c
  stays-IsClosed h (some k) w c = stays h k w c

  -- `Disconnect` closes every handle that a connected manager holds, the handle of the forwarded
  -- port and that of the WDA process.
  pub disconnect_closes :
      (s : Sys W) (d : DeviceInfo) (h : ℕ)
      → s.manager.connected ≡ some d
      → Holds s.manager h
      → IsClosed h (disconnect drv s).world
  unfolding disconnect close_handle
  disconnect_closes s d h here held = elim held [
    | inl fwd ↦ rw (here, fwd) (closes h _)
    | inr proc ↦ rw (here, proc) (stays-IsClosed h s.manager.port_forwarder _ (closes h _))
  ]

-- `Connect` closes no handle: it does the same whatever `Close` does.
pub connect_closes_nothing :
    {W : Type 0} (drv : Drivers W) (close : ℕ → Call W (Unit {0})) (requested : String) (s : Sys W)
    → connect (record drv { close = close }) requested s ≡ connect drv requested s
unfolding connect resolve_udid connect_udid connect_device establish probe_wda open_tunnel find_wda
    launch_wda alive open_session list_devices
connect_closes_nothing drv close requested s = refl

pub probe_wda_forwarder :
    {W : Type 0} (drv : Drivers W) (udid : String) (s : Sys W)
    → (probe_wda drv udid s).2.manager.port_forwarder ≡ s.manager.port_forwarder
unfolding probe_wda
probe_wda_forwarder drv udid s = ground arith

-- A `Connect` whose port forwarding succeeds holds the handle of the new forwarding, whatever handle
-- the manager held before.
pub connect_replaces_forwarder :
    {W : Type 0} (drv : Drivers W) (t : TunnelDriver W) (requested udid : String)
    (info : DeviceInfo) (h : ℕ) (s : Sys W) (w w' : W)
    → drv.tunnel_driver ≡ some t
    → resolve_udid drv requested s.world ≡ (ok udid, w)
    → drv.device_driver.get_device udid w ≡ (ok info, w')
    → (t.forward_port udid 8100 8100 (t.ensure_tunnel udid w').1).0 ≡ ok h
    → (connect drv requested s).1.manager.port_forwarder ≡ some h
unfolding connect
connect_replaces_forwarder drv t requested udid info h s w w' tunnel resolved found forwarded =
    rw (resolved, found) (probe_wda_forwarder drv udid _ ∙ ground arith)
