-- ===== src/Device/Threads/Alone.antt =====
-- A goroutine that no other disturbs does what `Connect` and `Disconnect` do as one call.
use ios_pilot.Base.{ℕ, zero, suc, ◌≤◌, ◌≡◌, refl, ◌∙◌, arith, String, Bool, true, false, some}
use ios_pilot.Errors.{Result, ok, err}
use ios_pilot.Driver.{DeviceInfo, WdaDriver}
use ios_pilot.Device.{
  Mode, degraded, DeviceStatus, Drivers, Sys, build_status, resolve_udid, alive, disconnect,
  connect, connect_udid, connect_device, establish, open_tunnel, probe_wda, find_wda, launch_wda,
  open_session, local_wda_url,
}
use ios_pilot.Device.Threads.{
  after_resolve, after_get, Thread, requested, resolved, found, tunnelled, forwarded, probing,
  launching, launched, asking, opening, probed, committed, returned, leaving, left, step, alone,
}

-- how many steps are left at most
abbrev pub remaining : {W : Type 0} → Thread W → ℕ
remaining (requested udid) = 12
remaining (resolved udid) = 11
remaining (found udid info) = 10
remaining (tunnelled t udid info) = 9
remaining (forwarded udid info h) = 8
remaining (probing udid info) = 7
remaining (launching d p udid info) = 6
remaining (launched d info h) = 5
remaining (asking d info) = 4
remaining (opening d info) = 3
remaining (probed info mode sid) = 2
remaining committed = 1
remaining (returned r) = 0
remaining leaving = 1
remaining left = 0

module _ {W : Type 0} (drv : Drivers W) where
  abbrev answer : Result DeviceStatus × Sys W → Thread W × Sys W
  answer (r, s) = (returned r, s)

  -- the end of `Connect` once WDA was probed
  abbrev conclude : DeviceInfo → Mode × String × Sys W → Thread W × Sys W
  conclude info (mode, sid, s) =
      let s' : Sys W = record s {
        manager = record (s.manager) {
          connected = some info;
          wda_url = local_wda_url;
          wda_session_id = sid;
          mode = mode;
        };
      } in
      (returned (ok (build_status s'.manager)), s')

  -- the end of the probe once it is known whether WDA is there
  abbrev with_wda : WdaDriver W → DeviceInfo → Bool × Sys W → Thread W × Sys W
  with_wda d info (true, s) = conclude info (open_session drv d s)
  with_wda d info (false, s) = conclude info (degraded, "", s)

  -- the forwarder is written where there is one
  abbrev ported : Result ℕ → Sys W → Sys W
  ported (ok h) s = record s { manager = record (s.manager) { port_forwarder = some h } }
  ported (err e) s = s

  -- a launch that succeeded or failed, and the second question
  abbrev relaunched : WdaDriver W → DeviceInfo → Result ℕ → Sys W → Thread W × Sys W
  relaunched d info (ok h) s =
      let (up, w) = alive drv d s.world in
      with_wda d info
        (up, record { manager = record (s.manager) { wda_process = some h }; world = w })
  relaunched d info (err e) s = conclude info (degraded, "", s)

  -- what is left of the call, in one piece
  unfoldable pub finish : Thread W → Sys W → Thread W × Sys W
  unfolding connect connect_udid connect_device establish probe_wda open_session alive build_status
      disconnect
  finish (requested udid) s = answer (connect drv udid s)
  finish (resolved udid) s = answer (connect_udid drv (ok udid) s)
  finish (found udid info) s = answer (connect_device drv udid (ok info) s)
  finish (tunnelled t udid info) s =
      let (r, w) = t.forward_port udid 8100 8100 s.world in
      conclude info (probe_wda drv udid (ported r (record s { world = w })))
  finish (forwarded udid info h) s = conclude info (probe_wda drv udid (ported (ok h) s))
  finish (probing udid info) s = conclude info (probe_wda drv udid s)
  finish (launching d p udid info) s =
      let (r, w) = p.start_wda udid s.world in relaunched d info r (record s { world = w })
  finish (launched d info h) s = relaunched d info (ok h) s
  finish (asking d info) s =
      let (up, w) = alive drv d s.world in with_wda d info (up, record s { world = w })
  finish (opening d info) s = conclude info (open_session drv d s)
  finish (probed info mode sid) s = conclude info (mode, sid, s)
  finish committed s = (returned (ok (build_status s.manager)), s)
  finish (returned r) s = (returned r, s)
  finish leaving s = (left, disconnect drv s)
  finish left s = (left, s)

  finish_resolved :
      (r : Result String) (s : Sys W) → finish (after_resolve r) s ≡ answer (connect_udid drv r s)
  unfolding finish
  finish_resolved (ok udid) s = refl
  finish_resolved (err e) s = refl

  finish_got :
      (udid : String) (r : Result DeviceInfo) (s : Sys W)
      → finish (after_get udid r) s ≡ answer (connect_device drv udid r s)
  unfolding finish
  finish_got udid (ok info) s = refl
  finish_got udid (err e) s = refl

  finish-step :
      (t : Thread W) (s : Sys W) → let (t', s') = step drv t s in finish t' s' ≡ finish t s
  unfolding step finish connect_device build_status open_tunnel establish probe_wda find_wda
      launch_wda
  finish-step (requested udid) s = finish_resolved (resolve_udid drv udid s.world).0 _
  finish-step (resolved udid) s = finish_got udid (drv.device_driver.get_device udid s.world).0 _
  finish-step (found udid info) s = ground arith
  finish-step (tunnelled t udid info) s = ground arith
  finish-step (forwarded udid info h) s = refl
  finish-step (probing udid info) s = ground arith
  finish-step (launching d p udid info) s = ground arith
  finish-step (launched d info h) s = refl
  finish-step (asking d info) s = ground arith
  finish-step (opening d info) s = ground arith
  finish-step (probed info mode sid) s = refl
  finish-step committed s = refl
  finish-step (returned r) s = refl
  finish-step leaving s = refl
  finish-step left s = refl

  remaining-step :
      (n : ℕ) (t : Thread W) (s : Sys W) → remaining t ≤ suc n → remaining (step drv t s).0 ≤ n
  unfolding step
  remaining-step n (requested udid) s h = ground (arith, h)
  remaining-step n (resolved udid) s h = ground (arith, h)
  remaining-step n (found udid info) s h = ground (arith, h)
  remaining-step n (tunnelled t udid info) s h = ground (arith, h)
  remaining-step n (forwarded udid info p) s h = omega (arith, h)
  remaining-step n (probing udid info) s h = ground (arith, h)
  remaining-step n (launching d p udid info) s h = ground (arith, h)
  remaining-step n (launched d info p) s h = omega (arith, h)
  remaining-step n (asking d info) s h = ground (arith, h)
  remaining-step n (opening d info) s h = ground (arith, h)
  remaining-step n (probed info mode sid) s h = omega (arith, h)
  remaining-step n committed s h = omega (arith, h)
  remaining-step n (returned r) s h = omega arith
  remaining-step n leaving s h = omega arith
  remaining-step n left s h = omega arith

  finish_at_end : (t : Thread W) (s : Sys W) → remaining t ≤ 0 → (t, s) ≡ finish t s
  unfolding finish
  finish_at_end (returned r) s h = refl
  finish_at_end left s h = refl
  finish_at_end _ s h = absurd (omega (arith, h))

  pub alone-finish :
      (n : ℕ) (t : Thread W) (s : Sys W) → remaining t ≤ n → alone drv n t s ≡ finish t s
  unfolding alone
  alone-finish zero t s h = finish_at_end t s h
  alone-finish (suc n) t s h =
      let (t', s') = step drv t s in alone-finish n t' s' (remaining-step n t s h) ∙ finish-step t s

  -- A goroutine in `Connect` that no other disturbs has returned after at most twelve steps, with the
  -- result and the state of the call as a whole; one in `Disconnect` has after one step.
  pub goroutine_alone :
      (n : ℕ) (udid : String) (s : Sys W)
      → 12 ≤ n
      → (alone drv n (requested udid) s ≡ (returned (connect drv udid s).0, (connect drv udid s).1))
        × (alone drv n leaving s ≡ (left, disconnect drv s))
  unfolding finish
  goroutine_alone n udid s h =
      (alone-finish n (requested udid) s h, alone-finish n leaving s (omega (arith, h)))
