-- ===== src/Device/Threads/Races.antt =====
-- A `Disconnect` that comes while another goroutine is in `Connect`.
use ios_pilot.Base.{
  ℕ, zero, suc, ◌≤◌, String, ◌≡◌, refl, ◌∙◌, ap, true, none, some, [], ◌∷◌, inl, replicate,
}
use ios_pilot.Errors.{ok}
use ios_pilot.Driver.{DeviceInfo}
use ios_pilot.Device.{Drivers, Sys, build_status, disconnect}
use ios_pilot.Device.Handles.{disconnect_closes, probe_wda_forwarder}
use ios_pilot.Device.Threads.{
  Thread, forwarded, probing, returned, left, System, disconnects, moves, step, step_at, happen,
  interleave, alone,
}
use ios_pilot.Device.Threads.Alone.{finish, alone-finish}

-- the system where the first goroutine has returned
abbrev second : {W : Type 0} → Thread W × Sys W → System W
second (t, s) = record { goroutines = left ∷ t ∷ []; sys = s }

module _ {W : Type 0} (drv : Drivers W) where
  -- The first goroutine has returned and the second runs on.
  moves_on :
      (n : ℕ) (t : Thread W) (s : Sys W)
      → let (t', s') = alone drv n t s in
        interleave drv (replicate n (moves 1)) (record { goroutines = left ∷ t ∷ []; sys = s })
        ≡ record { goroutines = left ∷ t' ∷ []; sys = s' }
  unfolding interleave happen step_at alone
  moves_on zero t s = refl
  moves_on (suc n) t s = let (t', s') = step drv t s in moves_on n t' s'

  module _ (IsClosed : ℕ → W → Type 0) (closes : (h : ℕ) (w : W) → IsClosed h (drv.close h w).1)
      (stays : (h k : ℕ) (w : W) → IsClosed h w → IsClosed h (drv.close k w).1) where
    -- A goroutine in `Connect` has written its forwarder to a manager that held a device, and then
    -- another one disconnects: the forwarder is closed, and yet the `Connect`, which has at most
    -- seven steps left, returns the status of a connected device, with a manager that has no forwarder.
    pub disconnect_during_connect :
        (n : ℕ) (udid : String) (info d : DeviceInfo) (h : ℕ) (s : Sys W)
        → 7 ≤ n
        → s.manager.connected ≡ some d
        → let c =
            interleave drv
              (moves 0 ∷ disconnects ∷ moves 0 ∷ [])
              (record { goroutines = forwarded udid info h ∷ []; sys = s }) in
          let c' = interleave drv (replicate n (moves 1)) c in
          IsClosed h c.sys.world
          × (c'.goroutines ≡ left ∷ returned (ok (build_status c'.sys.manager)) ∷ [])
          × ((build_status c'.sys.manager).connected ≡ true)
          × (c'.sys.manager.connected ≡ some info)
          × (c'.sys.manager.port_forwarder ≡ none)
    unfolding interleave happen step_at step finish build_status
    disconnect_during_connect n udid info d h s enough here =
        let s₁ : Sys W = record s { manager = record (s.manager) { port_forwarder = some h } } in
        let s₂ = disconnect drv s₁ in
        let ran = moves_on n (probing udid info) s₂ in
        let ended = alone-finish drv n (probing udid info) s₂ enough in
        let gone : s₂.manager.port_forwarder ≡ none = unfold disconnect in rw here refl in
        let same = probe_wda_forwarder drv udid s₂ in
        let shown = ran ∙ ap second ended in
        (
          disconnect_closes drv IsClosed closes stays s₁ d h here (inl refl),
          rw shown refl,
          rw shown refl,
          rw shown refl,
          rw shown (same ∙ gone),
        )
