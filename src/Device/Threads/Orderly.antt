-- ===== src/Device/Threads/Orderly.antt =====
-- What holds of the manager, however the goroutines that call it interleave.
use ios_pilot.Base.{
  ℕ, zero, suc, ◌≡◌, ◌≢◌, refl, ◌∙◌, sym, Bool, true, false, ◌||◌, none, List, [], ◌∷◌, arith,
}
use ios_pilot.Device.{
  unset, full, DeviceManager, Drivers, Sys, new_device_manager, local_wda_url, disconnect,
}
use ios_pilot.Device.Coherent.{IsCoherent}
use ios_pilot.Device.Threads.{
  Thread, requested, resolved, found, tunnelled, forwarded, probing, launching, launched, asking,
  opening, probed, committed, returned, leaving, left, System, Event, connects, disconnects, moves,
  step, step_at, happen, interleave,
}

-- between the write of the forwarder and the write of the connection
abbrev pub is_pending : {W : Type 0} → Thread W → Bool
is_pending (probing udid info) = true
is_pending (launching d p udid info) = true
is_pending (launched d info h) = true
is_pending (asking d info) = true
is_pending (opening d info) = true
is_pending (probed info mode sid) = true
is_pending _ = false

abbrev pub any_pending : {W : Type 0} → List (Thread W) → Bool
any_pending [] = false
any_pending (t ∷ ts) = is_pending t || any_pending ts

-- what a goroutine is about to write: a mode that is known, and a session in full mode only
abbrev IsSound : {W : Type 0} → Thread W → Type 0
IsSound (probed info mode sid) = (mode ≢ unset) × (sid ≢ "" → mode ≡ full)
IsSound _ = Unit {0}

abbrev AllSound : {W : Type 0} → List (Thread W) → Type 0
AllSound [] = Unit {0}
AllSound (t ∷ ts) = IsSound t × AllSound ts

-- The manager of a daemon: it is coherent, but that a goroutine which is pending may already have
-- written a handle where no device is connected.
pub record IsOrderly (pending : Bool) (dm : DeviceManager) : Type 0 where
  pub at_rest : dm.connected ≡ none → pending ≡ false → dm ≡ new_device_manager
  pub mode_set : dm.connected ≢ none → dm.mode ≢ unset
  pub url_set : dm.connected ≢ none → dm.wda_url ≡ local_wda_url
  pub session_full : dm.wda_session_id ≢ "" → dm.mode ≡ full

or_swap : (a b c : Bool) → (a || (b || c)) ≡ (b || (a || c))
or_swap true true c = refl
or_swap true false c = refl
or_swap false b c = refl

or_assoc : (a b c : Bool) → ((a || b) || c) ≡ (a || (b || c))
or_assoc true b c = refl
or_assoc false b c = refl

regrouped : (a b : Bool) (dm : DeviceManager) → a ≡ b → IsOrderly a dm → IsOrderly b dm
regrouped a b dm e h = record {
  at_rest = λ gone quiet. h.at_rest gone (e ∙ quiet);
  mode_set = h.mode_set;
  url_set = h.url_set;
  session_full = h.session_full;
}

module _ {W : Type 0} (drv : Drivers W) where
  step-IsSound : (t : Thread W) (s : Sys W) → IsSound (step drv t s).0
  unfolding step
  step-IsSound (requested udid) s = ground arith
  step-IsSound (resolved udid) s = ground arith
  step-IsSound (found udid info) s = ground arith
  step-IsSound (tunnelled t udid info) s = ground arith
  step-IsSound (forwarded udid info h) s = tt
  step-IsSound (probing udid info) s = ground arith
  step-IsSound (launching d p udid info) s = ground arith
  step-IsSound (launched d info h) s = tt
  step-IsSound (asking d info) s = ground arith
  step-IsSound (opening d info) s = ground arith
  step-IsSound (probed info mode sid) s = tt
  step-IsSound committed s = tt
  step-IsSound (returned r) s = tt
  step-IsSound leaving s = tt
  step-IsSound left s = tt

  -- `more`: another goroutine is pending
  step-IsOrderly :
      (more : Bool) (t : Thread W) (s : Sys W)
      → IsSound t
      → IsOrderly (is_pending t || more) s.manager
      → let (t', s') = step drv t s in IsOrderly (is_pending t' || more) s'.manager
  unfolding step disconnect
  step-IsOrderly more (requested udid) s sound h = ground (arith, h)
  step-IsOrderly more (resolved udid) s sound h = ground (arith, h)
  step-IsOrderly more (found udid info) s sound h = ground (arith, h)
  step-IsOrderly more (tunnelled t udid info) s sound h = ground (arith, h)
  step-IsOrderly more (forwarded udid info p) s sound h = ground (arith, h)
  step-IsOrderly more (probing udid info) s sound h = ground (arith, h)
  step-IsOrderly more (launching d p udid info) s sound h = ground (arith, h)
  step-IsOrderly more (launched d info p) s sound h = ground (arith, h)
  step-IsOrderly more (asking d info) s sound h = ground (arith, h)
  step-IsOrderly more (opening d info) s sound h = ground (arith, h)
  step-IsOrderly more (probed info mode sid) s sound h = ground (arith, h, sound)
  step-IsOrderly more committed s sound h = h
  step-IsOrderly more (returned r) s sound h = h
  step-IsOrderly more leaving s sound h = ground (arith, h)
  step-IsOrderly more left s sound h = h

  pub record IsSafe (seen : Bool) (ts : List (Thread W)) (s : Sys W) : Type 0 where
    pub sound : AllSound ts
    pub orderly : IsOrderly (seen || any_pending ts) s.manager

  step_at-IsSafe :
      (seen : Bool) (i : ℕ) (ts : List (Thread W)) (s : Sys W)
      → IsSafe seen ts s
      → let (ts', s') = step_at drv i ts s in IsSafe seen ts' s'
  unfolding step_at
  step_at-IsSafe seen i [] s h = h
  step_at-IsSafe seen zero (t ∷ ts) s h =
      let (t', s') = step drv t s in
      record {
        sound = (step-IsSound t s, h.sound.1);
        orderly = regrouped _ _ s'.manager (or_swap (is_pending t') seen (any_pending ts)) (
            step-IsOrderly (seen || any_pending ts) t s h.sound.0
              (regrouped _ _ s.manager (or_swap seen (is_pending t) (any_pending ts)) h.orderly));
      }
  step_at-IsSafe seen (suc i) (t ∷ ts) s h =
      let (ts', s') = step_at drv i ts s in
      let next = step_at-IsSafe (seen || is_pending t) i ts s (record {
        sound = h.sound.1;
        orderly =
            regrouped _ _ s.manager (sym (or_assoc seen (is_pending t) (any_pending ts))) h.orderly;
      }) in
      record {
        sound = (h.sound.0, next.sound);
        orderly =
            regrouped _ _ s'.manager (or_assoc seen (is_pending t) (any_pending ts')) next.orderly;
      }

  happen-IsSafe :
      (e : Event) (c : System W)
      → IsSafe false c.goroutines c.sys
      → let c' = happen drv e c in IsSafe false c'.goroutines c'.sys
  unfolding happen
  happen-IsSafe (connects udid) c h = record { sound = (tt, h.sound); orderly = h.orderly }
  happen-IsSafe disconnects c h = record { sound = (tt, h.sound); orderly = h.orderly }
  happen-IsSafe (moves i) c h = step_at-IsSafe false i c.goroutines c.sys h

  interleave-IsSafe :
      (es : List Event) (c : System W)
      → IsSafe false c.goroutines c.sys
      → let c' = interleave drv es c in IsSafe false c'.goroutines c'.sys
  unfolding interleave
  interleave-IsSafe [] c h = h
  interleave-IsSafe (e ∷ es) c h = interleave-IsSafe es (happen drv e c) (happen-IsSafe e c h)

-- a daemon that was just started
abbrev pub started : {W : Type 0} → W → System W
started w = record { goroutines = []; sys = record { manager = new_device_manager; world = w } }

-- Whatever the drivers answer and however the goroutines that call `Connect` and `Disconnect`
-- interleave, the manager of a daemon is orderly: with a device its mode is degraded or full and its
-- URL is that of the local port, a session means full mode, and without a device it is as new,
-- unless a goroutine is between its write of the forwarder and its write of the connection.
pub interleave-IsOrderly :
    {W : Type 0} (drv : Drivers W) (es : List Event) (w : W)
    → let c = interleave drv es (started w) in IsOrderly (any_pending c.goroutines) c.sys.manager
interleave-IsOrderly drv es w =
    (interleave-IsSafe drv es (started w) (record {
      sound = tt;
      orderly = record {
        at_rest = λ _ _. refl;
        mode_set = λ h. absurd (h refl);
        url_set = λ h. absurd (h refl);
        session_full = λ h. absurd (h refl);
      };
    })).orderly

-- While no goroutine is pending an orderly manager is coherent.
pub orderly-IsCoherent : (dm : DeviceManager) → IsOrderly false dm → IsCoherent dm
orderly-IsCoherent dm h = record {
  at_rest = λ gone. h.at_rest gone refl;
  mode_set = h.mode_set;
  url_set = h.url_set;
  session_full = h.session_full;
}
