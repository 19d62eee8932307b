-- ===== src/Goios/Tunnels.antt =====
-- The state of the tunnel driver, and how long it waits (internal/driver/goios/tunnel.go).
use ios_pilot.Base.{
  arith, ℕ, zero, suc, ◌+◌, ◌≤◌, ◌≡◌, refl, String, true, Option, none, some, ◌==◌, Bool-cases, inl,
  inr,
}
use ios_pilot.Errors.{Result, ok, err, is_ok, in_context}
use ios_pilot.Daemon.Panics.{is_some}
use ios_pilot.Goios.{Library, call_in}
use ios_pilot.Goios.Tunnel.{
  Tunnels, Driver, make_manager, ensure_with, ensure_manager, await_tunnel, await_device, ensured,
  ensure_tunnel, running_with, is_tunnel_running, stop_with, stop_tunnel, forward_entry,
  forward_port, is_found, new_tunnel_driver,
}

-- there is a manager exactly when there is a context to cancel
pub record IsCoherent {W : Type 0} (d : Driver W) : Type 0 where
  pub both : is_some d.tm ≡ is_some d.cancel

abbrev pub Returns :
    {W : Type 0} → (Driver W → Type 0) → Option (Result (Unit {0}) × Driver W) → Type 0
Returns P none = ⊥
Returns P (some x) = P x.1

module _ {E W : Type 0} (lib : Library E W) (tun : Tunnels E W) where
  make_manager-IsCoherent :
      (d : Driver W) (r : Result ℕ) (w : W)
      → IsCoherent d
      → IsCoherent (make_manager lib tun d r w).1
  unfolding make_manager
  make_manager-IsCoherent d (err e) w h = record { both = h.both }
  make_manager-IsCoherent d (ok pm) w h = record { both = refl }

  -- and an answer that is no error comes with a manager
  make_manager-tm :
      (d : Driver W) (r : Result ℕ) (w : W)
      → is_ok (make_manager lib tun d r w).0 ≡ true
      → is_some (make_manager lib tun d r w).1.tm ≡ true
  unfolding make_manager
  make_manager-tm d (err e) w h = absurd (ground (arith, h))
  make_manager-tm d (ok pm) w h = refl

  ensure_with-IsCoherent :
      (tm : Option ℕ) (d : Driver W) → IsCoherent d → IsCoherent (ensure_with lib tun tm d).1
  unfolding ensure_with
  ensure_with-IsCoherent none d h =
      make_manager-IsCoherent d (call_in "create pair record manager" tun.pair_records d.world).0
        (call_in "create pair record manager" tun.pair_records d.world).1 h
  ensure_with-IsCoherent (some tm) d h = h

  ensure_with-tm :
      (tm : Option ℕ) (d : Driver W)
      → d.tm ≡ tm
      → is_ok (ensure_with lib tun tm d).0 ≡ true
      → is_some (ensure_with lib tun tm d).1.tm ≡ true
  unfolding ensure_with
  ensure_with-tm none d e h =
      make_manager-tm d (call_in "create pair record manager" tun.pair_records d.world).0
        (call_in "create pair record manager" tun.pair_records d.world).1 h
  ensure_with-tm (some tm) d e h = ground (arith, e)

  -- where a manager is there the wait returns, with the same manager
  await_device-IsCoherent :
      (udid : String) (tm : Option ℕ) (d : Driver W)
      → is_some tm ≡ true
      → IsCoherent d
      → Returns IsCoherent (await_device lib tun udid tm d)
  unfolding await_device
  await_device-IsCoherent udid none d there h = absurd (ground (arith, there))
  await_device-IsCoherent udid (some tm) d there h = record { both = h.both }

  ensured-IsCoherent :
      (udid : String) (r : Result (Unit {0})) (d : Driver W)
      → (is_ok r ≡ true → is_some d.tm ≡ true)
      → IsCoherent d
      → Returns IsCoherent (ensured lib tun udid (in_context "ensure tunnel" r) d)
  unfolding ensured
  ensured-IsCoherent udid (err e) d there h = h
  ensured-IsCoherent udid (ok _) d there h = elim (Bool-cases (udid == "")) [
    | inl any ↦ rw any h
    | inr one ↦ rw one (await_device-IsCoherent udid d.tm d (there refl) h)
  ]

  stop_with-IsCoherent :
      (udid : String) (tm : Option ℕ) (d : Driver W)
      → d.tm ≡ tm
      → IsCoherent d
      → IsCoherent (stop_with lib tun udid tm d).1
  unfolding stop_with
  stop_with-IsCoherent udid none d e h = h
  stop_with-IsCoherent udid (some tm) d e h = elim (Bool-cases (udid == "")) [
    | inl any ↦ rw any (record { both = refl })
    | inr one ↦ rw one (record { both = h.both })
  ]

  running_with-IsCoherent :
      (udid : String) (tm : Option ℕ) (d : Driver W)
      → IsCoherent d
      → IsCoherent (running_with lib tun udid tm d).1
  unfolding running_with
  running_with-IsCoherent udid none d h = h
  running_with-IsCoherent udid (some tm) d h = elim (Bool-cases (udid == "")) [
    | inl any ↦ rw any h
    | inr one ↦ rw one (record { both = h.both })
  ]

  forward_entry-IsCoherent :
      (udid : String) (host device : ℕ) (d : Driver W) (r : Result E) (w : W)
      → IsCoherent d
      → IsCoherent (forward_entry lib tun udid host device d r w).1
  unfolding forward_entry
  forward_entry-IsCoherent udid host device d (err e) w h = record { both = h.both }
  forward_entry-IsCoherent udid host device d (ok entry) w h = record { both = h.both }

  -- The driver has a tunnel manager exactly when it has a context to cancel: a new driver has neither,
  -- and every operation keeps this. EnsureTunnel returns, with a result or an error: after
  -- ensureManager the manager that it reads is there.
  pub operations-IsCoherent :
      (quote : String → String) (udid : String) (host device : ℕ) (d : Driver W)
      → IsCoherent d
      → Returns IsCoherent (ensure_tunnel lib tun udid d)
        × IsCoherent (is_tunnel_running lib tun udid d).1
        × IsCoherent (stop_tunnel lib tun udid d).1
        × IsCoherent (forward_port lib tun quote udid host device d).1
        × IsCoherent (new_tunnel_driver d.world)
  unfolding ensure_tunnel ensure_manager is_tunnel_running stop_tunnel forward_port
  operations-IsCoherent quote udid host device d h = (
    ensured-IsCoherent udid (ensure_with lib tun d.tm d).0 (ensure_with lib tun d.tm d).1
        (ensure_with-tm d.tm d refl) (ensure_with-IsCoherent d.tm d h),
    running_with-IsCoherent udid d.tm d h,
    stop_with-IsCoherent udid d.tm d refl h,
    forward_entry-IsCoherent udid host device d _ _ h,
    record { both = refl },
  )

  -- The polls that are made are counted.
  pub record CountsPolls (polls : W → ℕ) : Type 0 where
    pub find : (tm : ℕ) (udid : String) (w : W) → polls (tun.find_tunnel tm udid w).1 ≡ polls w + 1
    pub rest : (ms : ℕ) (w : W) → polls (tun.sleep ms w) ≡ polls w

  await_polls :
      (polls : W → ℕ) (counts : CountsPolls polls) (n tm : ℕ) (udid : String) (w : W)
      → polls (await_tunnel lib tun n tm udid w).1 ≤ polls w + n
  unfolding await_tunnel
  await_polls polls counts zero tm udid w = omega arith
  await_polls polls counts (suc n) tm udid w =
      elim (Bool-cases (is_found lib tun udid (tun.find_tunnel tm udid w).0)) [
        | inl found ↦ rw found (omega (arith, counts.find tm udid w))
        | inr more ↦ rw more (
            omega (
              arith,
              counts.find tm udid w,
              counts.rest 500 (tun.find_tunnel tm udid w).1,
              await_polls polls counts n tm udid (tun.sleep 500 (tun.find_tunnel tm udid w).1),
            ))
      ]

  abbrev pub Within : (W → ℕ) → ℕ → Driver W → Type 0
  Within polls n d = polls d.world ≤ n

  await_device_polls :
      (polls : W → ℕ) (counts : CountsPolls polls) (udid : String) (o : Option ℕ) (d : Driver W)
      → is_some o ≡ true
      → Returns (Within polls (polls d.world + 30)) (await_device lib tun udid o d)
  unfolding await_device
  await_device_polls polls counts udid none d h = absurd (ground (arith, h))
  await_device_polls polls counts udid (some tm) d h = await_polls polls counts 30 tm udid d.world

  ensured_polls :
      (polls : W → ℕ) (counts : CountsPolls polls) (udid : String) (o : Option ℕ) (d : Driver W)
      → is_some o ≡ true
      → is_some d.tm ≡ true
      → let (r, d') = ensure_with lib tun o d in
        Returns
          (Within polls (polls d.world + 30))
          (ensured lib tun udid (in_context "ensure tunnel" r) d')
  unfolding ensured ensure_with
  ensured_polls polls counts udid none d h there = absurd (ground (arith, h))
  ensured_polls polls counts udid (some tm) d h there = elim (Bool-cases (udid == "")) [
    | inl any ↦ rw any (omega arith)
    | inr one ↦ rw one (await_device_polls polls counts udid d.tm d there)
  ]

  -- With a manager that is there, EnsureTunnel returns after at most thirty polls for the tunnel.
  pub ensure_tunnel_polls :
      (polls : W → ℕ) (udid : String) (d : Driver W)
      → CountsPolls polls
      → is_some d.tm ≡ true
      → Returns (Within polls (polls d.world + 30)) (ensure_tunnel lib tun udid d)
  unfolding ensure_tunnel ensure_manager
  ensure_tunnel_polls polls udid d counts there = ensured_polls polls counts udid d.tm d there there
