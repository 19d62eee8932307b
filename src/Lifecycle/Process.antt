-- ===== src/Lifecycle/Process.antt =====
-- One daemon at a time, and how it ends (`runDaemonServe` of internal/cli/root.go).
use ios_pilot.Base.{
  ◌-◌, false, nat_eq, Bool-cases, inl, inr, if◌then◌else◌, arith, ℕ, ◌+◌, ◌≤◌, ◌≡◌, refl, ap, true,
  false, Option, some, List, [], ◌∷◌, ltb,
}
use ios_pilot.Errors.{Result, ok, err, is_ok}
use ios_pilot.Logs.Manager as Manager
use ios_pilot.Lifecycle.{acquire_lock}
use ios_pilot.Lifecycle.Lock.{Flocks, kept_out}
use ios_pilot.Lifecycle.Idle.{IdleTimer, IsArmed, pass, pass_fires}
use ios_pilot.Lifecycle.Idle as Idle
use ios_pilot.Lifecycle.Listener.{begin_stop}
use ios_pilot.Lifecycle.Serve.{
  Host, Serving, exited, serving, Event, quiet, signal, boot, prepared, locked, lock_path, run,
  expire, panics, Process, settle, stop_server, removals, happen,
}

-- no signal, and no panic of a handler
abbrev pub IsCalm : List Event → Type 0
IsCalm [] = Unit {0}
IsCalm (signal ∷ es) = ⊥
IsCalm (panics n ∷ es) = ⊥
IsCalm (_ ∷ es) = IsCalm es

-- a daemon that was signalled, after some clients have hung up
abbrev pub leaving : ℕ → Serving → Serving
leaving n sv = record sv {
  timer = Idle.stop sv.timer;
  log_manager = Manager.stop sv.log_manager;
  conns = sv.conns - n;
  waiting = sv.waiting + 1;
  accepting = false;
  signalled = true;
}

module _ {W : Type 0} (host : Host W) where
  locked_out :
      (r : Result ℕ) (w : W)
      → is_ok r ≡ false
      → locked host r w ≡ (exited 1, "error: another daemon is already running" ∷ [], w)
  unfolding locked
  locked_out (ok lock) w h = absurd (ground (arith, h))
  locked_out (err e) w h = refl

  -- A daemon that is started while another holds the lock exits with the code 1 after it has tried to
  -- take the lock, and the other still holds it: it writes no PID file and touches no socket.
  pub second_daemon_leaves :
      (holder : W → Option ℕ) (w w₁ : W) (h : ℕ)
      → Flocks host.os (lock_path host) holder
      → host.mkdir_all host.config_dir w ≡ (ok tt, w₁)
      → holder w₁ ≡ some h
      → (boot host w ≡ (
        exited 1,
        "error: another daemon is already running" ∷ [],
        (acquire_lock host.os (lock_path host) w₁).1,
      ))
        × (holder (acquire_lock host.os (lock_path host) w₁).1 ≡ some h)
  unfolding boot prepared acquire_lock
  second_daemon_leaves holder w w₁ h flocks made held =
      let (fails, keeps) =
        kept_out host.os (lock_path host) holder flocks w₁ (host.os.open_lock (lock_path host) w₁).1
          h (host.os.open_lock (lock_path host) w₁).0 refl held in
      (
        rw made (
            locked_out (acquire_lock host.os (lock_path host) w₁).0
              (acquire_lock host.os (lock_path host) w₁).1 fails),
        keeps,
      )

  -- the process serves on, with the lock that it had
  abbrev Stays : ℕ → Process × W → Type 0
  Stays lock o =
      (sv : Serving) × (w : W) × (o ≡ (serving sv, w)) × (sv.lock ≡ lock) × (sv.signalled ≡ false)

  -- When the idle timeout has passed since the last request of a daemon that has met no signal, the
  -- listener is closed, and the socket is removed where no client is connected, but the process
  -- stays, with its lock.
  pub idle_process_stays :
      (n d k : ℕ) (sv : Serving) (w : W)
      → IsArmed d k sv.timer
      → d ≤ n
      → sv.signalled ≡ false
      → let closed = begin_stop host.os host.net sv.server w in
        (sv' : Serving) × (run host (quiet n ∷ []) sv w ≡ (
          serving sv',
          if nat_eq sv.conns 0 then removals host (sv.waiting + 1) sv.server closed else closed,
        ))
        × (sv'.lock ≡ sv.lock)
        × (sv'.accepting ≡ false)
        × (sv'.timer.expired ≡ k + 1)
  unfolding run happen expire stop_server settle
  idle_process_stays n d k sv w armed long off =
      let fires = pass_fires n (sv.timer.clock + d) sv.timer armed.due (omega (arith, long)) in
      let count : (pass n sv.timer).expired ≡ sv.timer.expired + 1 =
        ap (λ (it : IdleTimer). it.expired) fires in
      let fired : ltb sv.timer.expired (pass n sv.timer).expired ≡ true = ground (arith, count) in
      let total : (pass n sv.timer).expired ≡ k + 1 = omega (arith, count, armed.count) in
      let stopped : Serving = record sv {
        timer = pass n sv.timer;
        waiting = sv.waiting + 1;
        accepting = false;
      } in
      elim (Bool-cases (nat_eq sv.conns 0)) [
        | inl none_open ↦
            (record stopped { waiting = 0 }, rw (fired, none_open, off) refl, refl, refl, total)
        | inr some_open ↦ (stopped, rw (fired, some_open) refl, refl, refl, total)
      ]
