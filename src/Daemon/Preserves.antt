-- ===== src/Daemon/Preserves.antt =====
-- What a request leaves of the state of the daemon (internal/daemon/server.go and
-- internal/daemon/state.go).
use ios_pilot.Base.{String, ◌≡◌, refl, ◌∙◌, Option, none, some, [], ◌∷◌, arith}
use ios_pilot.Driver.{DeviceInfo}
use ios_pilot.Errors.{GoError, Result, ok, err, Call}
use ios_pilot.Json.{Json, unmarshal}
use ios_pilot.Device.{DeviceStatus, Drivers, Sys, connect, disconnect}
use ios_pilot.Device.Coherent.{IsCoherent, connect-IsCoherent, new-IsCoherent, disconnect-eq-new}
use ios_pilot.Logs.Manager.{LogManager, start, stop}
use ios_pilot.Daemon.{Env, State, Reply, strings, Outcome, drivers, sys, with_sys, reply, replying}
use ios_pilot.Ui as Ui
use ios_pilot.Apps as Apps
use ios_pilot.Daemon.Params.{ActParams, lenient, assign_only}
use ios_pilot.Daemon.Handlers.{
  unless_error, strict, strict_text, connected, restarted, done, act, install, restart,
  handle_device_connect, handle_device_disconnect,
}
use ios_pilot.Daemon.Reports.{crash_reply, handle_log}

start_buffer : (udid : String) (lm : LogManager) → (start udid lm).buffer ≡ lm.buffer
unfolding start
start_buffer udid lm = ground arith

stop_buffer : (lm : LogManager) → (stop lm).buffer ≡ lm.buffer
unfolding stop
stop_buffer lm = ground arith

module _ {W : Type 0} where
  -- From one state to the next: a coherent manager stays coherent, and the stored entries stay.
  pub record Preserved (s s' : State W) : Type 0 where
    pub coherent : IsCoherent s.device_manager → IsCoherent s'.device_manager
    pub same_buffer : s'.log_manager.buffer ≡ s.log_manager.buffer

  -- what a panic did is not looked at
  abbrev pub Keeps : {X : Type 0} → State W → Option (X × State W) → Type 0
  Keeps s none = Unit {0}
  Keeps s (some x) = Preserved s x.1

  pub same : (s : State W) → Preserved s s
  same s = record { coherent = λ h. h; same_buffer = refl }

  pub moved : (s : State W) (w : W) → Preserved s (record s { world = w })
  moved s w = record { coherent = λ h. h; same_buffer = refl }

  pub Preserved-trans : (s₁ s₂ s₃ : State W) → Preserved s₁ s₂ → Preserved s₂ s₃ → Preserved s₁ s₃
  Preserved-trans s₁ s₂ s₃ h k = record {
    coherent = λ c. k.coherent (h.coherent c);
    same_buffer = k.same_buffer ∙ h.same_buffer;
  }

  pub reply-Keeps :
      {A : Type 0} (f : A → Reply) (r : Result A) (s s' : State W)
      → Preserved s s'
      → Keeps s (reply f r s')
  unfolding reply
  reply-Keeps f (ok a) s s' h = h
  reply-Keeps f (err e) s s' h = h

  pub replying-Keeps :
      {A : Type 0} (f : A → Reply) (call : Call W A) (s : State W) → Keeps s (replying f call s)
  unfolding replying
  replying-Keeps f call s =
      let (r, w) = call s.world in
      reply-Keeps f r s (record s { world = w }) (record { coherent = λ h. h; same_buffer = refl })

  pub crash_reply-Keeps :
      {A : Type 0} (f : A → Reply) (r : Option (Result A × W)) (s : State W)
      → Keeps s (crash_reply f r s)
  unfolding crash_reply
  crash_reply-Keeps f none s = tt
  crash_reply-Keeps f (some (r, w)) s =
      reply-Keeps f r s (record s { world = w }) (record { coherent = λ h. h; same_buffer = refl })

  unless_error-Keeps :
      {P : Type 0} (context : String) (e : Option GoError) (body : P → State W → Outcome W) (p : P)
      (s : State W)
      → ((p : P) → Keeps s (body p s))
      → Keeps s (unless_error context e body p s)
  unfolding unless_error
  unless_error-Keeps context (some x) body p s h = same s
  unless_error-Keeps context none body p s h = h p

  pub strict-Keeps :
      {P : Type 0} (context : String) (assign : String → Json → P → P × Option GoError) (empty : P)
      (params : Option Json) (body : P → State W → Outcome W) (s : State W)
      → ((p : P) → Keeps s (body p s))
      → Keeps s (strict context assign empty params body s)
  unfolding strict
  strict-Keeps context assign empty params body s h =
      let (p, e) = unmarshal assign params empty in unless_error-Keeps context e body p s h

  pub strict_text-Keeps :
      (name : String) (params : Option Json) (body : String → State W → Outcome W) (s : State W)
      → ((p : String) → Keeps s (body p s))
      → Keeps s (strict_text name params body s)
  unfolding strict_text
  strict_text-Keeps name params body s h =
      strict-Keeps "invalid params" (assign_only name) "" params body s h

  connected-Keeps :
      (r : Result DeviceStatus) (s s' : State W) → Preserved s s' → Keeps s (connected r s')
  unfolding connected
  connected-Keeps (err e) s s' h = h
  connected-Keeps (ok st) s s' h = record {
    coherent = λ c. ground (arith, h.coherent c);
    same_buffer = ground (arith, h.same_buffer, start_buffer st.udid s'.log_manager);
  }

  restarted-Keeps :
      (r : Result DeviceStatus) (s s' : State W) → Preserved s s' → Keeps s (restarted r s')
  unfolding restarted
  restarted-Keeps (err e) s s' h = h
  restarted-Keeps (ok st) s s' h = h

disconnect-IsCoherent :
    {W : Type 0} (drv : Drivers W) (s : Sys W)
    → IsCoherent s.manager
    → IsCoherent (disconnect drv s).manager
disconnect-IsCoherent drv s h = rw (disconnect-eq-new drv s h) new-IsCoherent

module _ {W : Type 0} (env : Env W) where
  pub handle_device_connect-Keeps :
      (params : Option Json) (s : State W) → Keeps s (handle_device_connect env params s)
  unfolding handle_device_connect
  handle_device_connect-Keeps params s =
      let udid = lenient (assign_only "udid") params "" in
      let (r, x) = connect (drivers env) udid (sys s) in
      connected-Keeps r s (with_sys s x)
        (record { coherent = connect-IsCoherent (drivers env) udid (sys s); same_buffer = refl })

  pub handle_device_disconnect-Keeps :
      (params : Option Json) (s : State W) → Keeps s (handle_device_disconnect env params s)
  unfolding handle_device_disconnect
  handle_device_disconnect-Keeps params s = record {
    coherent = disconnect-IsCoherent (drivers env) (sys s);
    same_buffer = stop_buffer s.log_manager;
  }

  pub restart-Keeps : (dev : Option DeviceInfo) (s : State W) → Keeps s (restart env dev s)
  unfolding restart
  restart-Keeps none s = same s
  restart-Keeps (some dev) s =
      let down = disconnect (drivers env) (sys s) in
      let (r, x) = connect (drivers env) dev.udid down in
      restarted-Keeps r s (with_sys s x) (record {
        coherent = λ h.
            connect-IsCoherent (drivers env) dev.udid down
              (disconnect-IsCoherent (drivers env) (sys s) h);
        same_buffer = refl;
      })

  pub act-Keeps : (p : ActParams) (s : State W) → Keeps s (act env p s)
  unfolding act
  act-Keeps p s =
      let c = env.wda_client in
      let dm = s.device_manager in
      ground (
        arith,
        replying-Keeps (done "tap") (Ui.tap c p.x p.y dm) s,
        replying-Keeps (done "swipe") (Ui.swipe c p.x1 p.y1 p.x2 p.y2 dm) s,
        replying-Keeps (done "input") (Ui.input c p.text dm) s,
        replying-Keeps (done "press") (Ui.press c p.key dm) s,
        same s,
      )

  pub install-Keeps : (path : String) (s : State W) → Keeps s (install env path s)
  unfolding install
  install-Keeps path s =
      let f = λ (_ : Unit {0}). strings (("status", "installed") ∷ ("path", path) ∷ []) in
      ground (
        arith,
        same s,
        replying-Keeps f (Apps.install env.app_driver (some env.wda_client) path s.device_manager)
            s,
      )

  pub handle_log-Keeps : (params : Option Json) (s : State W) → Keeps s (handle_log env params s)
  unfolding handle_log
  handle_log-Keeps params s = ground (arith, same s)
