-- ===== src/Daemon/Unconnected.antt =====
-- Requests that need a device, where none is connected (internal/daemon/state.go).
use ios_pilot.Base.{◌≡◌, refl, true, Option, none, some}
use ios_pilot.Errors.{Result, ok, err}
use ios_pilot.Json.{Json}
use ios_pilot.Protocol.{Request, Response, decode_request}
use ios_pilot.Daemon.{Env, State, Reply, Outcome, Handler}
use ios_pilot.Daemon.Server.{
  find_handler, register_handlers, respond, route, dispatch_request, dispatch,
}
use ios_pilot.Daemon.Table.{find_handler-AllHandlers}
use ios_pilot.Daemon.Panics.{is_some}
use ios_pilot.Daemon.Refuses.{needs_device, Refuses, RefusesAway, register_handlers-Refuses}

-- The response is an error, and the state, the world included, is as it was.
abbrev pub Rejected : {W : Type 0} → State W → Option (Response Reply × State W) → Type 0
Rejected s none = ⊥
Rejected s (some (resp, s')) = (resp.result ≡ none) × (is_some resp.error ≡ true) × (s' ≡ s)

respond-Rejected :
    {W : Type 0} (id : Json) (o : Outcome W) (s : State W) → Refuses s o → Rejected s (respond id o)
unfolding respond
respond-Rejected id none s h = h
respond-Rejected id (some (ok a, s')) s h = absurd h
respond-Rejected id (some (err e, s')) s h = (refl, refl, h)

route-Rejected :
    {W : Type 0} (req : Request) (found : Option (Handler W)) (s : State W)
    → ((h : Handler W) → found ≡ some h → Refuses s (h req.params s))
    → Rejected s (route req found s)
unfolding route
route-Rejected req none s all = (refl, refl, refl)
route-Rejected req (some h) s all = respond-Rejected req.id (h req.params s) s (all h refl)

module _ {W : Type 0} (env : Env W) where
  -- While no device is connected, a request for a gesture or for an operation on applications is
  -- answered with an error, whatever its parameters are. The state and the world are as they were.
  pub dispatch_without_device :
      (line : Result Json) (req : Request) (s : State W)
      → decode_request line ≡ ok req
      → needs_device req.method ≡ true
      → s.device_manager.connected ≡ none
      → Rejected s (dispatch env line s)
  unfolding dispatch dispatch_request
  dispatch_without_device line req s decoded needs away =
      let table = register_handlers env in
      rw decoded (
        route-Rejected req (find_handler req.method table) s (λ h found.
          find_handler-AllHandlers (RefusesAway env) req.method table h
            (register_handlers-Refuses env) found needs req.params s away))
