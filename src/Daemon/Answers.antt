-- ===== src/Daemon/Answers.antt =====
-- The response to a line (`dispatch` of internal/daemon/server.go).
use ios_pilot.Base.{
  String, ◌≡◌, refl, sym, Bool, false, not, ◌||◌, Option, none, some, List, [], ◌∷◌, arith, ◌==◌,
  Bool-cases, inl, inr,
}
use ios_pilot.Errors.{Result, ok, err, err_method_not_found}
use ios_pilot.Json.{Json, null}
use ios_pilot.Protocol.{Request, Response, decode_request, new_error_response}
use ios_pilot.Daemon.{Env, State, Reply, Outcome, Handler}
use ios_pilot.Daemon.Server.{
  Table, find_handler, register_handlers, respond, route, dispatch_request, dispatch,
}
use ios_pilot.Daemon.Panics.{is_some}

-- the identifier that a response to the line has to carry
abbrev pub line_id : Result Request → Json
line_id (err e) = null
line_id (ok req) = req.id

-- A response of JSON-RPC 2.0 to this identifier: a result or an error, and not both.
pub record IsAnswer (id : Json) (resp : Response Reply) : Type 0 where
  pub version : resp.jsonrpc ≡ "2.0"
  pub same_id : resp.id ≡ id
  pub one_of : is_some resp.result ≡ not (is_some resp.error)

abbrev pub Answers : {W : Type 0} → Json → Option (Response Reply × State W) → Type 0
Answers id none = Unit {0}
Answers id (some x) = IsAnswer id x.0

respond-Answers : {W : Type 0} (id : Json) (o : Outcome W) → Answers id (respond id o)
unfolding respond
respond-Answers id none = tt
respond-Answers id (some (ok result, s)) = record { version = refl; same_id = refl; one_of = refl }
respond-Answers id (some (err e, s)) = record { version = refl; same_id = refl; one_of = refl }

route-Answers :
    {W : Type 0} (req : Request) (found : Option (Handler W)) (s : State W)
    → Answers req.id (route req found s)
unfolding route
route-Answers req none s = record { version = refl; same_id = refl; one_of = refl }
route-Answers req (some h) s = respond-Answers req.id (h req.params s)

dispatch_request-Answers :
    {W : Type 0} (table : Table W) (r : Result Request) (s : State W)
    → Answers (line_id r) (dispatch_request table r s)
unfolding dispatch_request
dispatch_request-Answers table (err e) s = record { version = refl; same_id = refl; one_of = refl }
dispatch_request-Answers table (ok req) s = route-Answers req (find_handler req.method table) s

-- The twenty-two methods, the last that is registered first.
abbrev pub methods : List String
methods =
    "daemon.status" ∷ "wda.restart" ∷ "wda.status" ∷ "check.no_crash" ∷ "check.app_running"
    ∷ "check.element" ∷ "check.screen" ∷ "log.crash.get" ∷ "log.crash.list" ∷ "log"
    ∷ "app.foreground" ∷ "app.uninstall" ∷ "app.kill" ∷ "app.launch" ∷ "app.install" ∷ "app.list"
    ∷ "act" ∷ "look" ∷ "device.disconnect" ∷ "device.status" ∷ "device.connect" ∷ "device.list" ∷ []

abbrev pub is_listed : String → List String → Bool
is_listed method [] = false
is_listed method (m ∷ ms) = m == method || is_listed method ms

abbrev names_of : {W : Type 0} → Table W → List String
names_of [] = []
names_of ((m, h) ∷ table) = m ∷ names_of table

find_handler_unlisted :
    {W : Type 0} (method : String) (table : Table W)
    → is_listed method (names_of table) ≡ false
    → find_handler method table ≡ none
unfolding find_handler
find_handler_unlisted method [] h = refl
find_handler_unlisted method ((m, k) ∷ table) h = elim (Bool-cases (m == method)) [
  | inl here ↦ absurd (ground arith)
  | inr there ↦ rw there (find_handler_unlisted method table (ground arith))
]

module _ {W : Type 0} (env : Env W) where
  dispatch-Answers :
      (line : Result Json) (s : State W)
      → Answers (line_id (decode_request line)) (dispatch env line s)
  unfolding dispatch
  dispatch-Answers line s = dispatch_request-Answers (register_handlers env) (decode_request line) s

  -- A response that the daemon sends carries the version "2.0" and the identifier of its request,
  -- null where the line is no request, and exactly one of a result and an error.
  pub dispatch-IsAnswer :
      (line : Result Json) (s s' : State W) (resp : Response Reply)
      → dispatch env line s ≡ some (resp, s')
      → IsAnswer (line_id (decode_request line)) resp
  dispatch-IsAnswer line s s' resp e = along _ e (dispatch-Answers line s)
    where
      along :
          {o o' : Option (Response Reply × State W)} (id : Json)
          → o ≡ o'
          → Answers id o
          → Answers id o'
      along id p h = rw (sym p) h

  -- A request for any method but the twenty-two is answered with "Method not found", under its own
  -- identifier, and changes nothing.
  pub dispatch_unknown :
      (line : Result Json) (req : Request) (s : State W)
      → decode_request line ≡ ok req
      → is_listed req.method methods ≡ false
      → dispatch env line s ≡ some (new_error_response req.id err_method_not_found none, s)
  unfolding dispatch dispatch_request route register_handlers
  dispatch_unknown line req s decoded other =
      rw (decoded, find_handler_unlisted req.method (register_handlers env) other) refl
