-- ===== src/Cli/Agent.antt =====
-- `cmdTunnel` (internal/cli/tunnel.go): the agent that go-ios starts to hold the tunnels. Its
-- goroutines meet events: a tick of its clock, a signal, and the end of the server of the tunnels. What
-- slog writes is left out.
use ios_pilot.Base.{
  String, Bool, false, ◌||◌, ◌≡◌, refl, none, some, List, [], ◌∷◌, ◌++◌, ◌==◌, Option, ℕ,
  if◌then◌else◌,
}
use ios_pilot.Base.Text.{concat}
use ios_pilot.Errors.{GoError, error_text, Result, ok, err, Call}
use ios_pilot.Cli.{complaint, Console, Command, print, leave}

-- the calls of the package `tunnel` of go-ios; UpdateTunnels works for the flag `userspace`
pub record TunnelPackage (W : Type 0) : Type 0 where
  pub new_pair_record_manager : Call W (Unit {0})
  pub update_tunnels : Bool → Call W (Unit {0})

-- the server returns nil or an error
pub data Event : Type 0 where
  tick signal : Event
  server_ends : Result (Unit {0}) → Event

abbrev pub has_userspace : List String → Bool
has_userspace [] = false
has_userspace (a ∷ args) = a == "--userspace" || has_userspace args

module _ {W : Type 0} (pkg : TunnelPackage W) where
  -- an update that fails is only logged
  abbrev pub update : Bool → Console W → Console W
  update userspace t = record t { world = (pkg.update_tunnels userspace t.world).1 }

  -- the agent over the events, until its context is done; none where it still runs. A server that
  -- returned nil leaves it running.
  unfoldable pub serve : Bool → List Event → Console W → Option (ℕ × Console W)
  serve userspace [] t = none
  serve userspace (tick ∷ es) t = serve userspace es (update userspace t)
  serve userspace (signal ∷ es) t = some (0, t)
  serve userspace (server_ends (ok _) ∷ es) t = serve userspace es t
  serve userspace (server_ends (err e) ∷ es) t =
      some (leave 0 (complaint (concat ("error: tunnel info server: " ∷ error_text e ∷ []))) t)

  -- after NewPairRecordManager
  unfoldable pub with_records :
      Bool → List Event → Result (Unit {0}) → Console W → Option (ℕ × Console W)
  unfolding serve
  with_records userspace es (err e) t =
      some
        (leave 1 (complaint (concat ("error: create pair record manager: " ∷ error_text e ∷ []))) t)
  with_records userspace es (ok _) t = serve userspace es t

  abbrev pub tunnel_usage : Command W
  tunnel_usage = leave 1 (complaint "usage: ios-pilot tunnel start [--userspace]")

  unfoldable pub cmd_tunnel : List Event → List String → Console W → Option (ℕ × Console W)
  unfolding with_records
  cmd_tunnel es [] t = some (tunnel_usage t)
  cmd_tunnel es (a ∷ args) t =
      if a == "start"
      then (let (r, w) = pkg.new_pair_record_manager t.world in
          with_records (has_userspace args) es r (record t { world = w }))
      else some (tunnel_usage t)

  abbrev pub Quiet : List Event → Type 0
  Quiet [] = Unit {0}
  Quiet (tick ∷ es) = Quiet es
  Quiet (server_ends (ok _) ∷ es) = Quiet es
  Quiet (_ ∷ es) = ⊥

  -- the updates of the ticks
  abbrev pub updates : Bool → List Event → Console W → Console W
  updates userspace [] t = t
  updates userspace (tick ∷ es) t = updates userspace es (update userspace t)
  updates userspace (_ ∷ es) t = updates userspace es t

  -- The agent updates the tunnels at each tick, whether or not an update fails, until the first signal
  -- or failure of its server, and then it leaves with the code 0, after a failure with a complaint.
  pub serve_until_done :
      (userspace : Bool) (es more : List Event) (t : Console W) (e : GoError)
      → Quiet es
      → (serve userspace es t ≡ none)
        × (serve userspace (es ++ signal ∷ more) t ≡ some (0, updates userspace es t))
        × (serve userspace (es ++ server_ends (err e) ∷ more) t
            ≡ some (
              0,
              print
                  (complaint (concat ("error: tunnel info server: " ∷ error_text e ∷ [])))
                  (updates userspace es t),
            ))
  unfolding serve
  serve_until_done userspace [] more t e h = (refl, refl, refl)
  serve_until_done userspace (tick ∷ es) more t e h =
      serve_until_done userspace es more (update userspace t) e h
  serve_until_done userspace (signal ∷ es) more t e h = elim h [ ]
  serve_until_done userspace (server_ends (ok u) ∷ es) more t e h =
      serve_until_done userspace es more t e h
  serve_until_done userspace (server_ends (err x) ∷ es) more t e h = elim h [ ]
