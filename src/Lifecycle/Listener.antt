-- ===== src/Lifecycle/Listener.antt =====
-- The socket of `Server` (Start, Stop and acceptLoop of internal/daemon/server.go). The network is a
-- parameter.
use ios_pilot.Base.{ℕ, String, Option, none, some, List, [], ◌∷◌}
use ios_pilot.Base.Text.{concat}
use ios_pilot.Errors.{wrapped, Result, ok, err, Call}
use ios_pilot.Lifecycle.{Os}

-- net.Listen("unix", path) gives a handle
pub record Net (W : Type 0) : Type 0 where
  pub listen : String → Call W ℕ
  pub close_listener : ℕ → W → W

pub record Server : Type 0 where
  pub sock_path : String
  pub listener : Option ℕ

abbrev pub new_server : String → Server
new_server path = record { sock_path = path; listener = none }

-- the loop of `acceptLoop`: the connections that it hands to goroutines, up to the first error
unfoldable pub accept_loop {ℓ} : {C : Type ℓ} → List (Result C) → List C
accept_loop [] = []
accept_loop (err e ∷ rest) = []
accept_loop (ok c ∷ rest) = c ∷ accept_loop rest

module _ {W : Type 0} (os : Os W) (net : Net W) where
  abbrev listening : Server → Result ℕ → W → Result (Unit {0}) × Server × W
  listening srv (err e) w = (err (wrapped (concat ("listen unix " ∷ srv.sock_path ∷ [])) e), srv, w)
  listening srv (ok ln) w = (ok tt, record srv { listener = some ln }, w)

  -- `Start`: a stale socket is removed first
  unfoldable pub start : Server → W → Result (Unit {0}) × Server × W
  start srv w =
      let (r, w') = net.listen srv.sock_path (os.remove srv.sock_path w) in listening srv r w'

  abbrev close_listener : Option ℕ → W → W
  close_listener none w = w
  close_listener (some ln) w = net.close_listener ln w

  -- `Stop` closes the listener, waits for the connections that are open, and removes the socket: the
  -- part before it waits, and the part after it. What it waits for is in Lifecycle.Serve.
  unfoldable pub begin_stop : Server → W → W
  begin_stop srv w = close_listener srv.listener w

  unfoldable pub end_stop : Server → W → W
  end_stop srv w = os.remove srv.sock_path w
