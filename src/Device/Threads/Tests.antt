-- ===== src/Device/Threads/Tests.antt =====
-- Goroutines that call the manager of the laboratory's phone.
use ios_pilot.Base.{◌≡◌, refl, true, none, some, List, [], ◌∷◌, arith, replicate}
use ios_pilot.Errors.{ok}
use ios_pilot.Lab.{World, phone, drivers, fresh, IsClosed, closes, stays}
use ios_pilot.Device.{Sys, build_status, connect}
use ios_pilot.Device.Threads.{
  forwarded, returned, left, Event, connects, disconnects, moves, interleave,
}
use ios_pilot.Device.Threads.Orderly.{any_pending, IsOrderly, started, interleave-IsOrderly}
use ios_pilot.Device.Threads.Races.{disconnect_during_connect}

-- two goroutines connect in turns, and a third disconnects
abbrev turns : List Event
turns =
    connects "A1"
    ∷ connects ""
    ∷ moves 0
    ∷ moves 1
    ∷ moves 0
    ∷ moves 1
    ∷ moves 0
    ∷ moves 0
    ∷ moves 0
    ∷ disconnects
    ∷ moves 0
    ∷ moves 2
    ∷ []

-- a handle is held while no device is connected
held_without_device :
    let dm = (interleave drivers turns (started fresh.world)).sys.manager in
    (dm.port_forwarder ≡ some 1) × (dm.connected ≡ none)
unfolding interleave
held_without_device = (refl, refl)

interleave-IsOrderly_example :
    let c = interleave drivers turns (started fresh.world) in
    IsOrderly (any_pending c.goroutines) c.sys.manager
interleave-IsOrderly_example = interleave-IsOrderly drivers turns fresh.world

-- the phone is connected, and another goroutine connects again
abbrev connected : Sys World
connected = (connect drivers "" fresh).1

disconnect_during_connect_example :
    let c =
      interleave drivers
        (moves 0 ∷ disconnects ∷ moves 0 ∷ [])
        (record { goroutines = forwarded "A1" phone 3 ∷ []; sys = connected }) in
    let c' = interleave drivers (replicate 7 (moves 1)) c in
    IsClosed 3 c.sys.world
    × (c'.goroutines ≡ left ∷ returned (ok (build_status c'.sys.manager)) ∷ [])
    × ((build_status c'.sys.manager).connected ≡ true)
    × (c'.sys.manager.connected ≡ some phone)
    × (c'.sys.manager.port_forwarder ≡ none)
disconnect_during_connect_example =
    disconnect_during_connect drivers IsClosed closes stays 7 "A1" phone phone 3 connected
      (omega arith) (unfold connect in refl)
