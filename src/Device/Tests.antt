-- ===== src/Device/Tests.antt =====
-- The device manager at the laboratory's phone.
use ios_pilot.Base.{◌≡◌, refl, ◌≢◌, true, some, inr, ◌↔◌}
use ios_pilot.Errors.{ok}
use ios_pilot.Lab.{IsClosed, closes, stays, World, phone, drivers, fresh}
use ios_pilot.Device.{unset, full, running, Sys, build_status, connect, disconnect, resolve_udid}
use ios_pilot.Device.Coherent.{IsCoherent, new-IsCoherent, connect-IsCoherent}
use ios_pilot.Device.Connect.{connect_succeeds}
use ios_pilot.Device.Handles.{disconnect_closes}

abbrev connected : Sys World
connected = (connect drivers "" fresh).1

connected_full : connected.manager ≡ record {
  connected = some phone;
  wda_session_id = "S1";
  wda_url = "http://localhost:8100";
  mode = full;
  port_forwarder = some 1;
  wda_process = some 2;
}
unfolding connect
connected_full = refl

connect-IsCoherent_example : IsCoherent connected.manager
connect-IsCoherent_example = connect-IsCoherent drivers "" fresh new-IsCoherent

disconnect_closes_example : IsClosed 2 (disconnect drivers connected).world
disconnect_closes_example =
    disconnect_closes drivers IsClosed closes stays connected phone 2 (unfold connect in refl)
      (inr (unfold connect in refl))

connect_succeeds_example :
    let (r, s') = connect drivers "A1" fresh in
    (r ≡ ok (build_status s'.manager))
    × (s'.manager.connected ≡ some phone)
    × ((build_status s'.manager).connected ≡ true)
    × ((build_status s'.manager).udid ≡ phone.udid)
    × ((build_status s'.manager).wda.mode ≢ unset)
    × (((build_status s'.manager).wda.status ≡ running)
        ↔ ((build_status s'.manager).wda.mode ≡ full))
connect_succeeds_example =
    connect_succeeds drivers "A1" "A1" phone fresh fresh.world fresh.world
      (unfold resolve_udid in refl) refl
