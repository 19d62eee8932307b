-- ===== src/Checks/Tests.antt =====
-- The checks at the laboratory's phone.
use mathlib.Core.List.{Memᴰ}
use ios_pilot.Base.{ℕ, refl, ◌↔◌, true, false, Option, none, some, [], ◌∷◌, String, inl}
use ios_pilot.Base.Text.{codes}
use ios_pilot.Errors.{errorf, ok, err, Call}
use ios_pilot.Device.{full, DeviceManager}
use ios_pilot.Lab.{World, phone, button, wda_driver}
use ios_pilot.Checks.{element, element_matches}
use ios_pilot.Checks.Verdict.{Verdict, Match, element-Verdict}

abbrev ready : World
ready = record { ready = true; next = 1; closed = [] }

abbrev manager : DeviceManager
manager = record {
  connected = some phone;
  wda_session_id = "S1";
  wda_url = "http://localhost:8100";
  mode = full;
  port_forwarder = none;
  wda_process = none;
}

abbrev shot : Option (Call World String)
shot = some (λ w. (ok "/tmp/shot.png", w))

abbrev broken_shot : Option (Call World String)
broken_shot = some (λ w. (err (errorf "no screen"), w))

abbrev same : ℕ → ℕ
same c = c

element-Verdict_example :
    let r = (element shot (some wda_driver) none none same "log" manager ready).0 in
    (Verdict r true ↔ Match same "log" (button ∷ []))
    × (Verdict r false ↔ (¬ Match same "log" (button ∷ [])))
element-Verdict_example =
    element-Verdict shot (some wda_driver) none none same wda_driver "log" manager (button ∷ [])
      ready ready refl refl

-- "log" is in "Log In"
log_in_found : Verdict (element shot (some wda_driver) none none same "log" manager ready).0 true
unfolding element_matches
log_in_found = element-Verdict_example.0.1 (button, Memᴰ.head refl, inl ([], codes " in", refl))
