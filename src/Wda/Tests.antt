-- ===== src/Wda/Tests.antt =====
-- The client against a network that answers every request with the same documents.
use ios_pilot.Base.{◌≡◌, ◌≢◌, refl, none, some, true, [], ◌∷◌}
use ios_pilot.Base.Int.{pos, ◌+ℤ◌}
use ios_pilot.Errors.{Result, ok}
use ios_pilot.Json.{bool, str, obj, field, end, into_struct, into_string, into_bool}
use ios_pilot.Driver.{WdaElement}
use ios_pilot.Device.{Drivers, full, DeviceStatus, connect, establish, find_wda, build_status}
use ios_pilot.Lab.{World, drivers, fresh}
use ios_pilot.Wda.Elements.{
  XmlNode, node, leaf, child, atoi_codes, collect_elements, filter_interactive,
}
use ios_pilot.Wda.Preorder.{accepted, preorder, filter_interactive-collect_elements}
use ios_pilot.Wda.Payload.{
  HttpReply, Net, entries_error, into_map, assign_session, decoded, session_id, with_label,
}
use ios_pilot.Wda.Client.{
  status, create_session, find_element, get_element_tree, labelled, wda_client,
}
use ios_pilot.Wda.Full.{connect_full_session}
use ios_pilot.Wda.Sessions.{SessionManager, new_session_manager}

abbrev source : XmlNode
source = node "AppiumAUT" [] (
    child
      (node "XCUIElementTypeApplication" [] (
        child
          (node "XCUIElementTypeButton" (("name", "Log In") ∷ ("x", "10") ∷ ("width", "100.5") ∷ [])
            leaf)
          leaf))
      leaf)

abbrev reply : HttpReply
reply = record { status = 200; body = []; read_error = none }

-- every body says that WDA is ready, and names a session
abbrev net : Net World
net = record {
  get = λ _ w. (ok reply, w);
  post = λ _ _ w. (ok reply, w);
  delete = λ _ w. (ok reply, w);
  json_body = λ _. ok (
      obj (field "value" (obj (field "ready" (bool true) (field "sessionId" (str "S7") end))) end));
  json_text = λ _. ok (obj end);
  xml_text = λ _. ok source;
  base64 = λ _. ok [];
  trim = λ b. b;
  text = λ _. "";
  bytes = λ _. [];
  lower = λ s. s;
}

-- every body is an element that was found
abbrev finding : Net World
finding = record net {
  json_body = λ _. ok (obj (field "value" (obj (field "ELEMENT" (str "5") end)) end));
}

abbrev by_net : Drivers World
by_net = record drivers { wda_driver = some (wda_client net) }

filter_interactive-collect_elements_example :
    filter_interactive (collect_elements (λ s. s) source) ("button" ∷ [])
    ≡ accepted (λ s. s) ("button" ∷ []) (preorder source)
filter_interactive-collect_elements_example =
    filter_interactive-collect_elements (λ s. s) ("button" ∷ []) source

made : (create_session net "http://localhost:8100" fresh.world).0 ≡ ok "S7"
unfolding create_session decoded session_id assign_session into_struct into_string
made = refl

abbrev found : Result WdaElement
found = (find_element finding "u" "S7" "name" "Log In" fresh.world).0

abbrev log_in : WdaElement
log_in = record {
  kind = "button";
  label = "Log In";
  frame = (pos 10, pos 0, pos 100, pos 0);
  center = (pos 60, pos 0);
}

found-log_in : found ≡ ok log_in
unfolding find_element get_element_tree labelled with_label decoded into_struct into_map
    entries_error into_string collect_elements atoi_codes ◌+ℤ◌
found-log_in = refl

abbrev status_full : DeviceStatus
unfolding build_status
status_full = build_status (connect by_net "A1" fresh).1.manager

connected : (connect by_net "A1" fresh).0 ≡ ok status_full
unfolding connect build_status status_full
connected = refl

in_full_mode : (connect by_net "A1" fresh).1.manager.mode ≡ full
unfolding connect establish find_wda status create_session decoded session_id assign_session
    into_struct into_string into_bool
in_full_mode = refl

connect_full_session_example : (connect by_net "A1" fresh).1.manager.wda_session_id ≢ ""
connect_full_session_example =
    connect_full_session net by_net "A1" fresh status_full refl connected in_full_mode

abbrev manager : SessionManager
manager = new_session_manager "http://localhost:8100"
