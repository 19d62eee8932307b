-- ===== src/Goios/Device.antt =====
-- The devices and the screenshots (internal/driver/goios/device.go and screenshot.go).
use ios_pilot.Base.{ℕ, String, List, [], ◌∷◌, ◌==◌, if◌then◌else◌}
use ios_pilot.Base.Text.{concat}
use ios_pilot.Errors.{Result, ok, err, Call, and_then}
use ios_pilot.Driver.{DeviceInfo, DeviceDriver, ScreenshotDriver}
use ios_pilot.Goios.{Values, Library, call_in, using}

module _ {E W : Type 0} (lib : Library E W) (quote : String → String) where
  abbrev pub info_of : E → Values → DeviceInfo
  info_of entry v = record {
    udid = lib.serial entry;
    name = v.device_name;
    ios_version = v.product_version;
    product_type = v.product_type;
  }

  unfoldable pub device_info_from_entry : E → Call W DeviceInfo
  device_info_from_entry entry w =
      and_then
        (call_in (concat ("get lockdown values for " ∷ quote (lib.serial entry) ∷ []))
          (lib.get_values entry) w)
        λ v w'. (ok (info_of entry v), w')

  -- a device of which lockdown gives nothing
  abbrev pub only_udid : String → DeviceInfo
  only_udid udid = record { udid = udid; name = ""; ios_version = ""; product_type = "" }

  abbrev pub info_or_udid : E → Result DeviceInfo → DeviceInfo
  info_or_udid entry (ok info) = info
  info_or_udid entry (err e) = only_udid (lib.serial entry)

  -- the loop over the entries; one with no serial number is left out
  unfoldable pub infos_of : List E → W → List DeviceInfo × W
  unfolding device_info_from_entry
  infos_of [] w = ([], w)
  infos_of (entry ∷ es) w =
      let skipped = infos_of es w in
      let (r, w₁) = device_info_from_entry entry w in
      let (infos, w₂) = infos_of es w₁ in
      if lib.serial entry == "" then skipped else (info_or_udid entry r ∷ infos, w₂)

  unfoldable pub list_devices : Call W (List DeviceInfo)
  unfolding infos_of
  list_devices w =
      and_then (call_in "list devices" lib.list_devices w)
        λ entries w'. let (infos, w'') = infos_of entries w' in (ok infos, w'')

  unfoldable pub get_device : String → Call W DeviceInfo
  unfolding device_info_from_entry
  get_device udid w =
      and_then (call_in (concat ("get device " ∷ quote udid ∷ [])) (lib.get_device udid) w)
        device_info_from_entry

  unfoldable pub take_screenshot : String → Call W (List ℕ)
  unfolding using
  take_screenshot udid w =
      and_then (call_in "screenshot: get device" (lib.get_device udid) w) λ entry w₁.
        using lib
          (call_in "screenshot: connect to screenshot service" (lib.screenshot_service entry) w₁)
          λ svc. call_in "screenshot: take screenshot" (lib.screenshot svc)

  abbrev pub device_driver : DeviceDriver W
  device_driver = record { list_devices = list_devices; get_device = get_device }

  abbrev pub screenshot_driver : ScreenshotDriver W
  screenshot_driver = record { take_screenshot = take_screenshot }
