-- ===== src/Config/Tests.antt =====
-- The configuration of a partial file.
use ios_pilot.Base.{◌≡◌, refl, none}
use ios_pilot.Base.Int.{pos}
use ios_pilot.Errors.{ok}
use ios_pilot.Json.{num, str, obj, Fields, end, field, into_struct, into_string, into_int}
use ios_pilot.Config.{
  default, entry, assign_wda, assign_screenshot, assign_annotate, text, load_from,
}

abbrev wda_fields : Fields
wda_fields = field "Bundle_ID" (str "custom") end

abbrev shot_fields : Fields
shot_fields = field "max_count" (str "many") (field "dir" (str "/tmp") end)

abbrev annotate_fields : Fields
annotate_fields = field "label_size" (num (pos 20)) end

abbrev sample : Fields
sample =
    field "wda" (obj wda_fields)
      (field "screenshot" (obj shot_fields) (field "annotate" (obj annotate_fields) end))

-- a key is matched without regard to case, and a value of a wrong type is passed over
sample_loads : load_from "/u" (text (ok (obj sample))) ≡ (
  record (default "/u") {
    wda = record ((default "/u").wda) { bundle_id = "custom" };
    screenshot = record ((default "/u").screenshot) { dir = "/tmp" };
    annotate = record ((default "/u").annotate) { label_size = pos 20 };
  },
  none,
)
unfolding load_from entry into_struct assign_wda assign_screenshot assign_annotate into_string
    into_int
sample_loads = refl
