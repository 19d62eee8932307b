-- ===== src/Config/Merge.antt =====
-- The configuration that a file makes, part by part.
use ios_pilot.Base.{String, ◌≡◌, ◌≢◌, refl, false, none, some, arith}
use ios_pilot.Errors.{GoError, ok, err}
use ios_pilot.Json.{Json, obj, null, Fields, names, into_struct}
use ios_pilot.Json.Decode.{mentions, into_fields_keeps}
use ios_pilot.Config.{
  WdaConfig, ScreenshotConfig, AnnotateConfig, default, assign_wda, assign_screenshot,
  assign_annotate, entry, merge, merge_json, File, missing, unreadable, text, load_from,
}

-- A section that the file does not have keeps its defaults.
pub missing_sections_default :
    (home : String) (raw : Fields)
    → let d = default home in
      let c = (load_from home (text (ok (obj raw)))).0 in
      (entry "idle_timeout" raw ≡ none → c.idle_timeout ≡ d.idle_timeout)
      × (entry "log_buffer_size" raw ≡ none → c.log_buffer_size ≡ d.log_buffer_size)
      × (entry "wda" raw ≡ none → c.wda ≡ d.wda)
      × (entry "screenshot" raw ≡ none → c.screenshot ≡ d.screenshot)
      × (entry "annotate" raw ≡ none → c.annotate ≡ d.annotate)
unfolding load_from
missing_sections_default home raw = (
  λ h. ground (arith, h),
  λ h. ground (arith, h),
  λ h. ground (arith, h),
  λ h. ground (arith, h),
  λ h. ground (arith, h),
)

wda_kept :
    {X : Type 0} (home : String) (raw fs : Fields) (part : WdaConfig → X) (name : String)
    → entry "wda" raw ≡ some (obj fs)
    → ((key : String) (v : Json) (p : WdaConfig)
        → names key name ≡ false
        → part (assign_wda key v p).0 ≡ part p)
    → mentions name fs ≡ false
    → part (load_from home (text (ok (obj raw)))).0.wda ≡ part (default home).wda
unfolding load_from into_struct
wda_kept home raw fs part name here keeps h =
    rw (here, merge) (into_fields_keeps assign_wda part name keeps fs (default home).wda h)

screenshot_kept :
    {X : Type 0} (home : String) (raw fs : Fields) (part : ScreenshotConfig → X) (name : String)
    → entry "screenshot" raw ≡ some (obj fs)
    → ((key : String) (v : Json) (p : ScreenshotConfig)
        → names key name ≡ false
        → part (assign_screenshot key v p).0 ≡ part p)
    → mentions name fs ≡ false
    → part (load_from home (text (ok (obj raw)))).0.screenshot ≡ part (default home).screenshot
unfolding load_from into_struct
screenshot_kept home raw fs part name here keeps h =
    rw (here, merge)
      (into_fields_keeps assign_screenshot part name keeps fs (default home).screenshot h)

annotate_kept :
    {X : Type 0} (home : String) (raw fs : Fields) (part : AnnotateConfig → X) (name : String)
    → entry "annotate" raw ≡ some (obj fs)
    → ((key : String) (v : Json) (p : AnnotateConfig)
        → names key name ≡ false
        → part (assign_annotate key v p).0 ≡ part p)
    → mentions name fs ≡ false
    → part (load_from home (text (ok (obj raw)))).0.annotate ≡ part (default home).annotate
unfolding load_from into_struct
annotate_kept home raw fs part name here keeps h =
    rw (here, merge)
      (into_fields_keeps assign_annotate part name keeps fs (default home).annotate h)

-- Within a section that the file gives as an object, each field whose name no key has keeps its default.
pub missing_fields_default :
    (home : String) (raw ws ss an : Fields)
    → entry "wda" raw ≡ some (obj ws)
    → entry "screenshot" raw ≡ some (obj ss)
    → entry "annotate" raw ≡ some (obj an)
    → let d = default home in
      let c = (load_from home (text (ok (obj raw)))).0 in
      (mentions "auto_start" ws ≡ false → c.wda.auto_start ≡ d.wda.auto_start)
      × (mentions "bundle_id" ws ≡ false → c.wda.bundle_id ≡ d.wda.bundle_id)
      × (mentions "health_interval" ws ≡ false → c.wda.health_interval ≡ d.wda.health_interval)
      × (mentions "max_restart" ws ≡ false → c.wda.max_restart ≡ d.wda.max_restart)
      × (mentions "dir" ss ≡ false → c.screenshot.dir ≡ d.screenshot.dir)
      × (mentions "retention_hours" ss ≡ false
          → c.screenshot.retention_hours ≡ d.screenshot.retention_hours)
      × (mentions "max_count" ss ≡ false → c.screenshot.max_count ≡ d.screenshot.max_count)
      × (mentions "box_color" an ≡ false → c.annotate.box_color ≡ d.annotate.box_color)
      × (mentions "label_size" an ≡ false → c.annotate.label_size ≡ d.annotate.label_size)
      × (mentions "interactive_types" an ≡ false
          → c.annotate.interactive_types ≡ d.annotate.interactive_types)
unfolding assign_wda assign_screenshot assign_annotate
missing_fields_default home raw ws ss an hw hs ha = (
  wda_kept home raw ws (λ c. c.auto_start) "auto_start" hw (λ key v p h. ground arith),
  wda_kept home raw ws (λ c. c.bundle_id) "bundle_id" hw (λ key v p h. ground arith),
  wda_kept home raw ws (λ c. c.health_interval) "health_interval" hw (λ key v p h. ground arith),
  wda_kept home raw ws (λ c. c.max_restart) "max_restart" hw (λ key v p h. ground arith),
  screenshot_kept home raw ss (λ c. c.dir) "dir" hs (λ key v p h. ground arith),
  screenshot_kept home raw ss (λ c. c.retention_hours) "retention_hours" hs
      (λ key v p h. ground arith),
  screenshot_kept home raw ss (λ c. c.max_count) "max_count" hs (λ key v p h. ground arith),
  annotate_kept home raw an (λ c. c.box_color) "box_color" ha (λ key v p h. ground arith),
  annotate_kept home raw an (λ c. c.label_size) "label_size" ha (λ key v p h. ground arith),
  annotate_kept home raw an (λ c. c.interactive_types) "interactive_types" ha
      (λ key v p h. ground arith),
)

-- When `LoadFrom` has an error, the configuration is the default one, the file is not missing, and
-- it does not hold an object: a value of a wrong type inside an object is no error.
pub load_error :
    (home : String) (f : File) (e : GoError)
    → (load_from home f).1 ≡ some e
    → ((load_from home f).0 ≡ default home)
      × ((raw : Fields) → ¬ (f ≡ text (ok (obj raw))))
      × (f ≢ missing)
unfolding load_from merge_json
load_error home missing e h = cc
load_error home (unreadable x) e h = (refl, λ raw p. cc, λ p. cc)
load_error home (text (err x)) e h = (refl, λ raw p. cc, λ p. cc)
load_error home (text (ok null)) e h = cc
load_error home (text (ok (obj raw))) e h = cc
load_error home (text (ok j)) e h = (refl, λ raw p. cc, λ p. cc)
