-- ===== src/Checks.antt =====
-- `Checker` (internal/core/check.go): the assertions on a connected device. A nil driver is `none`,
-- and so is a nil `ScreenCaptureInterface`, whose one method is a call. The texts that `Sprintf` makes
-- are the constructors of `Detail`, one for each format.
pub mod Verdict
mod Tests
use ios_pilot.Base.{
  ℕ, ◌+◌, String, Bool, true, false, not, ◌||◌, Option, none, some, List, [], ◌∷◌, map, ◌==◌,
  nat_eq, if◌then◌else◌,
}
use ios_pilot.Base.Text.{codes, contains, to_lower}
use ios_pilot.Errors.{errorf, wrapped, Result, ok, err, Call}
use ios_pilot.Driver.{WdaElement, CrashReport, WdaDriver, AppDriver, CrashDriver}
use ios_pilot.Device.{DeviceManager, connected_udid}

pub data Detail : Type 0 where
  screenshot_taken : Detail
  element_found element_not_found : String → Detail
  app_in_foreground : String → Detail
  -- the application in the foreground, and the one that is expected
  other_in_foreground : String → String → Detail
  no_crashes : String → Detail
  crashes_found : ℕ → String → Detail

-- `pass` is null where the reader of the screenshot is to decide
pub record CheckResult : Type 0 where
  pub pass : Option Bool
  pub detail : Detail
  pub screenshot : String

-- strings.ToLower; `fold` is the table of Unicode from 128 on
abbrev pub lower : (ℕ → ℕ) → String → List ℕ
lower fold s = map (to_lower fold) (codes s)

-- does the element match the text that was lowered
unfoldable pub element_matches : (ℕ → ℕ) → List ℕ → WdaElement → Bool
element_matches fold text el =
    contains (lower fold el.label) text || contains (lower fold el.kind) text

-- the loop of `Element`, with its `break`
unfoldable pub find_match : (ℕ → ℕ) → List ℕ → List WdaElement → Bool
unfolding element_matches
find_match fold text [] = false
find_match fold text (el ∷ els) =
    let rest = find_match fold text els in if element_matches fold text el then true else rest

-- does the report belong to the application
unfoldable pub is_relevant : String → CrashReport → Bool
is_relevant bundle_id cr =
    contains (codes cr.process) (codes bundle_id) || contains (codes cr.name) (codes bundle_id)

-- the loop of `NoCrash`
unfoldable pub count_relevant : String → List CrashReport → ℕ
unfolding is_relevant
count_relevant bundle_id [] = 0
count_relevant bundle_id (cr ∷ crs) =
    let rest = count_relevant bundle_id crs in if is_relevant bundle_id cr then rest + 1 else rest

module _ {W : Type 0} (shot : Option (Call W String)) (wda : Option (WdaDriver W))
    (apps : Option (AppDriver W)) (crashes : Option (CrashDriver W)) (fold : ℕ → ℕ) where
  -- the path of a screenshot, "" if there is none
  unfoldable pub screenshot : W → String × W
  screenshot w = elim shot [
    | none ↦ ("", w)
    | some take ↦ let (r, w') = take w in (elim r [ ok path ↦ path | err _ ↦ "" ], w')
  ]

  -- a verdict, and the screenshot that goes with it
  unfoldable pub report : Option Bool → Detail → Call W CheckResult
  unfolding screenshot
  report pass detail w =
      let (path, w') = screenshot w in
      (ok (record { pass = pass; detail = detail; screenshot = path }), w')

  unfoldable pub screen : Call W CheckResult
  unfolding report
  screen = report none screenshot_taken

  unfoldable pub element : String → DeviceManager → Call W CheckResult
  unfolding find_match report
  element text dm w = elim wda [
    | none ↦ (err (errorf "WDA driver not available"), w)
    | some d ↦
        let (r, w') = d.get_element_tree dm.wda_url dm.wda_session_id w in
        elim r [
          | err e ↦ (err (wrapped "get element tree" e), w')
          | ok els ↦
              let found = find_match fold (lower fold text) els in
              report (some found) (if found then element_found text else element_not_found text) w'
        ]
  ]

  unfoldable pub app_running : String → DeviceManager → Call W CheckResult
  unfolding report
  app_running bundle_id dm w = elim apps [
    | none ↦ (err (errorf "app driver not available"), w)
    | some a ↦
        let (r, w') = a.foreground_app (connected_udid dm) w in
        elim r [
          | err e ↦ (err (wrapped "foreground app" e), w')
          | ok fg ↦
              let same = fg == bundle_id in
              report (some same)
                (if same then app_in_foreground bundle_id else other_in_foreground fg bundle_id) w'
        ]
  ]

  unfoldable pub no_crash : String → DeviceManager → Call W CheckResult
  unfolding count_relevant report
  no_crash bundle_id dm w = elim crashes [
    | none ↦ (err (errorf "crash driver not available"), w)
    | some c ↦
        let (r, w') = c.list_crashes (connected_udid dm) w in
        elim r [
          | err e ↦ (err (wrapped "list crashes" e), w')
          | ok crs ↦
              let relevant = count_relevant bundle_id crs in
              let clean = nat_eq relevant 0 in
              report (some clean)
                (if clean then no_crashes bundle_id else crashes_found relevant bundle_id) w'
        ]
  ]
