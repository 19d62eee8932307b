-- ===== src/Screen/Capture/Look.antt =====
-- `Look` and its capture (internal/core/screen_capture.go): what the flags, WDA and the drawing change.
use ios_pilot.Base.{
  ℕ, ◌≡◌, refl, ◌∙◌, String, Bool, true, false, ◌&&◌, ◌||◌, Option, none, some, List, [], arith,
  Bool-cases, Option-cases, inl, inr, if◌then◌else◌,
}
use ios_pilot.Base.Int.{ℤ}
use ios_pilot.Errors.{Result, ok, err, is_ok}
use ios_pilot.Driver.{ScreenshotDriver, WdaDriver}
use ios_pilot.Config.{Config}
use ios_pilot.Device.{DeviceManager, Mode, degraded, full, is_full}
use ios_pilot.Screen.Raster.{Image}
use ios_pilot.Screen.Capture.{
  Host, LookResult, ElementInfo, file_in, save_plain, prepare, interactive_infos, save_annotated,
  finish_plain, drawn_or_plain, look_image, look_captured, look_with_elements, look_decoded, look,
  shown_mode,
}

module _ {W : Type 0} (host : Host W) (sd : ScreenshotDriver W) (cfg : Config) where
  shown_mode-is_full :
      (wda : Option (WdaDriver W)) (dm : DeviceManager)
      → is_full (shown_mode host sd wda cfg dm) ≡ is_full dm.mode
  shown_mode-is_full wda dm = ground arith

  look_decoded_flags :
      (wda : Option (WdaDriver W)) (dm : DeviceManager) (annotate ui : Bool) (bytes : List ℕ)
      (img : Image) (w : W)
      → is_full dm.mode ≡ false
      → look_decoded host sd wda cfg dm annotate ui bytes img w
        ≡ look_decoded host sd wda cfg dm false false bytes img w
  unfolding look_decoded
  look_decoded_flags none dm annotate ui bytes img w h = refl
  look_decoded_flags (some d) dm annotate ui bytes img w h =
      let low : is_full (shown_mode host sd (some d) cfg dm) ≡ false =
        shown_mode-is_full (some d) dm ∙ h in
      rw low refl

  look_image_flags :
      (wda : Option (WdaDriver W)) (dm : DeviceManager) (annotate ui : Bool) (bytes : List ℕ)
      (r : Result Image) (w : W)
      → is_full dm.mode ≡ false
      → look_image host sd wda cfg dm annotate ui bytes r w
        ≡ look_image host sd wda cfg dm false false bytes r w
  unfolding look_image
  look_image_flags wda dm annotate ui bytes (err e) w h = refl
  look_image_flags wda dm annotate ui bytes (ok img) w h =
      look_decoded_flags wda dm annotate ui bytes img w h

  look_captured_flags :
      (wda : Option (WdaDriver W)) (dm : DeviceManager) (annotate ui : Bool) (r : Result (List ℕ))
      (w : W)
      → is_full dm.mode ≡ false
      → look_captured host sd wda cfg dm annotate ui r w
        ≡ look_captured host sd wda cfg dm false false r w
  unfolding look_captured
  look_captured_flags wda dm annotate ui (err e) w h = refl
  look_captured_flags wda dm annotate ui (ok bytes) w h =
      look_image_flags wda dm annotate ui bytes (host.decode_png bytes) w h

  -- Unless the manager is in full mode, `Look` does the same whatever its flags are.
  pub look_ignores_flags :
      (wda : Option (WdaDriver W)) (dm : DeviceManager) (annotate ui : Bool) (w : W)
      → is_full dm.mode ≡ false
      → look host sd wda cfg dm annotate ui w ≡ look host sd wda cfg dm false false w
  unfolding look
  look_ignores_flags wda dm annotate ui w h =
      let (r, w') = prepare host sd wda cfg dm w in look_captured_flags wda dm annotate ui r w' h

-- A result that shows this image in this mode.
abbrev pub Shows : Image → Mode → Result LookResult → Type 0
Shows img mode (ok r) = (r.screen_size ≡ (img.max_x, img.max_y)) × (r.mode ≡ mode)
Shows img mode (err e) = ⊥

module _ {W : Type 0} (host : Host W) (sd : ScreenshotDriver W) (cfg : Config)
    (wda : Option (WdaDriver W)) (dm : DeviceManager)
    (writes : (path : String) (bytes : List ℕ) (w : W)
      → is_ok (host.write_file path bytes w).0 ≡ true) where
  finish_plain-Shows :
      (bytes : List ℕ) (ts : ℤ) (mode : Mode) (img : Image) (els : List ElementInfo) (w : W)
      → Shows img mode (finish_plain host sd wda cfg dm bytes ts mode img els w).0
  unfolding finish_plain save_plain
  finish_plain-Shows bytes ts mode img els w =
      ground (arith, writes (file_in cfg.screenshot.dir "screenshot" ts) bytes w)

  drawn_or_plain-Shows :
      (ui : Bool) (bytes : List ℕ) (ts : ℤ) (mode : Mode) (img : Image) (infos : List ElementInfo)
      (drawn : Option String) (w : W)
      → Shows img mode (drawn_or_plain host sd wda cfg dm ui bytes ts mode img infos drawn w).0
  unfolding drawn_or_plain
  drawn_or_plain-Shows ui bytes ts mode img infos (some path) w = (refl, refl)
  drawn_or_plain-Shows ui bytes ts mode img infos none w =
      finish_plain-Shows bytes ts mode img (if ui then infos else []) w

  look_with_elements-Shows :
      (d : WdaDriver W) (annotate ui : Bool) (bytes : List ℕ) (ts : ℤ) (mode : Mode) (img : Image)
      (w : W)
      → Shows img mode (look_with_elements host sd wda cfg dm d annotate ui bytes ts mode img w).0
  unfolding look_with_elements
  look_with_elements-Shows d annotate ui bytes ts mode img w =
      let (infos, w₁) = interactive_infos host sd wda cfg dm d w in
      let drawn =
        if annotate then save_annotated host sd wda cfg dm img ts infos w₁ else (none, w₁) in
      drawn_or_plain-Shows ui bytes ts mode img infos drawn.0 drawn.1

  look_decoded-Shows :
      (annotate ui : Bool) (bytes : List ℕ) (img : Image) (w : W)
      → Shows img
          (shown_mode host sd wda cfg dm)
          (look_decoded host sd wda cfg dm annotate ui bytes img w).0
  unfolding look_decoded
  look_decoded-Shows annotate ui bytes img w =
      let (ts, w') = host.now w in
      let mode = shown_mode host sd wda cfg dm in
      elim (Option-cases wda) [
        | inl e ↦ rw e (finish_plain-Shows bytes ts mode img [] w')
        | inr (d, e) ↦ elim (Bool-cases (is_full mode && (annotate || ui))) [
          | inl flagged ↦
              rw (e, flagged) (look_with_elements-Shows d annotate ui bytes ts mode img w')
          | inr plain ↦ rw (e, plain) (finish_plain-Shows bytes ts mode img [] w')
        ]
      ]

  full_or_degraded : shown_mode host sd wda cfg dm ≡ (if is_full dm.mode then full else degraded)
  full_or_degraded = ground arith

  -- Where files can be written, the screenshot can be taken and decodes, `Look` succeeds with the size
  -- of that screenshot, and its mode is "full" where that of the manager is and "degraded" otherwise,
  -- also where no mode is set, whatever the flags are and whether WDA and the drawing succeed or not.
  pub look_best_effort :
      (annotate ui : Bool) (bytes : List ℕ) (img : Image) (w w' : W)
      → prepare host sd wda cfg dm w ≡ (ok bytes, w')
      → host.decode_png bytes ≡ ok img
      → Shows img
          (if is_full dm.mode then full else degraded)
          (look host sd wda cfg dm annotate ui w).0
  unfolding look look_captured look_image
  look_best_effort annotate ui bytes img w w' taken decoded =
      rw (taken, decoded, ← full_or_degraded) (look_decoded-Shows annotate ui bytes img w')
