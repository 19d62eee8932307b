-- ===== src/Screen/Capture.antt =====
-- `ScreenCapture` (internal/core/screen_capture.go): the capture of the screen, with and without the
-- numbered boxes. The file system, the clock and the libraries for PNG, base64 and text are `Host`.
-- Numbers of type int do not overflow in the model.
pub mod Annotate
pub mod Look
mod Tests
use ios_pilot.Base.{
  ℕ, zero, suc, ◌+◌, ◌*◌, ◌/◌, String, Bool, true, false, not, ◌&&◌, ◌||◌, Option, none, some, List,
  [], ◌∷◌, length, if◌then◌else◌,
}
use ios_pilot.Base.Int.{ℤ, pos, negsuc, sub_ℕ, ◌+ℤ◌, ◌-ℤ◌, ltb_ℤ}
use ios_pilot.Base.Text.{codes, concat, is_prefix, itoa}
use ios_pilot.Errors.{wrapped, Result, ok, err, Call}
use ios_pilot.Driver.{WdaElement, ScreenshotDriver, WdaDriver}
use ios_pilot.Config.{Config}
use ios_pilot.Device.{DeviceManager, Mode, unset, degraded, full, is_full, connected_udid}
use ios_pilot.Screen.Raster.{Rgba, Image, draw_rect, fill_rect}
use ios_pilot.Screen.Color.{parse_hex_color}

pub record ElementInfo : Type 0 where
  pub id : ℕ
  pub kind : String
  pub label : String
  pub frame : ℤ × ℤ × ℤ × ℤ
  pub center : ℤ × ℤ

pub record LookResult : Type 0 where
  pub screenshot : String
  pub mode : Mode
  pub screen_size : ℤ × ℤ
  pub elements : List ElementInfo

-- os.MkdirAll, os.WriteFile, time.Now().UnixNano, png.Decode, png.Encode, the decoder of base64, and
-- `drawLabel`, which draws white text at a point.
pub record Host (W : Type 0) : Type 0 where
  pub mkdir_all : String → Call W (Unit {0})
  pub write_file : String → List ℕ → Call W (Unit {0})
  pub now : W → ℤ × W
  pub decode_png : List ℕ → Result Image
  pub encode_png : Image → Result (List ℕ)
  pub decode_base64 : List ℕ → Result (List ℕ)
  pub draw_label : Image → ℤ → ℤ → String → Image

-- division by two, towards zero
abbrev pub half : ℤ → ℤ
half (pos n) = pos (n / 2)
half (negsuc n) = sub_ℕ 0 ((n + 1) / 2)

abbrev pub png_magic : List ℕ
png_magic = 137 ∷ 80 ∷ 78 ∷ 71 ∷ []

-- the elements with their numbers, from `n` on
unfoldable pub infos_from : ℕ → List WdaElement → List ElementInfo
infos_from n [] = []
infos_from n (el ∷ els) =
    record {
      id = n;
      kind = el.kind;
      label = el.label;
      frame = el.frame;
      center = (el.frame.0 +ℤ half el.frame.2, el.frame.1 +ℤ half el.frame.3);
    }
    ∷ infos_from (n + 1) els

-- filepath.Join of a clean directory
abbrev file_in : String → String → ℤ → String
file_in dir prefix ts = concat (dir ∷ "/" ∷ prefix ∷ "-" ∷ itoa ts ∷ ".png" ∷ [])

module _ {W : Type 0} (host : Host W) where
  -- the box and the number of one element
  unfoldable pub draw_annotation : Rgba → Image → ElementInfo → Image
  draw_annotation color img el =
      let (x, y, w, h) = el.frame in
      let boxed = draw_rect img x y w h 2 color in
      let label = itoa (pos el.id) in
      let label_w = pos (length (codes label) * 7 + 4) in
      let above = y -ℤ pos 13 in
      let label_y = if ltb_ℤ above (pos 0) then y else above in
      let filled = fill_rect boxed x label_y label_w (pos 13) color in
      host.draw_label filled (x +ℤ pos 2) (label_y +ℤ pos 10) label

  unfoldable pub draw_all : Rgba → Image → List ElementInfo → Image
  unfolding draw_annotation
  draw_all color img [] = img
  draw_all color img (el ∷ els) = draw_all color (draw_annotation color img el) els

  unfoldable pub draw_annotations : Config → Image → List ElementInfo → Result (List ℕ)
  unfolding draw_all
  draw_annotations cfg src els =
      host.encode_png (draw_all (parse_hex_color (codes cfg.annotate.box_color)) src els)

  -- raw PNG, or PNG in base64
  unfoldable pub accept_png : List ℕ → List ℕ
  accept_png [] = []
  accept_png (b ∷ bs) =
      if is_prefix png_magic (b ∷ bs)
      then b ∷ bs
      else elim (host.decode_base64 (b ∷ bs)) [ ok raw ↦ raw | err _ ↦ b ∷ bs ]

  module _ (sd : ScreenshotDriver W) (wda : Option (WdaDriver W)) (cfg : Config)
      (dm : DeviceManager) where
    -- the screenshot by WDA, after instruments failed with the error that is kept
    unfoldable pub capture_by_wda : Result (List ℕ) → Call W (List ℕ)
    capture_by_wda failed w = elim wda [
      | none ↦ (failed, w)
      | some d ↦
          if is_full dm.mode
          then (let (r, w') = d.screenshot dm.wda_url dm.wda_session_id w in
              (elim r [ ok bytes ↦ ok bytes | err _ ↦ failed ], w'))
          else (failed, w)
    ]

    unfoldable pub capture_raw : Call W (List ℕ)
    unfolding accept_png capture_by_wda
    capture_raw w =
        let (r, w') = sd.take_screenshot (connected_udid dm) w in
        elim r [
          | ok bytes ↦ (ok (accept_png bytes), w')
          | err e ↦ capture_by_wda (err (wrapped "take screenshot" e)) w'
        ]

    -- the plain screenshot in the directory
    unfoldable pub save_plain : List ℕ → ℤ → Call W String
    save_plain bytes ts w =
        let path = file_in cfg.screenshot.dir "screenshot" ts in
        let (r, w') = host.write_file path bytes w in
        (elim r [ ok _ ↦ ok path | err e ↦ err (wrapped "write screenshot" e) ], w')

    -- `TakeScreenshot` and `Look` begin alike: the directory, and the raw screenshot
    unfoldable pub prepare : Call W (List ℕ)
    unfolding capture_raw
    prepare w =
        let (r, w') = host.mkdir_all cfg.screenshot.dir w in
        elim r [ err e ↦ (err (wrapped "ensure screenshot dir" e), w') | ok _ ↦ capture_raw w' ]

    unfoldable pub take_screenshot : Call W String
    unfolding prepare save_plain
    take_screenshot w =
        let (r, w') = prepare w in
        elim r [
          | err e ↦ (err e, w')
          | ok bytes ↦ let (ts, w'') = host.now w' in save_plain bytes ts w''
        ]

    -- the interactive elements; an error of WDA is not fatal
    unfoldable pub interactive_infos : WdaDriver W → W → List ElementInfo × W
    interactive_infos d w =
        let (r, w') =
          d.get_interactive_elements dm.wda_url dm.wda_session_id cfg.annotate.interactive_types
            w in
        (elim r [ ok els ↦ infos_from 1 els | err _ ↦ [] ], w')

    -- the annotated screenshot, `none` where it cannot be made or written
    unfoldable pub save_annotated : Image → ℤ → List ElementInfo → W → Option String × W
    unfolding draw_annotations
    save_annotated img ts infos w = elim infos [
      | [] ↦ (none, w)
      | i ∷ is ↦ elim (draw_annotations cfg img (i ∷ is)) [
        | err _ ↦ (none, w)
        | ok bytes ↦
            let path = file_in cfg.screenshot.dir "annotated" ts in
            let (r, w') = host.write_file path bytes w in
            (elim r [ ok _ ↦ some path | err _ ↦ none ], w')
      ]
    ]

    -- the end of `Look`: the plain screenshot with these elements
    unfoldable pub finish_plain : List ℕ → ℤ → Mode → Image → List ElementInfo → Call W LookResult
    unfolding save_plain
    finish_plain bytes ts mode img els w =
        let (r, w') = save_plain bytes ts w in
        (
          elim r [
            | err e ↦ err e
            | ok path ↦ ok (record {
              screenshot = path;
              mode = mode;
              screen_size = (img.max_x, img.max_y);
              elements = els;
            })
          ],
          w',
        )

    -- the annotated screenshot, or the plain one where there is none
    unfoldable pub drawn_or_plain :
        Bool → List ℕ → ℤ → Mode → Image → List ElementInfo → Option String → Call W LookResult
    unfolding finish_plain
    drawn_or_plain ui bytes ts mode img infos (some path) w = (
      ok (record {
        screenshot = path;
        mode = mode;
        screen_size = (img.max_x, img.max_y);
        elements = infos;
      }),
      w,
    )
    drawn_or_plain ui bytes ts mode img infos none w =
        finish_plain bytes ts mode img (if ui then infos else []) w

    -- `Look` in full mode with a flag
    unfoldable pub look_with_elements :
        WdaDriver W → Bool → Bool → List ℕ → ℤ → Mode → Image → Call W LookResult
    unfolding interactive_infos save_annotated drawn_or_plain
    look_with_elements d annotate ui bytes ts mode img w =
        let (infos, w₁) = interactive_infos d w in
        let (drawn, w₂) = if annotate then save_annotated img ts infos w₁ else (none, w₁) in
        drawn_or_plain ui bytes ts mode img infos drawn w₂

    -- `if mode == "" { mode = "degraded" }`
    abbrev pub shown_mode : Mode
    shown_mode = elim dm.mode [ unset ↦ degraded | degraded ↦ degraded | full ↦ full ]

    -- `Look` after the screenshot is decoded
    unfoldable pub look_decoded : Bool → Bool → List ℕ → Image → Call W LookResult
    unfolding look_with_elements finish_plain
    look_decoded annotate ui bytes img w =
        let (ts, w') = host.now w in
        elim wda [
          | none ↦ finish_plain bytes ts shown_mode img [] w'
          | some d ↦
              if is_full shown_mode && (annotate || ui)
              then look_with_elements d annotate ui bytes ts shown_mode img w'
              else finish_plain bytes ts shown_mode img [] w'
        ]

    unfoldable pub look_image : Bool → Bool → List ℕ → Result Image → Call W LookResult
    unfolding look_decoded
    look_image annotate ui bytes (err e) w = (err (wrapped "decode screenshot" e), w)
    look_image annotate ui bytes (ok img) w = look_decoded annotate ui bytes img w

    unfoldable pub look_captured : Bool → Bool → Result (List ℕ) → Call W LookResult
    unfolding look_image
    look_captured annotate ui (err e) w = (err e, w)
    look_captured annotate ui (ok bytes) w = look_image annotate ui bytes (host.decode_png bytes) w

    unfoldable pub look : Bool → Bool → Call W LookResult
    unfolding prepare look_captured
    look annotate ui w = let (r, w') = prepare w in look_captured annotate ui r w'
