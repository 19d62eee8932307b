-- ===== src/Screen/Capture/Annotate.antt =====
-- The numbers and the centres of the elements that `Look` reports (internal/core/screen_capture.go).
use ios_pilot.Base.{
  ℕ, ◌+◌, zero, suc, ◌≡◌, refl, ap, ◌∙◌, some, List, [], ◌∷◌, arith, get_elem?, length,
}
use mathlib.Core.Option.{map as map_some}
use ios_pilot.Base.Int.{◌+ℤ◌}
use ios_pilot.Errors.{ok}
use ios_pilot.Driver.{WdaElement, ScreenshotDriver, WdaDriver}
use ios_pilot.Config.{Config}
use ios_pilot.Device.{DeviceManager}
use ios_pilot.Screen.Capture.{Host, ElementInfo, half, infos_from, interactive_infos}

-- The entry of an element under a number.
abbrev pub numbered : ℕ → WdaElement → ElementInfo
numbered n el = record {
  id = n;
  kind = el.kind;
  label = el.label;
  frame = el.frame;
  center = (el.frame.0 +ℤ half el.frame.2, el.frame.1 +ℤ half el.frame.3);
}

infos_from-get :
    (n i : ℕ) (els : List WdaElement)
    → get_elem? (infos_from n els) i ≡ map_some (numbered (n + i)) (get_elem? els i)
unfolding infos_from
infos_from-get n i [] = refl
infos_from-get n zero (el ∷ els) =
    let here : n ≡ n + 0 = omega arith in ap (λ k. some (numbered k el)) here
infos_from-get n (suc i) (el ∷ els) =
    let here : n + 1 + i ≡ n + suc i = omega arith in
    infos_from-get (n + 1) i els ∙ ap (λ k. map_some (numbered k) (get_elem? els i)) here

infos_from-length : (n : ℕ) (els : List WdaElement) → length (infos_from n els) ≡ length els
unfolding infos_from
infos_from-length n [] = refl
infos_from-length n (el ∷ els) = ap (λ k. suc k) (infos_from-length (n + 1) els)

module _ {W : Type 0} (host : Host W) (sd : ScreenshotDriver W) (d : WdaDriver W) (cfg : Config)
    (dm : DeviceManager) where
  -- When WDA gives its interactive elements, the list that `Look` makes of them has all of them,
  -- in order: the element at position `i` under the number `i + 1`, with the centre of its frame.
  pub interactive_infos-numbered :
      (els : List WdaElement) (w w' : W)
      → d.get_interactive_elements dm.wda_url dm.wda_session_id cfg.annotate.interactive_types w
        ≡ (ok els, w')
      → let infos = (interactive_infos host sd (some d) cfg dm d w).0 in
        (length infos ≡ length els)
        × ((i : ℕ) → get_elem? infos i ≡ map_some (numbered (i + 1)) (get_elem? els i))
  unfolding interactive_infos
  interactive_infos-numbered els w w' given = rw given (
    infos_from-length 1 els,
    λ i. infos_from-get 1 i els ∙ ap (λ k. map_some (numbered k) (get_elem? els i)) (omega arith),
  )
