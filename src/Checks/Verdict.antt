-- ===== src/Checks/Verdict.antt =====
-- The verdicts of the checks against what the drivers show.
use mathlib.Core.List.{Memᴰ}
use ios_pilot.Base.{
  map, ◌⊎◌, ℕ, String, ◌≡◌, refl, ap, ◌↔◌, Bool, true, false, Option, some, List, [], ◌∷◌, arith,
  nat_eq, Bool-cases, inl, inr,
}
use ios_pilot.Base.Text.{codes, contains, to_lower}
use ios_pilot.Base.Within.{Within, contains-Within, Within-contains}
use ios_pilot.Errors.{Result, ok, err, Call}
use ios_pilot.Driver.{WdaElement, CrashReport, WdaDriver, AppDriver, CrashDriver}
use ios_pilot.Device.{DeviceManager, connected_udid}
use ios_pilot.Checks.{
  CheckResult, Detail, element_matches, find_match, is_relevant, count_relevant, lower, element,
  app_running, no_crash, screen,
}

abbrev pub Verdict : Result CheckResult → Bool → Type 0
Verdict (ok r) b = r.pass ≡ some b
Verdict (err e) b = ⊥

abbrev Found : (ℕ → ℕ) → List ℕ → List WdaElement → Type 0
Found fold text els = (el : WdaElement) × Memᴰ el els × (element_matches fold text el ≡ true)

-- An element of the list whose label or type, lowered, has the lowered text in it.
abbrev pub Match : (ℕ → ℕ) → String → List WdaElement → Type 0
Match fold text els =
    (el : WdaElement) × Memᴰ el els
    × (Within (map (to_lower fold) (codes text)) (map (to_lower fold) (codes el.label))
        ⊎ Within (map (to_lower fold) (codes text)) (map (to_lower fold) (codes el.kind)))

find_match_sound :
    (fold : ℕ → ℕ) (text : List ℕ) (els : List WdaElement)
    → find_match fold text els ≡ true
    → Found fold text els
unfolding find_match
find_match_sound fold text [] h = cc
find_match_sound fold text (el ∷ els) h = elim (Bool-cases (element_matches fold text el)) [
  | inl here ↦ (el, Memᴰ.head refl, here)
  | inr other ↦
      let (x, there, yes_x) = find_match_sound fold text els (ground (arith, other)) in
      (x, Memᴰ.tail there, yes_x)
]

find_match_complete :
    (fold : ℕ → ℕ) (text : List ℕ) {el : WdaElement} (els : List WdaElement)
    → Memᴰ el els
    → element_matches fold text el ≡ true
    → find_match fold text els ≡ true
unfolding find_match
find_match_complete fold text [] t m = elim t [ ]
find_match_complete fold text (x ∷ els) (Memᴰ.head e) m =
    ground (arith, ap (element_matches fold text) e, m)
find_match_complete fold text (x ∷ els) (Memᴰ.tail t) m =
    ground (arith, find_match_complete fold text els t m)

matched :
    (fold : ℕ → ℕ) (text : String) (els : List WdaElement)
    → Found fold (lower fold text) els
    → Match fold text els
unfolding element_matches
matched fold text els (el, there, yes_el) =
    elim (Bool-cases (contains (lower fold el.label) (lower fold text))) [
      | inl label ↦ (el, there, inl (contains-Within (lower fold el.label) (lower fold text) label))
      | inr other ↦ (
        el,
        there,
        inr (
            contains-Within (lower fold el.kind) (lower fold text) (ground (arith, yes_el, other))),
      )
    ]

Match-Found :
    (fold : ℕ → ℕ) (text : String) (els : List WdaElement)
    → Match fold text els
    → Found fold (lower fold text) els
unfolding element_matches
Match-Found fold text els (el, there, inl label) =
    (el, there, ground (arith, Within-contains (lower fold el.label) (lower fold text) label))
Match-Found fold text els (el, there, inr kind) =
    (el, there, ground (arith, Within-contains (lower fold el.kind) (lower fold text) kind))

-- Some report of the list is relevant.
abbrev pub Crashed : String → List CrashReport → Type 0
Crashed bundle_id crs = (cr : CrashReport) × Memᴰ cr crs × (is_relevant bundle_id cr ≡ true)

count_relevant_sound :
    (bundle_id : String) (crs : List CrashReport)
    → nat_eq (count_relevant bundle_id crs) 0 ≡ false
    → Crashed bundle_id crs
unfolding count_relevant
count_relevant_sound bundle_id [] h = cc
count_relevant_sound bundle_id (cr ∷ crs) h = elim (Bool-cases (is_relevant bundle_id cr)) [
  | inl here ↦ (cr, Memᴰ.head refl, here)
  | inr other ↦
      let (x, there, yes_x) = count_relevant_sound bundle_id crs (ground (arith, other)) in
      (x, Memᴰ.tail there, yes_x)
]

count_relevant_complete :
    (bundle_id : String) {cr : CrashReport} (crs : List CrashReport)
    → Memᴰ cr crs
    → is_relevant bundle_id cr ≡ true
    → nat_eq (count_relevant bundle_id crs) 0 ≡ false
unfolding count_relevant
count_relevant_complete bundle_id [] t m = elim t [ ]
count_relevant_complete bundle_id (x ∷ crs) (Memᴰ.head e) m =
    ground (arith, ap (is_relevant bundle_id) e, m)
count_relevant_complete bundle_id (x ∷ crs) (Memᴰ.tail t) m =
    ground (arith, count_relevant_complete bundle_id crs t m)

-- A verdict that reflects a property holds of it both ways.
reflects {ℓ} :
    {P : Type ℓ} (b : Bool)
    → (b ≡ true → P)
    → (P → b ≡ true)
    → ((some b ≡ some true) ↔ P) × ((some b ≡ some false) ↔ (¬ P))
reflects true f g = ((λ _. f refl, λ _. refl), (λ e. cc, λ n. absurd (n (f refl))))
reflects false f g = ((λ e. cc, λ p. ap some (g p)), (λ _ p. cc (g p), λ _. refl))

-- A verdict that denies a property.
denies {ℓ} :
    {P : Type ℓ} (b : Bool)
    → (b ≡ false → P)
    → (P → b ≡ false)
    → ((some b ≡ some false) ↔ P) × ((some b ≡ some true) ↔ (¬ P))
denies false f g = ((λ _. f refl, λ _. refl), (λ e. cc, λ n. absurd (n (f refl))))
denies true f g = ((λ e. cc, λ p. ap some (g p)), (λ _ p. cc (g p), λ _. refl))

-- what a result says, but for its screenshot
abbrev pub said : Result CheckResult → Result (Option Bool × Detail)
said (ok r) = ok (r.pass, r.detail)
said (err e) = err e

-- The screenshot of a check is best effort: whether there is a screen capture, and whether it fails,
-- makes no difference to the success, the verdict and the detail of any of the four checks.
pub checks_ignore_screenshot :
    {W : Type 0} (shot shot' : Option (Call W String)) (wda : Option (WdaDriver W))
    (apps : Option (AppDriver W)) (crashes : Option (CrashDriver W)) (fold : ℕ → ℕ) (x : String)
    (dm : DeviceManager) (w : W)
    → (said (screen shot wda apps crashes fold w).0 ≡ said (screen shot' wda apps crashes fold w).0)
      × (said (element shot wda apps crashes fold x dm w).0
          ≡ said (element shot' wda apps crashes fold x dm w).0)
      × (said (app_running shot wda apps crashes fold x dm w).0
          ≡ said (app_running shot' wda apps crashes fold x dm w).0)
      × (said (no_crash shot wda apps crashes fold x dm w).0
          ≡ said (no_crash shot' wda apps crashes fold x dm w).0)
unfolding screen element app_running no_crash
checks_ignore_screenshot shot shot' wda apps crashes fold x dm w =
    (ground arith, ground arith, ground arith, ground arith)

module _ {W : Type 0} (shot : Option (Call W String)) (wda : Option (WdaDriver W))
    (apps : Option (AppDriver W)) (crashes : Option (CrashDriver W)) (fold : ℕ → ℕ) where
  -- When WDA gives the tree of elements, `Element` passes exactly if some element of it has the text
  -- in its label or its type, both in lower case, and fails exactly if none has.
  pub element-Verdict :
      (d : WdaDriver W) (text : String) (dm : DeviceManager) (els : List WdaElement) (w w' : W)
      → wda ≡ some d
      → d.get_element_tree dm.wda_url dm.wda_session_id w ≡ (ok els, w')
      → let r = (element shot wda apps crashes fold text dm w).0 in
        (Verdict r true ↔ Match fold text els) × (Verdict r false ↔ (¬ Match fold text els))
  unfolding element
  element-Verdict d text dm els w w' driver tree =
      rw (driver, tree, element)
        (reflects (find_match fold (lower fold text) els)
          (λ h. matched fold text els (find_match_sound fold (lower fold text) els h))
          (λ m.
            let f = Match-Found fold text els m in
            find_match_complete fold (lower fold text) els f.1 f.2))

  -- When the crash driver gives its list, `NoCrash` fails exactly if a report names the application
  -- in its process or its name, and passes exactly if none does.
  pub no_crash-Verdict :
      (c : CrashDriver W) (bundle_id : String) (dm : DeviceManager) (crs : List CrashReport)
      (w w' : W)
      → crashes ≡ some c
      → c.list_crashes (connected_udid dm) w ≡ (ok crs, w')
      → let r = (no_crash shot wda apps crashes fold bundle_id dm w).0 in
        (Verdict r false ↔ Crashed bundle_id crs) × (Verdict r true ↔ (¬ Crashed bundle_id crs))
  unfolding no_crash
  no_crash-Verdict c bundle_id dm crs w w' driver listed =
      rw (driver, listed, no_crash)
        (denies (nat_eq (count_relevant bundle_id crs) 0) (count_relevant_sound bundle_id crs)
          (λ m. count_relevant_complete bundle_id crs m.1 m.2))
