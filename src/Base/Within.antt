-- ===== src/Base/Within.antt =====
-- What strings.HasPrefix and strings.Contains answer, said with the pieces of the text.
use ios_pilot.Base.{
  ℕ, ◌≡◌, refl, sym, ap, ◌∙◌, subst, true, List, [], ◌∷◌, ◌++◌, arith, Bool-cases, inl, inr,
}
use ios_pilot.Base.Text.{is_prefix, contains}

-- the text is some text, then `p`, then some text
abbrev pub Within : List ℕ → List ℕ → Type 0
Within p s = (before : List ℕ) × (after : List ℕ) × (s ≡ before ++ (p ++ after))

is_prefix_sound : (p s : List ℕ) → is_prefix p s ≡ true → (after : List ℕ) × (s ≡ p ++ after)
is_prefix_sound [] s h = (s, refl)
is_prefix_sound (c ∷ p) [] h = absurd (ground (arith, h))
is_prefix_sound (c ∷ p) (d ∷ s) h =
    let same : d ≡ c = ground (arith, h) in
    let (after, e) = is_prefix_sound p s (ground (arith, h)) in
    (after, ap (λ x. x ∷ s) same ∙ ap (λ l. c ∷ l) e)

is_prefix-append : (p after : List ℕ) → is_prefix p (p ++ after) ≡ true
is_prefix-append [] after = refl
is_prefix-append (c ∷ p) after = ground (arith, is_prefix-append p after)

pub contains-Within : (s p : List ℕ) → contains s p ≡ true → Within p s
contains-Within [] p h = let (after, e) = is_prefix_sound p [] h in ([], after, e)
contains-Within (c ∷ s) p h = elim (Bool-cases (is_prefix p (c ∷ s))) [
  | inl here ↦ let (after, e) = is_prefix_sound p (c ∷ s) here in ([], after, e)
  | inr later ↦
      let (before, after, e) = contains-Within s p (ground (arith, h, later)) in
      (c ∷ before, after, ap (λ l. c ∷ l) e)
]

contains-pieces : (before p after : List ℕ) → contains (before ++ (p ++ after)) p ≡ true
contains-pieces [] [] [] = refl
contains-pieces [] [] (d ∷ after) = refl
contains-pieces [] (c ∷ p) after = ground (arith, is_prefix-append p after)
contains-pieces (b ∷ before) p after = ground (arith, contains-pieces before p after)

pub Within-contains : (s p : List ℕ) → Within p s → contains s p ≡ true
Within-contains s p (before, after, e) =
    subst (λ l. contains l p ≡ true) (sym e) (contains-pieces before p after)
