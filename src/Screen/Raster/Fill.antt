-- ===== src/Screen/Raster/Fill.antt =====
-- The pixels after `fillRect`.
use ios_pilot.Base.{ℕ, zero, suc, ◌≡◌, refl, ◌∙◌, Bool, false, ◌&&◌, ◌||◌, arith, if◌then◌else◌}
use ios_pilot.Base.Int.{ℤ, pos, pos_part, ltb_ℤ, ◌+ℤ◌, +ℤ_parts}
use ios_pilot.Screen.Raster.{
  Rgba, Image, eq_ℤ, le_ℤ, plot, draw_row, draw_column, fill_rows, fill_rect,
}

-- the pixel lies in the bounds of the image
abbrev pub inside : Image → ℤ → ℤ → Bool
inside img a b = le_ℤ (pos 0) a && ltb_ℤ a img.max_x && le_ℤ (pos 0) b && ltb_ℤ b img.max_y

-- `a` is one of the `n` integers from `x` on
abbrev pub in_range : ℤ → ℕ → ℤ → Bool
in_range x n a = le_ℤ x a && ltb_ℤ a (x +ℤ pos n)

in_range_zero : (x a : ℤ) → in_range x 0 a ≡ false
in_range_zero x a = ground (arith, +ℤ_parts x (pos 0))

in_range-suc :
    (x : ℤ) (n : ℕ) (a : ℤ) → in_range x (suc n) a ≡ (eq_ℤ a x || in_range (x +ℤ pos 1) n a)
in_range-suc x n a =
    ground (arith, +ℤ_parts x (pos (suc n)), +ℤ_parts x (pos 1), +ℤ_parts (x +ℤ pos 1) (pos n))

-- What a step does to an image of these bounds: the bounds stay, and a pixel takes the colour exactly
-- if it lies in the bounds and in the region.
pub record Paints (img img' : Image) (c : Rgba) (region : ℤ → ℤ → Bool) : Type 0 where
  pub same_x : img'.max_x ≡ img.max_x
  pub same_y : img'.max_y ≡ img.max_y
  pub colour_at :
      (a b : ℤ) → img'.pixel a b ≡ (if inside img a b && region a b then c else img.pixel a b)

plot-Paints :
    (img : Image) (x y : ℤ) (c : Rgba) → Paints img (plot img x y c) c (λ a b. eq_ℤ a x && eq_ℤ b y)
unfolding plot
plot-Paints img x y c = record {
  same_x = ground arith;
  same_y = ground arith;
  colour_at = λ a b. ground arith;
}

-- One step after the other paints both regions.
pub Paints-trans :
    (img img₁ img₂ : Image) (c : Rgba) (p q r : ℤ → ℤ → Bool)
    → Paints img img₁ c p
    → Paints img₁ img₂ c q
    → ((a b : ℤ) → r a b ≡ (p a b || q a b))
    → Paints img img₂ c r
Paints-trans img img₁ img₂ c p q r h k e = record {
  same_x = k.same_x ∙ h.same_x;
  same_y = k.same_y ∙ h.same_y;
  colour_at = λ a b. ground (arith, h.colour_at a b, k.colour_at a b, e a b, h.same_x, h.same_y);
}

-- A step that does nothing paints an empty region.
pub Paints-refl :
    (img : Image) (c : Rgba) (r : ℤ → ℤ → Bool) → ((a b : ℤ) → r a b ≡ false) → Paints img img c r
Paints-refl img c r e = record {
  same_x = refl;
  same_y = refl;
  colour_at = λ a b. ground (arith, e a b);
}

pub draw_row-Paints :
    (img : Image) (x y : ℤ) (n : ℕ) (c : Rgba)
    → Paints img (draw_row img x y n c) c (λ a b. in_range x n a && eq_ℤ b y)
unfolding draw_row
draw_row-Paints img x y zero c =
    Paints-refl img c (λ a b. in_range x 0 a && eq_ℤ b y) (λ a b. rw in_range_zero)
draw_row-Paints img x y (suc n) c =
    Paints-trans img (plot img x y c) (draw_row (plot img x y c) (x +ℤ pos 1) y n c) c
      (λ a b. eq_ℤ a x && eq_ℤ b y) (λ a b. in_range (x +ℤ pos 1) n a && eq_ℤ b y)
      (λ a b. in_range x (suc n) a && eq_ℤ b y) (plot-Paints img x y c)
      (draw_row-Paints (plot img x y c) (x +ℤ pos 1) y n c)
      (λ a b. ground (arith, in_range-suc x n a))

pub draw_column-Paints :
    (img : Image) (x y : ℤ) (n : ℕ) (c : Rgba)
    → Paints img (draw_column img x y n c) c (λ a b. eq_ℤ a x && in_range y n b)
unfolding draw_column
draw_column-Paints img x y zero c =
    Paints-refl img c (λ a b. eq_ℤ a x && in_range y 0 b) (λ a b. ground (arith, in_range_zero y b))
draw_column-Paints img x y (suc n) c =
    Paints-trans img (plot img x y c) (draw_column (plot img x y c) x (y +ℤ pos 1) n c) c
      (λ a b. eq_ℤ a x && eq_ℤ b y) (λ a b. eq_ℤ a x && in_range (y +ℤ pos 1) n b)
      (λ a b. eq_ℤ a x && in_range y (suc n) b) (plot-Paints img x y c)
      (draw_column-Paints (plot img x y c) x (y +ℤ pos 1) n c)
      (λ a b. ground (arith, in_range-suc y n b))

fill_rows-Paints :
    (img : Image) (x y w : ℤ) (n : ℕ) (c : Rgba)
    → Paints img (fill_rows img x y w n c) c (λ a b. in_range x (pos_part w) a && in_range y n b)
unfolding fill_rows
fill_rows-Paints img x y w zero c =
    Paints-refl img c (λ a b. in_range x (pos_part w) a && in_range y 0 b)
      (λ a b. ground (arith, in_range_zero y b))
fill_rows-Paints img x y w (suc n) c =
    let row = draw_row img x y (pos_part w) c in
    Paints-trans img row (fill_rows row x (y +ℤ pos 1) w n c) c
      (λ a b. in_range x (pos_part w) a && eq_ℤ b y)
      (λ a b. in_range x (pos_part w) a && in_range (y +ℤ pos 1) n b)
      (λ a b. in_range x (pos_part w) a && in_range y (suc n) b)
      (draw_row-Paints img x y (pos_part w) c) (fill_rows-Paints row x (y +ℤ pos 1) w n c)
      (λ a b. ground (arith, in_range-suc y n b))

-- After `fillRect` a pixel has the colour exactly if it had it before, or lies both in the rectangle
-- and in the bounds of the image: it is the colour there, and the old pixel everywhere else. The
-- bounds stay. A width or a height that is not positive paints nothing.
pub fill_rect-Paints :
    (img : Image) (x y w h : ℤ) (c : Rgba)
    → Paints img
        (fill_rect img x y w h c)
        c
        (λ a b. in_range x (pos_part w) a && in_range y (pos_part h) b)
unfolding fill_rect
fill_rect-Paints img x y w h c = fill_rows-Paints img x y w (pos_part h) c
