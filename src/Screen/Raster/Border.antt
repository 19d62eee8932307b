-- ===== src/Screen/Raster/Border.antt =====
-- The pixels after `drawRect`.
use ios_pilot.Base.{ℕ, zero, suc, refl, Bool, false, ◌&&◌, ◌||◌, arith}
use ios_pilot.Base.Int.{ℤ, pos, pos_part, ◌+ℤ◌, ◌-ℤ◌}
use ios_pilot.Screen.Raster.{
  Rgba, Image, eq_ℤ, draw_row, draw_column, draw_frame, draw_frames, draw_rect,
}
use ios_pilot.Screen.Raster.Fill.{
  in_range, Paints, Paints-refl, Paints-trans, draw_row-Paints, draw_column-Paints,
}

-- the pixel lies on an edge of the rectangle moved inwards by `t`
abbrev pub on_frame : ℤ → ℤ → ℤ → ℤ → ℤ → ℤ → ℤ → Bool
on_frame x y w h t a b =
    (in_range x (pos_part w) a && (eq_ℤ b (y +ℤ t) || eq_ℤ b (y +ℤ h -ℤ pos 1 -ℤ t)))
    || (in_range y (pos_part h) b && (eq_ℤ a (x +ℤ t) || eq_ℤ a (x +ℤ w -ℤ pos 1 -ℤ t)))

-- it does so for one of the `n` values from `t` on
abbrev pub on_frames : ℤ → ℤ → ℤ → ℤ → ℕ → ℕ → ℤ → ℤ → Bool
on_frames x y w h t zero a b = false
on_frames x y w h t (suc n) a b = on_frame x y w h (pos t) a b || on_frames x y w h (suc t) n a b

draw_frame-Paints :
    (img : Image) (x y w h t : ℤ) (c : Rgba)
    → Paints img (draw_frame img x y w h t c) c (on_frame x y w h t)
unfolding draw_frame
draw_frame-Paints img x y w h t c =
    let y' = y +ℤ h -ℤ pos 1 -ℤ t in
    let x' = x +ℤ w -ℤ pos 1 -ℤ t in
    let top = draw_row img x (y +ℤ t) (pos_part w) c in
    let bottom = draw_row top x y' (pos_part w) c in
    let left = draw_column bottom (x +ℤ t) y (pos_part h) c in
    let right = draw_column left x' y (pos_part h) c in
    let rows =
      Paints-trans img top bottom c (λ a b. in_range x (pos_part w) a && eq_ℤ b (y +ℤ t))
        (λ a b. in_range x (pos_part w) a && eq_ℤ b y')
        (λ a b. in_range x (pos_part w) a && (eq_ℤ b (y +ℤ t) || eq_ℤ b y'))
        (draw_row-Paints img x (y +ℤ t) (pos_part w) c) (draw_row-Paints top x y' (pos_part w) c)
        (λ a b. ground arith) in
    let columns =
      Paints-trans bottom left right c (λ a b. eq_ℤ a (x +ℤ t) && in_range y (pos_part h) b)
        (λ a b. eq_ℤ a x' && in_range y (pos_part h) b)
        (λ a b. in_range y (pos_part h) b && (eq_ℤ a (x +ℤ t) || eq_ℤ a x'))
        (draw_column-Paints bottom (x +ℤ t) y (pos_part h) c)
        (draw_column-Paints left x' y (pos_part h) c) (λ a b. ground arith) in
    Paints-trans img bottom right c
      (λ a b. in_range x (pos_part w) a && (eq_ℤ b (y +ℤ t) || eq_ℤ b y'))
      (λ a b. in_range y (pos_part h) b && (eq_ℤ a (x +ℤ t) || eq_ℤ a x')) (on_frame x y w h t) rows
      columns (λ a b. refl)

draw_frames-Paints :
    (img : Image) (x y w h : ℤ) (t n : ℕ) (c : Rgba)
    → Paints img (draw_frames img x y w h t n c) c (on_frames x y w h t n)
unfolding draw_frames
draw_frames-Paints img x y w h t zero c = Paints-refl img c (on_frames x y w h t zero) (λ a b. refl)
draw_frames-Paints img x y w h t (suc n) c =
    let frame = draw_frame img x y w h (pos t) c in
    Paints-trans img frame (draw_frames frame x y w h (suc t) n c) c (on_frame x y w h (pos t))
      (on_frames x y w h (suc t) n) (on_frames x y w h t (suc n))
      (draw_frame-Paints img x y w h (pos t) c) (draw_frames-Paints frame x y w h (suc t) n c)
      (λ a b. refl)

-- After `drawRect` exactly the pixels of the image's bounds that lie on one of the nested frames, as
-- many as the thickness says, have the colour; all others are as they were, and so are the bounds.
pub draw_rect-Paints :
    (img : Image) (x y w h : ℤ) (thickness : ℕ) (c : Rgba)
    → Paints img (draw_rect img x y w h thickness c) c (on_frames x y w h 0 thickness)
unfolding draw_rect
draw_rect-Paints img x y w h thickness c = draw_frames-Paints img x y w h 0 thickness c
