-- ===== src/Screen/Raster.antt =====
-- `drawRect` and `fillRect` (internal/core/screen_capture.go, lines 269 to 322). An image is its bounds,
-- which start at (0, 0), and its pixels.
pub mod Fill
pub mod Border
mod Tests
use ios_pilot.Base.{
  ℕ, zero, suc, Bool, true, false, not, ◌&&◌, nat_eq, ltb, leb, ◌+◌, ◌-◌, if◌then◌else◌,
}
use ios_pilot.Base.Int.{ℤ, pos, negsuc, pos_part, neg_part, ltb_ℤ, ◌+ℤ◌, ◌-ℤ◌}

pub record Rgba : Type 0 where
  pub r : ℕ
  pub g : ℕ
  pub b : ℕ
  pub a : ℕ

pub record Image : Type 0 where
  pub max_x : ℤ
  pub max_y : ℤ
  pub pixel : ℤ → ℤ → Rgba

abbrev pub eq_ℤ : ℤ → ℤ → Bool
eq_ℤ a b = nat_eq (pos_part a + neg_part b) (pos_part b + neg_part a)

abbrev pub le_ℤ : ℤ → ℤ → Bool
le_ℤ a b = leb (pos_part a + neg_part b) (pos_part b + neg_part a)

-- img.SetRGBA
abbrev pub set_rgba : Image → ℤ → ℤ → Rgba → Image
set_rgba img x y c = record img { pixel = λ a b. if eq_ℤ a x && eq_ℤ b y then c else img.pixel a b }

-- `if px >= 0 && px < maxX && py >= 0 && py < maxY { img.SetRGBA(px, py, c) }`
unfoldable pub plot : Image → ℤ → ℤ → Rgba → Image
plot img x y c =
    if le_ℤ (pos 0) x && ltb_ℤ x img.max_x && le_ℤ (pos 0) y && ltb_ℤ y img.max_y
    then set_rgba img x y c
    else img

-- `for px := x; px < x+n; px++`, a row of `n` pixels
unfoldable pub draw_row : Image → ℤ → ℤ → ℕ → Rgba → Image
draw_row img x y zero c = img
draw_row img x y (suc n) c = draw_row (plot img x y c) (x +ℤ pos 1) y n c

-- `for py := y; py < y+n; py++`, a column of `n` pixels
unfoldable pub draw_column : Image → ℤ → ℤ → ℕ → Rgba → Image
draw_column img x y zero c = img
draw_column img x y (suc n) c = draw_column (plot img x y c) x (y +ℤ pos 1) n c

-- the two loops of `fillRect`, `n` rows of `w` pixels
unfoldable pub fill_rows : Image → ℤ → ℤ → ℤ → ℕ → Rgba → Image
fill_rows img x y w zero c = img
fill_rows img x y w (suc n) c = fill_rows (draw_row img x y (pos_part w) c) x (y +ℤ pos 1) w n c

unfoldable pub fill_rect : Image → ℤ → ℤ → ℤ → ℤ → Rgba → Image
fill_rect img x y w h c = fill_rows img x y w (pos_part h) c

-- one round of `drawRect`: the four edges at distance `t` from the frame
unfoldable pub draw_frame : Image → ℤ → ℤ → ℤ → ℤ → ℤ → Rgba → Image
draw_frame img x y w h t c =
    let top = draw_row img x (y +ℤ t) (pos_part w) c in
    let bottom = draw_row top x (y +ℤ h -ℤ pos 1 -ℤ t) (pos_part w) c in
    let left = draw_column bottom (x +ℤ t) y (pos_part h) c in
    draw_column left (x +ℤ w -ℤ pos 1 -ℤ t) y (pos_part h) c

-- `n` rounds from `t` on
unfoldable pub draw_frames : Image → ℤ → ℤ → ℤ → ℤ → ℕ → ℕ → Rgba → Image
draw_frames img x y w h t zero c = img
draw_frames img x y w h t (suc n) c =
    draw_frames (draw_frame img x y w h (pos t) c) x y w h (suc t) n c

unfoldable pub draw_rect : Image → ℤ → ℤ → ℤ → ℤ → ℕ → Rgba → Image
draw_rect img x y w h thickness c = draw_frames img x y w h 0 thickness c
