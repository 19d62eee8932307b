-- ===== src/Screen/Raster/Tests.antt =====
-- A red box and a red square on a black image of eight by eight pixels.
use ios_pilot.Base.Int.{pos}
use ios_pilot.Screen.Raster.{Rgba, Image, draw_rect}
use ios_pilot.Screen.Raster.Fill.{Paints}
use ios_pilot.Screen.Raster.Border.{on_frames, draw_rect-Paints}

abbrev black : Rgba
black = record { r = 0; g = 0; b = 0; a = 255 }

abbrev red : Rgba
red = record { r = 255; g = 0; b = 0; a = 255 }

abbrev canvas : Image
canvas = record { max_x = pos 8; max_y = pos 8; pixel = λ _ _. black }

draw_rect-Paints_example :
    Paints canvas
      (draw_rect canvas (pos 1) (pos 1) (pos 5) (pos 4) 2 red)
      red
      (on_frames (pos 1) (pos 1) (pos 5) (pos 4) 0 2)
draw_rect-Paints_example = draw_rect-Paints canvas (pos 1) (pos 1) (pos 5) (pos 4) 2 red
