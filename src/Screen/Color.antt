-- ===== src/Screen/Color.antt =====
-- `parseHexColor` (internal/core/screen_capture.go, lines 213 to 228), over the code points of the text:
-- a text of six bytes that are all hexadecimal digits is one of six code points, and any other is red.
pub mod Hex
mod Tests
use ios_pilot.Base.{
  ℕ, ◌+◌, ◌-◌, ◌*◌, String, Bool, true, false, ◌&&◌, Option, none, some, List, [], ◌∷◌, leb, nat_eq,
  if◌then◌else◌,
}
use ios_pilot.Base.Text.{codes}
use ios_pilot.Screen.Raster.{Rgba}

abbrev pub red : Rgba
red = record { r = 255; g = 0; b = 0; a = 255 }

-- the value of a hexadecimal digit
unfoldable pub hex_digit : ℕ → Option ℕ
hex_digit c =
    if leb b'0' c && leb c b'9'
    then some (c - b'0')
    else if leb b'a' c && leb c b'f'
    then some (c - b'a' + 10)
    else if leb b'A' c && leb c b'F'
    then some (c - b'A' + 10)
    else none

-- strconv.ParseUint of two characters in base 16
unfoldable pub hex_byte : ℕ → ℕ → Option ℕ
unfolding hex_digit
hex_byte c d = elim (hex_digit c) [
  | none ↦ none
  | some h ↦ elim (hex_digit d) [ none ↦ none | some l ↦ some (h * 16 + l) ]
]

-- strings.TrimPrefix(hex, "#")
unfoldable pub trim_hash : List ℕ → List ℕ
trim_hash [] = []
trim_hash (c ∷ s) = if nat_eq c b'#' then s else c ∷ s

-- the three bytes, if all are there
abbrev rgba : Option ℕ → Option ℕ → Option ℕ → Rgba
rgba (some r) (some g) (some b) = record { r = r; g = g; b = b; a = 255 }
rgba _ _ _ = red

unfoldable pub six_digits : List ℕ → Rgba
unfolding hex_byte
six_digits (r1 ∷ r2 ∷ g1 ∷ g2 ∷ b1 ∷ b2 ∷ []) =
    rgba (hex_byte r1 r2) (hex_byte g1 g2) (hex_byte b1 b2)
six_digits _ = red

unfoldable pub parse_hex_color : List ℕ → Rgba
unfolding trim_hash six_digits
parse_hex_color s = six_digits (trim_hash s)
