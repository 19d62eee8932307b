-- ===== src/Screen/Color/Hex.antt =====
-- A colour that is written down is read back.
use ios_pilot.Base.{ℕ, ◌+◌, ◌-◌, ◌/◌, ◌%◌, ◌<◌, ◌≡◌, some, List, [], ◌∷◌, arith, ltb, if◌then◌else◌}
use ios_pilot.Screen.Color.{hex_digit, hex_byte, parse_hex_color}

-- A digit below 16, in capitals or not, as CSS allows.
abbrev pub show_digit : ℕ → ℕ → ℕ
show_digit ten d = if ltb d 10 then b'0' + d else ten + (d - 10)

-- "#RRGGBB", where `ten` is the letter for ten, `a` or `A`
abbrev pub show_color : ℕ → ℕ → ℕ → ℕ → List ℕ
show_color ten r g b =
    b'#'
    ∷ show_digit ten (r / 16)
    ∷ show_digit ten (r % 16)
    ∷ show_digit ten (g / 16)
    ∷ show_digit ten (g % 16)
    ∷ show_digit ten (b / 16)
    ∷ show_digit ten (b % 16)
    ∷ []

hex_digit-show_lower : (d : ℕ) → d < 16 → hex_digit (show_digit b'a' d) ≡ some d
unfolding hex_digit
hex_digit-show_lower d h = ground arith

hex_digit-show_upper : (d : ℕ) → d < 16 → hex_digit (show_digit b'A' d) ≡ some d
unfolding hex_digit
hex_digit-show_upper d h = ground arith

hex_byte-show_lower :
    (n : ℕ) → n < 256 → hex_byte (show_digit b'a' (n / 16)) (show_digit b'a' (n % 16)) ≡ some n
unfolding hex_byte
hex_byte-show_lower n h =
    ground (arith, hex_digit-show_lower (n / 16), hex_digit-show_lower (n % 16))

hex_byte-show_upper :
    (n : ℕ) → n < 256 → hex_byte (show_digit b'A' (n / 16)) (show_digit b'A' (n % 16)) ≡ some n
unfolding hex_byte
hex_byte-show_upper n h =
    ground (arith, hex_digit-show_upper (n / 16), hex_digit-show_upper (n % 16))

-- Every opaque colour that is written as "#RRGGBB", in small letters or in capitals, is read back.
pub parse_hex_color-show :
    (r g b : ℕ)
    → r < 256
    → g < 256
    → b < 256
    → (parse_hex_color (show_color b'a' r g b) ≡ record { r = r; g = g; b = b; a = 255 })
      × (parse_hex_color (show_color b'A' r g b) ≡ record { r = r; g = g; b = b; a = 255 })
unfolding parse_hex_color
parse_hex_color-show r g b hr hg hb = (
  rw (hex_byte-show_lower r hr, hex_byte-show_lower g hg, hex_byte-show_lower b hb),
  rw (hex_byte-show_upper r hr, hex_byte-show_upper g hg, hex_byte-show_upper b hb),
)
