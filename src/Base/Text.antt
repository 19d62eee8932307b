-- ===== src/Base/Text.antt =====
-- Text: the parts of `strings`, `strconv` and `fmt` that the program uses, over code points.
-- A text is the native `String`; a function that walks one walks the list of its code points.
use Prim.Native.Nat.{ℕ, zero, suc, ◌+◌, ◌/◌, ◌%◌}
use Prim.Native.Char.{code}
use Prim.Native.String.{String, ◌++◌ as append}
use mathlib.Core.Bool.{Bool, true, false, ◌&&◌, ◌||◌}
use mathlib.Core.List.{List, [], ◌∷◌}
use ios_pilot.Base.Int.{ℤ, pos, negsuc}
use ios_pilot.Base.Tests.{ltb, leb, nat_eq, if◌then◌else◌}

abbrev pub codes : String → List ℕ
codes String.[] = []
codes (String.◌∷◌ c s) = code c ∷ codes s

-- the parts of a message, one after the other
abbrev pub concat : List String → String
concat [] = ""
concat (s ∷ []) = s
concat (s ∷ t ∷ r) = append s (concat (t ∷ r))

-- strings.HasPrefix
abbrev pub is_prefix : List ℕ → List ℕ → Bool
is_prefix [] s = true
is_prefix (c ∷ p) [] = false
is_prefix (c ∷ p) (d ∷ s) = nat_eq c d && is_prefix p s

-- strings.Contains; the empty text is contained in every text
abbrev pub contains : List ℕ → List ℕ → Bool
contains [] p = is_prefix p []
contains (c ∷ s) p = is_prefix p (c ∷ s) || contains s p

-- the same code points
abbrev pub codes_eq : List ℕ → List ℕ → Bool
codes_eq [] [] = true
codes_eq (c ∷ s) (d ∷ t) = nat_eq c d && codes_eq s t
codes_eq _ _ = false

-- unicode.ToLower: by the table of ASCII below 128, by `fold` above it
abbrev pub to_lower : (ℕ → ℕ) → ℕ → ℕ
to_lower fold c = if leb b'A' c && leb c b'Z' then c + 32 else if leb c 127 then c else fold c

unfoldable pub digit : ℕ → String
digit d =
    if nat_eq d 0
    then "0"
    else if nat_eq d 1
    then "1"
    else if nat_eq d 2
    then "2"
    else if nat_eq d 3
    then "3"
    else if nat_eq d 4
    then "4"
    else if nat_eq d 5
    then "5"
    else if nat_eq d 6
    then "6"
    else if nat_eq d 7
    then "7"
    else if nat_eq d 8
    then "8"
    else "9"

-- A number has fewer digits than its value plus one, which is the fuel.
unfoldable pub digits : ℕ → ℕ → String → String
digits zero n rest = rest
digits (suc f) n rest =
    let more = digits f (n / 10) (append (digit (n % 10)) rest) in
    if ltb n 10 then append (digit n) rest else more

-- strconv.Itoa and the verb %d
unfoldable pub itoa : ℤ → String
unfolding digit digits
itoa (pos n) = digits (suc n) n ""
itoa (negsuc n) = append "-" (digits (suc (suc n)) (suc n) "")
