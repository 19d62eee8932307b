-- ===== src/Base/Decimal.antt =====
-- Decimal numbers in texts: strconv.Atoi, with what strings.TrimSpace takes away around one.
use Prim.Native.Nat.{ℕ, zero, suc, ◌+◌, ◌-◌, ◌*◌, ◌/◌, ◌%◌, ◌<◌}
use Prim.Native.String.{String, ◌++◌ as append}
use Prim.Native.String.append as append_laws
use mathlib.Core.Path.{◌≡◌, refl, ◌∙◌}
use mathlib.Core.Bool.{Bool, true, false, ◌&&◌, ◌||◌}
use mathlib.Core.Logic.{inl, inr}
use mathlib.Core.Option.{Option, none, some}
use mathlib.Core.List.{List, [], ◌∷◌, ◌++◌}
use native.Mathlib.Omega.{arith}
use ios_pilot.Base.Int.{ℤ, pos, negsuc}
use ios_pilot.Base.Tests.{ltb, leb, nat_eq, if◌then◌else◌, Bool-cases}
use ios_pilot.Base.Text.{codes, digit, digits, itoa}

abbrev pub is_digit : ℕ → Bool
is_digit c = leb b'0' c && leb c b'9'

-- the value of the digits after those of `acc`
unfoldable pub read_digits : ℕ → List ℕ → Option ℕ
read_digits acc [] = some acc
read_digits acc (c ∷ cs) =
    let rest = read_digits (acc * 10 + (c - b'0')) cs in if is_digit c then rest else none

-- at least one digit
unfoldable pub magnitude : List ℕ → Option ℕ
unfolding read_digits
magnitude [] = none
magnitude (c ∷ cs) = read_digits 0 (c ∷ cs)

-- with the sign, in the range of 64 bits
abbrev pub positive : Option ℕ → Option ℤ
positive none = none
positive (some n) = if leb n 9223372036854775807 then some (pos n) else none

abbrev pub negative : Option ℕ → Option ℤ
negative none = none
negative (some zero) = some (pos 0)
negative (some (suc n)) = if leb n 9223372036854775807 then some (negsuc n) else none

-- in the range of 64 bits
abbrev pub in_range : ℤ → Bool
in_range (pos n) = leb n 9223372036854775807
in_range (negsuc n) = leb n 9223372036854775807

-- strconv.Atoi on the code points of a text; `none` is its error
unfoldable pub atoi_list : List ℕ → Option ℤ
unfolding magnitude
atoi_list [] = none
atoi_list (c ∷ cs) =
    if nat_eq c b'-'
    then negative (magnitude cs)
    else if nat_eq c b'+'
    then positive (magnitude cs)
    else positive (magnitude (c ∷ cs))

unfoldable pub atoi : String → Option ℤ
unfolding atoi_list
atoi s = atoi_list (codes s)

-- unicode.IsSpace
abbrev pub is_space : ℕ → Bool
is_space c =
    (leb 9 c && leb c 13)
    || nat_eq c 32
    || nat_eq c 133
    || nat_eq c 160
    || nat_eq c 5760
    || (leb 8192 c && leb c 8202)
    || nat_eq c 8232
    || nat_eq c 8233
    || nat_eq c 8239
    || nat_eq c 8287
    || nat_eq c 12288

unfoldable pub trim_left : List ℕ → List ℕ
trim_left [] = []
trim_left (c ∷ cs) = let rest = trim_left cs in if is_space c then rest else c ∷ cs

-- a space is kept where something follows it
abbrev keep_space : ℕ → List ℕ → List ℕ
keep_space c [] = if is_space c then [] else c ∷ []
keep_space c (d ∷ ds) = c ∷ d ∷ ds

unfoldable pub trim_right : List ℕ → List ℕ
trim_right [] = []
trim_right (c ∷ cs) = keep_space c (trim_right cs)

-- strings.TrimSpace
unfoldable pub trim_space : List ℕ → List ℕ
unfolding trim_left trim_right
trim_space s = trim_right (trim_left s)

pub codes-append : (s t : String) → codes (append s t) ≡ codes s ++ codes t
codes-append String.[] t = rw (append_laws.nil t) refl
codes-append (String.◌∷◌ c s) t = rw (append_laws.cons c s t, codes-append s t) refl

-- the code points of a text that begins with a digit
pub codes-digit : (d : ℕ) (s : String) → d < 10 → codes (append (digit d) s) ≡ (b'0' + d) ∷ codes s
unfolding digit
codes-digit zero s h = rw (codes-append _ s) refl
codes-digit (suc zero) s h = rw (codes-append _ s) refl
codes-digit (suc (suc zero)) s h = rw (codes-append _ s) refl
codes-digit (suc (suc (suc zero))) s h = rw (codes-append _ s) refl
codes-digit (suc (suc (suc (suc zero)))) s h = rw (codes-append _ s) refl
codes-digit (suc (suc (suc (suc (suc zero))))) s h = rw (codes-append _ s) refl
codes-digit (suc (suc (suc (suc (suc (suc zero)))))) s h = rw (codes-append _ s) refl
codes-digit (suc (suc (suc (suc (suc (suc (suc zero))))))) s h = rw (codes-append _ s) refl
codes-digit (suc (suc (suc (suc (suc (suc (suc (suc zero)))))))) s h = rw (codes-append _ s) refl
codes-digit (suc (suc (suc (suc (suc (suc (suc (suc (suc zero))))))))) s h =
    rw (codes-append _ s) refl
codes-digit (suc (suc (suc (suc (suc (suc (suc (suc (suc (suc d)))))))))) s h = absurd (omega arith)

one_digit :
    (acc d : ℕ) (s : String)
    → d < 10
    → read_digits acc (codes (append (digit d) s)) ≡ read_digits (acc * 10 + d) (codes s)
unfolding read_digits
one_digit acc d s h =
    let same : b'0' + d - b'0' ≡ d = omega arith in
    let fine : is_digit (b'0' + d) ≡ true = ground arith in rw (codes-digit d s h, fine, same) refl

-- The digits of a number are read back, and then what stands after them.
read_digits-digits :
    (f n : ℕ) (rest : String)
    → n < f
    → read_digits 0 (codes (digits f n rest)) ≡ read_digits n (codes rest)
unfolding digits
read_digits-digits zero n rest h = absurd (omega arith)
read_digits-digits (suc f) n rest h = elim (Bool-cases (ltb n 10)) [
  | inl small ↦
      let start : 0 * 10 + n ≡ n = omega arith in
      rw (small, one_digit 0 n rest (ground arith), start) refl
  | inr big ↦
      let whole : n / 10 * 10 + n % 10 ≡ n = omega arith in
      rw big (
        read_digits-digits f (n / 10) (append (digit (n % 10)) rest) (ground arith)
        ∙ rw (one_digit (n / 10) (n % 10) rest (omega arith), whole) refl)
]

-- the text of a number begins with a digit
starts_digit : List ℕ → Bool
starts_digit [] = false
starts_digit (c ∷ cs) = is_digit c

starts_digit-digits :
    (f n : ℕ) (rest : String) → n < f → starts_digit (codes (digits f n rest)) ≡ true
unfolding digits starts_digit
starts_digit-digits zero n rest h = absurd (omega arith)
starts_digit-digits (suc f) n rest h = elim (Bool-cases (ltb n 10)) [
  | inl small ↦ rw (small, codes-digit n rest (ground arith)) (ground arith)
  | inr big ↦ rw big (starts_digit-digits f (n / 10) (append (digit (n % 10)) rest) (ground arith))
]

unsigned :
    (l : List ℕ) (n : ℕ)
    → starts_digit l ≡ true
    → read_digits 0 l ≡ some n
    → (magnitude l ≡ some n) × (atoi_list l ≡ positive (some n))
unfolding starts_digit magnitude atoi_list
unsigned [] n h e = absurd (ground arith)
unsigned (c ∷ cs) n h e = ground (arith, e)

atoi_minus :
    (s : String) (n : ℕ)
    → magnitude (codes s) ≡ some (suc n)
    → leb n 9223372036854775807 ≡ true
    → atoi (append "-" s) ≡ some (negsuc n)
unfolding atoi atoi_list
atoi_minus s n e h = rw (codes-append "-" s, e, h) refl

-- A number in the range of `int` is printed as a text that Atoi reads as the number.
pub atoi-itoa : (z : ℤ) → in_range z ≡ true → atoi (itoa z) ≡ some z
unfolding atoi itoa atoi_list magnitude
atoi-itoa (pos n) h =
    let (mag, whole) =
      unsigned (codes (itoa (pos n))) n (starts_digit-digits (suc n) n "" (omega arith))
        (read_digits-digits (suc n) n "" (omega arith)) in
    rw whole (ground arith)
atoi-itoa (negsuc n) h =
    let s = digits (suc (suc n)) (suc n) "" in
    atoi_minus s n
      (unsigned (codes s) (suc n) (starts_digit-digits (suc (suc n)) (suc n) "" (omega arith))
        (read_digits-digits (suc (suc n)) (suc n) "" (omega arith))).0
      h

positive-in_range : (o : Option ℕ) (z : ℤ) → positive o ≡ some z → in_range z ≡ true
positive-in_range o z e = ground (arith, e)

negative-in_range : (o : Option ℕ) (z : ℤ) → negative o ≡ some z → in_range z ≡ true
negative-in_range none z e = cc
negative-in_range (some zero) z e = ground (arith, e)
negative-in_range (some (suc n)) z e = ground (arith, e)

in_range_list : (l : List ℕ) (z : ℤ) → atoi_list l ≡ some z → in_range z ≡ true
unfolding atoi_list
in_range_list [] z e = cc
in_range_list (c ∷ cs) z e = ground (
  arith,
  negative-in_range (magnitude cs) z,
  positive-in_range (magnitude cs) z,
  positive-in_range (magnitude (c ∷ cs)) z,
)

-- What Atoi reads is in the range of `int`.
pub atoi-in_range : (s : String) (z : ℤ) → atoi s ≡ some z → in_range z ≡ true
unfolding atoi
atoi-in_range s z e = in_range_list (codes s) z e
