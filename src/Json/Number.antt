-- ===== src/Json/Number.antt =====
-- A value that encoding/json decodes into `any`: a number becomes a float64, which has 53 bits.
use ios_pilot.Base.{
  ℕ, zero, suc, ◌+◌, ◌-◌, ◌*◌, ◌/◌, ◌%◌, ◌≡◌, refl, Bool, true, ◌&&◌, ◌||◌, Option, none, some, ltb,
  nat_eq, if◌then◌else◌,
}
use Prim.Native.Nat.{◌^◌}
use ios_pilot.Base.Int.{ℤ, pos, negsuc, sub_ℕ}
use ios_pilot.Errors.{GoError, errorf}
use ios_pilot.Json.{
  Json, null, bool, num, frac, str, arr, obj, Items, nil, cons, Fields, end, field, first_error,
}

-- how often the number is halved until it has 53 bits, at most as often as the fuel says
unfoldable pub halvings : ℕ → ℕ → ℕ
halvings zero n = 0
halvings (suc fuel) n = let more = halvings fuel (n / 2) in if ltb n (2 ^ 53) then 0 else more + 1

-- to a multiple of 2 ^ e, the nearest one, and of two that are as near the even one
unfoldable pub to_multiple : ℕ → ℕ → ℕ
to_multiple zero n = n
to_multiple (suc e) n =
    let q = n / 2 ^ suc e in
    let r = n % 2 ^ suc e in
    if ltb (2 ^ e) r || nat_eq r (2 ^ e) && nat_eq (q % 2) 1
    then (q + 1) * 2 ^ suc e
    else q * 2 ^ suc e

-- A float64 is below 2 ^ 1024, so that 971 halvings leave 53 bits.
unfoldable pub to_float : ℕ → ℕ
unfolding halvings to_multiple
to_float n = to_multiple (halvings 971 n) n

abbrev pub float_of : ℤ → ℤ
unfolding to_float
float_of (pos n) = pos (to_float n)
float_of (negsuc n) = sub_ℕ 0 (to_float (n + 1))

-- the numbers that are rounded to a float64
abbrev pub has_float : ℤ → Bool
has_float (pos n) = ltb n (2 ^ 1024 - 2 ^ 970)
has_float (negsuc n) = ltb (n + 1) (2 ^ 1024 - 2 ^ 970)

abbrev pub number : ℤ → Json
number z = if has_float z then num (float_of z) else null

abbrev number_error : ℤ → Option GoError
number_error z =
    if has_float z
    then none
    else some (errorf "json: cannot unmarshal number into Go value of type float64")

-- The value, and the error of a number that is too large, which becomes nil. A number that is no
-- integer literal is kept as its text.
unfoldable mutual
  unfolding to_float

  pub into_value : Json → Json × Option GoError
  into_value null = (null, none)
  into_value (bool b) = (bool b, none)
  into_value (num z) = (number z, number_error z)
  into_value (frac s) = (frac s, none)
  into_value (str s) = (str s, none)
  into_value (arr xs) = let (ys, e) = into_values xs in (arr ys, e)
  into_value (obj fs) = let (gs, e) = into_members fs in (obj gs, e)

  pub into_values : Items → Items × Option GoError
  into_values nil = (nil, none)
  into_values (cons j xs) =
      let (v, e) = into_value j in let (ys, e') = into_values xs in (cons v ys, first_error e e')

  pub into_members : Fields → Fields × Option GoError
  into_members end = (end, none)
  into_members (field key j fs) =
      let (v, e) = into_value j in
      let (gs, e') = into_members fs in (field key v gs, first_error e e')

-- a number of 53 bits is a float64
pub to_float-exact : (n : ℕ) → ltb n (2 ^ 53) ≡ true → to_float n ≡ n
unfolding to_float halvings to_multiple
to_float-exact n h = rw (h, to_multiple) refl

-- ties go to the even multiple
rounded : (to_float (2 ^ 53 + 1) ≡ 2 ^ 53) × (to_float (2 ^ 53 + 3) ≡ 2 ^ 53 + 4)
unfolding to_float halvings to_multiple
rounded = (refl, refl)

-- the identifier of the first request of a client
pub first_id : into_value (num (pos 1)) ≡ (num (pos 1), none)
unfolding into_value to_float halvings to_multiple
first_id = refl
