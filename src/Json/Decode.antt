-- ===== src/Json/Decode.antt =====
-- What a decoding leaves alone.
use ios_pilot.Base.{String, ◌≡◌, refl, ◌∙◌, ◌||◌, Bool, false, Option, arith}
use ios_pilot.Errors.{GoError}
use ios_pilot.Json.{Json, Fields, end, field, names, into_fields}

-- Some key of the object names the field.
abbrev pub mentions : String → Fields → Bool
mentions name end = false
mentions name (field key v fs) = names key name || mentions name fs

-- A part of the struct that only a field of this name reaches is kept by an object that does not
-- mention the name.
pub into_fields_keeps {ℓ} :
    {P : Type 0} {X : Type ℓ} (assign : String → Json → P → P × Option GoError) (part : P → X)
    (name : String)
    → ((key : String) (v : Json) (p : P)
        → names key name ≡ false
        → part (assign key v p).0 ≡ part p)
    → (fs : Fields) (p : P) → mentions name fs ≡ false
    → part (into_fields assign fs p).0 ≡ part p
unfolding into_fields
into_fields_keeps assign part name keeps end p h = refl
into_fields_keeps assign part name keeps (field key v fs) p h =
    into_fields_keeps assign part name keeps fs (assign key v p).0 (ground arith)
    ∙ keeps key v p (ground arith)
