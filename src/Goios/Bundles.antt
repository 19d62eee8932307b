-- ===== src/Goios/Bundles.antt =====
-- The test of a user's application on a path (foregroundAppViaAppService of
-- internal/driver/goios/app.go), said without the components of the path.
use ios_pilot.Base.{
  ℕ, String, some, ap, ◌≡◌, refl, sym, ◌∙◌, Bool, true, false, ◌&&◌, ◌||◌, List, [], ◌∷◌, ◌++◌,
  arith, nat_eq, Bool-cases, inl, inr, if◌then◌else◌,
}
use ios_pilot.Base.Text.{codes, codes_eq, is_prefix, contains}
use ios_pilot.Goios.{AppProcess}
use ios_pilot.Goios.App.{has_suffix, split_path, onto_first, below_app, is_user_app, find_first}

-- is `p` the first component, with another after it
abbrev first_is : List ℕ → List (List ℕ) → Bool
first_is p (part ∷ next ∷ parts) = codes_eq part p
first_is p _ = false

abbrev no_slash : List ℕ → Bool
no_slash [] = true
no_slash (c ∷ p) = if nat_eq c b'/' then false else no_slash p

abbrev slash : List ℕ
slash = b'/' ∷ []

first_is_onto :
    (c : ℕ) (d : ℕ) (p : List ℕ) (parts : List (List ℕ))
    → first_is (d ∷ p) (onto_first c parts) ≡ (nat_eq c d && first_is p parts)
first_is_onto c d p [] = ground arith
first_is_onto c d p (part ∷ []) = ground arith
first_is_onto c d p (part ∷ next ∷ parts) = ground arith

split_slash : (c : ℕ) (s : List ℕ) → nat_eq c b'/' ≡ true → split_path (c ∷ s) ≡ [] ∷ split_path s
unfolding split_path
split_slash c s h = ground (arith, h)

split_other :
    (c : ℕ) (s : List ℕ) → nat_eq c b'/' ≡ false → split_path (c ∷ s) ≡ onto_first c (split_path s)
unfolding split_path
split_other c s h = ground (arith, h)

onto_pieces :
    (c : ℕ) (l : List (List ℕ))
    → (part : List ℕ) × (parts : List (List ℕ)) × (onto_first c l ≡ part ∷ parts)
onto_pieces c [] = (c ∷ [], [], refl)
onto_pieces c (part ∷ parts) = (c ∷ part, parts, refl)

pieces : (s : List ℕ) → (part : List ℕ) × (parts : List (List ℕ)) × (split_path s ≡ part ∷ parts)
unfolding split_path
pieces [] = ([], [], refl)
pieces (c ∷ s) = elim (Bool-cases (nat_eq c b'/')) [
  | inl h ↦ ([], split_path s, split_slash c s h)
  | inr h ↦
      let (part, parts, e) = onto_pieces c (split_path s) in (part, parts, split_other c s h ∙ e)
]

not_empty : (c : ℕ) (l : List (List ℕ)) → first_is [] (onto_first c l) ≡ false
not_empty c [] = refl
not_empty c (part ∷ []) = refl
not_empty c (part ∷ next ∷ parts) = refl

first_is_split :
    (p s : List ℕ) → no_slash p ≡ true → first_is p (split_path s) ≡ is_prefix (p ++ slash) s
unfolding split_path
first_is_split [] [] h = refl
first_is_split (d ∷ p) [] h = refl
first_is_split [] (c ∷ s) h = elim (Bool-cases (nat_eq c b'/')) [
  | inl at ↦
      let (part, parts, e) = pieces s in
      let same : c ≡ b'/' = ground (arith, at) in rw (split_slash c s at, e, same) refl
  | inr off ↦
      let other : nat_eq b'/' c ≡ false = ground (arith, off) in
      rw (split_other c s off, not_empty c (split_path s), other) refl
]
first_is_split (d ∷ p) (c ∷ s) h = elim (Bool-cases (nat_eq c b'/')) [
  | inl at ↦
      let (part, parts, e) = pieces s in
      let other : nat_eq d c ≡ false = ground (arith, at, h) in
      rw (split_slash c s at, e, other) refl
  | inr off ↦
      let tail : no_slash p ≡ true = ground (arith, h) in
      let turned : nat_eq c d ≡ nat_eq d c = ground arith in
      rw (split_other c s off, first_is_onto c d p (split_path s), first_is_split p s tail, turned)
        refl
]

abbrev app : List ℕ
app = codes ".app"

below_onto :
    (c : ℕ) (l : List (List ℕ))
    → below_app (onto_first c l) ≡ (first_is app (onto_first c l) || below_app l)
unfolding below_app has_suffix
below_onto c [] = refl
below_onto c (part ∷ []) = refl
below_onto c (part ∷ next ∷ parts) = ground arith

below_app-split_path : (s : List ℕ) → below_app (split_path s) ≡ contains s (app ++ slash)
unfolding below_app has_suffix split_path
below_app-split_path [] = refl
below_app-split_path (c ∷ s) = elim (Bool-cases (nat_eq c b'/')) [
  | inl at ↦
      let (part, parts, e) = pieces s in
      let same : c ≡ b'/' = ground (arith, at) in
      rw (split_slash c s at, same)
        (ap (λ l. below_app ([] ∷ l)) e ∙ sym (ap below_app e) ∙ below_app-split_path s)
  | inr off ↦
      let first : first_is app (onto_first c (split_path s)) ≡ is_prefix (app ++ slash) (c ∷ s) =
        ap (first_is app) (sym (split_other c s off)) ∙ first_is_split app (c ∷ s) refl in
      rw (split_other c s off, below_onto c (split_path s), first, below_app-split_path s) refl
]

-- The path has the directory of the applications in it and the text ".app/".
abbrev pub user_path : String → Bool
user_path path =
    contains (codes path) (codes "/Bundle/Application/") && contains (codes path) (codes ".app/")

is_user_app-eq-user_path : (p : AppProcess) → is_user_app p ≡ user_path p.path
unfolding is_user_app
is_user_app-eq-user_path p = rw (below_app-split_path (codes p.path)) refl

-- no process of a user's application
abbrev pub Others : List AppProcess → Type 0
Others [] = Unit
Others (q ∷ qs) = (user_path q.path ≡ false) × Others qs

pub first_user_app :
    (before : List AppProcess) (p : AppProcess) (after : List AppProcess)
    → Others before
    → user_path p.path ≡ true
    → find_first is_user_app (before ++ (p ∷ after)) ≡ some p
unfolding find_first
first_user_app [] p after others h = rw (is_user_app-eq-user_path p, h) refl
first_user_app (q ∷ before) p after (other, others) h =
    rw (is_user_app-eq-user_path q, other) (first_user_app before p after others h)
