-- ===== src/Lifecycle/Lock.antt =====
-- The lock file keeps a second daemon out (AcquireLock and ReleaseLock of internal/daemon/lifecycle.go).
use ios_pilot.Base.{
  ℕ, String, List, [], ◌∷◌, ◌≡◌, ◌≢◌, refl, true, false, Option, none, some, arith, ◌∙◌, sym,
  Option-cases, inl, inr,
}
use ios_pilot.Errors.{Result, ok, err, is_ok}
use ios_pilot.Lifecycle.{Os, acquire_lock, locked, release_lock}

module _ {W : Type 0} (os : Os W) (path : String) (holder : W → Option ℕ) where
  -- flock(2) on the file of this path: `holder` is the handle that holds the lock. A handle that was
  -- just opened does not hold it, a lock that is held is refused, and a handle that is closed or
  -- unlocked gives up only its own lock.
  pub record Flocks : Type 0 where
    pub opened :
        (w w' : W) (f : ℕ)
        → os.open_lock path w ≡ (ok f, w')
        → (holder w' ≡ holder w) × (holder w ≢ some f)
    pub not_opened :
        (w : W) → is_ok (os.open_lock path w).0 ≡ false → holder (os.open_lock path w).1 ≡ holder w
    pub taken :
        (w : W) (f : ℕ)
        → holder w ≡ none
        → is_ok (os.flock f w).0 ≡ true
        → holder (os.flock f w).1 ≡ some f
    pub refused :
        (w : W) (f h : ℕ)
        → holder w ≡ some h
        → some h ≢ some f
        → (is_ok (os.flock f w).0 ≡ false) × (holder (os.flock f w).1 ≡ some h)
    pub unlocked : (w : W) (f : ℕ) → holder w ≡ some f → holder (os.unlock f w) ≡ none
    pub closed_free : (w : W) (f : ℕ) → holder w ≡ none → holder (os.close_file f w) ≡ none
    pub closed_other :
        (w : W) (f h : ℕ)
        → holder w ≡ some h
        → some h ≢ some f
        → holder (os.close_file f w) ≡ some h

  -- what happens on the machine: another AcquireLock, or anything else
  pub data Deed : Type 0 where
    attempt : Deed
    elsewhere : (W → W) → Deed

  -- nothing else changes who holds the lock
  abbrev pub AllKeep : List Deed → Type 0
  AllKeep [] = Unit {0}
  AllKeep (attempt ∷ ds) = AllKeep ds
  AllKeep (elsewhere g ∷ ds) = ((w : W) → holder (g w) ≡ holder w) × AllKeep ds

  -- the results of the attempts, and the world after them all
  abbrev pub played : List Deed → W → List (Result ℕ) × W
  played [] w = ([], w)
  played (attempt ∷ ds) w =
      let (r, w₁) = acquire_lock os path w in let (rs, w₂) = played ds w₁ in (r ∷ rs, w₂)
  played (elsewhere g ∷ ds) w = played ds (g w)

  abbrev pub AllFail : List (Result ℕ) → Type 0
  AllFail [] = Unit {0}
  AllFail (r ∷ rs) = (is_ok r ≡ false) × AllFail rs

  -- closing a handle that failed to lock, and the file that could not be opened, change no holder
  module _ (flocks : Flocks) where
    locked_holds :
        (w w' : W) (f g : ℕ)
        → (holder w ≢ some g)
        → locked os (ok g) w ≡ (ok f, w')
        → (holder w ≡ none) × (holder w' ≡ some f)
    unfolding locked
    locked_holds w w' f g other e = elim (Option-cases (holder w)) [
      | inl free ↦ (free, ground (arith, e, flocks.taken w g free))
      | inr (h, held) ↦
          absurd (ground (arith, e, flocks.refused w g h held (λ p. other (held ∙ p))))
    ]

    locked_refused :
        (w : W) (f : ℕ) (r : Result ℕ)
        → holder w ≡ some f
        → ((g : ℕ) → r ≡ ok g → some f ≢ some g)
        → (is_ok (locked os r w).0 ≡ false) × (holder (locked os r w).1 ≡ some f)
    unfolding locked
    locked_refused w f (err e) held other = (refl, held)
    locked_refused w f (ok g) held other = ground (
      arith,
      flocks.refused w g f held (other g refl),
      flocks.closed_other (os.flock g w).1 g f,
      other g refl,
    )

    acquired :
        (w w₁ w' : W) (f : ℕ) (r : Result ℕ)
        → os.open_lock path w ≡ (r, w₁)
        → locked os r w₁ ≡ (ok f, w')
        → (holder w ≡ none) × (holder w' ≡ some f)
    unfolding locked
    acquired w w₁ w' f (err x) o e = absurd (ground (arith, e))
    acquired w w₁ w' f (ok g) o e =
        let (same, new) = flocks.opened w w₁ g o in
        let (free, held) = locked_holds w₁ w' f g (λ p. new (sym same ∙ p)) e in
        (sym same ∙ free, held)

    pub kept_out :
        (w w₁ : W) (f : ℕ) (r : Result ℕ)
        → os.open_lock path w ≡ (r, w₁)
        → holder w ≡ some f
        → (is_ok (locked os r w₁).0 ≡ false) × (holder (locked os r w₁).1 ≡ some f)
    kept_out w w₁ f (err x) o held =
        locked_refused w₁ f (err x) (ground (arith, o, held, flocks.not_opened w))
          (λ g p. absurd (ground (arith, p)))
    kept_out w w₁ f (ok g) o held =
        let (same, new) = flocks.opened w w₁ g o in
        locked_refused w₁ f (ok g) (same ∙ held) (λ g' p. ground (arith, p, held, new))

    attempt_fails :
        (w : W) (f : ℕ)
        → holder w ≡ some f
        → (is_ok (acquire_lock os path w).0 ≡ false) × (holder (acquire_lock os path w).1 ≡ some f)
    unfolding acquire_lock
    attempt_fails w f held = kept_out w (os.open_lock path w).1 f (os.open_lock path w).0 refl held

    attempts_fail :
        (ds : List Deed) (w : W) (f : ℕ)
        → AllKeep ds
        → holder w ≡ some f
        → AllFail (played ds w).0 × (holder (played ds w).1 ≡ some f)
    attempts_fail [] w f keeps held = (tt, held)
    attempts_fail (attempt ∷ ds) w f keeps held =
        let (fails, still) = attempt_fails w f held in
        let (rest, last) = attempts_fail ds (acquire_lock os path w).1 f keeps still in
        ((fails, rest), last)
    attempts_fail (elsewhere g ∷ ds) w f keeps held =
        attempts_fail ds (g w) f keeps.1 (keeps.0 w ∙ held)

    -- A daemon that has the lock found it free. Whatever happens after that, as long as nothing but
    -- AcquireLock touches the lock, every AcquireLock of the file fails and the daemon holds the lock,
    -- until it releases it, which leaves the lock free.
    pub acquire_lock_excludes :
        (w w' : W) (f : ℕ) (ds : List Deed)
        → acquire_lock os path w ≡ (ok f, w')
        → AllKeep ds
        → (holder w ≡ none)
          × (holder w' ≡ some f)
          × AllFail (played ds w').0
          × (holder (played ds w').1 ≡ some f)
          × (holder (release_lock os f (played ds w').1) ≡ none)
    unfolding acquire_lock release_lock
    acquire_lock_excludes w w' f ds e keeps =
        let (free, held) = acquired w (os.open_lock path w).1 w' f (os.open_lock path w).0 refl e in
        let (fails, still) = attempts_fail ds w' f keeps held in
        let last = (played ds w').1 in
        (
          free,
          held,
          fails,
          still,
          flocks.closed_free (os.unlock f last) f (flocks.unlocked last f still),
        )
