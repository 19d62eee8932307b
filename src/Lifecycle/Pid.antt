-- ===== src/Lifecycle/Pid.antt =====
-- What is read from the PID file that the daemon wrote (internal/daemon/lifecycle.go).
use ios_pilot.Base.{
  ℕ, zero, suc, ◌/◌, ◌%◌, ◌<◌, ◌≡◌, refl, String, Bool, true, false, not, ◌&&◌, some, List, [], ◌∷◌,
  ◌++◌, arith, ltb, Bool-cases, inl, inr,
}
use Prim.Native.String.{◌++◌ as append}
use ios_pilot.Base.Int.{ℤ, pos, negsuc}
use ios_pilot.Base.Text.{codes, concat, digit, digits, itoa}
use ios_pilot.Base.Decimal.{
  is_space, trim_left, trim_right, trim_space, codes-append, codes-digit, atoi_list, atoi, in_range,
  atoi-itoa,
}
use ios_pilot.Errors.{ok, is_ok}
use ios_pilot.Lifecycle.{Os, write_pid_file, read_pid, pid_of_file, is_running, signalled}

no_space : List ℕ → Bool
no_space [] = true
no_space (c ∷ cs) = not (is_space c) && no_space cs

-- a line with no space is read without its end
trim_right-line : (l : List ℕ) → no_space l ≡ true → trim_right (l ++ 10 ∷ []) ≡ l
unfolding no_space trim_right
trim_right-line [] h = refl
trim_right-line (c ∷ []) h = ground (arith, h)
trim_right-line (c ∷ d ∷ cs) h = rw (trim_right-line (d ∷ cs) (ground (arith, h))) refl

trim_space-line : (l : List ℕ) → no_space l ≡ true → trim_space (l ++ 10 ∷ []) ≡ l
unfolding trim_space trim_left no_space
trim_space-line [] h = refl
trim_space-line (c ∷ cs) h =
    let first : is_space c ≡ false = ground (arith, h) in rw first (trim_right-line (c ∷ cs) h)

no_space-digit :
    (d : ℕ) (s : String)
    → d < 10
    → no_space (codes s) ≡ true
    → no_space (codes (append (digit d) s)) ≡ true
unfolding no_space
no_space-digit d s small h = rw (codes-digit d s small) (ground (arith, h))

no_space-digits :
    (f n : ℕ) (rest : String)
    → no_space (codes rest) ≡ true
    → n < f
    → no_space (codes (digits f n rest)) ≡ true
unfolding digits
no_space-digits zero n rest h small = absurd (omega arith)
no_space-digits (suc f) n rest h less = elim (Bool-cases (ltb n 10)) [
  | inl small ↦ rw small (no_space-digit n rest (ground arith) h)
  | inr big ↦ rw big (
      no_space-digits f (n / 10) (append (digit (n % 10)) rest)
        (no_space-digit (n % 10) rest (omega arith) h) (ground arith))
]

no_space-itoa : (z : ℤ) → no_space (codes (itoa z)) ≡ true
unfolding no_space itoa
no_space-itoa (pos n) = no_space-digits (suc n) n "" refl (omega arith)
no_space-itoa (negsuc n) =
    rw (codes-append "-" (digits (suc (suc n)) (suc n) ""))
      (no_space-digits (suc (suc n)) (suc n) "" refl (omega arith))

module _ {W : Type 0} (os : Os W) where
  -- a file that was written is read back
  pub record KeepsFile (path : String) : Type 0 where
    pub read_back :
        (s : String) (w w' : W)
        → os.write_file path s w ≡ (ok tt, w')
        → os.read_file path w' ≡ (ok s, w')

  pid_of_line :
      (path : String)
      → in_range os.pid ≡ true
      → pid_of_file os path (ok (concat (itoa os.pid ∷ "\n" ∷ []))) ≡ ok os.pid
  unfolding pid_of_file atoi
  pid_of_line path fits =
      let read : atoi_list (codes (itoa os.pid)) ≡ some os.pid = atoi-itoa os.pid fits in
      rw
        (
          codes-append (itoa os.pid) "\n",
          trim_space-line (codes (itoa os.pid)) (no_space-itoa os.pid),
          read,
        )
        refl

  -- Where files that are written are read back, ReadPID gives the process that WritePIDFile wrote, and
  -- IsRunning says whether signal 0 reaches it. The number of the process is in the range of `int`.
  pub read_pid-write_pid_file :
      (path : String) (w w' : W)
      → KeepsFile path
      → in_range os.pid ≡ true
      → write_pid_file os path w ≡ (ok tt, w')
      → (read_pid os path w' ≡ (ok os.pid, w'))
        × (is_running os path w' ≡ (is_ok (os.kill os.pid 0 w').0, (os.kill os.pid 0 w').1))
  unfolding write_pid_file read_pid is_running signalled pid_of_file
  read_pid-write_pid_file path w w' keeps fits written =
      let content = concat (itoa os.pid ∷ "\n" ∷ []) in
      let found = keeps.read_back content w w' written in
      rw (found, pid_of_line path fits) (refl, refl)
