-- ===== src/Lifecycle.antt =====
-- The PID file and the lock file of the daemon (internal/daemon/lifecycle.go), over the
-- operating system, which is a parameter. The idle timer is in Lifecycle.Idle.
pub mod Idle
pub mod Pid
pub mod Lock
pub mod Listener
pub mod Serve
pub mod Process
mod Tests
use ios_pilot.Base.{ℕ, zero, String, Bool, true, false, Option, none, some, [], ◌∷◌}
use ios_pilot.Base.Int.{ℤ}
use ios_pilot.Base.Text.{codes, concat, itoa}
use ios_pilot.Base.Decimal.{atoi_list, trim_space}
use ios_pilot.Errors.{errorf, wrapped, Result, ok, err, is_ok, Call}

-- The calls of the operating system. `pid` is the process itself, `quote` the verb %q. `open_lock`
-- opens a file that it creates where there is none, and gives a handle; `flock` is flock(2) with
-- LOCK_EX and LOCK_NB, `unlock` with LOCK_UN. What `remove`, `unlock` and `close_file` return is not used.
pub record Os (W : Type 0) : Type 0 where
  pub pid : ℤ
  pub quote : String → String
  pub read_file : String → Call W String
  pub write_file : String → String → Call W (Unit {0})
  pub remove : String → W → W
  pub kill : ℤ → ℕ → Call W (Unit {0})
  pub open_lock : String → Call W ℕ
  pub flock : ℕ → Call W (Unit {0})
  pub unlock : ℕ → W → W
  pub close_file : ℕ → W → W

module _ {W : Type 0} (os : Os W) where
  unfoldable pub write_pid_file : String → Call W (Unit {0})
  write_pid_file path w = os.write_file path (concat (itoa os.pid ∷ "\n" ∷ [])) w

  abbrev pub remove_pid_file : String → W → W
  remove_pid_file path w = os.remove path w

  -- the text of the error of Atoi is left out
  abbrev pub parsed_pid : String → Option ℤ → Result ℤ
  parsed_pid path none =
      err (wrapped (concat ("invalid PID in file " ∷ os.quote path ∷ [])) (errorf "strconv.Atoi"))
  parsed_pid path (some pid) = ok pid

  unfoldable pub pid_of_file : String → Result String → Result ℤ
  unfolding atoi_list trim_space
  pid_of_file path (err e) = err e
  pid_of_file path (ok content) = parsed_pid path (atoi_list (trim_space (codes content)))

  unfoldable pub read_pid : String → Call W ℤ
  unfolding pid_of_file
  read_pid path w = let (r, w') = os.read_file path w in (pid_of_file path r, w')

  -- signal 0 only asks whether the process is there
  unfoldable pub signalled : Result ℤ → W → Bool × W
  signalled (err e) w = (false, w)
  signalled (ok pid) w = let (r, w') = os.kill pid 0 w in (is_ok r, w')

  unfoldable pub is_running : String → W → Bool × W
  unfolding read_pid signalled
  is_running path w = let (r, w') = read_pid path w in signalled r w'

  -- after the file is open
  unfoldable pub locked : Result ℕ → Call W ℕ
  locked (err e) w = (err (wrapped "open lock file" e), w)
  locked (ok f) w =
      let (r, w') = os.flock f w in
      elim r [ ok _ ↦ (ok f, w') | err e ↦ (err (wrapped "acquire lock" e), os.close_file f w') ]

  unfoldable pub acquire_lock : String → Call W ℕ
  unfolding locked
  acquire_lock path w = let (r, w') = os.open_lock path w in locked r w'

  unfoldable pub release_lock : ℕ → W → W
  release_lock f w = os.close_file f (os.unlock f w)
