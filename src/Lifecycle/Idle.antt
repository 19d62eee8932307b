-- ===== src/Lifecycle/Idle.antt =====
-- `IdleTimer` (internal/daemon/lifecycle.go), with time.AfterFunc of the language:
-- a clock that events move on. Time is counted in one unit from the start of the program.
use ios_pilot.Base.{
  ℕ, ◌+◌, ◌≤◌, ◌<◌, ◌≡◌, refl, Option, none, some, List, [], ◌∷◌, arith, leb, if◌then◌else◌,
  Bool-cases, inl, inr,
}

-- `deadline` is the time at which the timer is due, none where it is stopped or has fired; `expired`
-- counts the calls of `onExpire`.
pub record IdleTimer : Type 0 where
  pub duration : ℕ
  pub clock : ℕ
  pub deadline : Option ℕ
  pub expired : ℕ

unfoldable pub new_idle_timer : ℕ → ℕ → IdleTimer
new_idle_timer duration now = record {
  duration = duration;
  clock = now;
  deadline = some (now + duration);
  expired = 0;
}

-- a timer of the language is started again, whether it is due, stopped or has fired
unfoldable pub reset : IdleTimer → IdleTimer
reset it = record it { deadline = some (it.clock + it.duration) }

unfoldable pub stop : IdleTimer → IdleTimer
stop it = record it { deadline = none }

-- the clock at `now`: a timer that is due fires once
abbrev fire : Option ℕ → ℕ → IdleTimer → IdleTimer
fire none now it = record it { clock = now }
fire (some due) now it =
    if leb due now
    then record it { clock = now; deadline = none; expired = it.expired + 1 }
    else record it { clock = now }

-- time passes
unfoldable pub pass : ℕ → IdleTimer → IdleTimer
pass n it = fire it.deadline (it.clock + n) it

-- a request after this time, as `handleConn` treats it
unfoldable pub request_after : ℕ → IdleTimer → IdleTimer
unfolding pass reset
request_after n it = reset (pass n it)

unfoldable pub requests_after : List ℕ → IdleTimer → IdleTimer
unfolding request_after
requests_after [] it = it
requests_after (n ∷ ns) it = requests_after ns (request_after n it)

-- periods of time with no request
unfoldable pub silence : List ℕ → IdleTimer → IdleTimer
unfolding pass
silence [] it = it
silence (n ∷ ns) it = silence ns (pass n it)

abbrev pub total : List ℕ → ℕ
total [] = 0
total (n ∷ ns) = n + total ns

abbrev pub AllBelow : ℕ → List ℕ → Type 0
AllBelow d [] = Unit {0}
AllBelow d (n ∷ ns) = (n < d) × AllBelow d ns

-- A timer that is due then does not fire before, and fires at that time or after it.
pass_waits :
    (n due : ℕ) (it : IdleTimer)
    → it.deadline ≡ some due
    → it.clock + n < due
    → pass n it ≡ record it { clock = it.clock + n }
unfolding pass
pass_waits n due it e h = ground (arith, e, h)

pub pass_fires :
    (n due : ℕ) (it : IdleTimer)
    → it.deadline ≡ some due
    → due ≤ it.clock + n
    → pass n it ≡ record it { clock = it.clock + n; deadline = none; expired = it.expired + 1 }
unfolding pass
pass_fires n due it e h = ground (arith, e, h)

pass_stopped :
    (n : ℕ) (it : IdleTimer) → it.deadline ≡ none → pass n it ≡ record it { clock = it.clock + n }
unfolding pass
pass_stopped n it e = ground (arith, e)

-- A timer that is not armed does not fire, however long the silence.
pub silence_stopped :
    (ms : List ℕ) (it : IdleTimer) → it.deadline ≡ none → (silence ms it).expired ≡ it.expired
unfolding silence
silence_stopped [] it e = refl
silence_stopped (n ∷ ms) it e = ground (arith, pass_stopped n it e, silence_stopped ms (pass n it))

silence_armed :
    (ms : List ℕ) (due : ℕ) (it : IdleTimer)
    → it.deadline ≡ some due
    → it.clock < due
    → (silence ms it).expired ≡ it.expired + (if leb due (it.clock + total ms) then 1 else 0)
unfolding silence
silence_armed [] due it e h = ground (arith, h)
silence_armed (n ∷ ms) due it e h = elim (Bool-cases (leb due (it.clock + n))) [
  | inl over ↦ ground (arith, pass_fires n due it e, silence_stopped ms (pass n it))
  | inr left ↦ ground (arith, pass_waits n due it e, silence_armed ms due (pass n it))
]

-- After a request the timer is due a whole duration later.
pub record IsArmed (d expired : ℕ) (it : IdleTimer) : Type 0 where
  pub long : it.duration ≡ d
  pub due : it.deadline ≡ some (it.clock + d)
  pub count : it.expired ≡ expired

request_after-IsArmed :
    (n d k : ℕ) (it : IdleTimer) → n < d → IsArmed d k it → IsArmed d k (request_after n it)
unfolding request_after reset
request_after-IsArmed n d k it h armed = ground (arith, pass_waits n (it.clock + d) it armed.due)

requests_after-IsArmed :
    (ns : List ℕ) (d k : ℕ) (it : IdleTimer)
    → AllBelow d ns
    → IsArmed d k it
    → IsArmed d k (requests_after ns it)
unfolding requests_after
requests_after-IsArmed [] d k it below armed = armed
requests_after-IsArmed (n ∷ ns) d k it below armed =
    requests_after-IsArmed ns d k (request_after n it) below.1
      (request_after-IsArmed n d k it below.0 armed)

-- Requests that come less than the duration apart keep the timer from firing, and in a silence after
-- them it fires once if the silence lasts the duration, and not at all if it does not.
pub idle_expires :
    (d now : ℕ) (ns ms : List ℕ)
    → 0 < d
    → AllBelow d ns
    → (silence ms (requests_after ns (new_idle_timer d now))).expired
      ≡ (if leb d (total ms) then 1 else 0)
unfolding new_idle_timer
idle_expires d now ns ms positive below =
    let armed =
      requests_after-IsArmed ns d 0 (new_idle_timer d now) below
        (record { long = refl; due = refl; count = refl }) in
    let it = requests_after ns (new_idle_timer d now) in
    ground (arith, armed.due, armed.count, silence_armed ms (it.clock + d) it)
