-- ===== src/Cli/Waiting.antt =====
-- The wait for a daemon that was started (`ensureDaemon` of internal/cli/root.go).
use ios_pilot.Base.{
  arith, ℕ, zero, suc, ◌<◌, ◌≤◌, ◌≡◌, subst, ltb, Bool-cases, inl, inr, if◌then◌else◌, refl, ◌∙◌,
  true, false,
}
use ios_pilot.Errors.{Result, ok, err, is_ok, errorf, Call, or_else}
use ios_pilot.Cli.{
  Shell, dial, sock_path, wait_for_socket, started, ensure_daemon, start_daemon_process,
}

or_else_fails :
    {A W : Type 0} (x : Result A × W) (next : Call W A)
    → is_ok x.0 ≡ false
    → or_else x next ≡ next x.1
or_else_fails (ok a, w) next h = absurd (ground (arith, h))
or_else_fails (err e, w) next h = refl

or_else_ok :
    {W : Type 0} (x : Result (Unit {0}) × W) (next : Call W (Unit {0}))
    → is_ok x.0 ≡ true
    → or_else x next ≡ (ok tt, x.1)
or_else_ok (ok tt, w) next h = refl
or_else_ok (err e, w) next h = absurd (ground (arith, h))

module _ {W : Type 0} (sh : Shell W) where
  -- sleep for 100 ms and dial
  abbrev pub try_once : Call W (Unit {0})
  try_once w = dial sh (sock_path sh) (sh.sleep 100 w)

  -- the world after this many tries, whatever they gave
  unfoldable pub after_tries : ℕ → W → W
  after_tries zero w = w
  after_tries (suc n) w = after_tries n (try_once w).1

  -- the first of these tries all fail
  abbrev pub AllFail : ℕ → W → Type 0
  AllFail zero w = Unit {0}
  AllFail (suc n) w = (is_ok (try_once w).0 ≡ false) × AllFail n (try_once w).1

  wait_fails :
      (n : ℕ) (w : W)
      → AllFail n w
      → wait_for_socket sh n w
        ≡ (err (errorf "daemon started but socket not available after 5s"), after_tries n w)
  unfolding wait_for_socket after_tries
  wait_fails zero w fail = refl
  wait_fails (suc n) w fail =
      or_else_fails (try_once w) (wait_for_socket sh n) fail.0 ∙ wait_fails n (try_once w).1 fail.1

  wait_succeeds :
      (k n : ℕ) (w : W)
      → k < n
      → AllFail k w
      → is_ok (try_once (after_tries k w)).0 ≡ true
      → wait_for_socket sh n w ≡ (ok tt, after_tries (suc k) w)
  unfolding wait_for_socket after_tries
  wait_succeeds k zero w less fail done = absurd (omega arith)
  wait_succeeds zero (suc n) w less fail done = or_else_ok (try_once w) (wait_for_socket sh n) done
  wait_succeeds (suc k) (suc n) w less fail done =
      or_else_fails (try_once w) (wait_for_socket sh n) fail.0
      ∙ wait_succeeds k n (try_once w).1 (omega arith) fail.1 done

  -- A daemon that does not answer is started, and the command waits for it, 100 ms before each of at
  -- most fifty tries: where the first `k` of them fail and the next one, if there is one, succeeds, the
  -- command has its connection after that try, and after fifty that fail it gives up with an error.
  pub ensure_daemon_waits :
      (k : ℕ) (w w₁ : W)
      → is_ok (dial sh (sock_path sh) w).0 ≡ false
      → start_daemon_process sh (dial sh (sock_path sh) w).1 ≡ (ok tt, w₁)
      → k ≤ 50
      → AllFail k w₁
      → (k < 50 → is_ok (try_once (after_tries k w₁)).0 ≡ true)
      → ensure_daemon sh w ≡ (
          if ltb k 50
          then (ok tt, after_tries (suc k) w₁)
          else (err (errorf "daemon started but socket not available after 5s"), after_tries k w₁))
  unfolding ensure_daemon started
  ensure_daemon_waits k w w₁ down start most fails next = elim (Bool-cases (ltb k 50)) [
    | inl less ↦ rw less (
        or_else_fails (dial sh (sock_path sh) w) (started sh) down
        ∙ rw start
            (wait_succeeds k 50 w₁ (ground (arith, less)) fails (next (ground (arith, less)))))
    | inr all ↦
        let last : k ≡ 50 = ground (arith, all, most) in
        rw (all, last)
          (or_else_fails (dial sh (sock_path sh) w) (started sh) down
            ∙ rw start (wait_fails 50 w₁ (subst (λ n. AllFail n w₁) last fails)))
  ]
