-- ===== src/Goios/WdaProcess.antt =====
-- Starting WDA (internal/driver/goios/wda_process.go). What happens while it is waited for is a list
-- of events; the context of the process is a number.
use ios_pilot.Base.{
  ℕ, String, Bool, false, Option, none, some, List, [], ◌∷◌, nat_eq, if◌then◌else◌,
}
use ios_pilot.Base.Int.{ℤ}
use ios_pilot.Base.Text.{codes, concat, contains}
use ios_pilot.Errors.{GoError, errorf, wrapped, Result, ok, err, Call, and_then}
use ios_pilot.Goios.{Bundle, Library, call_in}

-- what the tunnel agent says of a device
pub record AgentInfo : Type 0 where
  pub address : String
  pub rsd_port : ℤ
  pub userspace_tun : Bool
  pub userspace_tun_port : ℤ

-- `tunnel_info` asks the agent; `rsd_connect` and `handshake` give the provider of the services, which
-- is a number; `device_with_address` makes the entry; `child_context` is a context that can be
-- cancelled, and `run_test` starts the goroutine that runs WDA in it, from the identifier of its
-- bundle; `in_time` says whether what the goroutine of `enrichWithTunnel` does ends within ten seconds.
pub record Runner (E W : Type 0) : Type 0 where
  pub tunnel_info : String → Call W AgentInfo
  pub with_tun : AgentInfo → E → E
  pub rsd_connect : AgentInfo → E → Call W ℕ
  pub handshake : ℕ → Call W ℕ
  pub device_with_address : String → AgentInfo → ℕ → Call W E
  pub child_context : W → ℕ × W
  pub cancel : ℕ → W → W
  pub run_test : ℕ → E → String → W → W
  pub in_time : W → Bool

-- What the loop of `waitForWDA` meets next: the context was cancelled, the process of WDA ended, half a
-- minute is over, or it is time to ask, which gives a status code or an error.
pub data WaitEvent : Type 0 where
  done : WaitEvent
  process_exited : Option GoError → WaitEvent
  timeout : WaitEvent
  tick : Result ℕ → WaitEvent

abbrev pub is_ready : Result ℕ → Bool
is_ready (err e) = false
is_ready (ok code) = nat_eq code 200

-- `%w` of the error that the run of WDA returned, nil being printed
abbrev pub exit_error : Option GoError → GoError
exit_error none = errorf "WDA process exited: %!w(<nil>)"
exit_error (some e) = wrapped "WDA process exited" e

-- `none` is a loop that still waits
unfoldable pub wait_for_wda : List WaitEvent → Option (Result (Unit {0}))
wait_for_wda [] = none
wait_for_wda (done ∷ es) = some (err (errorf "context cancelled while waiting for WDA"))
wait_for_wda (process_exited e ∷ es) = some (err (exit_error e))
wait_for_wda (timeout ∷ es) = some (err (errorf "WDA did not become ready within 30s"))
wait_for_wda (tick r ∷ es) = let rest = wait_for_wda es in if is_ready r then some (ok tt) else rest

abbrev pub is_wda : String → Bool
is_wda identifier = contains (codes identifier) (codes "WebDriverAgent")

unfoldable pub first_wda : List Bundle → Result String
first_wda [] = err (
    errorf
      "WebDriverAgent not installed on device (no bundle ID containing 'WebDriverAgent' found)")
first_wda (b ∷ bs) =
    let rest = first_wda bs in if is_wda b.identifier then ok b.identifier else rest

module _ {E W : Type 0} (lib : Library E W) (run : Runner E W) where
  -- the connection is not closed
  unfoldable pub find_wda_bundle_id : E → Call W String
  unfolding first_wda
  find_wda_bundle_id entry w =
      and_then (call_in "connect to installation proxy" (lib.installation_proxy entry) w) λ conn w₁.
        and_then (call_in "browse apps" (lib.browse_all_apps conn) w₁)
          λ bundles w₂. (first_wda bundles, w₂)

  -- the service is closed after the handshake and what follows it
  unfoldable pub with_service : String → AgentInfo → ℕ → Call W E
  with_service udid info service w =
      let (r, w') = and_then (call_in "RSD handshake" (run.handshake service) w) λ provider w₁.
        and_then (call_in "get device with address" (run.device_with_address udid info provider) w₁)
          λ entry w₂. (ok (run.with_tun info entry), w₂) in
      (r, lib.close service w')

  unfoldable pub do_enrich_with_tunnel : E → String → Call W E
  unfolding with_service
  do_enrich_with_tunnel entry udid w =
      and_then (call_in "get tunnel info" (run.tunnel_info udid) w) λ info w₁.
        and_then (call_in "connect to RSD" (run.rsd_connect info (run.with_tun info entry)) w₁)
          λ service. with_service udid info service

  unfoldable pub enrich_with_tunnel : E → String → Call W E
  unfolding do_enrich_with_tunnel
  enrich_with_tunnel entry udid w =
      let (r, w') = do_enrich_with_tunnel entry udid w in
      if run.in_time w then (r, w') else (err (errorf "enrich with tunnel timed out after 10s"), w')

  -- an error of the enrichment is only logged
  abbrev pub entry_or : E → Result E → E
  entry_or entry (ok e) = e
  entry_or entry (err _) = entry

  -- after the wait; the handle that is returned is the context, which its `Close` cancels
  unfoldable pub launched : ℕ → Option (Result (Unit {0})) → W → Option (Result ℕ × W)
  launched ctx none w = none
  launched ctx (some (ok _)) w = some (ok ctx, w)
  launched ctx (some (err e)) w = some (err (wrapped "start wda" e), run.cancel ctx w)

  -- with the bundle of WDA
  unfoldable pub run_bundle : List WaitEvent → E → Result String → W → Option (Result ℕ × W)
  unfolding launched wait_for_wda
  run_bundle es entry (err e) w = some (err e, w)
  run_bundle es entry (ok bundle_id) w =
      let (ctx, w₁) = run.child_context w in
      launched ctx (wait_for_wda es) (run.run_test ctx entry bundle_id w₁)

  unfoldable pub start_entry : List WaitEvent → String → Result E → W → Option (Result ℕ × W)
  unfolding enrich_with_tunnel find_wda_bundle_id run_bundle
  start_entry es udid (err e) w = some (err e, w)
  start_entry es udid (ok entry) w =
      let (r, w₁) = enrich_with_tunnel entry udid w in
      let entry' = entry_or entry r in
      let (b, w₂) = call_in "start wda" (find_wda_bundle_id entry') w₁ in run_bundle es entry' b w₂

  -- `StartWDA`, with what happens while it waits; `none` is a call that still waits
  unfoldable pub start_wda : (String → String) → List WaitEvent → String → W → Option (Result ℕ × W)
  unfolding start_entry
  start_wda quote es udid w =
      let (r, w') =
        call_in (concat ("start wda: get device " ∷ quote udid ∷ [])) (lib.get_device udid) w in
      start_entry es udid r w'
