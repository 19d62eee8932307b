-- ===== src/Goios/Tunnel.antt =====
-- The tunnels (internal/driver/goios/tunnel.go): a tunnel manager in the process, made on demand. The
-- manager and what runs in the background are parts of the library.
use ios_pilot.Base.{
  ℕ, zero, suc, String, Bool, true, false, Option, none, some, [], ◌∷◌, ◌==◌, if◌then◌else◌,
}
use ios_pilot.Base.Int.{ℤ, pos}
use ios_pilot.Base.Text.{concat, itoa}
use ios_pilot.Errors.{errorf, Result, ok, err, Call, in_context}
use ios_pilot.Goios.{Library, call_in}

pub record TunnelInfo : Type 0 where
  pub udid : String
  pub userspace_tun : Bool
  pub userspace_tun_port : ℤ

-- `manager` makes a manager with a userspace TUN from pair records, `spawn` starts the goroutines that
-- keep it up to date and serve it, until `cancel`; a context is a number. `sleep` takes milliseconds.
pub record Tunnels (E W : Type 0) : Type 0 where
  pub pair_records : Call W ℕ
  pub manager : ℕ → W → ℕ × W
  pub context : W → ℕ × W
  pub update_tunnels : ℕ → Call W (Unit {0})
  pub spawn : ℕ → ℕ → W → W
  pub find_tunnel : ℕ → String → Call W TunnelInfo
  pub remove_tunnel : ℕ → String → Call W (Unit {0})
  pub close_manager : ℕ → W → W
  pub cancel : ℕ → W → W
  pub with_tun : TunnelInfo → E → E
  pub forward : E → ℕ → ℕ → Call W ℕ
  pub sleep : ℕ → W → W

-- `GoIosTunnelDriver`, with the world that it acts on
pub record Driver (W : Type 0) : Type 0 where
  pub tm : Option ℕ
  pub cancel : Option ℕ
  pub world : W

abbrev pub new_tunnel_driver : {W : Type 0} → W → Driver W
new_tunnel_driver w = record { tm = none; cancel = none; world = w }

module _ {E W : Type 0} (lib : Library E W) (tun : Tunnels E W) where
  -- a manager is made; an error of the first update is only logged
  unfoldable pub make_manager : Driver W → Result ℕ → W → Result (Unit {0}) × Driver W
  make_manager d (err e) w = (err e, record d { world = w })
  make_manager d (ok pm) w =
      let (tm, w₁) = tun.manager pm w in
      let (ctx, w₂) = tun.context w₁ in
      let (r, w₃) = tun.update_tunnels tm w₂ in
      (ok tt, record { tm = some tm; cancel = some ctx; world = tun.spawn tm ctx w₃ })

  -- with the manager that is there
  unfoldable pub ensure_with : Option ℕ → Call (Driver W) (Unit {0})
  unfolding make_manager
  ensure_with (some tm) d = (ok tt, d)
  ensure_with none d =
      let (r, w) = call_in "create pair record manager" tun.pair_records d.world in
      make_manager d r w

  unfoldable pub ensure_manager : Call (Driver W) (Unit {0})
  unfolding ensure_with
  ensure_manager d = ensure_with d.tm d

  abbrev pub is_found : String → Result TunnelInfo → Bool
  is_found udid (err e) = false
  is_found udid (ok t) = t.udid == udid

  -- the loop of `EnsureTunnel`, over the rounds that are left
  unfoldable pub await_tunnel : ℕ → ℕ → String → Call W (Unit {0})
  await_tunnel zero tm udid w = (
    err (
        errorf (
          concat ("ensure tunnel: device tunnel for " ∷ udid ∷ " did not appear within 15s" ∷ []))),
    w,
  )
  await_tunnel (suc n) tm udid w =
      let (r, w') = tun.find_tunnel tm udid w in
      let rest = await_tunnel n tm udid (tun.sleep 500 w') in
      if is_found udid r then (ok tt, w') else rest

  -- `t.tm` is read after the lock was given up: nil is a panic
  unfoldable pub await_device : String → Option ℕ → Driver W → Option (Result (Unit {0}) × Driver W)
  unfolding await_tunnel
  await_device udid none d = none
  await_device udid (some tm) d =
      let (r, w) = await_tunnel 30 tm udid d.world in some (r, record d { world = w })

  unfoldable pub ensured :
      String → Result (Unit {0}) → Driver W → Option (Result (Unit {0}) × Driver W)
  unfolding await_device
  ensured udid (err e) d = some (err e, d)
  ensured udid (ok _) d = if udid == "" then some (ok tt, d) else await_device udid d.tm d

  unfoldable pub ensure_tunnel : String → Driver W → Option (Result (Unit {0}) × Driver W)
  unfolding ensure_manager ensured
  ensure_tunnel udid d =
      let (r, d') = ensure_manager d in ensured udid (in_context "ensure tunnel" r) d'

  -- with the manager that was there
  unfoldable pub running_with : String → Option ℕ → Driver W → Bool × Driver W
  running_with udid none d = (false, d)
  running_with udid (some tm) d =
      let (r, w) = tun.find_tunnel tm udid d.world in
      if udid == "" then (true, d) else (is_found udid r, record d { world = w })

  unfoldable pub is_tunnel_running : String → Driver W → Bool × Driver W
  unfolding running_with
  is_tunnel_running udid d = running_with udid d.tm d

  abbrev cancelled : Option ℕ → W → W
  cancelled none w = w
  cancelled (some ctx) w = tun.cancel ctx w

  unfoldable pub stop_with : String → Option ℕ → Call (Driver W) (Unit {0})
  stop_with udid none d = (ok tt, d)
  stop_with udid (some tm) d =
      let (r, w) = tun.remove_tunnel tm udid d.world in
      if udid == ""
      then (
        ok tt,
        record {
          tm = none;
          cancel = none;
          world = tun.close_manager tm (cancelled d.cancel d.world);
        },
      )
      else (r, record d { world = w })

  unfoldable pub stop_tunnel : String → Call (Driver W) (Unit {0})
  unfolding stop_with
  stop_tunnel udid d = stop_with udid d.tm d

  -- the entry of the device, with the TUN of its tunnel where there is one
  abbrev pub enriched : String → E → Result TunnelInfo → E
  enriched udid entry (err e) = entry
  enriched udid entry (ok t) = if t.udid == udid then tun.with_tun t entry else entry

  unfoldable pub find_entry : String → E → Option ℕ → W → E × W
  find_entry udid entry none w = (entry, w)
  find_entry udid entry (some tm) w =
      let (r, w') = tun.find_tunnel tm udid w in (enriched udid entry r, w')

  -- after the device was found
  unfoldable pub forward_entry : String → ℕ → ℕ → Driver W → Result E → W → Result ℕ × Driver W
  unfolding find_entry
  forward_entry udid host device d (err e) w = (err e, record d { world = w })
  forward_entry udid host device d (ok entry) w =
      let (entry', w₁) = find_entry udid entry d.tm w in
      let (r, w₂) =
        call_in (concat ("forward port: " ∷ itoa (pos host) ∷ " -> " ∷ itoa (pos device) ∷ []))
          (tun.forward entry' host device) w₁ in
      (r, record d { world = w₂ })

  unfoldable pub forward_port : (String → String) → String → ℕ → ℕ → Driver W → Result ℕ × Driver W
  unfolding forward_entry
  forward_port quote udid host device d =
      let (r, w) =
        call_in (concat ("forward port: get device " ∷ quote udid ∷ [])) (lib.get_device udid)
          d.world in
      forward_entry udid host device d r w
