-- ===== src/Goios/Connections.antt =====
-- How many connections to a device are open: what the calls of go-ios that internal/driver/goios
-- makes do to the number, and the calls that are made of them.
use ios_pilot.Base.{arith, ℕ, ◌+◌, ◌-◌, ◌≡◌, refl, ◌∙◌, String}
use ios_pilot.Base.Int.{ℤ}
use ios_pilot.Errors.{Result, ok, err, Call, in_context, and_then, or_else}
use ios_pilot.Goios.{Library, call_in, using}

-- one more where the call opened a connection
abbrev pub opened : Result ℕ → ℕ → ℕ
opened (ok conn) n = n + 1
opened (err e) n = n

module _ {W : Type 0} (count : W → ℕ) where
  -- the call leaves as many connections open as there were
  pub record Keeps {A : Type 0} (call : Call W A) : Type 0 where
    pub same : (w : W) → count (call w).1 ≡ count w

  -- it opens one, or none where it fails
  pub record Opens (call : Call W ℕ) : Type 0 where
    pub one : (w : W) → count (call w).1 ≡ opened (call w).0 (count w)

-- The calls of go-ios by the connections that they open; `close` closes one of them.
pub record Counts {E W : Type 0} (lib : Library E W) (count : W → ℕ) : Type 0 where
  pub get_device : (udid : String) → Keeps count (lib.get_device udid)
  pub closes : (conn : ℕ) (w : W) → count (lib.close conn w) ≡ count w - 1
  pub proxy : (e : E) → Opens count (lib.installation_proxy e)
  pub browse : (c : ℕ) → Keeps count (lib.browse_user_apps c)
  pub uninstall : (c : ℕ) (id : String) → Keeps count (lib.uninstall_bundle c id)
  pub conduit : (e : E) → Opens count (lib.zip_conduit e)
  pub send : (c : ℕ) (path : String) → Keeps count (lib.send_file c path)
  pub service : (e : E) → Opens count (lib.app_service e)
  pub service_launch : (c : ℕ) (id : String) → Keeps count (lib.service_launch c id)
  pub service_processes : (c : ℕ) → Keeps count (lib.service_processes c)
  pub service_kill : (c : ℕ) (pid : ℤ) → Keeps count (lib.service_kill c pid)
  pub control : (e : E) → Opens count (lib.process_control e)
  pub control_launch : (c : ℕ) (id : String) → Keeps count (lib.control_launch c id)
  pub control_kill : (c : ℕ) (pid : ℤ) → Keeps count (lib.control_kill c pid)
  pub info : (e : E) → Opens count (lib.device_info_service e)
  pub process_list : (c : ℕ) → Keeps count (lib.process_list c)
  pub shots : (e : E) → Opens count (lib.screenshot_service e)
  pub shot : (c : ℕ) → Keeps count (lib.screenshot c)

module _ {E W : Type 0} (lib : Library E W) (count : W → ℕ) (counts : Counts lib count) where
  pub call_in-Keeps :
      {A : Type 0} (context : String) (call : Call W A)
      → Keeps count call
      → Keeps count (call_in context call)
  call_in-Keeps context call k = record { same = λ w. k.same w }

  pub in_context-opened :
      (context : String) (r : Result ℕ) (n : ℕ) → opened (in_context context r) n ≡ opened r n
  in_context-opened context (ok c) n = refl
  in_context-opened context (err e) n = refl

  pub call_in-Opens :
      (context : String) (call : Call W ℕ) → Opens count call → Opens count (call_in context call)
  call_in-Opens context call o = record {
    one = λ w. rw (in_context-opened context (call w).0 (count w)) (o.one w);
  }

  pub and_then-count :
      {A B : Type 0} (x : Result A × W) (next : A → Call W B) (n : ℕ)
      → count x.1 ≡ n
      → ((a : A) → Keeps count (next a))
      → count (and_then x next).1 ≡ n
  and_then-count (ok a, w) next n e k = (k a).same w ∙ e
  and_then-count (err x, w) next n e k = e

  pub or_else-count :
      {A : Type 0} (x : Result A × W) (next : Call W A) (n : ℕ)
      → count x.1 ≡ n
      → Keeps count next
      → count (or_else x next).1 ≡ n
  or_else-count (ok a, w) next n e k = e
  or_else-count (err x, w) next n e k = k.same w ∙ e

  pub using-count :
      {A : Type 0} (x : Result ℕ × W) (body : ℕ → Call W A) (n : ℕ)
      → count x.1 ≡ opened x.0 n
      → ((c : ℕ) → Keeps count (body c))
      → count (using lib x body).1 ≡ n
  unfolding using
  using-count (ok c, w) body n e k = omega (arith, e, (k c).same w, counts.closes c (body c w).1)
  using-count (err x, w) body n e k = e

  -- a call in a connection of its own
  pub using-Keeps :
      {A : Type 0} (context : String) (open_conn : Call W ℕ) (body : ℕ → Call W A)
      → Opens count open_conn
      → ((c : ℕ) → Keeps count (body c))
      → Keeps count (λ w. using lib (call_in context open_conn w) body)
  using-Keeps context open_conn body o k = record {
    same = λ w.
        using-count (call_in context open_conn w) body (count w)
          ((call_in-Opens context open_conn o).one w) k;
  }

  pub and_then-Keeps :
      {A B : Type 0} (call : Call W A) (next : A → Call W B)
      → Keeps count call
      → ((a : A) → Keeps count (next a))
      → Keeps count (λ w. and_then (call w) next)
  and_then-Keeps call next c k = record {
    same = λ w. and_then-count (call w) next (count w) (c.same w) k;
  }

  pub pure-Keeps : {A : Type 0} (r : Result A) → Keeps count (λ w. (r, w))
  pure-Keeps r = record { same = λ w. refl }

  -- with the device that is looked up first
  pub with_device-Keeps :
      {A : Type 0} (context udid : String) (next : E → Call W A)
      → ((e : E) → Keeps count (next e))
      → Keeps count (λ w. and_then (call_in context (lib.get_device udid) w) next)
  with_device-Keeps context udid next k =
      and_then-Keeps (call_in context (lib.get_device udid)) next
        (call_in-Keeps context (lib.get_device udid) (counts.get_device udid)) k
