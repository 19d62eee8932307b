-- ===== src/Cli/Guarded.antt =====
-- A connection that lets only the requests through whose method has a handler, and the steps of the
-- commands over it (internal/cli, internal/client/client.go).
use ios_pilot.Base.{
  arith, ◌+◌, ℕ, zero, suc, String, ◌≡◌, refl, ap, ◌∙◌, Bool, true, false, Option, none, some,
  if◌then◌else◌,
}
use ios_pilot.Errors.{errorf, Result, ok, err, in_context, and_then, or_else}
use ios_pilot.Json.{Json, num, str, obj, Fields, end, field, names}
use ios_pilot.Base.Int.{pos}
use ios_pilot.Protocol.{new_request, encode_request}
use ios_pilot.Client.{
  Conn, Client, ClientError, ClientResponse, Scanned, line, failed, closed, scanned, waiting, sent,
  ask, call,
}
use ios_pilot.Cli.{
  Shell, Command, Console, dial, sock_path, config_dir, start_daemon_process, wait_for_socket,
  print_details, new_client, show_response, started, ensure_daemon, handle_response, request,
  with_daemon, connected,
}
use ios_pilot.Daemon.{Env}
use ios_pilot.Cli.Methods.{has_handler}

-- the text under the key "method", "" where there is none
abbrev pub method_in : Fields → String
method_in end = ""
method_in (field key (str text) fs) = if names key "method" then text else method_in fs
method_in (field key _ fs) = method_in fs

abbrev pub method_of : Json → String
method_of (obj fs) = method_in fs
method_of _ = ""

when_true : {A : Type 0} (b : Bool) (x y : A) → b ≡ true → (if b then x else y) ≡ x
when_true true x y h = refl
when_true false x y h = absurd (ground (arith, h))

module _ {V W : Type 0} (env : Env V) where
  -- A request for any other method fails, and nothing is sent.
  abbrev pub guarded_conn : Conn W → Conn W
  guarded_conn conn = record conn {
    send = λ j w.
        if has_handler env (method_of j) then conn.send j w else (err (errorf "no handler"), w);
  }

  abbrev pub guarded : Shell W → Shell W
  guarded sh = record sh { conn = guarded_conn sh.conn }

  module _ (conn : Conn W) where
    same_scanned : (s : Scanned) (w : W) → scanned (guarded_conn conn) s w ≡ scanned conn s w
    unfolding scanned
    same_scanned (line l) w = refl
    same_scanned (failed e) w = refl
    same_scanned closed w = refl

    same_waiting :
        (r : Result (Unit {0})) (w : W) → waiting (guarded_conn conn) r w ≡ waiting conn r w
    unfolding waiting
    same_waiting (err e) w = refl
    same_waiting (ok _) w = let (s, w') = conn.scan w in same_scanned s w'

    same_sent : (r : Result (Unit {0})) (w : W) → sent (guarded_conn conn) r w ≡ sent conn r w
    unfolding sent
    same_sent (err e) w = refl
    same_sent (ok _) w = let (r, w') = conn.set_deadline w in same_waiting r w'

    same_ask :
        (id : ℕ) (method : String) (params : Option Json) (w : W)
        → has_handler env method ≡ true
        → ask (guarded_conn conn) id method (ok params) w ≡ ask conn id method (ok params) w
    unfolding ask encode_request
    same_ask id method params w h =
        let j = encode_request (new_request (num (pos id)) method params) in
        let (r, w') = conn.send j w in
        ap (λ (p : Result (Unit {0}) × W). sent (guarded_conn conn) p.0 p.1)
          (when_true (has_handler env method) (conn.send j w) (err (errorf "no handler"), w) h)
        ∙ same_sent r w'

    pub same_call :
        (method : String) (params : Option Json) (c : Client) (w : W)
        → has_handler env method ≡ true
        → call (guarded_conn conn) method (ok params) c w ≡ call conn method (ok params) c w
    unfolding call
    same_call method params c w h =
        ap (λ r. (r.0, record { next_id = c.next_id + 1 }, r.1))
          (same_ask (c.next_id + 1) method params w h)

  module _ (sh : Shell W) where
    details_alike :
        (details : Option Json) (t : Console W)
        → print_details (guarded sh) details t ≡ print_details sh details t
    details_alike none t = refl
    details_alike (some j) t = refl

    shown_alike :
        (result : Option Json) (error : Option ClientError) (t : Console W)
        → show_response (guarded sh) result error t ≡ show_response sh result error t
    shown_alike result none t = refl
    shown_alike result (some e) t = ap (λ x. (1, x)) (details_alike e.details _)

    same_response :
        (r : Result ClientResponse) (t : Console W)
        → handle_response (guarded sh) r t ≡ handle_response sh r t
    unfolding handle_response
    same_response (err e) t = refl
    same_response (ok resp) t = shown_alike resp.result resp.error t

    pub same_request :
        (method : String) (params : Option Json) (t : Console W)
        → has_handler env method ≡ true
        → request (guarded sh) method params t ≡ request sh method params t
    unfolding request
    same_request method params t h =
        let (r, c, w) = call sh.conn method (ok params) new_client t.world in
        ap (λ p. handle_response (guarded sh) p.0 (record t { world = p.2 }))
          (same_call sh.conn method params new_client t.world h)
        ∙ same_response r (record t { world = w })

    same_wait : (n : ℕ) → wait_for_socket (guarded sh) n ≡ wait_for_socket sh n
    unfolding wait_for_socket dial config_dir
    same_wait zero = refl
    same_wait (suc n) =
        ap (λ next. λ w. or_else (dial sh (sock_path sh) (sh.sleep 100 w)) next) (same_wait n)

    pub same_ensure : (w : W) → ensure_daemon (guarded sh) w ≡ ensure_daemon sh w
    unfolding ensure_daemon dial started start_daemon_process config_dir
    same_ensure w =
        ap
          (λ next. or_else (dial sh (sock_path sh) w) λ w'.
            and_then (let (r, w₂) = start_daemon_process sh w' in (in_context "start daemon" r, w₂))
              λ _. next)
          (same_wait 50)

    same_connected :
        (body body' : Command W) (r : Result (Unit {0})) (t : Console W)
        → ((t' : Console W) → body' t' ≡ body t')
        → connected (guarded sh) body' r t ≡ connected sh body r t
    same_connected body body' (err e) t h = refl
    same_connected body body' (ok _) t h =
        ap (λ p. (p.0, record p.1 { world = sh.hang_up p.1.world })) (h t)

    pub same_with_daemon :
        (body body' : Command W) (t : Console W)
        → ((t' : Console W) → body' t' ≡ body t')
        → with_daemon (guarded sh) body' t ≡ with_daemon sh body t
    unfolding with_daemon
    same_with_daemon body body' t h =
        let (r, w) = ensure_daemon sh t.world in
        ap (λ p. connected (guarded sh) body' p.0 (record t { world = p.1 })) (same_ensure t.world)
        ∙ same_connected body body' r (record t { world = w }) h
