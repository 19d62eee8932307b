-- ===== src/Wda/Cached.antt =====
-- The session that `SessionManager` keeps (internal/driver/wda/session.go).
use ios_pilot.Base.{String, ◌≡◌, ◌≢◌, refl, Bool, true, false, arith, ◌==◌, eq_iff, if◌then◌else◌}
use ios_pilot.Errors.{Result, ok, err}
use ios_pilot.Wda.Payload.{Net}
use ios_pilot.Wda.Client.{create_session}
use ios_pilot.Wda.Named.{create_session_named}
use ios_pilot.Wda.Sessions.{SessionManager, keep_session, ensure_session}

module _ {W : Type 0} (net : Net W) where
  kept :
      (sm : SessionManager) (r : Result String × W) (id : String)
      → (keep_session r sm).0 ≡ ok id
      → (r.0 ≡ ok id) × ((keep_session r sm).1.session_id ≡ id)
  kept sm (ok x, w) id h = (h, ground arith)
  kept sm (err e, w) id h = absurd cc

  ensured_by :
      (b : Bool) (sm : SessionManager) (w : W) (id : String)
      → (sm.session_id == "") ≡ b
      → (if b
          then keep_session (create_session net sm.wda_url w) sm
          else (ok sm.session_id, sm, w)).0
        ≡ ok id
      → (id ≢ "")
        × ((if b
              then keep_session (create_session net sm.wda_url w) sm
              else (ok sm.session_id, sm, w)).1.session_id
            ≡ id)
  ensured_by true sm w id e h =
      let k = kept sm (create_session net sm.wda_url w) id h in
      (create_session_named net sm.wda_url w id k.0, k.1)
  ensured_by false sm w id e h = ground (arith, eq_iff sm.session_id "")

  ensured :
      (sm : SessionManager) (w : W) (id : String)
      → (ensure_session net sm w).0 ≡ ok id
      → (id ≢ "") × ((ensure_session net sm w).1.session_id ≡ id)
  unfolding ensure_session
  ensured sm w id h = ensured_by (sm.session_id == "") sm w id refl h

  held :
      (sm : SessionManager) (w : W) (id : String)
      → id ≢ ""
      → sm.session_id ≡ id
      → ensure_session net sm w ≡ (ok id, sm, w)
  unfolding ensure_session
  held sm w id named same = ground (arith, eq_iff sm.session_id "")

  -- When `EnsureSession` has returned a session, a call that follows it returns the same session,
  -- makes no request and leaves the manager as it is.
  pub ensure_session_again :
      (sm : SessionManager) (w : W) (id : String)
      → (ensure_session net sm w).0 ≡ ok id
      → let sm' = (ensure_session net sm w).1 in
        let w' = (ensure_session net sm w).2 in ensure_session net sm' w' ≡ (ok id, sm', w')
  ensure_session_again sm w id h =
      let sm' = (ensure_session net sm w).1 in
      let w' = (ensure_session net sm w).2 in let e = ensured sm w id h in held sm' w' id e.0 e.1
