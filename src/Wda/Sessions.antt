-- ===== src/Wda/Sessions.antt =====
-- `SessionManager` (internal/driver/wda/session.go), over the client of WebDriverAgent.
use ios_pilot.Base.{String, Bool, false, ◌==◌, if◌then◌else◌}
use ios_pilot.Errors.{wrapped, Result, ok, err}
use ios_pilot.Wda.Payload.{Net}
use ios_pilot.Wda.Client.{create_session, delete_session, status}

pub record SessionManager : Type 0 where
  pub wda_url : String
  pub session_id : String

abbrev pub new_session_manager : String → SessionManager
new_session_manager url = record { wda_url = url; session_id = "" }

-- the identifier that was made is kept
abbrev pub keep_session :
    {W : Type 0} → Result String × W → SessionManager → Result String × SessionManager × W
keep_session (ok id, w) sm = (ok id, record sm { session_id = id }, w)
keep_session (err e, w) sm = (err (wrapped "ensure session" e), sm, w)

abbrev pub drop_session :
    {W : Type 0} → Result (Unit {0}) × W → SessionManager → Result (Unit {0}) × SessionManager × W
drop_session (ok _, w) sm = (ok tt, record sm { session_id = "" }, w)
drop_session (err e, w) sm = (err (wrapped "destroy session" e), sm, w)

module _ {W : Type 0} (net : Net W) where
  unfoldable pub ensure_session : SessionManager → W → Result String × SessionManager × W
  ensure_session sm w =
      if sm.session_id == ""
      then keep_session (create_session net sm.wda_url w) sm
      else (ok sm.session_id, sm, w)

  unfoldable pub is_healthy : SessionManager → W → Bool × W
  is_healthy sm w =
      let (r, w') = status net sm.wda_url w in (elim r [ ok ready ↦ ready | err _ ↦ false ], w')

  unfoldable pub destroy : SessionManager → W → Result (Unit {0}) × SessionManager × W
  destroy sm w =
      if sm.session_id == ""
      then (ok tt, sm, w)
      else drop_session (delete_session net sm.wda_url sm.session_id w) sm
