-- ===== src/Goios/Leaks.antt =====
-- `Install` (internal/driver/goios/app.go) and its connection.
use ios_pilot.Base.{arith, ℕ, ◌+◌, ◌≡◌, ap, [], ◌∷◌, ◌∙◌, String, true}
use ios_pilot.Base.Text.{concat}
use ios_pilot.Errors.{Result, ok, err, is_ok, and_then}
use ios_pilot.Goios.{Library, call_in}
use ios_pilot.Goios.App.{install}
use ios_pilot.Goios.Connections.{opened, Counts, call_in-Opens}

module _ {E W : Type 0} (lib : Library E W) (count : W → ℕ) (counts : Counts lib count) where
  module _ (quote base : String → String) where
    sent_count :
        (context path : String) (x : Result ℕ × W) (n : ℕ)
        → count x.1 ≡ opened x.0 n
        → is_ok (and_then x (λ c. call_in context (lib.send_file c path))).0 ≡ true
        → count (and_then x (λ c. call_in context (lib.send_file c path))).1 ≡ n + 1
    sent_count context path (ok c, w) n e done = (counts.send c path).same w ∙ e
    sent_count context path (err x, w) n e done = absurd (ground (arith, done))

    installed_count :
        (path : String) (x : Result E × W) (n : ℕ)
        → count x.1 ≡ n
        → let next = λ (entry : E) (w₁ : W).
          and_then (call_in "install: zipconduit" (lib.zip_conduit entry) w₁) (λ conn.
            call_in (concat ("install " ∷ quote (base path) ∷ [])) (lib.send_file conn path)) in
          is_ok (and_then x next).0 ≡ true → count (and_then x next).1 ≡ n + 1
    installed_count path (ok entry, w) n e done =
        sent_count _ path (call_in "install: zipconduit" (lib.zip_conduit entry) w) n
          ((call_in-Opens lib count counts "install: zipconduit" (lib.zip_conduit entry)
                (counts.conduit entry)).one
              w
            ∙ ap (opened (call_in "install: zipconduit" (lib.zip_conduit entry) w).0) e)
          done
    installed_count path (err x, w) n e done = absurd (ground (arith, done))

    -- An installation that succeeds leaves one more connection open than there was: nothing closes it.
    pub install_leaks :
        (udid path : String) (w : W)
        → is_ok (install lib quote base udid path w).0 ≡ true
        → count (install lib quote base udid path w).1 ≡ count w + 1
    unfolding install
    install_leaks udid path w done =
        installed_count path (call_in "install: get device" (lib.get_device udid) w) (count w)
          ((counts.get_device udid).same w) done
