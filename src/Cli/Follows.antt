-- ===== src/Cli/Follows.antt =====
-- The loop of `ios-pilot log --follow` (internal/cli/log.go).
use ios_pilot.Base.{
  arith, ℕ, zero, suc, ◌<◌, ◌≤◌, ◌≡◌, refl, ◌∙◌, String, Option, none, some, leb, Bool-cases, inl,
  inr, if◌then◌else◌, [], ◌∷◌,
}
use ios_pilot.Errors.{error_text, Result, ok, err}
use ios_pilot.Base.Text.{concat}
use ios_pilot.Json.{Json}
use ios_pilot.Client.{Client, ClientResponse, call}
use ios_pilot.Cli.{complaint, json, Console, Shell, leave}
use ios_pilot.Cli.Log.{poll, polled}

-- the error that ends the loop, and how it is printed
abbrev pub failure : Result ClientResponse → Option String
failure (err e) = some (error_text e)
failure (ok resp) = elim resp.error [ none ↦ none | some e ↦ some e.message ]

abbrev printed : Result ClientResponse → Option Json
printed (err e) = none
printed (ok resp) = resp.result

module _ {W : Type 0} (sh : Shell W) (params : Option Json) where
  -- one poll from this client and console, and what it leads to
  abbrev pub answer : Client → Console W → Result ClientResponse
  answer c t = (call sh.conn "log" (ok params) c t.world).0

  -- after an answer that is no error: it is printed, and a second passes
  abbrev pub next_client : Client → Console W → Client
  next_client c t = (call sh.conn "log" (ok params) c t.world).1

  abbrev pub read : Client → Console W → Console W
  read c t = record t { world = (call sh.conn "log" (ok params) c t.world).2 }

  abbrev pub next_console : Client → Console W → Console W
  next_console c t = record {
    world = sh.sleep 1000 (call sh.conn "log" (ok params) c t.world).2;
    out = json (printed (answer c t)) ∷ t.out;
  }

  -- `rounds` polls that are all answered, and where they lead
  pub data Polls : ℕ → Client → Console W → Client → Console W → Type 0 where
    here : (c : Client) (t : Console W) → Polls zero c t c t
    again :
        {n : ℕ} {c c' : Client} {t t' : Console W}
        → failure (answer c t) ≡ none
        → Polls n (next_client c t) (next_console c t) c' t'
        → Polls (suc n) c t c' t'

  polled_on :
      (r : Result ClientResponse) (next : Client → Console W → Option (ℕ × Console W)) (c : Client)
      (t : Console W)
      → failure r ≡ none
      → polled sh r next c t
        ≡ next c (record { world = sh.sleep 1000 t.world; out = json (printed r) ∷ t.out })
  unfolding polled
  polled_on (err e) next c t h = absurd (ground (arith, h))
  polled_on (ok resp) next c t h = ground (arith, h)

  polled_end :
      (r : Result ClientResponse) (next : Client → Console W → Option (ℕ × Console W)) (c : Client)
      (t : Console W) (text : String)
      → failure r ≡ some text
      → polled sh r next c t ≡ some (leave 1 (complaint (concat ("error: " ∷ text ∷ []))) t)
  unfolding polled
  polled_end (err e) next c t text h = ground (arith, h)
  polled_end (ok resp) next c t text h = ground (arith, h)

  goes_on :
      (rounds : ℕ) {n : ℕ} {c c' : Client} {t t' : Console W}
      → Polls n c t c' t'
      → rounds ≤ n
      → poll sh rounds params c t ≡ none
  unfolding poll
  goes_on zero polls less = refl
  goes_on (suc rounds) (here c t) less = absurd (omega arith)
  goes_on (suc rounds) {c = c} {t = t} (again {n} fine rest) less =
      polled_on (answer c t) (poll sh rounds params) (next_client c t) (read c t) fine
      ∙ goes_on rounds rest (omega arith)

  -- the error is printed after a last call
  abbrev pub ended : String → Client → Console W → Option (ℕ × Console W)
  ended text c t = some (leave 1 (complaint (concat ("error: " ∷ text ∷ []))) (read c t))

  ends :
      (rounds : ℕ) {n : ℕ} {c c' : Client} {t t' : Console W} (text : String)
      → Polls n c t c' t'
      → n < rounds
      → failure (answer c' t') ≡ some text
      → poll sh rounds params c t ≡ ended text c' t'
  unfolding poll
  ends zero text polls less stop = absurd (omega arith)
  ends (suc rounds) text (here c t) less stop =
      polled_end (answer c t) (poll sh rounds params) (next_client c t) (read c t) text stop
  ends (suc rounds) {c = c} {t = t} text (again {n} fine rest) less stop =
      polled_on (answer c t) (poll sh rounds params) (next_client c t) (read c t) fine
      ∙ ends rounds text rest (omega arith) stop

  -- While the polls are answered the loop goes on and prints every answer. The first error is printed
  -- and ends the loop with the code 1, after the answers before it: it takes their number of rounds
  -- and one more.
  pub poll_ends_by_error :
      (rounds : ℕ) {n : ℕ} {c c' : Client} {t t' : Console W} (text : String)
      → Polls n c t c' t'
      → failure (answer c' t') ≡ some text
      → poll sh rounds params c t ≡ (if leb rounds n then none else ended text c' t')
  poll_ends_by_error rounds {n} text polls stop = elim (Bool-cases (leb rounds n)) [
    | inl on ↦ rw on (goes_on rounds polls (ground (arith, on)))
    | inr off ↦ rw off (ends rounds text polls (ground (arith, off)) stop)
  ]
