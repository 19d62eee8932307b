-- ===== src/Cli/Options.antt =====
-- `ios-pilot log` from its words to the entries of the daemon (internal/cli/log.go, handleLog of
-- internal/daemon/state.go).
use ios_pilot.Base.{
  arith, ℕ, suc, String, ◌≡◌, refl, Bool, true, false, Option, none, some, List, [], ◌∷◌,
}
use ios_pilot.Base.Int.{ℤ, pos}
use ios_pilot.Base.Text.{itoa}
use ios_pilot.Base.Decimal.{in_range}
use ios_pilot.Errors.{ok}
use ios_pilot.Json.{Json, fits_int, unmarshal, into_struct, into_fields, into_string, into_int}
use ios_pilot.Daemon.Params.{LogParams, assign_log, no_log}
use ios_pilot.Logs.Manager.{LogFilter, get_logs}
use ios_pilot.Daemon.{Env, State, Outcome, Reply, log_entries}
use ios_pilot.Daemon.Reports.{wanted}
use ios_pilot.Cli.Log.{LogOptions, log_params}

abbrev text_words : String → Option String → List String → List String
text_words flag none rest = rest
text_words flag (some v) rest = flag ∷ v ∷ rest

abbrev follow_words : Bool → List String
follow_words true = "--follow" ∷ []
follow_words false = []

-- the words that give these options
abbrev pub log_words : LogOptions → List String
log_words o =
    "-n"
    ∷ itoa o.n
    ∷ text_words "--filter" o.filter
        (text_words "--level" o.level (text_words "--search" o.search (follow_words o.follow)))

-- the options for a positive number of entries, without `--follow`
abbrev pub once : ℕ → Option String → Option String → Option String → LogOptions
once k filter level text = record {
  filter = filter;
  level = level;
  search = text;
  n = pos (suc k);
  follow = false;
}

abbrev text_or_empty : Option String → String
text_or_empty none = ""
text_or_empty (some text) = text

-- the options as the daemon sees them: an option that is not given is an empty text
abbrev pub arrived : LogOptions → LogParams
arrived o = record {
  n = o.n;
  filter = text_or_empty o.filter;
  level = text_or_empty o.level;
  search = text_or_empty o.search;
}

fits : (z : ℤ) → in_range z ≡ true → fits_int z ≡ true
fits z h = ground (arith, h)

decoded :
    (n : ℤ) (filter level search : Option String) (follow : Bool)
    → in_range n ≡ true
    → let o : LogOptions = record {
      filter = filter;
      level = level;
      search = search;
      n = n;
      follow = follow;
    } in
      unmarshal assign_log (log_params o n) no_log ≡ (arrived o, none)
unfolding unmarshal into_struct into_fields into_string into_int assign_log
decoded n none none none follow h = rw (fits n h) refl
decoded n none none (some s) follow h = rw (fits n h) refl
decoded n none (some l) none follow h = rw (fits n h) refl
decoded n none (some l) (some s) follow h = rw (fits n h) refl
decoded n (some f) none none follow h = rw (fits n h) refl
decoded n (some f) none (some s) follow h = rw (fits n h) refl
decoded n (some f) (some l) none follow h = rw (fits n h) refl
decoded n (some f) (some l) (some s) follow h = rw (fits n h) refl

-- the filter of the options
abbrev pub filter_of : LogOptions → LogFilter
filter_of o = record {
  bundle_id = text_or_empty o.filter;
  level = text_or_empty o.level;
  search = text_or_empty o.search;
}

module _ {W : Type 0} (env : Env W) (enc : Reply → Json) where
  -- the handler after its parameters are decoded
  abbrev listed : LogParams → State W → Outcome W
  listed p s =
      let f : LogFilter = record { bundle_id = p.filter; level = p.level; search = p.search } in
      elim (get_logs (wanted p.n) f s.log_manager) [
        | none ↦ none
        | some es ↦ some (ok (log_entries es), s)
      ]
