-- ===== src/Goios/Ready.antt =====
-- When WDA is taken for started (internal/driver/goios/wda_process.go), and what a system log keeps
-- (internal/driver/goios/syslog.go).
use ios_pilot.Base.{
  arith, ℕ, ◌≡◌, refl, ap, ◌∙◌, String, true, false, Option, none, some, List, [], ◌∷◌, ◌++◌, map,
  Bool-cases, inl, inr,
}
use ios_pilot.Errors.{Result, ok, err}
use ios_pilot.Driver.{LogEntry}
use ios_pilot.Goios.{Library}
use ios_pilot.Goios.WdaProcess.{
  Runner, WaitEvent, done, process_exited, timeout, tick, is_ready, wait_for_wda, launched,
  run_bundle, start_entry, start_wda,
}
use ios_pilot.Goios.Syslog.{Parsed, Round, line, eof, entry_of, stream}

-- WDA answers 200 before the context is cancelled, the process ends or the time is over.
pub data AnswersFirst : List WaitEvent → Type 0 where
  now : {r : Result ℕ} {es : List WaitEvent} → is_ready r ≡ true → AnswersFirst (tick r ∷ es)
  later :
      {r : Result ℕ} {es : List WaitEvent}
      → is_ready r ≡ false
      → AnswersFirst es
      → AnswersFirst (tick r ∷ es)

wait-AnswersFirst : (es : List WaitEvent) → wait_for_wda es ≡ some (ok tt) → AnswersFirst es
unfolding wait_for_wda
wait-AnswersFirst [] h = cc
wait-AnswersFirst (done ∷ es) h = cc
wait-AnswersFirst (process_exited e ∷ es) h = cc
wait-AnswersFirst (timeout ∷ es) h = cc
wait-AnswersFirst (tick r ∷ es) h = elim (Bool-cases (is_ready r)) [
  | inl yes_r ↦ now yes_r
  | inr not_yet ↦ later not_yet (wait-AnswersFirst es (ground (arith, h, not_yet)))
]

module _ {E W : Type 0} (lib : Library E W) (run : Runner E W) where
  launched_ok :
      (ctx : ℕ) (r : Option (Result (Unit {0}))) (w w' : W) (handle : ℕ)
      → launched lib run ctx r w ≡ some (ok handle, w')
      → r ≡ some (ok tt)
  unfolding launched
  launched_ok ctx none w w' handle h = cc
  launched_ok ctx (some (ok tt)) w w' handle h = refl
  launched_ok ctx (some (err e)) w w' handle h = absurd (ground (arith, h))

  run_bundle_ok :
      (es : List WaitEvent) (entry : E) (b : Result String) (w w' : W) (handle : ℕ)
      → run_bundle lib run es entry b w ≡ some (ok handle, w')
      → AnswersFirst es
  unfolding run_bundle
  run_bundle_ok es entry (err e) w w' handle h = absurd (ground (arith, h))
  run_bundle_ok es entry (ok id) w w' handle h =
      wait-AnswersFirst es (launched_ok (run.child_context w).0 (wait_for_wda es) _ w' handle h)

  start_entry_ok :
      (es : List WaitEvent) (udid : String) (r : Result E) (w w' : W) (handle : ℕ)
      → start_entry lib run es udid r w ≡ some (ok handle, w')
      → AnswersFirst es
  unfolding start_entry
  start_entry_ok es udid (err e) w w' handle h = absurd (ground (arith, h))
  start_entry_ok es udid (ok entry) w w' handle h = run_bundle_ok es _ _ _ w' handle h

  -- StartWDA returns a handle only where WDA answered with 200 before the context was cancelled, the
  -- process ended or half a minute was over.
  pub start_wda-AnswersFirst :
      (quote : String → String) (es : List WaitEvent) (udid : String) (w w' : W) (handle : ℕ)
      → start_wda lib run quote es udid w ≡ some (ok handle, w')
      → AnswersFirst es
  unfolding start_wda
  start_wda-AnswersFirst quote es udid w w' handle h = start_entry_ok es udid _ _ w' handle h

entry_raw : (raw : String) (o : Option Parsed) → (entry_of raw o).raw ≡ raw
entry_raw raw none = refl
entry_raw raw (some p) = refl

-- A system log that ends sends one entry for each line, in order, with the text of the line kept even
-- where it cannot be parsed.
pub stream_keeps_lines :
    (parse : String → Option Parsed) (lines : List String) (rest : List Round)
    → (map (λ (e : LogEntry). e.raw) (stream parse (map line lines ++ eof ∷ rest)).0 ≡ lines)
      × ((stream parse (map line lines ++ eof ∷ rest)).1 ≡ some (ok tt))
unfolding stream
stream_keeps_lines parse [] rest = (refl, refl)
stream_keeps_lines parse (l ∷ ls) rest =
    let (same, ends) = stream_keeps_lines parse ls rest in
    (ap (λ t. (entry_of l (parse l)).raw ∷ t) same ∙ ap (λ t. t ∷ ls) (entry_raw l (parse l)), ends)
