-- ===== src/Daemon/Table.antt =====
-- What holds of every entry of a table of handlers (internal/daemon/server.go).
use ios_pilot.Base.{
  String, ◌≡◌, sym, some, [], ◌∷◌, arith, ◌==◌, eq_iff, ◌∙◌, refl, Bool-cases, inl, inr,
}
use mathlib.Core.Option.{some-injective}
use ios_pilot.Daemon.{Handler}
use ios_pilot.Daemon.Server.{Table, find_handler}

module _ {W : Type 0} (P : String → Handler W → Type 0) where
  abbrev pub AllHandlers : Table W → Type 0
  AllHandlers [] = Unit {0}
  AllHandlers ((m, h) ∷ table) = P m h × AllHandlers table

  -- a property of every entry is one of the handler that is found, under the method it was found for
  pub find_handler-AllHandlers :
      (method : String) (table : Table W) (h : Handler W)
      → AllHandlers table
      → find_handler method table ≡ some h
      → P method h
  unfolding find_handler
  find_handler-AllHandlers method [] h all e = absurd (cc)
  find_handler-AllHandlers method ((m, k) ∷ table) h all e = elim (Bool-cases (m == method)) [
    | inl here ↦
        (let p : m ≡ method = (eq_iff m method).0 here in
          let q : k ≡ h = some-injective k h (sym (rw here refl) ∙ e) in rw (sym p, sym q) all.0)
    | inr there ↦ find_handler-AllHandlers method table h all.1 (ground arith)
  ]
