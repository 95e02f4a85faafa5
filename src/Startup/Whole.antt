-- ===== src/Startup/Whole.antt =====
-- NewApplication and the whole of Run of internal/app/app.go.
use crypto_screener.Base.{
  Bool, true, false, not, List, Option, none, some, if◌then◌else◌, ◌≡◌, refl, inl, inr, subst,
  Bool-cases, Option-cases, ◌∙◌,
}
use crypto_screener.Base.Text.{Text}
use crypto_screener.Decimal.{Decimal, less_than}
use crypto_screener.Domain.Config.{default_hard_min_spread, apply_fees}
use crypto_screener.Connectors.{ConnectorEntry}
use crypto_screener.Funding.{FundingManager, ConfigError}
use crypto_screener.Commands.{Application, settings_key_hard_spread, settings_key_fees}
use crypto_screener.Commands.Sound.{IsSound}
use crypto_screener.Commands.Steps.Ruled.{ParseResult-cases}
use crypto_screener.Startup.{
  Setting, absent, unreadable, present, Boot, restore_floor, floor_applied, restore_fees,
  load_operator_settings, with_settings, with_stored, StoredUser,
}
use crypto_screener.Startup.Run.{Runner, RunResult, with_loaded, rows_of, reconciles, run}
use crypto_screener.Startup.Sound.{load_operator_settings-IsSound}
use crypto_screener.Startup.Complete.{wanted, IsComplete, accept-IsComplete, start_if-Done}

IsComplete-if :
    {D : Type 0} (names : List Text) (b : Bool) (x y : RunResult D)
    → IsComplete names x
    → IsComplete names y
    → IsComplete names (if b then x else y)
IsComplete-if names true x y h k = h
IsComplete-if names false x y h k = k

module _ {D : Type 0} ⦃dec : Decimal D⦄ where
  -- The factory, and whether commands are accepted.
  abbrev SameStart : Application D → Application D → Type 0
  SameStart a b = (b.connector_factory ≡ a.connector_factory) × (b.accepting ≡ a.accepting)

  floor_applied-same :
      (d : D) (a : Application D) (r : FundingManager D × Option ConfigError)
      → SameStart a (floor_applied d a r)
  floor_applied-same d a (fm, none) = (refl, refl)
  floor_applied-same d a (fm, some e) = (refl, refl)

  module _ (parse : Text → Option D) where
    restore_floor-same : (s : Setting) (a : Application D) → SameStart a (restore_floor parse s a)
    unfolding restore_floor
    restore_floor-same absent a = (refl, refl)
    restore_floor-same unreadable a = (refl, refl)
    restore_floor-same (present v) a = elim (Option-cases (parse v)) [
      | inl e ↦ rw (restore_floor, e) (refl, refl)
      | inr (d, e) ↦ elim (Bool-cases (less_than d default_hard_min_spread)) [
        | inl low ↦ rw (restore_floor, e, low) (refl, refl)
        | inr high ↦ rw (restore_floor, e, high) (floor_applied-same d a _)
      ]
    ]

    restore_fees-same : (s : Setting) (a : Application D) → SameStart a (restore_fees parse s a)
    unfolding restore_fees
    restore_fees-same absent a = (refl, refl)
    restore_fees-same unreadable a = (refl, refl)
    restore_fees-same (present v) a = elim (ParseResult-cases (apply_fees parse a.config v)) [
      | inl (c, e) ↦ rw (restore_fees, e) (refl, refl)
      | inr (part, e) ↦ rw (restore_fees, e) (refl, refl)
    ]

    settings-same :
        (get : Option (Text → Setting)) (a : Application D)
        → SameStart a (load_operator_settings parse get (with_settings parse get a))
    unfolding load_operator_settings
    settings-same none a = (refl, refl)
    settings-same (some get) a =
        let from = with_settings parse (some get) a in
        let floor = restore_floor-same (get settings_key_hard_spread) from in
        let fees =
          restore_fees-same (get settings_key_fees)
            (restore_floor parse (get settings_key_hard_spread) from) in
        (fees.0 ∙ floor.0, fees.1 ∙ floor.1)

    pub settings-IsSound :
        (get : Option (Text → Setting)) (a : Application D)
        → IsSound a
        → IsSound (load_operator_settings parse get (with_settings parse get a))
    settings-IsSound none a h = load_operator_settings-IsSound parse none a h
    settings-IsSound (some get) a h =
        load_operator_settings-IsSound parse (some get) (with_settings parse (some get) a)
          (record { subscribed = h.subscribed; configured = h.configured; agreed = h.agreed })

    module _ (ends : Bool) (in_time : ConnectorEntry → Bool) where
      loaded-IsComplete :
          (rows : Option (List (Option (StoredUser D)))) (a : Application D)
          → a.accepting ≡ false
          → IsComplete (wanted a.connector_factory) (with_loaded parse ends in_time rows a)
      loaded-IsComplete none a h = h
      loaded-IsComplete (some rows) a h =
          accept-IsComplete (wanted a.connector_factory) _
            (start_if-Done ends in_time a.connector_factory _)

      -- Run of an application that does not accept commands ends its start in one of two ways:
      -- without an error, and then it is started, accepts commands and has a connector registered
      -- for every supported exchange if there is a factory; or with an error, and then it does not
      -- accept commands.
      pub run-IsComplete :
          (b : Boot D) (r : Runner D)
          → r.app.accepting ≡ false
          → IsComplete (wanted r.app.connector_factory) (run parse ends in_time b r)
      unfolding run with_stored
      run-IsComplete b r h =
          let same = settings-same b.settings r.app in
          let names = wanted r.app.connector_factory in
          let p = with_stored parse b r.app in
          let rows = rows_of parse ends in_time b r.app in
          let w = with_loaded parse ends in_time rows p in
          IsComplete-if names r.started _ _ h (
            IsComplete-if names (not b.has_repo) _ _ h (
              IsComplete-if names (not (reconciles parse ends in_time b.reconciled)) _ _ h (
                subst (λ f. IsComplete {D = D} (wanted f) w) same.0
                  (loaded-IsComplete rows p (same.1 ∙ h)))))
