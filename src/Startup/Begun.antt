-- ===== src/Startup/Begun.antt =====
-- The application from NewApplication of internal/app/app.go over Run to any commands.
use crypto_screener.Base.{
  Bool, true, false, not, List, [], ◌∷◌, Option, none, some, if◌then◌else◌, ◌≡◌, refl, inl, inr,
  ◌⊎◌, sym, subst, Bool-cases,
}
use crypto_screener.Base.Text.{Text}
use crypto_screener.Decimal.{Decimal}
use crypto_screener.Domain.Config.{ScreenerConfig, get_hard_min_spread}
use crypto_screener.Domain.Config.Thresholds.{IsValid}
use crypto_screener.Connectors.{ConnectorEntry, ConnectorManager, ManagerError}
use crypto_screener.Funding.{new_funding_manager, ConfigError, validate, normalize}
use crypto_screener.Commands.{Application}
use crypto_screener.Commands.Admin.{funding_floor}
use crypto_screener.Commands.Sound.{IsSound}
use crypto_screener.Commands.Steps.Ruled.{floor_from_zero}
use crypto_screener.Startup.{
  Boot, RunError, built, or_default, new_application, with_stored, StoredUser,
}
use crypto_screener.Startup.Run.{
  Runner, RunResult, next_connector, start_one, start_connectors, start_if, accept, with_loaded,
  rows_of, reconciles, run,
}
use crypto_screener.Startup.Sound.{load_users-All}
use crypto_screener.Startup.Complete.{go_on, unroll}
use crypto_screener.Startup.Whole.{settings-IsSound}

module _ {D : Type 0} ⦃dec : Decimal D⦄ where
  new_manager :
      (v : D)
      → (dec.below v (dec.literal 1 2) ≡ false)
      → new_funding_manager (funding_floor v)
        ≡ inr
            (record { rates = []; config = some (funding_floor v); health = []; last_update = [] })
  unfolding new_funding_manager validate normalize
  new_manager v h = rw (new_funding_manager, validate, floor_from_zero v h) refl

  -- What NewApplication builds.
  abbrev pub IsBuilt : ConfigError ⊎ Application D → Type 0
  IsBuilt (inl e) = ⊥
  IsBuilt (inr a) = IsSound a × (a.accepting ≡ false)

  module _ (ends : Bool) (in_time : ConnectorEntry → Bool) where
    moved-IsSound :
        (a : Application D) (cm : ConnectorManager) (accepting : Bool)
        → IsSound a
        → IsSound (record a { conn_manager = cm; accepting = accepting })
    moved-IsSound a cm accepting h = record {
      subscribed = h.subscribed;
      configured = h.configured;
      agreed = h.agreed;
    }

    next-IsSound :
        (name : Text) (a : Application D) (r : ConnectorManager × Option ManagerError)
        → IsSound a
        → IsSound (next_connector ends in_time name a r).0
    next-IsSound name a (cm, none) h = moved-IsSound a cm a.accepting h
    next-IsSound name a (cm, some e) h = moved-IsSound a _ false h

    start_one-IsSound :
        (factory : Text → Bool) (name : Text) (a : Application D)
        → IsSound a
        → IsSound (start_one ends in_time factory name a).0
    unfolding start_one
    start_one-IsSound factory name a h = elim (Bool-cases (factory name)) [
      | inr e ↦ rw (start_one, e) (moved-IsSound a _ false h)
      | inl e ↦ rw (start_one, e) (next-IsSound name a _ h)
    ]

    go_on-IsSound :
        (factory : Text → Bool) (names : List Text) (r : Application D × Option RunError)
        → ((b : Application D)
            → IsSound b
            → IsSound (start_connectors ends in_time factory names b).0)
        → IsSound r.0
        → IsSound (go_on ends in_time factory names r).0
    go_on-IsSound factory names (b, some e) later h = h
    go_on-IsSound factory names (b, none) later h = later b h

    start_connectors-IsSound :
        (factory : Text → Bool) (names : List Text) (a : Application D)
        → IsSound a
        → IsSound (start_connectors ends in_time factory names a).0
    unfolding start_connectors
    start_connectors-IsSound factory [] a h = h
    start_connectors-IsSound factory (name ∷ names) a h =
        subst (λ (r : Application D × Option RunError). IsSound r.0)
          (sym (unroll ends in_time factory name names a))
          (go_on-IsSound factory names (start_one ends in_time factory name a)
            (start_connectors-IsSound factory names) (start_one-IsSound factory name a h))

    accept-IsSound : (r : Application D × Option RunError) → IsSound r.0 → IsSound (accept r).0.app
    accept-IsSound (a, none) h = moved-IsSound a a.conn_manager true h
    accept-IsSound (a, some e) h = h

    start_if-IsSound :
        (factory : Option (Text → Bool)) (a : Application D)
        → IsSound a
        → IsSound (start_if ends in_time factory a).0
    start_if-IsSound none a h = h
    start_if-IsSound (some factory) a h = start_connectors-IsSound factory _ a h

    module _ (parse : Text → Option D) where
      loaded-IsSound :
          (rows : Option (List (Option (StoredUser D)))) (a : Application D)
          → IsSound a
          → IsSound (with_loaded parse ends in_time rows a).0.app
      loaded-IsSound none a h = h
      loaded-IsSound (some rows) a h = accept-IsSound _ (
          start_if-IsSound a.connector_factory _ (record {
            subscribed = load_users-All a.config rows a.user_mgr h.configured h.subscribed;
            configured = h.configured;
            agreed = h.agreed;
          }))

      IsSound-if :
          (b : Bool) (x y : RunResult D)
          → IsSound x.0.app
          → IsSound y.0.app
          → IsSound (if b then x else y).0.app
      IsSound-if true x y h k = h
      IsSound-if false x y h k = k

      pub run-IsSound :
          (b : Boot D) (r : Runner D) → IsSound r.app → IsSound (run parse ends in_time b r).0.app
      unfolding run with_stored
      run-IsSound b r h = IsSound-if r.started _ _ h (
          IsSound-if (not b.has_repo) _ _ h (
            IsSound-if (not (reconciles parse ends in_time b.reconciled)) _ _ h (
              loaded-IsSound (rows_of parse ends in_time b r.app) (with_stored parse b r.app)
                (settings-IsSound parse b.settings r.app h))))

  built-IsBuilt :
      (user_repo settings_repo : Bool) (config : ScreenerConfig D)
      → IsValid config
      → IsBuilt (
          built user_repo settings_repo config
            (new_funding_manager (funding_floor config.hard_min_spread)))
  built-IsBuilt user_repo settings_repo config h =
      subst (λ r. IsBuilt (built user_repo settings_repo config r))
        (sym (new_manager config.hard_min_spread h.floored))
        (record { subscribed = tt; configured = h; agreed = refl }, refl)

  -- NewApplication on a configuration that is valid, or on none.
  pub new_application-IsBuilt :
      (cfg : Option (ScreenerConfig D)) (user_repo settings_repo : Bool)
      → IsValid (or_default cfg)
      → IsBuilt (new_application cfg user_repo settings_repo)
  unfolding new_application get_hard_min_spread
  new_application-IsBuilt cfg user_repo settings_repo h =
      built-IsBuilt user_repo settings_repo (or_default cfg) h
