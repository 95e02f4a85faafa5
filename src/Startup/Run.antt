-- ===== src/Startup/Run.antt =====
-- Run of internal/app/app.go: its guards, the users, and the connectors that it starts. `in_time`
-- says of a connector whether its goroutines end before the timeout when it is stopped, and `ends`
-- whether those of a connector do that is replaced.
use crypto_screener.Base.{Bool, true, false, not, List, [], ◌∷◌, Option, none, some, if◌then◌else◌}
use crypto_screener.Base.Text.{Text}
use crypto_screener.Decimal.{Decimal}
use crypto_screener.Connectors.{
  ConnectorEntry, ConnectorManager, ManagerError, add_connector, stop_all,
}
use crypto_screener.Commands.{Application}
use crypto_screener.Startup.{
  RunError, already_started, repo_is_nil, reconcile_failed, users_not_loaded, not_provided,
  not_started, StoredUser, Boot, supported_exchanges, load_users, with_stored,
}

-- The flag `started`, and the rest.
pub record Runner (D : Type 0) : Type 0 where
  pub started : Bool
  pub app : Application D

abbrev pub RunResult : Type 0 → Type 0
RunResult D = Runner D × Option RunError

module _ {D : Type 0} where
  -- The commands are accepted once everything has started.
  abbrev pub accept : Application D × Option RunError → RunResult D
  accept (a, some e) = (record { started = true; app = a }, some e)
  accept (a, none) = (record { started = true; app = record a { accepting = true } }, none)

module _ {D : Type 0} (ends : Bool) (in_time : ConnectorEntry → Bool) where
  -- The part of cleanup that the connectors see.
  abbrev pub cleanup : Application D → Application D
  cleanup a = record a { accepting = false; conn_manager = (stop_all a.conn_manager in_time).0 }

  abbrev pub next_connector :
      Text
      → Application D
      → ConnectorManager × Option ManagerError
      → Application D × Option RunError
  next_connector name a (cm, none) = (record a { conn_manager = cm }, none)
  next_connector name a (cm, some e) =
      (cleanup (record a { conn_manager = cm }), some (not_started name e))

  -- One exchange: the factory, then AddConnector.
  unfoldable pub start_one : (Text → Bool) → Text → Application D → Application D × Option RunError
  start_one factory name a =
      if not (factory name)
      then (cleanup a, some (not_provided name))
      else next_connector name a (add_connector a.conn_manager name true ends)

  unfoldable pub start_connectors :
      (Text → Bool) → List Text → Application D → Application D × Option RunError
  unfolding start_one
  start_connectors factory [] a = (a, none)
  start_connectors factory (name ∷ names) a =
      let (b, err) = start_one factory name a in
      let rest = start_connectors factory names b in elim err [ some e ↦ (b, some e) | none ↦ rest ]

  abbrev pub start_if : Option (Text → Bool) → Application D → Application D × Option RunError
  start_if none a = (a, none)
  start_if (some factory) a = start_connectors factory supported_exchanges a

module _ {D : Type 0} ⦃dec : Decimal D⦄ (parse : Text → Option D) (ends : Bool)
    (in_time : ConnectorEntry → Bool) where
  abbrev pub with_loaded : Option (List (Option (StoredUser D))) → Application D → RunResult D
  with_loaded none a = (record { started = true; app = a }, some users_not_loaded)
  with_loaded (some rows) a =
      let loaded = record a { user_mgr = load_users a.config rows a.user_mgr } in
      accept (start_if ends in_time a.connector_factory loaded)

  -- Without a repository of users none are read.
  abbrev pub rows_of : Boot D → Application D → Option (List (Option (StoredUser D)))
  rows_of b a = if a.has_user_repo then b.users else none

  abbrev pub reconciles : Option Bool → Bool
  reconciles none = true
  reconciles (some r) = r

  unfoldable pub run : Boot D → Runner D → RunResult D
  run b r =
      if r.started
      then (r, some already_started)
      else if not b.has_repo
      then (r, some repo_is_nil)
      else if not (reconciles b.reconciled)
      then (r, some reconcile_failed)
      else with_loaded (rows_of b r.app) (with_stored parse b r.app)
