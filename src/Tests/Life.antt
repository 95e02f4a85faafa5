-- ===== src/Tests/Life.antt =====
-- Runs of the theorems on connector_manager.go: a connector of Bybit that is replaced and stopped.
use crypto_screener.Base.{true, [], ◌≡◌, ◌≤◌, refl, length}
use crypto_screener.Base.Eq.{text_eq}
use crypto_screener.Base.Map.{lookup, insert}
use crypto_screener.Base.Text.{to_upper, trim_space}
use crypto_screener.Connectors.{ConnectorManager, new_connector_manager, add_connector, stop_all}
use crypto_screener.Connectors.Registered.{under}
use crypto_screener.Connectors.Single.{Reach, here, next, adds, one_running, stopped_clean}
use crypto_screener.Tests.{bybit}

abbrev added : ConnectorManager
added = (add_connector new_connector_manager bybit true true).0

added-Reach : Reach new_connector_manager added
added-Reach = next here (adds bybit true true refl)

one_running_example : length (under bybit (add_connector added bybit true true).0.running) ≤ 1
one_running_example =
    one_running (add_connector added bybit true true).0
      (next added-Reach (adds bybit true true refl)) bybit

stopped_clean_example : (stop_all added (λ e. true)).0.running ≡ []
unfolding add_connector to_upper trim_space lookup stop_all insert
stopped_clean_example = stopped_clean added (λ e. true) added-Reach refl refl
