-- ===== src/Commands/Admin.antt =====
-- The administrator's commands of HandleCommand in internal/app/app.go, and the two reports.
-- decimal.NewFromString and Decimal.String are the arguments `parse` and `print`.
use crypto_screener.Base.{
  Bool, true, false, ◌||◌, List, [], ◌∷◌, Option, none, some, if◌then◌else◌, ltb, length, take,
}
use crypto_screener.Base.Map.{Map}
use crypto_screener.Base.Parse.{join_comma}
use crypto_screener.Base.Text.{Text, to_upper}
use crypto_screener.Decimal.{Decimal, is_negative, greater_than, less_than, is_zero_decimal}
use crypto_screener.Domain.Config.{
  ScreenerConfig, ok, bad_fee_part, set_hard_min_spread, set_fee, parse_fees,
}
use crypto_screener.Domain.Config.Listing.{fees_string}
use crypto_screener.Domain.Signal.{ArbitrageSignal}
use crypto_screener.Funding.{
  FundingManager, ConfigError, FundingConfig, default_funding_config, update_config,
}
use crypto_screener.Connectors.{ConnectorManager, ManagerError, add_connector, remove_connector}
use crypto_screener.Commands.{
  Application, Outcomes, Reply, usage, invalid_value, below_admin_minimum, funding_rejected,
  floor_not_saved, fees_not_saved, hard_floor, fees_listed, fees_updated, bad_fees,
  stats_unavailable, stats_failed, signals_unavailable, signals_failed, stats_report,
  signals_report, no_factory, not_supported, exchange_added, exchange_removed, add_failed,
  remove_failed, persist_setting, settings_key_hard_spread, settings_key_fees,
}
use crypto_screener.Commands.Edit.{percent}
use mathlib.Core.List.{reverse}

abbrev pub Answer : Type 0 → Type 0
Answer D = Application D × Reply D

abbrev pub made_by : Option (Text → Bool) → Text → Option Bool
made_by none name = none
made_by (some factory) name = some (factory name)

module _ {D : Type 0} where
  -- A write that failed after the change was applied.
  abbrev pub answer_saved : Reply D → Reply D → Application D × Bool → Answer D
  answer_saved saved failed (a, true) = (a, saved)
  answer_saved saved failed (a, false) = (a, failed)

  abbrev pub added_or : Text → Application D → ConnectorManager × Option ManagerError → Answer D
  added_or name a (cm, none) = (record a { conn_manager = cm }, exchange_added name)
  added_or name a (cm, some e) = (record a { conn_manager = cm }, add_failed name e)

  abbrev pub removed_or : Text → Application D → ConnectorManager × Option ManagerError → Answer D
  removed_or name a (cm, none) = (record a { conn_manager = cm }, exchange_removed name)
  removed_or name a (cm, some e) = (record a { conn_manager = cm }, remove_failed name e)

  unfoldable pub add_exchange : Outcomes D → List Text → Application D → Answer D
  add_exchange o [] a = (a, usage)
  add_exchange o (arg ∷ args) a =
      let name = to_upper arg in
      elim (made_by a.connector_factory name) [
        | none ↦ (a, no_factory)
        | some false ↦ (a, not_supported name)
        | some true ↦ added_or name a (add_connector a.conn_manager name true o.in_time)
      ]

  unfoldable pub remove_exchange : Outcomes D → List Text → Application D → Answer D
  remove_exchange o [] a = (a, usage)
  remove_exchange o (arg ∷ args) a =
      let name = to_upper arg in removed_or name a (remove_connector a.conn_manager name o.in_time)

  -- The last five of the active signals, from the last one on.
  unfoldable pub last_five : List (ArbitrageSignal D) → List (ArbitrageSignal D)
  last_five active = take 5 (reverse active)

  unfoldable pub report_signals : Outcomes D → Application D → Answer D
  unfolding last_five
  report_signals o a = elim o.recent [
    | none ↦ (a, signals_unavailable)
    | some none ↦ (a, signals_failed)
    | some (some closed) ↦ (a, signals_report (length o.active) (last_five o.active) closed)
  ]

module _ {D : Type 0} ⦃dec : Decimal D⦄ where
  unfoldable pub report_stats : Outcomes D → Application D → Answer D
  report_stats o a = elim o.stats [
    | none ↦ (a, stats_unavailable)
    | some none ↦ (a, stats_failed)
    | some (some st) ↦ (
      a,
      stats_report st.opened_24h st.closed_24h
          (if is_zero_decimal st.avg_peak_spread then none else some st.avg_peak_spread)
          (if ltb 0 st.avg_duration then some st.avg_duration else none) (length o.active),
    )
  ]

  -- `for k, v := range parsed { a.config.SetFee(k, v) }`
  unfoldable pub set_each : ScreenerConfig D → Map Text D → ScreenerConfig D
  set_each c [] = c
  set_each c (p ∷ parsed) = set_each (set_fee c p.0 p.1) parsed

  abbrev pub funding_floor : D → FundingConfig D
  funding_floor spread = record default_funding_config { min_spread = spread }

  module _ (parse : Text → Option D) (print : D → Text) (o : Outcomes D) where
    -- After SetHardMinSpread, with the floor that it returns.
    abbrev pub keep_floor : Application D → ScreenerConfig D × D → Answer D
    keep_floor a (config, v) =
        answer_saved (hard_floor v) floor_not_saved
          (persist_setting o settings_key_hard_spread (print v) (record a { config = config }))

    -- After UpdateConfig.
    abbrev pub apply_floor : D → Application D → FundingManager D × Option ConfigError → Answer D
    apply_floor spread a (fm, some e) = (a, funding_rejected e)
    apply_floor spread a (fm, none) =
        keep_floor (record a { funding_mgr = fm }) (set_hard_min_spread a.config spread)

    unfoldable pub change_floor : D → Application D → Answer D
    change_floor spread a =
        apply_floor spread a (update_config a.funding_mgr (funding_floor spread))

    unfoldable pub set_hard_spread_cmd : List Text → Application D → Answer D
    unfolding change_floor
    set_hard_spread_cmd [] a = (a, usage)
    set_hard_spread_cmd (arg ∷ args) a = elim (parse arg) [
      | none ↦ (a, invalid_value)
      | some v ↦
          if is_negative v || greater_than v (dec.literal 100 0)
          then (a, invalid_value)
          else if less_than (percent v) (dec.literal 1 2)
          then (a, below_admin_minimum)
          else change_floor (percent v) a
    ]

    unfoldable pub set_fees_cmd : List Text → Application D → Answer D
    set_fees_cmd [] a = (a, fees_listed (fees_string print (some a.config)))
    set_fees_cmd (arg ∷ args) a = elim (parse_fees parse (join_comma (arg ∷ args))) [
      | bad_fee_part part ↦ (a, bad_fees part)
      | ok parsed ↦
          let config = set_each a.config parsed in
          let fees = fees_string print (some config) in
          answer_saved (fees_updated fees) fees_not_saved
            (persist_setting o settings_key_fees fees (record a { config = config }))
    ]
