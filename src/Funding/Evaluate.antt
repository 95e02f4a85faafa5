-- ===== src/Funding/Evaluate.antt =====
-- The evaluation of a route by funding_manager.go: validRecord, CalcNetSpread,
-- EvaluateSpotFutures and EvaluateFuturesPair.
pub mod FailClosed
use crypto_screener.Base.{ℕ, Bool, true, false, not, ◌||◌, Option, none, some, if◌then◌else◌}
use crypto_screener.Base.Text.{Text, is_empty}
use crypto_screener.Base.Time.{Time, is_zero_time}
use crypto_screener.Decimal.{Decimal, decimal_zero, less_than, is_negative, add, sub}
use crypto_screener.Funding.{
  ArbReason, profitable, below_min_spread, data_stale, no_data, stream_unhealthy, invalid_input,
  configuration_unavailable, FundingConfig, FundingRecord, ArbResult, FundingManager, get_funding,
  is_healthy, is_stale, staleness_for, earliest_funding,
}

module _ {D : Type 0} ⦃dec : Decimal D⦄ where
  unfoldable pub calc_net_spread : D → D → D → D
  calc_net_spread spread buy_rate sell_rate = sub (add spread sell_rate) buy_rate

  -- ArbResult{Reason: reason}
  abbrev pub refused : ArbReason → ArbResult D
  refused reason = record {
    is_profitable = false;
    reason = reason;
    net_spread = decimal_zero;
    funding_rate = decimal_zero;
    next_funding_time = 0;
    buy_funding_rate = decimal_zero;
    sell_funding_rate = decimal_zero;
    buy_next_funding_time = 0;
    sell_next_funding_time = 0;
  }

  -- The check for a nil configuration.
  abbrev pub or_unavailable :
      (FundingConfig D → ArbResult D) → Option (FundingConfig D) → ArbResult D
  or_unavailable use_ none = refused configuration_unavailable
  or_unavailable use_ (some p) = use_ p

  -- The checks of validRecord on a record that was found.
  unfoldable pub check_record :
      FundingManager D → Text → Time → FundingConfig D → FundingRecord D → ArbResult D × Bool
  check_record fm exchange now cfg r =
      if not (is_healthy fm exchange)
      then (refused stream_unhealthy, false)
      else if is_zero_time r.next_funding_time
      then (refused no_data, false)
      else if is_stale r now (staleness_for cfg exchange)
      then (
        record (refused data_stale) {
          buy_funding_rate = r.rate;
          sell_funding_rate = r.rate;
          buy_next_funding_time = r.next_funding_time;
          sell_next_funding_time = r.next_funding_time;
        },
        false,
      )
      else (
        record (refused profitable) {
          is_profitable = true;
          funding_rate = r.rate;
          next_funding_time = r.next_funding_time;
        },
        true,
      )

  unfoldable pub valid_record :
      FundingManager D → Text → Text → Time → FundingConfig D → ArbResult D × Bool
  valid_record fm exchange symbol now cfg = elim (get_funding fm exchange symbol) [
    | none ↦ (refused no_data, false)
    | some r ↦ check_record fm exchange now cfg r
  ]

  -- The last lines of both evaluations: the verdict by the minimal spread.
  abbrev pub judge : FundingConfig D → ArbResult D → ArbResult D
  judge p result =
      if less_than result.net_spread p.min_spread
      then record result { is_profitable = false; reason = below_min_spread }
      else record result { is_profitable = true; reason = profitable }

  abbrev pub spot_result : D → ArbResult D → ArbResult D
  spot_result spread sell = record {
    is_profitable = false;
    reason = profitable;
    net_spread = calc_net_spread spread decimal_zero sell.funding_rate;
    funding_rate = sell.funding_rate;
    next_funding_time = sell.next_funding_time;
    buy_funding_rate = decimal_zero;
    sell_funding_rate = sell.funding_rate;
    buy_next_funding_time = 0;
    sell_next_funding_time = sell.next_funding_time;
  }

  abbrev pub pair_result : D → ArbResult D → ArbResult D → ArbResult D
  pair_result spread buy sell = record {
    is_profitable = false;
    reason = profitable;
    net_spread = calc_net_spread spread buy.funding_rate sell.funding_rate;
    funding_rate = buy.funding_rate;
    next_funding_time = earliest_funding buy.next_funding_time sell.next_funding_time;
    buy_funding_rate = buy.funding_rate;
    sell_funding_rate = sell.funding_rate;
    buy_next_funding_time = buy.next_funding_time;
    sell_next_funding_time = sell.next_funding_time;
  }

  unfoldable pub evaluate_with_spot :
      FundingManager D → FundingConfig D → Text → Text → D → Time → ArbResult D
  evaluate_with_spot fm p exchange symbol spread now =
      let (sell, found) = valid_record fm exchange symbol now p in
      if found then judge p (spot_result spread sell) else sell

  unfoldable pub evaluate_spot_futures : FundingManager D → Text → Text → D → Time → ArbResult D
  evaluate_spot_futures fm exchange symbol spread now =
      if is_zero_time now || (is_empty exchange || (is_empty symbol || is_negative spread))
      then refused invalid_input
      else or_unavailable (λ p. evaluate_with_spot fm p exchange symbol spread now) fm.config

  unfoldable pub evaluate_legs :
      FundingManager D → FundingConfig D → Text → Text → Text → Text → D → Time → ArbResult D
  evaluate_legs fm p buy_ex buy_symbol sell_ex sell_symbol spread now =
      let (buy, buy_found) = valid_record fm buy_ex buy_symbol now p in
      let (sell, sell_found) = valid_record fm sell_ex sell_symbol now p in
      if not buy_found
      then buy
      else if not sell_found
      then sell
      else judge p (pair_result spread buy sell)

  unfoldable pub evaluate_futures_pair :
      FundingManager D → Text → Text → Text → Text → D → Time → ArbResult D
  evaluate_futures_pair fm buy_ex buy_symbol sell_ex sell_symbol spread now =
      if is_zero_time now
        || (is_empty buy_ex
            || (is_empty buy_symbol
                || (is_empty sell_ex || (is_empty sell_symbol || is_negative spread))))
      then refused invalid_input
      else or_unavailable (λ p. evaluate_legs fm p buy_ex buy_symbol sell_ex sell_symbol spread now)
          fm.config
