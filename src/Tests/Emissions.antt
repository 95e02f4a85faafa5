-- ===== src/Tests/Emissions.antt =====
-- Runs of the theorems on sharded_aggregator.go, on funding_manager.go and on the contract between
-- the aggregator and the tracker.
use crypto_screener.Base.{[], ◌∷◌, ◌≡◌, ◌≢◌, refl, some, All, length}
use crypto_screener.Base.Eq.{text_eq, list_beq}
use crypto_screener.Base.Map.{lookup}
use crypto_screener.Base.Text.{to_upper, trim_space, strip_separators}
use crypto_screener.Base.Int.{ℤ, pos, ◌-ℤ◌, ◌+ℤ◌}
use crypto_screener.Decimal.Fixed.{fixed_decimal}
use crypto_screener.Domain.Market.{MarketTick, market_type_futures, market_type_spot}
use crypto_screener.Funding.{
  FundingConfig, get_funding, normalize_funding_key, is_healthy, is_stale, staleness_for,
}
use crypto_screener.Funding.Evaluate.{
  evaluate_futures_pair, evaluate_legs, valid_record, check_record, calc_net_spread,
}
use crypto_screener.Funding.Evaluate.FailClosed.{IsPair, evaluate_futures_pair_sound}
use crypto_screener.Aggregator.{ShardedAggregator, Book, new_sharded_aggregator}
use crypto_screener.Aggregator.Candidates.{cross_candidates}
use crypto_screener.Aggregator.Process.{process_tick, flush_active}
use crypto_screener.Aggregator.Crossing.{IsCross, cross_candidates_offers}
use crypto_screener.Aggregator.Events.{
  IsSound, TickRuns, shard_of, new_sharded_aggregator-IsSound, process_tick_runs,
}
use crypto_screener.Aggregator.Shutdown.{ShardsClose, flush_time, flush_active_runs}
use crypto_screener.Tests.{
  t0, btc, bybit, mexc, deps, deps-HasFloor, funding, futures_tick, futures_price,
}

abbrev fresh_aggregator : ShardedAggregator ℤ
fresh_aggregator = new_sharded_aggregator deps

fresh_aggregator-IsSound : IsSound fresh_aggregator
fresh_aggregator-IsSound = new_sharded_aggregator-IsSound deps deps-HasFloor

abbrev first_tick : MarketTick ℤ
first_tick = futures_tick bybit 100 t0

abbrev second_tick : MarketTick ℤ
second_tick = futures_tick mexc 110 t0

abbrev one_price : ShardedAggregator ℤ
one_price = (process_tick length t0 fresh_aggregator first_tick).0

one_price-IsSound : IsSound one_price
one_price-IsSound =
    (process_tick_runs length t0 fresh_aggregator first_tick fresh_aggregator-IsSound).0

process_tick_runs_example :
    TickRuns (shard_of length second_tick) one_price (process_tick length t0 one_price second_tick)
process_tick_runs_example = process_tick_runs length t0 one_price second_tick one_price-IsSound

abbrev one_route : ShardedAggregator ℤ
one_route = (process_tick length t0 one_price second_tick).0

one_route-IsSound : IsSound one_route
one_route-IsSound = (process_tick_runs length t0 one_price second_tick one_price-IsSound).0

flush_active_runs_example :
    let r = flush_active t0 t0 one_route in
    ShardsClose (flush_time t0 t0) one_route.shards r.0.shards r.1
    × All (λ s. s.active ≡ []) r.0.shards
flush_active_runs_example = flush_active_runs t0 t0 one_route one_route-IsSound

abbrev pub book : Book ℤ
book =
    (bybit, (market_type_futures, futures_price 100 t0) ∷ [])
    ∷ (
      mexc,
      (market_type_spot, futures_price 105 t0) ∷ (market_type_futures, futures_price 110 t0) ∷ [],
    )
    ∷ []

cross_candidates_offers_example :
    All
      (λ ev. IsCross deps book btc t0 ev × (ev.buy_exchange ≢ ev.sell_exchange))
      (cross_candidates deps book btc t0)
unfolding lookup list_beq
cross_candidates_offers_example =
    cross_candidates_offers deps deps-HasFloor book btc t0 (refl, (refl, tt))

evaluate_futures_pair_sound_example :
    (p : FundingConfig ℤ) × (funding.config ≡ some p)
    × IsPair funding p bybit btc mexc btc
        (pos 99000)
        t0
        (evaluate_futures_pair funding bybit btc mexc btc (pos 99000) t0)
unfolding evaluate_futures_pair evaluate_legs valid_record get_funding lookup list_beq
    normalize_funding_key to_upper trim_space strip_separators check_record is_healthy is_stale
    staleness_for calc_net_spread ◌-ℤ◌ ◌+ℤ◌
evaluate_futures_pair_sound_example =
    evaluate_futures_pair_sound funding bybit btc mexc btc (pos 99000) t0 refl
