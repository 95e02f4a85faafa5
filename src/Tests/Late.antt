-- ===== src/Tests/Late.antt =====
-- A run of the theorem on ticks out of order: MEXC's tick opened the route, and an older tick of
-- Bybit comes after it.
use crypto_screener.Base.{◌*◌, ◌-◌, [], ◌∷◌, ◌≡◌, refl, arith, none, some, inl, inr, Bool-cases}
use crypto_screener.Base.Eq.{text_eq, list_beq}
use crypto_screener.Base.Map.{lookup, insert}
use crypto_screener.Base.Text.{text}
use crypto_screener.Base.Time.{second}
use crypto_screener.Base.Int.{ℤ, pos}
use crypto_screener.Decimal.Fixed.{fixed_decimal}
use crypto_screener.Domain.Market.{SpreadEvent, market_type_futures, cross_exchange, opened}
use crypto_screener.Domain.Signal.{ArbitrageSignal, new_arbitrage_signal}
use crypto_screener.Aggregator.{Shard, RouteState, route_key, tick_time, fresh}
use crypto_screener.Aggregator.Candidates.{
  cross_candidates, cross_among, cross_with, price_of, intra_candidate,
}
use crypto_screener.Aggregator.Eligible.{symbol_may_pass_volume}
use crypto_screener.Aggregator.Lifecycle.{IsTable, open_routes}
use crypto_screener.Aggregator.Process.{process_in_shard, candidates, with_markets, price_state}
use crypto_screener.Aggregator.Emitted.{keys_under}
use crypto_screener.Tracker.{Tracker}
use crypto_screener.Tracker.Table.{handle_events}
use crypto_screener.Pipeline.Frame.{Agree}
use crypto_screener.Pipeline.LateClose.{Held, book_after, late_tick_parts}
use crypto_screener.Tests.{
  t0, btc, bybit, mexc, deps, deps-HasFloor, price, futures_tick, futures_price,
}

abbrev pub route : SpreadEvent ℤ
route = record {
  symbol = btc;
  spread_type = cross_exchange;
  spread = pos 99000;
  buy_exchange = bybit;
  sell_exchange = mexc;
  exchange_a = [];
  exchange_b = [];
  buy_market = market_type_futures;
  sell_market = market_type_futures;
  buy_ask = price 100;
  sell_bid = price 110;
  quote_volume = price 5000;
  buy_funding_rate = pos 100;
  sell_funding_rate = pos 100;
  buy_next_funding = t0;
  sell_next_funding = t0;
  timestamp = t0;
  lifecycle = opened;
}

abbrev state : RouteState ℤ
state = record { peak = pos 99000; last = route; opened_at = t0 }

abbrev pub busy : Shard ℤ
busy = record {
  prices =
      (
        btc,
        (bybit, (market_type_futures, futures_price 100 (t0 - 2 * second)) ∷ [])
            ∷ (mexc, (market_type_futures, futures_price 110 t0) ∷ [])
            ∷ [],
      )
      ∷ [];
  active = (route_key route, state) ∷ [];
}

abbrev pub signal : ArbitrageSignal ℤ
signal = new_arbitrage_signal (text "id") route t0

abbrev pub watching : Tracker ℤ
watching = record { active_signals = (route_key route, signal) ∷ []; config = some deps.config }

busy-IsTable : IsTable busy.active
unfolding lookup
busy-IsTable = record { distinct = (refl, tt); keyed = ((refl, refl), tt) }

watching-Held : Held (keys_under btc) (t0 - second) (open_routes busy.active) watching
unfolding lookup new_arbitrage_signal
watching-Held k at own e = elim (Bool-cases (list_beq (route_key route) k)) [
  | inl hit ↦ (rw hit (rw hit at e), ground (arith, rw hit at e))
  | inr miss ↦ cc (rw miss at e)
]

no_candidates :
    candidates deps t0
      (book_after busy (futures_tick bybit 100 (t0 - second)))
      (futures_tick bybit 100 (t0 - second))
    ≡ []
unfolding candidates cross_candidates intra_candidate symbol_may_pass_volume fresh lookup tick_time
    cross_among with_markets insert list_beq cross_with price_of price_state
no_candidates = refl

late_tick_parts_example :
    let r = process_in_shard deps t0 (futures_tick bybit 100 (t0 - second)) busy in
    Agree (keys_under btc) (open_routes r.0.active) (λ k. none)
    × (handle_events (λ n. n ∷ []) watching r.1 ≡ watching)
unfolding lookup tick_time list_beq
late_tick_parts_example =
    late_tick_parts deps t0 (λ n. n ∷ []) (futures_tick bybit 100 (t0 - second)) busy watching
      deps-HasFloor refl busy-IsTable refl no_candidates watching-Held
