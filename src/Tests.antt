-- ===== src/Tests.antt =====
-- Runs of the theorems on a small market: one symbol on two exchanges of sharded_aggregator.go,
-- with the funding records of funding_manager.go that it asks for.
use crypto_screener.Base.{
  ℕ, ◌*◌, ◌+◌, ◌-◌, ◌<◌, ◌≤◌, Bool, true, false, not, List, [], ◌∷◌, ◌++◌, ◌≡◌, refl, sym, ◌∙◌, ap,
  arith, Option, none, some, inl, inr, Bool-cases, All, length, if◌then◌else◌,
}
use crypto_screener.Base.Eq.{text_eq, pair_eq, nat_eq, ◌==◌, list_beq, list_beq_iff}
use crypto_screener.Base.Int.{ℤ, pos}
use crypto_screener.Base.Map.{Map, lookup, insert}
use crypto_screener.Base.Text.{Text, text, is_empty}
use crypto_screener.Base.Time.{Time, second, hour, is_zero_time}
use crypto_screener.Decimal.{Decimal}
use crypto_screener.Decimal.Fixed.{fixed_decimal}
use crypto_screener.Domain.Market.{
  MarketTick, SpreadEvent, market_type_futures, cross_exchange, opened, closed,
}
use crypto_screener.Domain.Signal.{new_arbitrage_signal}
use crypto_screener.Domain.Config.{ScreenerConfig, new_screener_config}
use crypto_screener.Funding.{FundingConfig, FundingRecord, FundingManager, default_funding_config}
use crypto_screener.Aggregator.{
  PriceState, RouteState, Shard, Deps, default_price_ttl, route_key, tick_time,
}
use crypto_screener.Aggregator.Offers.{HasFloor}
use crypto_screener.Aggregator.Lifecycle.{IsTable, open_routes}
use crypto_screener.Tracker.{Tracker}
use crypto_screener.Tracker.Table.{open_signals}
pub mod Routes
pub mod Late
pub mod Delays
pub mod Persistence
pub mod Streams
pub mod Emissions
pub mod Candles
pub mod Audience
pub mod Settings
pub mod Notices
pub mod Wire
pub mod Life
pub mod Deliveries
pub mod Streaming
pub mod Bots
pub mod Orders
pub mod Starts
pub mod Chats
pub mod Feeds

abbrev pub t0 : Time
t0 = 1000 * hour

abbrev pub btc : Text
btc = text "BTC"

abbrev pub bybit : Text
bybit = text "BYBIT"

abbrev pub mexc : Text
mexc = text "MEXC"

abbrev pub price : ℕ → ℤ
price n = pos (n * 1000000)

abbrev pub rate_of : Text → FundingRecord ℤ
rate_of exchange = record {
  exchange = exchange;
  symbol = btc;
  rate = pos 100;
  next_funding_time = t0 + hour;
  event_time = t0 - second;
  local_received_at = t0 - second;
}

abbrev pub funding : FundingManager ℤ
funding = record {
  rates = ((bybit, btc), rate_of bybit) ∷ ((mexc, btc), rate_of mexc) ∷ [];
  config = some default_funding_config;
  health = (bybit, true) ∷ (mexc, true) ∷ [];
  last_update = [];
}

abbrev pub deps : Deps ℤ
deps = record {
  funding = some funding;
  config = new_screener_config (pos 0);
  users = none;
  volume = none;
  price_ttl = default_price_ttl;
}

pub deps-HasFloor : HasFloor deps
deps-HasFloor = record { floor = λ fm p managed configured. ground arith }

abbrev pub futures_tick : Text → ℕ → Time → MarketTick ℤ
futures_tick exchange n at = record {
  exchange = exchange;
  symbol = btc;
  market_type = market_type_futures;
  best_bid = price n;
  best_ask = price n;
  quote_volume = price 5000;
  event_time = at;
  received_at = at;
  timestamp = at;
}

abbrev pub futures_price : ℕ → Time → PriceState ℤ
futures_price n at = record {
  bid = price n;
  ask = price n;
  received_at = at;
  quote_volume_24h = price 5000;
}

-- Bybit quotes 100, and no route is open.
abbrev pub quiet : Shard ℤ
quiet = record {
  prices =
      (btc, (bybit, (market_type_futures, futures_price 100 (t0 - 2 * second)) ∷ []) ∷ []) ∷ [];
  active = [];
}

pub quiet-IsTable : IsTable quiet.active
quiet-IsTable = record { distinct = tt; keyed = tt }

abbrev pub idle : Tracker ℤ
idle = record { active_signals = []; config = some deps.config }
