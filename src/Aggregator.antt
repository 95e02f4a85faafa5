-- ===== src/Aggregator.antt =====
-- internal/app/sharded_aggregator.go: the state and the tests on ticks and prices. No map of the
-- aggregator ever holds a nil pointer, so a missing entry is the only nil.
pub mod Candidates
pub mod Eligible
pub mod Observe
pub mod Process
pub mod Lifecycle
pub mod Closing
pub mod Events
pub mod Offers
pub mod Crossing
pub mod Shutdown
pub mod Emitted
pub mod Prefilter
pub mod Revalidate
use crypto_screener.Base.{
  ℕ, ◌+◌, ◌-◌, ◌*◌, ◌%◌, Bool, true, false, not, ◌||◌, ◌&&◌, List, [], ◌∷◌, Option, none, some, ltb,
  leb, if◌then◌else◌, replicate,
}
use crypto_screener.Base.Eq.{text_eq, ◌==◌}
use crypto_screener.Base.Map.{Map, lookup}
use crypto_screener.Base.Text.{Text, trim_space, to_upper, is_empty, strip_separators, join_colon}
use crypto_screener.Base.Time.{Time, Duration, is_zero_time, before, second, minute}
use crypto_screener.Decimal.{Decimal, is_positive, greater_than}
use crypto_screener.Domain.Market.{
  MarketType, MarketTick, SpreadEvent, market_type_spot, market_type_futures,
}
use crypto_screener.Domain.Signal.{or_alias}
use crypto_screener.Domain.Config.{ScreenerConfig}
use crypto_screener.Domain.User.{UserManager}
use crypto_screener.Funding.{FundingManager}
use crypto_screener.Volume.{VolumeEngine}

abbrev pub num_shards : ℕ
num_shards = 1024

abbrev pub default_price_ttl : Duration
default_price_ttl = 5 * second

abbrev pub stale_active_route_ttl : Duration
stale_active_route_ttl = 10 * minute

pub record PriceState (D : Type 0) : Type 0 where
  pub bid : D
  pub ask : D
  pub received_at : Time
  pub quote_volume_24h : D

pub record RouteState (D : Type 0) : Type 0 where
  pub peak : D
  pub last : SpreadEvent D
  pub opened_at : Time

-- market type → price, and exchange → market type → price.
abbrev pub Markets : Type 0 → Type 0
Markets D = Map MarketType (PriceState D)

abbrev pub Book : Type 0 → Type 0
Book D = Map Text (Markets D)

pub record Shard (D : Type 0) : Type 0 where
  pub prices : Map Text (Book D)
  pub active : Map Text (RouteState D)

-- What the aggregator reads of the other parts.
pub record Deps (D : Type 0) : Type 0 where
  pub funding : Option (FundingManager D)
  pub config : ScreenerConfig D
  pub users : Option (UserManager D)
  pub volume : Option (VolumeEngine D)
  pub price_ttl : Duration

pub record ShardedAggregator (D : Type 0) : Type 0 where
  pub deps : Deps D
  pub shards : List (Shard D)
  pub ticks : ℕ

abbrev pub empty_shard : {D : Type 0} → Shard D
empty_shard = record { prices = []; active = [] }

unfoldable pub new_sharded_aggregator : {D : Type 0} → Deps D → ShardedAggregator D
new_sharded_aggregator deps = record {
  deps = deps;
  shards = replicate num_shards empty_shard;
  ticks = 0;
}

unfoldable pub normalize_symbol : Text → Text
normalize_symbol s = strip_separators (to_upper (trim_space s))

-- crc32.ChecksumIEEE of the standard library is the argument `crc32`.
abbrev pub shard_for : (Text → ℕ) → Text → ℕ
shard_for crc32 symbol = crc32 symbol % num_shards

module _ {D : Type 0} where
  unfoldable pub route_key : SpreadEvent D → Text
  route_key e = join_colon (
      e.symbol
      ∷ e.spread_type
      ∷ or_alias e.buy_exchange e.exchange_a
      ∷ or_alias e.sell_exchange e.exchange_b
      ∷ e.buy_market
      ∷ e.sell_market
      ∷ [])

  unfoldable pub fresh : Option (PriceState D) → Time → Duration → Bool
  fresh none now ttl = false
  fresh (some s) now ttl =
      if is_zero_time s.received_at || before now s.received_at
      then false
      else leb (now - s.received_at) ttl

module _ {D : Type 0} ⦃dec : Decimal D⦄ where
  unfoldable pub valid_tick : MarketTick D → Bool
  valid_tick t =
      if is_empty (trim_space t.exchange) || is_empty (trim_space t.symbol)
      then false
      else if not (t.market_type == market_type_spot) && not (t.market_type == market_type_futures)
      then false
      else if not (is_positive t.best_bid)
          || (not (is_positive t.best_ask) || greater_than t.best_bid t.best_ask)
      then false
      else not (is_zero_time t.received_at)
        || (not (is_zero_time t.event_time) || not (is_zero_time t.timestamp))

  -- The assignments at the head of ProcessTick.
  unfoldable pub normalize_tick : MarketTick D → MarketTick D
  normalize_tick t =
      let received = if is_zero_time t.received_at then t.event_time else t.received_at in
      let event = if is_zero_time t.event_time then received else t.event_time in
      record t {
        exchange = to_upper (trim_space t.exchange);
        symbol = normalize_symbol t.symbol;
        received_at = received;
        event_time = event;
        timestamp = if is_zero_time t.timestamp then event else t.timestamp;
      }

  unfoldable pub tick_time : MarketTick D → Time
  tick_time t =
      let seen = if is_zero_time t.received_at then t.event_time else t.received_at in
      if is_zero_time seen then t.timestamp else seen
