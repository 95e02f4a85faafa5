-- ===== src/Aggregator/Revalidate.antt =====
-- RevalidateSignal of sharded_aggregator.go: a signal's own route at the current prices. A missing
-- map or price is not fresh.
pub mod Sound
use crypto_screener.Base.{
  ℕ, Bool, true, not, ◌||◌, ◌&&◌, Option, none, some, if◌then◌else◌, ◌≡◌, refl, inl, inr,
  Bool-cases, Option-cases, ap, sym, ◌∙◌, arith, OnSome, OnSome-if, OnSome-some,
}
use crypto_screener.Base.Eq.{text_eq, ◌==◌}
use crypto_screener.Base.Map.{lookup}
use crypto_screener.Base.Text.{Text}
use crypto_screener.Base.Time.{Time}
use crypto_screener.Decimal.{
  Decimal, decimal_zero, is_positive, greater_than, min_decimal, Le, Le_trans,
}
use crypto_screener.Domain.Market.{
  cross_exchange, intra_exchange, market_type_futures, market_type_spot,
}
use crypto_screener.Domain.Signal.{ArbitrageSignal}
use crypto_screener.Funding.{FundingManager, ArbResult}
use crypto_screener.Funding.Evaluate.{evaluate_futures_pair, evaluate_spot_futures}
use crypto_screener.Funding.Evaluate.FailClosed.{
  evaluate_futures_pair_sound, evaluate_spot_futures_sound,
}
use crypto_screener.Aggregator.{
  PriceState, Book, Deps, ShardedAggregator, fresh, normalize_symbol, shard_for,
}
use crypto_screener.Aggregator.Candidates.{price_of, net_of_fees}
use crypto_screener.Aggregator.Process.{shard_at}
use crypto_screener.Aggregator.Offers.{HasFloor, Quoted, not-false}

module _ {D : Type 0} ⦃dec : Decimal D⦄ where
  -- The copy of the signal with what the event carries.
  abbrev pub renewed :
      ArbitrageSignal D → PriceState D → PriceState D → ArbResult D → ArbitrageSignal D
  renewed s buy sell fund = record s {
    peak_spread = fund.net_spread;
    quote_volume = min_decimal buy.quote_volume_24h sell.quote_volume_24h;
    buy_funding_rate = fund.buy_funding_rate;
    sell_funding_rate = fund.sell_funding_rate;
    buy_next_funding = fund.buy_next_funding_time;
    sell_next_funding = fund.sell_next_funding_time;
  }

  -- What follows a positive spread: the funding manager, and its verdict on the route.
  abbrev pub judged :
      ArbitrageSignal D
      → PriceState D
      → PriceState D
      → Option (FundingManager D)
      → (FundingManager D → ArbResult D)
      → Option (ArbitrageSignal D)
  judged s buy sell none verdict = none
  judged s buy sell (some fm) verdict =
      if not (verdict fm).is_profitable then none else some (renewed s buy sell (verdict fm))

  unfoldable pub cross_now :
      Deps D → Time → ArbitrageSignal D → PriceState D → PriceState D → Option (ArbitrageSignal D)
  cross_now deps now s buy sell =
      let spread = net_of_fees deps.config s.buy_exchange buy.ask s.sell_exchange sell.bid in
      if not (is_positive buy.ask) || not (is_positive sell.bid)
      then none
      else if not (is_positive spread)
      then none
      else judged s buy sell deps.funding (λ fm.
        evaluate_futures_pair fm s.buy_exchange s.symbol s.sell_exchange s.symbol spread now)

  unfoldable pub intra_now :
      Deps D → Time → ArbitrageSignal D → PriceState D → PriceState D → Option (ArbitrageSignal D)
  intra_now deps now s spot fut =
      let spread = net_of_fees deps.config s.buy_exchange spot.ask s.sell_exchange fut.bid in
      if not (greater_than fut.bid spot.ask)
      then none
      else if not (is_positive spread)
      then none
      else judged s spot fut deps.funding
          (λ fm. evaluate_spot_futures fm s.buy_exchange s.symbol spread now)

  abbrev pub if_fresh :
      Deps D
      → Time
      → Option (PriceState D)
      → Option (PriceState D)
      → (PriceState D → PriceState D → Option (ArbitrageSignal D))
      → Option (ArbitrageSignal D)
  if_fresh deps now none sell act = none
  if_fresh deps now (some buy) none act = none
  if_fresh deps now (some buy) (some sell) act =
      if not (fresh (some buy) now deps.price_ttl) || not (fresh (some sell) now deps.price_ttl)
      then none
      else act buy sell

  abbrev pub is_cross_route : ArbitrageSignal D → Bool
  is_cross_route s =
      (s.spread_type == cross_exchange)
      && ((s.buy_market == market_type_futures) && (s.sell_market == market_type_futures))

  abbrev pub is_intra_route : ArbitrageSignal D → Bool
  is_intra_route s =
      (s.spread_type == intra_exchange)
      && ((s.buy_market == market_type_spot)
          && ((s.sell_market == market_type_futures) && (s.buy_exchange == s.sell_exchange)))

  unfoldable pub revalidate_in :
      Deps D → Time → ArbitrageSignal D → Option (Book D) → Option (ArbitrageSignal D)
  revalidate_in deps now s none = none
  revalidate_in deps now s (some book) =
      if is_cross_route s
      then if_fresh deps now (price_of book s.buy_exchange market_type_futures)
          (price_of book s.sell_exchange market_type_futures) (cross_now deps now s)
      else if is_intra_route s
      then if_fresh deps now (price_of book s.buy_exchange market_type_spot)
          (price_of book s.buy_exchange market_type_futures) (intra_now deps now s)
      else none

  unfoldable pub revalidate_signal :
      (Text → ℕ) → Time → ShardedAggregator D → ArbitrageSignal D → Option (ArbitrageSignal D)
  revalidate_signal crc32 now sa s =
      revalidate_in sa.deps now s
        (lookup (normalize_symbol s.symbol) (shard_at sa.shards (shard_for crc32 s.symbol)).prices)
