-- ===== src/Aggregator/Candidates.antt =====
-- crossCandidates and intraCandidate of sharded_aggregator.go: the routes that the current prices
-- of a symbol offer.
use crypto_screener.Base.{not, ◌||◌, List, [], ◌∷◌, ◌++◌, Option, none, some, if◌then◌else◌, map}
use crypto_screener.Base.Eq.{text_eq}
use crypto_screener.Base.Map.{lookup}
use crypto_screener.Base.Text.{Text}
use crypto_screener.Base.Time.{Time}
use crypto_screener.Decimal.{Decimal, sub, div, less_than, greater_than, is_positive, min_decimal}
use crypto_screener.Domain.Market.{
  MarketType, SpreadEvent, SpreadType, unset, cross_exchange, intra_exchange, market_type_spot,
  market_type_futures,
}
use crypto_screener.Domain.Config.{ScreenerConfig, fee_for}
use crypto_screener.Funding.{FundingManager, ArbResult}
use crypto_screener.Funding.Evaluate.{evaluate_futures_pair, evaluate_spot_futures}
use crypto_screener.Aggregator.{PriceState, Markets, Book, Deps, fresh}

module _ {D : Type 0} where
  -- byExchange[exchange][market]
  abbrev pub price_in : Option (Markets D) → MarketType → Option (PriceState D)
  price_in none market = none
  price_in (some markets) market = lookup market markets

  unfoldable pub price_of : Book D → Text → MarketType → Option (PriceState D)
  price_of book exchange market = price_in (lookup exchange book) market

  abbrev pub cons_some : Option (SpreadEvent D) → List (SpreadEvent D) → List (SpreadEvent D)
  cons_some none events = events
  cons_some (some e) events = e ∷ events

module _ {D : Type 0} ⦃dec : Decimal D⦄ where
  -- The spread between two prices, after both taker fees.
  unfoldable pub net_of_fees : ScreenerConfig D → Text → D → Text → D → D
  net_of_fees cfg buy_ex buy_ask sell_ex sell_bid =
      sub (sub (div (sub sell_bid buy_ask) buy_ask) (fee_for (some cfg) buy_ex))
        (fee_for (some cfg) sell_ex)

  unfoldable pub route_event :
      SpreadType
      → Text
      → Text
      → Text
      → MarketType
      → PriceState D
      → PriceState D
      → ArbResult D
      → Time
      → SpreadEvent D
  route_event kind symbol buy_ex sell_ex buy_market buy sell fund now = record {
    symbol = symbol;
    spread_type = kind;
    spread = fund.net_spread;
    buy_exchange = buy_ex;
    sell_exchange = sell_ex;
    exchange_a = [];
    exchange_b = [];
    buy_market = buy_market;
    sell_market = market_type_futures;
    buy_ask = buy.ask;
    sell_bid = sell.bid;
    quote_volume = min_decimal buy.quote_volume_24h sell.quote_volume_24h;
    buy_funding_rate = fund.buy_funding_rate;
    sell_funding_rate = fund.sell_funding_rate;
    buy_next_funding = fund.buy_next_funding_time;
    sell_next_funding = fund.sell_next_funding_time;
    timestamp = now;
    lifecycle = unset;
  }

  abbrev pub if_profitable : ArbResult D → SpreadEvent D → Option (SpreadEvent D)
  if_profitable fund ev = if fund.is_profitable then some ev else none

  -- A nil manager offers nothing.
  abbrev pub with_funding :
      Option (FundingManager D)
      → (FundingManager D → Option (SpreadEvent D))
      → Option (SpreadEvent D)
  with_funding none offer = none
  with_funding (some fm) offer = offer fm

  -- The body of the inner loop once it is known which side buys.
  unfoldable pub cross_route :
      Deps D → Text → Time → Text → PriceState D → Text → PriceState D → Option (SpreadEvent D)
  cross_route deps symbol now buy_ex buy sell_ex sell =
      let spread = net_of_fees deps.config buy_ex buy.ask sell_ex sell.bid in
      if not (is_positive spread)
      then none
      else with_funding deps.funding λ fm.
        let fund = evaluate_futures_pair fm buy_ex symbol sell_ex symbol spread now in
        if_profitable fund
          (route_event cross_exchange symbol buy_ex sell_ex market_type_futures buy sell fund now)

  unfoldable pub cross_pair :
      Deps D → Text → Time → Text → PriceState D → Text → PriceState D → Option (SpreadEvent D)
  cross_pair deps symbol now left_ex left right_ex right =
      if less_than left.ask right.bid
      then cross_route deps symbol now left_ex left right_ex right
      else if less_than right.ask left.bid
      then cross_route deps symbol now right_ex right left_ex left
      else none

  -- A pair of exchanges, of which one may have no fresh futures price.
  abbrev pub cross_fresh :
      Deps D
      → Text
      → Time
      → Text
      → Option (PriceState D)
      → Text
      → Option (PriceState D)
      → Option (SpreadEvent D)
  cross_fresh deps symbol now left_ex none right_ex right = none
  cross_fresh deps symbol now left_ex (some left) right_ex none = none
  cross_fresh deps symbol now left_ex (some left) right_ex (some right) =
      cross_pair deps symbol now left_ex left right_ex right

  abbrev pub fresh_futures : Deps D → Book D → Time → Text → Option (PriceState D)
  fresh_futures deps book now exchange =
      let price = price_of book exchange market_type_futures in
      if fresh price now deps.price_ttl then price else none

  -- The inner loop: one exchange against those after it.
  unfoldable pub cross_with :
      Deps D
      → Book D
      → Text
      → Time
      → Text
      → Option (PriceState D)
      → List Text
      → List (SpreadEvent D)
  cross_with deps book symbol now left_ex left [] = []
  cross_with deps book symbol now left_ex left (right_ex ∷ rest) =
      cons_some
        (cross_fresh deps symbol now left_ex left right_ex (fresh_futures deps book now right_ex))
        (cross_with deps book symbol now left_ex left rest)

  unfoldable pub cross_among : Deps D → Book D → Text → Time → List Text → List (SpreadEvent D)
  cross_among deps book symbol now [] = []
  cross_among deps book symbol now (ex ∷ rest) =
      cross_with deps book symbol now ex (fresh_futures deps book now ex) rest
      ++ cross_among deps book symbol now rest

  unfoldable pub cross_candidates : Deps D → Book D → Text → Time → List (SpreadEvent D)
  cross_candidates deps book symbol now = cross_among deps book symbol now (map (λ e. e.0) book)

  unfoldable pub intra_route :
      Deps D → Text → Text → Time → PriceState D → PriceState D → Option (SpreadEvent D)
  intra_route deps exchange symbol now spot fut =
      let spread = net_of_fees deps.config exchange spot.ask exchange fut.bid in
      if not (greater_than fut.bid spot.ask)
      then none
      else if not (is_positive spread)
      then none
      else with_funding deps.funding λ fm.
        let fund = evaluate_spot_futures fm exchange symbol spread now in
        if_profitable fund
          (route_event intra_exchange symbol exchange exchange market_type_spot spot fut fund now)

  abbrev pub intra_fresh :
      Deps D
      → Text
      → Text
      → Time
      → Option (PriceState D)
      → Option (PriceState D)
      → Option (SpreadEvent D)
  intra_fresh deps exchange symbol now none fut = none
  intra_fresh deps exchange symbol now (some spot) none = none
  intra_fresh deps exchange symbol now (some spot) (some fut) =
      if not (fresh (some spot) now deps.price_ttl) || not (fresh (some fut) now deps.price_ttl)
      then none
      else intra_route deps exchange symbol now spot fut

  unfoldable pub intra_candidate : Deps D → Book D → Text → Text → Time → Option (SpreadEvent D)
  intra_candidate deps book exchange symbol now =
      intra_fresh deps exchange symbol now (price_of book exchange market_type_spot)
        (price_of book exchange market_type_futures)
