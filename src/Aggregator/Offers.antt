-- ===== src/Aggregator/Offers.antt =====
-- What holds of the routes that crossCandidates and intraCandidate of sharded_aggregator.go offer.
use crypto_screener.Base.{
  Bool, true, false, not, List, ◌≡◌, refl, arith, Option, none, some, inl, inr, Bool-cases, All,
  OnSome, OnSome-if,
}
use crypto_screener.Base.Eq.{text_eq}
use crypto_screener.Base.Text.{Text}
use crypto_screener.Base.Time.{Time}
use crypto_screener.Decimal.{
  Decimal, decimal_zero, less_than, is_positive, min_decimal, Le, Le_trans,
}
use crypto_screener.Domain.Market.{
  MarketType, SpreadType, SpreadEvent, intra_exchange, market_type_futures, market_type_spot,
}
use crypto_screener.Funding.{FundingManager, FundingConfig, ArbResult}
use crypto_screener.Funding.Evaluate.{evaluate_spot_futures}
use crypto_screener.Funding.Evaluate.FailClosed.{evaluate_spot_futures_sound}
use crypto_screener.Aggregator.{PriceState, Book, Deps, fresh}
use crypto_screener.Aggregator.Candidates.{
  price_of, net_of_fees, route_event, intra_route, intra_fresh, intra_candidate, cons_some,
  if_profitable, with_funding,
}

pub not-false : (b : Bool) → not b ≡ false → b ≡ true
not-false true h = refl
not-false false h = cc

module _ {D : Type 0} ⦃dec : Decimal D⦄ where
  -- No funding configuration asks for a negative spread, which Validate sees to.
  pub record HasFloor (deps : Deps D) : Type 0 where
    pub floor :
        (fm : FundingManager D) (p : FundingConfig D)
        → deps.funding ≡ some fm
        → fm.config ≡ some p
        → Le decimal_zero p.min_spread

  -- A fresh price of the book.
  abbrev pub Quoted : Deps D → Book D → Time → Text → MarketType → PriceState D → Type 0
  Quoted deps book now exchange market s =
      (price_of book exchange market ≡ some s) × (fresh (some s) now deps.price_ttl ≡ true)

  pub record IsOffer (deps : Deps D) (book : Book D) (symbol : Text) (now : Time)
      (ev : SpreadEvent D) : Type 0 where
    pub symbol_same : ev.symbol ≡ symbol
    pub dated : ev.timestamp ≡ now
    pub spread_nonneg : Le decimal_zero ev.spread
    pub buy_leg :
        (s : PriceState D) × Quoted deps book now ev.buy_exchange ev.buy_market s
        × (s.ask ≡ ev.buy_ask)
    pub sell_leg :
        (s : PriceState D) × Quoted deps book now ev.sell_exchange ev.sell_market s
        × (s.bid ≡ ev.sell_bid)
    pub backed :
        (buy sell : PriceState D) × Quoted deps book now ev.buy_exchange ev.buy_market buy
        × Quoted deps book now ev.sell_exchange ev.sell_market sell
        × (ev.quote_volume ≡ min_decimal buy.quote_volume_24h sell.quote_volume_24h)
    pub priced : less_than ev.buy_ask ev.sell_bid ≡ true
    pub net_positive :
        is_positive
          (net_of_fees deps.config ev.buy_exchange ev.buy_ask ev.sell_exchange ev.sell_bid)
        ≡ true

  pub All-cons_some :
      (P : SpreadEvent D → Type 0) (o : Option (SpreadEvent D)) (evs : List (SpreadEvent D))
      → OnSome P o
      → All P evs
      → All P (cons_some o evs)
  All-cons_some P none evs h hs = hs
  All-cons_some P (some ev) evs h hs = (h, hs)

  pub OnSome-if_profitable :
      (P : SpreadEvent D → Type 0) (fund : ArbResult D) (ev : SpreadEvent D)
      → (fund.is_profitable ≡ true → P ev)
      → OnSome P (if_profitable fund ev)
  OnSome-if_profitable P fund ev h = elim (Bool-cases fund.is_profitable) [
    | inl e ↦ rw e (h e)
    | inr e ↦ rw e tt
  ]

  pub OnSome-with_funding :
      (P : SpreadEvent D → Type 0) (o : Option (FundingManager D))
      (offer : FundingManager D → Option (SpreadEvent D))
      → ((fm : FundingManager D) → o ≡ some fm → OnSome P (offer fm))
      → OnSome P (with_funding o offer)
  OnSome-with_funding P none offer h = tt
  OnSome-with_funding P (some fm) offer h = h fm refl

  module _ (deps : Deps D) (floor : HasFloor deps) (book : Book D) (symbol : Text)
      (now : Time) where
    abbrev Offer : SpreadEvent D → Type 0
    Offer = IsOffer deps book symbol now

    -- The event of a route, once its verdict is known.
    pub route_event-Offer :
        (kind : SpreadType) (buy_ex sell_ex : Text) (buy_market : MarketType)
        (buy sell : PriceState D) (fund : ArbResult D)
        → Quoted deps book now buy_ex buy_market buy
        → Quoted deps book now sell_ex market_type_futures sell
        → less_than buy.ask sell.bid ≡ true
        → is_positive (net_of_fees deps.config buy_ex buy.ask sell_ex sell.bid) ≡ true
        → Le decimal_zero fund.net_spread
        → Offer (route_event kind symbol buy_ex sell_ex buy_market buy sell fund now)
    unfolding route_event
    route_event-Offer kind buy_ex sell_ex buy_market buy sell fund b s below net spread = record {
      symbol_same = refl;
      dated = refl;
      spread_nonneg = spread;
      buy_leg = (buy, b, refl);
      sell_leg = (sell, s, refl);
      backed = (buy, sell, b, s, refl);
      priced = below;
      net_positive = net;
    }

    intra_route-Offer :
        (exchange : Text) (spot fut : PriceState D)
        → Quoted deps book now exchange market_type_spot spot
        → Quoted deps book now exchange market_type_futures fut
        → OnSome Offer (intra_route deps exchange symbol now spot fut)
    unfolding intra_route
    intra_route-Offer exchange spot fut b s = OnSome-if Offer _ _ λ below.
        OnSome-if Offer _ _ λ net. OnSome-with_funding Offer deps.funding _ λ fm managed.
          let spread = net_of_fees deps.config exchange spot.ask exchange fut.bid in
          let fund = evaluate_spot_futures fm exchange symbol spread now in
          OnSome-if_profitable Offer fund _ λ worth.
            let (p, configured, verdict) =
              evaluate_spot_futures_sound fm exchange symbol spread now worth in
            route_event-Offer intra_exchange exchange exchange market_type_spot spot fut fund b s
              (not-false _ below) (not-false _ net)
              (Le_trans decimal_zero p.min_spread _ (floor.floor fm p managed configured)
                verdict.enough)

    intra_fresh-Offer :
        (exchange : Text) (spot fut : Option (PriceState D))
        → price_of book exchange market_type_spot ≡ spot
        → price_of book exchange market_type_futures ≡ fut
        → OnSome Offer (intra_fresh deps exchange symbol now spot fut)
    intra_fresh-Offer exchange none fut b s = tt
    intra_fresh-Offer exchange (some spot) none b s = tt
    intra_fresh-Offer exchange (some spot) (some fut) b s =
        OnSome-if Offer _ _
          λ live. intra_route-Offer exchange spot fut (b, ground arith) (s, ground arith)

    -- A route between the two markets of an exchange, if there is one on offer, buys spot at a
    -- fresh ask and sells the future at a fresh, higher bid, and carries the smaller of their two
    -- day's volumes; the spread after both fees is positive and the spread after fees and funding
    -- is not negative, provided that no funding configuration asks for a negative spread.
    pub intra_candidate-Offer :
        (exchange : Text) → OnSome Offer (intra_candidate deps book exchange symbol now)
    unfolding intra_candidate
    intra_candidate-Offer exchange = intra_fresh-Offer exchange _ _ refl refl
