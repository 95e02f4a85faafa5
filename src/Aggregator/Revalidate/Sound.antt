-- ===== src/Aggregator/Revalidate/Sound.antt =====
-- What RevalidateSignal of sharded_aggregator.go relies on when it returns a signal.
use crypto_screener.Base.{
  ℕ, true, not, ◌||◌, Option, none, some, if◌then◌else◌, ◌≡◌, refl, inl, inr, Bool-cases,
  Option-cases, ap, sym, ◌∙◌, arith, OnSome, OnSome-if, OnSome-some,
}
use crypto_screener.Base.Eq.{text_eq}
use crypto_screener.Base.Map.{lookup}
use crypto_screener.Base.Text.{Text}
use crypto_screener.Base.Time.{Time}
use crypto_screener.Decimal.{Decimal, decimal_zero, is_positive, greater_than, Le, Le_trans}
use crypto_screener.Domain.Market.{
  cross_exchange, intra_exchange, market_type_futures, market_type_spot,
}
use crypto_screener.Domain.Signal.{ArbitrageSignal}
use crypto_screener.Funding.{FundingManager, FundingConfig, ArbResult}
use crypto_screener.Funding.Evaluate.{evaluate_futures_pair, evaluate_spot_futures}
use crypto_screener.Funding.Evaluate.FailClosed.{
  IsPair, IsSpot, evaluate_futures_pair_sound, evaluate_spot_futures_sound,
}
use crypto_screener.Aggregator.{
  PriceState, Book, Deps, ShardedAggregator, fresh, normalize_symbol, shard_for,
}
use crypto_screener.Aggregator.Candidates.{price_of, net_of_fees}
use crypto_screener.Aggregator.Process.{shard_at}
use crypto_screener.Aggregator.Offers.{HasFloor, Quoted, not-false}
use crypto_screener.Aggregator.Revalidate.{
  renewed, judged, cross_now, intra_now, if_fresh, is_cross_route, is_intra_route, revalidate_in,
  revalidate_signal,
}

module _ {D : Type 0} ⦃dec : Decimal D⦄ where
  abbrev pub IsCrossSignal : ArbitrageSignal D → Type 0
  IsCrossSignal s =
      (s.spread_type ≡ cross_exchange)
      × ((s.buy_market ≡ market_type_futures) × (s.sell_market ≡ market_type_futures))

  abbrev pub IsIntraSignal : ArbitrageSignal D → Type 0
  IsIntraSignal s =
      (s.spread_type ≡ intra_exchange)
      × ((s.buy_market ≡ market_type_spot)
          × ((s.sell_market ≡ market_type_futures) × (s.buy_exchange ≡ s.sell_exchange)))

  -- The spread of a signal's route at these prices, after both fees.
  abbrev pub net_at : Deps D → ArbitrageSignal D → PriceState D → PriceState D → D
  net_at deps s buy sell = net_of_fees deps.config s.buy_exchange buy.ask s.sell_exchange sell.bid

  -- The verdict of the funding manager on a signal's own route at these prices, by the kind of the
  -- route: on live records of its legs, under the configuration of the manager.
  pub data IsVerdict (deps : Deps D) (now : Time) (s : ArbitrageSignal D) (buy sell : PriceState D)
      (fund : ArbResult D) : Type 0 where
    cross_verdict :
        (fm : FundingManager D) (p : FundingConfig D)
        → deps.funding ≡ some fm
        → fm.config ≡ some p
        → IsCrossSignal s
        → is_positive buy.ask ≡ true
        → is_positive sell.bid ≡ true
        → IsPair fm p s.buy_exchange s.symbol s.sell_exchange s.symbol
            (net_at deps s buy sell)
            now
            fund
        → IsVerdict deps now s buy sell fund
    intra_verdict :
        (fm : FundingManager D) (p : FundingConfig D)
        → deps.funding ≡ some fm
        → fm.config ≡ some p
        → IsIntraSignal s
        → greater_than sell.bid buy.ask ≡ true
        → IsSpot fm p s.buy_exchange s.symbol (net_at deps s buy sell) now fund
        → IsVerdict deps now s buy sell fund

  -- A signal at fresh prices of its own route.
  pub record IsCurrent (deps : Deps D) (book : Book D) (now : Time) (s s' : ArbitrageSignal D)
      : Type 0 where
    pub buy : PriceState D
    pub sell : PriceState D
    pub fund : ArbResult D
    pub renewed_same : s' ≡ renewed s buy sell fund
    pub buy_leg : Quoted deps book now s.buy_exchange s.buy_market buy
    pub sell_leg : Quoted deps book now s.sell_exchange s.sell_market sell
    pub net_positive : is_positive (net_at deps s buy sell) ≡ true
    pub verdict : IsVerdict deps now s buy sell fund
    pub spread_nonneg : Le decimal_zero s'.peak_spread

  -- Both kinds of verdict reach the configured minimum.
  verdict_nonneg :
      (deps : Deps D) (floor : HasFloor deps) (now : Time) (s : ArbitrageSignal D)
      (buy sell : PriceState D) (fund : ArbResult D)
      → IsVerdict deps now s buy sell fund
      → Le decimal_zero fund.net_spread
  verdict_nonneg deps floor now s buy sell fund (cross_verdict fm p managed configured k a b pair) =
      Le_trans decimal_zero p.min_spread _ (floor.floor fm p managed configured) pair.enough
  verdict_nonneg deps floor now s buy sell fund (intra_verdict fm p managed configured k a spot) =
      Le_trans decimal_zero p.min_spread _ (floor.floor fm p managed configured) spot.enough

  module _ (deps : Deps D) (floor : HasFloor deps) (book : Book D) (now : Time)
      (s : ArbitrageSignal D) where
    abbrev Current : ArbitrageSignal D → Type 0
    Current = IsCurrent deps book now s

    judged-Current :
        (buy sell : PriceState D) (o : Option (FundingManager D))
        (verdict : FundingManager D → ArbResult D)
        → Quoted deps book now s.buy_exchange s.buy_market buy
        → Quoted deps book now s.sell_exchange s.sell_market sell
        → is_positive (net_at deps s buy sell) ≡ true
        → ((fm : FundingManager D)
            → o ≡ some fm
            → (verdict fm).is_profitable ≡ true
            → IsVerdict deps now s buy sell (verdict fm))
        → OnSome Current (judged s buy sell o verdict)
    judged-Current buy sell none verdict b q net proven = tt
    judged-Current buy sell (some fm) verdict b q net proven =
        OnSome-if Current (not (verdict fm).is_profitable) _ (λ worth.
          let found = proven fm refl (not-false _ worth) in
          record {
            buy = buy;
            sell = sell;
            fund = verdict fm;
            renewed_same = refl;
            buy_leg = b;
            sell_leg = q;
            net_positive = net;
            verdict = found;
            spread_nonneg = verdict_nonneg deps floor now s buy sell (verdict fm) found;
          })

    cross_now-Current :
        (buy sell : PriceState D)
        → IsCrossSignal s
        → Quoted deps book now s.buy_exchange s.buy_market buy
        → Quoted deps book now s.sell_exchange s.sell_market sell
        → OnSome Current (cross_now deps now s buy sell)
    unfolding cross_now
    cross_now-Current buy sell kind b q =
        let spread = net_of_fees deps.config s.buy_exchange buy.ask s.sell_exchange sell.bid in
        let verdict : FundingManager D → ArbResult D = λ fm.
          evaluate_futures_pair fm s.buy_exchange s.symbol s.sell_exchange s.symbol spread now in
        let offer = judged s buy sell deps.funding verdict in
        OnSome-if Current (not (is_positive buy.ask) || not (is_positive sell.bid))
          (if not (is_positive spread) then none else offer)
          λ priced. OnSome-if Current (not (is_positive spread)) offer λ net.
            judged-Current buy sell deps.funding verdict b q (not-false _ net) (λ fm managed worth.
              let (p, configured, pair) =
                evaluate_futures_pair_sound fm s.buy_exchange s.symbol s.sell_exchange s.symbol
                  spread now worth in
              cross_verdict fm p managed configured kind (ground (arith, priced))
                (ground (arith, priced)) pair)

    intra_now-Current :
        (spot fut : PriceState D)
        → IsIntraSignal s
        → Quoted deps book now s.buy_exchange s.buy_market spot
        → Quoted deps book now s.sell_exchange s.sell_market fut
        → OnSome Current (intra_now deps now s spot fut)
    unfolding intra_now
    intra_now-Current spot fut kind b q =
        let spread = net_of_fees deps.config s.buy_exchange spot.ask s.sell_exchange fut.bid in
        let verdict : FundingManager D → ArbResult D =
          λ fm. evaluate_spot_futures fm s.buy_exchange s.symbol spread now in
        let offer = judged s spot fut deps.funding verdict in
        OnSome-if Current (not (greater_than fut.bid spot.ask))
          (if not (is_positive spread) then none else offer)
          λ priced. OnSome-if Current (not (is_positive spread)) offer λ net.
            judged-Current spot fut deps.funding verdict b q (not-false _ net) (λ fm managed worth.
              let (p, configured, found) =
                evaluate_spot_futures_sound fm s.buy_exchange s.symbol spread now worth in
              intra_verdict fm p managed configured kind (not-false _ priced) found)

    if_fresh-Current :
        (buy sell : Option (PriceState D))
        (act : PriceState D → PriceState D → Option (ArbitrageSignal D))
        → price_of book s.buy_exchange s.buy_market ≡ buy
        → price_of book s.sell_exchange s.sell_market ≡ sell
        → ((b q : PriceState D)
            → Quoted deps book now s.buy_exchange s.buy_market b
            → Quoted deps book now s.sell_exchange s.sell_market q
            → OnSome Current (act b q))
        → OnSome Current (if_fresh deps now buy sell act)
    if_fresh-Current none sell act b q h = tt
    if_fresh-Current (some buy) none act b q h = tt
    if_fresh-Current (some buy) (some sell) act b q h =
        OnSome-if Current
          (not (fresh (some buy) now deps.price_ttl) || not (fresh (some sell) now deps.price_ttl))
          (act buy sell) (λ live. h buy sell (b, ground arith) (q, ground arith))

    revalidate_in-Current : OnSome Current (revalidate_in deps now s (some book))
    unfolding revalidate_in
    revalidate_in-Current = elim (Bool-cases (is_cross_route s)) [
      | inl cross ↦
          let b : s.buy_market ≡ market_type_futures =
            ground (arith, cross, text_eq.same_iff s.buy_market market_type_futures) in
          let q : s.sell_market ≡ market_type_futures =
            ground (arith, cross, text_eq.same_iff s.sell_market market_type_futures) in
          let kind : s.spread_type ≡ cross_exchange =
            ground (arith, cross, text_eq.same_iff s.spread_type cross_exchange) in
          rw cross (
            if_fresh-Current _ _ (cross_now deps now s) (ap (price_of book s.buy_exchange) b)
              (ap (price_of book s.sell_exchange) q)
              (λ buy sell. cross_now-Current buy sell (kind, (b, q))))
      | inr other ↦ elim (Bool-cases (is_intra_route s)) [
        | inl intra ↦
            let b : s.buy_market ≡ market_type_spot =
              ground (arith, intra, text_eq.same_iff s.buy_market market_type_spot) in
            let q : s.sell_market ≡ market_type_futures =
              ground (arith, intra, text_eq.same_iff s.sell_market market_type_futures) in
            let one : s.buy_exchange ≡ s.sell_exchange =
              ground (arith, intra, text_eq.same_iff s.buy_exchange s.sell_exchange) in
            let kind : s.spread_type ≡ intra_exchange =
              ground (arith, intra, text_eq.same_iff s.spread_type intra_exchange) in
            rw (other, intra)
              (if_fresh-Current _ _ (intra_now deps now s) (ap (price_of book s.buy_exchange) b)
                (ap (price_of book s.sell_exchange) q
                  ∙ ap (λ x. price_of book x market_type_futures) (sym one))
                (λ spot fut. intra_now-Current spot fut (kind, (b, (q, one)))))
        | inr neither ↦ rw (other, neither) tt
      ]
    ]

  -- A signal that is revalidated is the signal with the spread, volume and funding of its own route
  -- at fresh prices of the book of its symbol. The spread after fees at these prices is positive,
  -- and the verdict on the route is that of the funding manager, under its configuration, by the
  -- kind of the route: two futures on live records of the buying and the selling leg, or spot
  -- against a future, with a higher bid, on a live record of the future. The new spread is the
  -- spread plus the rate of the selling leg less that of the buying leg where this is a future,
  -- reaches the configured minimum, and is not negative, provided that no funding configuration
  -- asks for a negative spread.
  pub revalidate_signal_sound :
      (crc32 : Text → ℕ) (now : Time) (sa : ShardedAggregator D) (s s' : ArbitrageSignal D)
      → HasFloor sa.deps
      → revalidate_signal crc32 now sa s ≡ some s'
      → (book : Book D) × ((lookup
              (normalize_symbol s.symbol)
              (shard_at sa.shards (shard_for crc32 s.symbol)).prices
            ≡ some book)
          × IsCurrent sa.deps book now s s')
  unfolding revalidate_signal revalidate_in
  revalidate_signal_sound crc32 now sa s s' floor h =
      elim (Option-cases (
        lookup (normalize_symbol s.symbol)
          (shard_at sa.shards (shard_for crc32 s.symbol)).prices)) [
            | inl gone ↦ cc (sym h ∙ ap (revalidate_in sa.deps now s) gone)
            | inr (book, found) ↦ (
              book,
              (
                found,
                OnSome-some (IsCurrent sa.deps book now s) _ s'
                    (revalidate_in-Current sa.deps floor book now s)
                    (sym (ap (revalidate_in sa.deps now s) found) ∙ h),
              ),
            )
          ]
