-- ===== src/Aggregator/Eligible.antt =====
-- symbolMayPassVolume and routeVolumeEligible of sharded_aggregator.go: whether some user can want
-- a symbol or a route. `clock` is what the volume engine's clock says.
use crypto_screener.Base.{Bool, true, false, not, ◌||◌, ◌&&◌, [], ◌∷◌, none, some, if◌then◌else◌}
use crypto_screener.Base.Text.{Text}
use crypto_screener.Base.Time.{Time, Duration}
use crypto_screener.Decimal.{
  Decimal, decimal_zero, greater_than, greater_than_or_equal, is_zero_decimal,
}
use crypto_screener.Domain.Market.{MarketType, SpreadEvent}
use crypto_screener.Domain.User.{User, is_24h, range_users}
use crypto_screener.Volume.Estimate.{
  estimate_market_volume, get_route_volume, get_route_volume_estimate,
}
use crypto_screener.Aggregator.{PriceState, Markets, Book, Deps, fresh}

abbrev pub visit : Bool → Bool → Bool × Bool
visit hit eligible = if hit then (true, false) else (eligible, true)

module _ {D : Type 0} ⦃dec : Decimal D⦄ where
  abbrev pub larger : D → D → D
  larger best v = if greater_than v best then v else best

  -- The loop over the markets of one exchange: `measure` is what a fresh price counts for.
  unfoldable pub max_in_markets :
      (Text → MarketType → PriceState D → D) → Time → Duration → Text → Markets D → D → D
  max_in_markets measure now ttl ex [] best = best
  max_in_markets measure now ttl ex ((market, st) ∷ rest) best =
      max_in_markets measure now ttl ex rest
        (if fresh (some st) now ttl then larger best (measure ex market st) else best)

  unfoldable pub max_in_book :
      (Text → MarketType → PriceState D → D) → Time → Duration → Book D → D → D
  max_in_book measure now ttl [] best = best
  max_in_book measure now ttl ((ex, markets) ∷ rest) best =
      max_in_book measure now ttl rest (max_in_markets measure now ttl ex markets best)

  -- The volume that a user of this time frame sees on the best leg of the symbol.
  unfoldable pub best_leg_volume : Deps D → Time → Book D → Text → Time → User D → D
  best_leg_volume deps clock book symbol now u =
      if is_24h u.timeframe
      then max_in_book (λ ex market st. st.quote_volume_24h) now deps.price_ttl book decimal_zero
      else elim deps.volume [
        | none ↦ decimal_zero
        | some v ↦
            max_in_book
              (λ ex market st.
                (estimate_market_volume v clock ex symbol market u.timeframe now).volume)
              now deps.price_ttl book decimal_zero
      ]

  unfoldable pub symbol_may_pass_volume : Deps D → Time → Book D → Text → Time → Bool
  symbol_may_pass_volume deps clock book symbol now = elim deps.users [
    | none ↦ true
    | some users ↦
        range_users
          (λ u eligible.
            visit
              (is_zero_decimal u.min_volume
                || greater_than_or_equal (best_leg_volume deps clock book symbol now u)
                    u.min_volume)
              eligible)
          users false
  ]

  -- The volume of a route in a user's time frame. (Go asks a second time, for the estimate that
  -- this volume already is.)
  unfoldable pub route_volume_for : Deps D → Time → SpreadEvent D → User D → D
  route_volume_for deps clock ev u =
      if is_24h u.timeframe then ev.quote_volume else elim deps.volume [
        | none ↦ decimal_zero
        | some v ↦
            get_route_volume v clock ev.buy_exchange ev.buy_market ev.sell_exchange ev.sell_market
              ev.symbol u.timeframe ev.timestamp
      ]

  unfoldable pub estimate_satisfies : Deps D → Time → SpreadEvent D → User D → Bool
  estimate_satisfies deps clock ev u = elim deps.volume [
    | none ↦ false
    | some v ↦
        not (is_24h u.timeframe)
        && greater_than_or_equal
            (get_route_volume_estimate v clock ev.buy_exchange ev.buy_market ev.sell_exchange
              ev.sell_market ev.symbol u.timeframe ev.timestamp).volume
            u.min_volume
  ]

  unfoldable pub route_volume_eligible : Deps D → Time → SpreadEvent D → Bool
  route_volume_eligible deps clock ev = elim deps.users [
    | none ↦ true
    | some users ↦
        range_users
          (λ u eligible.
            visit
              (greater_than_or_equal (route_volume_for deps clock ev u) u.min_volume
                || estimate_satisfies deps clock ev u)
              eligible)
          users false
  ]
