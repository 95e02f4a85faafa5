-- ===== src/Aggregator/Prefilter.antt =====
-- symbolMayPassVolume of sharded_aggregator.go against routeVolumeEligible: the cheap test on a
-- symbol loses no route that the test on the route accepts.
use mathlib.Core.Option.{some-injective}
use crypto_screener.Base.{
  ℕ, Bool, true, false, ◌||◌, [], ◌∷◌, some, if◌then◌else◌, ◌≡◌, refl, sym, ◌∙◌, subst, arith, inl,
  inr, Bool-cases, Option-cases,
}
use crypto_screener.Base.Eq.{text_eq, list_beq, list_beq_iff}
use crypto_screener.Base.Map.{lookup}
use crypto_screener.Base.Text.{Text}
use crypto_screener.Base.Time.{Time, Duration}
use crypto_screener.Decimal.{
  Decimal, decimal_zero, greater_than_or_equal, is_zero_decimal, Le, Le_refl, Le_trans, below_asym,
  min_decimal_le,
}
use crypto_screener.Domain.Market.{MarketType, SpreadEvent}
use crypto_screener.Domain.User.{User, UserManager, range_users, is_24h}
use crypto_screener.Volume.Estimate.{
  VolumeEstimate, combine_legs, estimate_market_volume, get_route_volume_estimate,
}
use crypto_screener.Aggregator.Offers.{IsOffer}
use crypto_screener.Aggregator.{PriceState, Markets, Book, fresh, Deps}
use crypto_screener.Aggregator.Candidates.{price_of}
use crypto_screener.Aggregator.Eligible.{
  max_in_markets, max_in_book, larger, visit, best_leg_volume, route_volume_for, estimate_satisfies,
  symbol_may_pass_volume, route_volume_eligible,
}

module _ {D : Type 0} ⦃dec : Decimal D⦄ where
  larger-Le : (best v : D) → Le best (larger best v) × Le v (larger best v)
  larger-Le best v = ground (arith, below_asym best v, Le_refl best, Le_refl v)

  module _ (measure : Text → MarketType → PriceState D → D) (now : Time) (ttl : Duration) where
    abbrev next : Text → MarketType → PriceState D → D → D
    next ex market st best =
        if fresh (some st) now ttl then larger best (measure ex market st) else best

    next-Le :
        (ex : Text) (market : MarketType) (st : PriceState D) (best : D)
        → Le best (next ex market st best)
    next-Le ex market st best = elim (Bool-cases (fresh (some st) now ttl)) [
      | inl live ↦ rw live (larger-Le best (measure ex market st)).0
      | inr stale ↦ rw stale (Le_refl best)
    ]

    markets_grow :
        (ex : Text) (ms : Markets D) (best : D)
        → Le best (max_in_markets measure now ttl ex ms best)
    unfolding max_in_markets
    markets_grow ex [] best = Le_refl best
    markets_grow ex ((market, st) ∷ ms) best =
        Le_trans best (next ex market st best) _ (next-Le ex market st best)
          (markets_grow ex ms (next ex market st best))

    markets_cover :
        (ex : Text) (ms : Markets D) (best : D) (market : MarketType) (st : PriceState D)
        → lookup market ms ≡ some st
        → fresh (some st) now ttl ≡ true
        → Le (measure ex market st) (max_in_markets measure now ttl ex ms best)
    unfolding max_in_markets lookup
    markets_cover ex [] best market st h live = cc h
    markets_cover ex ((m, s) ∷ ms) best market st h live = elim (Bool-cases (list_beq m market)) [
      | inr miss ↦ markets_cover ex ms (next ex m s best) market st (rw miss at h) live
      | inl hit ↦
          let same = (list_beq_iff m market).0 hit in
          let value = some-injective s st (rw hit at h) in
          Le_trans (measure ex market st) (next ex market st best) _
            (rw live (larger-Le best (measure ex market st)).1)
            (subst
              (λ x.
                Le (next ex market st best)
                  (max_in_markets measure now ttl ex ms (next ex m x best)))
              (sym value)
              (subst
                (λ x.
                  Le (next ex x st best) (max_in_markets measure now ttl ex ms (next ex m st best)))
                same (markets_grow ex ms (next ex m st best))))
    ]

    book_grow : (book : Book D) (best : D) → Le best (max_in_book measure now ttl book best)
    unfolding max_in_book
    book_grow [] best = Le_refl best
    book_grow ((ex, ms) ∷ book) best =
        Le_trans best (max_in_markets measure now ttl ex ms best) _ (markets_grow ex ms best)
          (book_grow book (max_in_markets measure now ttl ex ms best))

    book_cover :
        (book : Book D) (best : D) (ex : Text) (market : MarketType) (st : PriceState D)
        → price_of book ex market ≡ some st
        → fresh (some st) now ttl ≡ true
        → Le (measure ex market st) (max_in_book measure now ttl book best)
    unfolding max_in_book lookup price_of
    book_cover [] best ex market st h live = cc h
    book_cover ((e, ms) ∷ book) best ex market st h live = elim (Bool-cases (list_beq e ex)) [
      | inr miss ↦
          book_cover book (max_in_markets measure now ttl e ms best) ex market st (rw miss at h)
            live
      | inl hit ↦
          Le_trans (measure ex market st) (max_in_markets measure now ttl e ms best) _
            (subst (λ x. Le (measure x market st) (max_in_markets measure now ttl e ms best))
              ((list_beq_iff e ex).0 hit) (markets_cover e ms best market st (rw hit at h) live))
            (book_grow book (max_in_markets measure now ttl e ms best))
    ]

  -- Where each user that the one test accepts the other accepts, so does the visit of all.
  visit_first :
      (f : User D → Bool) (key : ℕ) (u : User D) (us : UserManager D)
      → range_users (λ v eligible. visit (f v) eligible) ((key, u) ∷ us) false
        ≡ (if f u then true else range_users (λ v eligible. visit (f v) eligible) us false)
  unfolding range_users
  visit_first f key u us = ground arith

  visit_implies :
      (f g : User D → Bool) (us : UserManager D)
      → ((u : User D) → f u ≡ true → g u ≡ true)
      → range_users (λ u eligible. visit (f u) eligible) us false ≡ true
      → range_users (λ u eligible. visit (g u) eligible) us false ≡ true
  unfolding range_users
  visit_implies f g [] h k = k
  visit_implies f g ((key, u) ∷ us) h k =
      let k' = sym (visit_first f key u us) ∙ k in
      visit_first g key u us ∙ elim (Bool-cases (g u)) [
        | inl wanted ↦ rw wanted refl
        | inr idle ↦ elim (Bool-cases (f u)) [
          | inl hit ↦ cc (h u hit, idle)
          | inr miss ↦ rw idle (visit_implies f g us h (rw miss at k'))
        ]
      ]

  combine_below :
      (a b : VolumeEstimate D) (best : D)
      → Le decimal_zero best
      → Le a.volume best
      → Le (combine_legs a b).volume best
  unfolding combine_legs
  combine_below a b best z l =
      ground (arith, Le_trans b.volume a.volume best, below_asym b.volume a.volume)

  module _ (deps : Deps D) (clock : Time) (book : Book D) (symbol : Text) (now : Time)
      (ev : SpreadEvent D) (offer : IsOffer deps book symbol now ev) where
    -- What a route is worth in a user's time frame is at most what the best leg is worth in it.
    volume-Le :
        (u : User D)
        → Le (route_volume_for deps clock ev u) (best_leg_volume deps clock book symbol now u)
    unfolding route_volume_for best_leg_volume get_route_volume_estimate
    volume-Le u =
        let (buy, sell, (found, live), quoted, volume) = offer.backed in
        elim (Bool-cases (is_24h u.timeframe)) [
          | inl day ↦
              rw (day, volume)
                (Le_trans _ buy.quote_volume_24h _
                  (min_decimal_le buy.quote_volume_24h sell.quote_volume_24h).0
                  (book_cover (λ ex market st. st.quote_volume_24h) now deps.price_ttl book
                    decimal_zero ev.buy_exchange ev.buy_market buy found live))
          | inr window ↦ elim (Option-cases deps.volume) [
            | inl e ↦ rw (window, e) (Le_refl {D = D} decimal_zero)
            | inr (v, e) ↦
                let measure : Text → MarketType → PriceState D → D = λ ex market st.
                  (estimate_market_volume v clock ex symbol market u.timeframe now).volume in
                rw (window, e, offer.symbol_same, offer.dated)
                  (combine_below
                    (estimate_market_volume v clock ev.buy_exchange symbol ev.buy_market u.timeframe
                      now)
                    (estimate_market_volume v clock ev.sell_exchange symbol ev.sell_market
                      u.timeframe now)
                    _ (book_grow measure now deps.price_ttl book decimal_zero)
                    (book_cover measure now deps.price_ttl book decimal_zero ev.buy_exchange
                      ev.buy_market buy found live))
          ]
        ]

    -- The second test of routeVolumeEligible asks for the same volume again.
    estimate-volume :
        (u : User D)
        → estimate_satisfies deps clock ev u ≡ true
        → Le u.min_volume (route_volume_for deps clock ev u)
    unfolding estimate_satisfies route_volume_for
    estimate-volume u h = elim (Bool-cases (is_24h u.timeframe)) [
      | inl day ↦ elim (Option-cases deps.volume) [
        | inl e ↦ cc (rw e at h)
        | inr (v, e) ↦ cc (rw (e, day) at h)
      ]
      | inr window ↦ elim (Option-cases deps.volume) [
        | inl e ↦ cc (rw e at h)
        | inr (v, e) ↦ let h' = rw (e, window) at h in rw (window, e) (ground arith)
      ]
    ]

    accepted :
        (u : User D)
        → (greater_than_or_equal (route_volume_for deps clock ev u) u.min_volume
            || estimate_satisfies deps clock ev u)
          ≡ true
        → (is_zero_decimal u.min_volume
            || greater_than_or_equal (best_leg_volume deps clock book symbol now u) u.min_volume)
          ≡ true
    accepted u h =
        let le =
          Le_trans u.min_volume (route_volume_for deps clock ev u)
            (best_leg_volume deps clock book symbol now u) in
        ground (arith, estimate-volume u, volume-Le u, le)

    -- The cheap volume test on a symbol, before any route is looked for, loses no route: if a route
    -- on offer has enough volume for some user, then the symbol passes the test. The route is on
    -- offer from the same prices, symbol and time, and the volume engine is the same in both tests.
    pub prefilter_keeps :
        route_volume_eligible deps clock ev ≡ true
        → symbol_may_pass_volume deps clock book symbol now ≡ true
    unfolding route_volume_eligible symbol_may_pass_volume route_volume_for estimate_satisfies
        best_leg_volume
    prefilter_keeps h = elim (Option-cases deps.users) [
      | inl e ↦ rw e refl
      | inr (us, e) ↦ rw e (visit_implies _ _ us accepted (rw e at h))
    ]
