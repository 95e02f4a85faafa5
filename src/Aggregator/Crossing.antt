-- ===== src/Aggregator/Crossing.antt =====
-- What holds of every route between two exchanges that crossCandidates of sharded_aggregator.go
-- offers.
use crypto_screener.Base.{
  Bool, true, false, not, List, [], ◌∷◌, ◌≡◌, refl, arith, Option, none, some, if◌then◌else◌, inl,
  inr, Bool-cases, All, All-append, OnSome, OnSome-if, map, ◌≢◌, sym,
}
use crypto_screener.Base.Eq.{text_eq, list_beq_iff}
use crypto_screener.Base.Map.{lookup, has_key, Distinct}
use crypto_screener.Base.Text.{Text}
use crypto_screener.Base.Time.{Time}
use crypto_screener.Decimal.{Decimal, decimal_zero, less_than, is_positive, Le_trans}
use crypto_screener.Domain.Market.{SpreadEvent, cross_exchange, market_type_futures}
use crypto_screener.Funding.{FundingManager, FundingConfig, ArbResult}
use crypto_screener.Funding.Evaluate.{evaluate_futures_pair}
use crypto_screener.Funding.Evaluate.FailClosed.{IsPair, evaluate_futures_pair_sound}
use crypto_screener.Aggregator.Offers.{
  HasFloor, Quoted, IsOffer, not-false, All-cons_some, OnSome-if_profitable, OnSome-with_funding,
  route_event-Offer,
}
use crypto_screener.Aggregator.{PriceState, Book, Deps, fresh}
use crypto_screener.Aggregator.Candidates.{
  price_of, net_of_fees, route_event, cross_route, cross_pair, cross_fresh, cross_with, cross_among,
  cross_candidates, fresh_futures, if_profitable, with_funding,
}

OnSome-either :
    {A : Type 0} (P : A → Type 0) (b : Bool) (x y : Option A)
    → OnSome P x
    → OnSome P y
    → OnSome P (if b then x else y)
OnSome-either P true x y h k = h
OnSome-either P false x y h k = k

module _ {D : Type 0} ⦃dec : Decimal D⦄ where
  -- The funding manager's verdict on the two legs of an event, at the spread after fees of its
  -- prices; it is profitable, and the event has its net spread.
  abbrev pub IsJudged : Deps D → Time → SpreadEvent D → ArbResult D → Type 0
  IsJudged deps now ev fund =
      (fm : FundingManager D) × (p : FundingConfig D) × (deps.funding ≡ some fm)
      × (fm.config ≡ some p)
      × IsPair fm p ev.buy_exchange ev.symbol ev.sell_exchange ev.symbol
          (net_of_fees deps.config ev.buy_exchange ev.buy_ask ev.sell_exchange ev.sell_bid) now fund
      × (fund.is_profitable ≡ true)
      × (ev.spread ≡ fund.net_spread)

  -- A futures route on offer.
  pub record IsCross (deps : Deps D) (book : Book D) (symbol : Text) (now : Time)
      (ev : SpreadEvent D) : Type 0 where
    pub offer : IsOffer deps book symbol now ev
    pub kind : ev.spread_type ≡ cross_exchange
    pub buys_future : ev.buy_market ≡ market_type_futures
    pub sells_future : ev.sell_market ≡ market_type_futures
    pub fund : ArbResult D
    pub judged : IsJudged deps now ev fund
    pub rates :
        (ev.buy_funding_rate ≡ fund.buy_funding_rate)
        × (ev.sell_funding_rate ≡ fund.sell_funding_rate)
    pub times :
        (ev.buy_next_funding ≡ fund.buy_next_funding_time)
        × (ev.sell_next_funding ≡ fund.sell_next_funding_time)

  module _ (deps : Deps D) (floor : HasFloor deps) (book : Book D) (symbol : Text)
      (now : Time) where
    abbrev Cross : SpreadEvent D → Type 0
    Cross = IsCross deps book symbol now

    cross_route-IsCross :
        (buy_ex sell_ex : Text) (buy sell : PriceState D)
        → Quoted deps book now buy_ex market_type_futures buy
        → Quoted deps book now sell_ex market_type_futures sell
        → less_than buy.ask sell.bid ≡ true
        → OnSome Cross (cross_route deps symbol now buy_ex buy sell_ex sell)
    unfolding cross_route route_event
    cross_route-IsCross buy_ex sell_ex buy sell b s below = OnSome-if Cross _ _ λ net.
        OnSome-with_funding Cross deps.funding _ λ fm managed.
          let spread = net_of_fees deps.config buy_ex buy.ask sell_ex sell.bid in
          let fund = evaluate_futures_pair fm buy_ex symbol sell_ex symbol spread now in
          OnSome-if_profitable Cross fund _ λ worth.
            let (p, configured, pair) =
              evaluate_futures_pair_sound fm buy_ex symbol sell_ex symbol spread now worth in
            record {
              offer =
                  route_event-Offer deps floor book symbol now cross_exchange buy_ex sell_ex
                    market_type_futures buy sell fund b s below (not-false _ net)
                    (Le_trans decimal_zero p.min_spread _ (floor.floor fm p managed configured)
                      pair.enough);
              kind = refl;
              buys_future = refl;
              sells_future = refl;
              fund = fund;
              judged = (fm, p, managed, configured, pair, worth, refl);
              rates = (refl, refl);
              times = (refl, refl);
            }

    cross_pair-IsCross :
        (left_ex right_ex : Text) (left right : PriceState D)
        → Quoted deps book now left_ex market_type_futures left
        → Quoted deps book now right_ex market_type_futures right
        → OnSome Cross (cross_pair deps symbol now left_ex left right_ex right)
    unfolding cross_pair
    cross_pair-IsCross left_ex right_ex left right l r =
        elim (Bool-cases (less_than left.ask right.bid)) [
          | inl up ↦ rw up (cross_route-IsCross left_ex right_ex left right l r up)
          | inr flat ↦ elim (Bool-cases (less_than right.ask left.bid)) [
            | inl down ↦ rw (flat, down) (cross_route-IsCross right_ex left_ex right left r l down)
            | inr level ↦ rw (flat, level) tt
          ]
        ]

    fresh_futures-Quoted :
        (ex : Text) {s : PriceState D}
        → fresh_futures deps book now ex ≡ some s
        → Quoted deps book now ex market_type_futures s
    fresh_futures-Quoted ex h =
        elim (Bool-cases (fresh (price_of book ex market_type_futures) now deps.price_ttl)) [
          | inr stale ↦ cc (rw stale at h)
          | inl live ↦ let e = rw live at h in (e, rw e at live)
        ]

    cross_fresh-IsCross :
        (left_ex right_ex : Text) (left right : Option (PriceState D))
        → ((s : PriceState D) → left ≡ some s → Quoted deps book now left_ex market_type_futures s)
        → ((s : PriceState D)
            → right ≡ some s
            → Quoted deps book now right_ex market_type_futures s)
        → OnSome Cross (cross_fresh deps symbol now left_ex left right_ex right)
    cross_fresh-IsCross left_ex right_ex none right l r = tt
    cross_fresh-IsCross left_ex right_ex (some left) none l r = tt
    cross_fresh-IsCross left_ex right_ex (some left) (some right) l r =
        cross_pair-IsCross left_ex right_ex left right (l left refl) (r right refl)

    cross_with-IsCross :
        (ex : Text) (rest : List Text)
        → All Cross (cross_with deps book symbol now ex (fresh_futures deps book now ex) rest)
    unfolding cross_with
    cross_with-IsCross ex [] = tt
    cross_with-IsCross ex (right_ex ∷ rest) =
        All-cons_some Cross _ _
          (cross_fresh-IsCross ex right_ex _ _ (λ s. fresh_futures-Quoted ex)
            (λ s. fresh_futures-Quoted right_ex))
          (cross_with-IsCross ex rest)

    cross_among-IsCross :
        (exchanges : List Text) → All Cross (cross_among deps book symbol now exchanges)
    unfolding cross_among
    cross_among-IsCross [] = tt
    cross_among-IsCross (ex ∷ rest) =
        All-append Cross _ _ (cross_with-IsCross ex rest) (cross_among-IsCross rest)

    cross_candidates-IsCross : All Cross (cross_candidates deps book symbol now)
    unfolding cross_candidates
    cross_candidates-IsCross = cross_among-IsCross (map (λ e. e.0) book)

    All-IsOffer :
        (evs : List (SpreadEvent D)) → All Cross evs → All (IsOffer deps book symbol now) evs
    All-IsOffer [] h = tt
    All-IsOffer (ev ∷ evs) (h, hs) = (h.offer, All-IsOffer evs hs)

    pub cross_candidates-Offer :
        All (IsOffer deps book symbol now) (cross_candidates deps book symbol now)
    cross_candidates-Offer = All-IsOffer _ cross_candidates-IsCross

  abbrev pub IsApart : SpreadEvent D → Type 0
  IsApart ev = ev.buy_exchange ≢ ev.sell_exchange

  module _ (deps : Deps D) (symbol : Text) (now : Time) where
    cross_route-IsApart :
        (buy_ex sell_ex : Text) (buy sell : PriceState D)
        → buy_ex ≢ sell_ex
        → OnSome IsApart (cross_route deps symbol now buy_ex buy sell_ex sell)
    unfolding cross_route route_event
    cross_route-IsApart buy_ex sell_ex buy sell apart =
        let spread = net_of_fees deps.config buy_ex buy.ask sell_ex sell.bid in
        let verdict : FundingManager D → ArbResult D =
          λ fm. evaluate_futures_pair fm buy_ex symbol sell_ex symbol spread now in
        let ev : FundingManager D → SpreadEvent D = λ fm.
          route_event cross_exchange symbol buy_ex sell_ex market_type_futures buy sell (verdict fm)
            now in
        OnSome-if IsApart (not (is_positive spread))
          (with_funding deps.funding (λ fm. if_profitable (verdict fm) (ev fm)))
          λ net.
            OnSome-with_funding IsApart deps.funding (λ fm. if_profitable (verdict fm) (ev fm))
              λ fm managed. OnSome-if_profitable IsApart (verdict fm) (ev fm) λ worth. apart

    cross_fresh-IsApart :
        (left_ex right_ex : Text) (left right : Option (PriceState D))
        → left_ex ≢ right_ex
        → OnSome IsApart (cross_fresh deps symbol now left_ex left right_ex right)
    unfolding cross_pair
    cross_fresh-IsApart left_ex right_ex none right apart = tt
    cross_fresh-IsApart left_ex right_ex (some left) none apart = tt
    cross_fresh-IsApart left_ex right_ex (some left) (some right) apart =
        OnSome-either IsApart (less_than left.ask right.bid) _ _
          (cross_route-IsApart left_ex right_ex left right apart)
          (OnSome-either IsApart (less_than right.ask left.bid) _ _
            (cross_route-IsApart right_ex left_ex right left (λ same. apart (sym same))) tt)

    cross_with-IsApart :
        (book : Book D) (ex : Text) (left : Option (PriceState D)) (rest : List Text)
        → All (λ other. ex ≢ other) rest
        → All IsApart (cross_with deps book symbol now ex left rest)
    unfolding cross_with
    cross_with-IsApart book ex left [] h = tt
    cross_with-IsApart book ex left (right_ex ∷ rest) (h, hs) =
        All-cons_some IsApart _ _
          (cross_fresh-IsApart ex right_ex left (fresh_futures deps book now right_ex) h)
          (cross_with-IsApart book ex left rest hs)

    key_apart :
        (k : Text) (m : Book D) → has_key k m ≡ false → All (λ other. k ≢ other) (map (λ e. e.0) m)
    unfolding lookup
    key_apart k [] h = tt
    key_apart k ((j, v) ∷ m) h =
        (λ same. ground (arith, list_beq_iff k j, list_beq_iff j k), key_apart k m (ground arith))

    cross_among-IsApart :
        (book m : Book D)
        → Distinct m
        → All IsApart (cross_among deps book symbol now (map (λ e. e.0) m))
    unfolding cross_among
    cross_among-IsApart book [] d = tt
    cross_among-IsApart book ((k, v) ∷ m) (d, ds) =
        All-append IsApart _ _
          (cross_with-IsApart book k (fresh_futures deps book now k) (map (λ e. e.0) m)
            (key_apart k m d))
          (cross_among-IsApart book m ds)

  All-both :
      (P Q : SpreadEvent D → Type 0) (evs : List (SpreadEvent D))
      → All P evs
      → All Q evs
      → All (λ ev. P ev × Q ev) evs
  All-both P Q [] h k = tt
  All-both P Q (ev ∷ evs) (h, hs) (k, ks) = ((h, k), All-both P Q evs hs ks)

  -- Every futures route on offer buys a future at the fresh ask of one exchange and sells one at
  -- the fresh, higher bid of another, and carries the smaller of their two day's volumes. The
  -- spread after both fees is positive; the funding manager judges just these two legs profitable
  -- at this spread, on live records of both; and the event's spread is the spread after fees plus
  -- the rate of the selling leg less that of the buying leg, which reaches the configured minimum
  -- and is not negative, with the rates and times of the records. No exchange stands twice in the
  -- book, and no funding configuration asks for a negative spread.
  pub cross_candidates_offers :
      (deps : Deps D) (floor : HasFloor deps) (book : Book D) (symbol : Text) (now : Time)
      → Distinct book
      → All
          (λ ev. IsCross deps book symbol now ev × (ev.buy_exchange ≢ ev.sell_exchange))
          (cross_candidates deps book symbol now)
  unfolding cross_candidates
  cross_candidates_offers deps floor book symbol now d =
      All-both (IsCross deps book symbol now) IsApart _
        (cross_candidates-IsCross deps floor book symbol now)
        (cross_among-IsApart deps symbol now book book d)
