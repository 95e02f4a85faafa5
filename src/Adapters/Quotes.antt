-- ===== src/Adapters/Quotes.antt =====
-- What the ticks of all the exchanges in internal/adapters have in common.
use crypto_screener.Base.{
  Bool, true, false, not, ◌||◌, Option, none, some, if◌then◌else◌, ◌≡◌, refl, OnSome, OnSome-if,
  Option-cases, inl, inr, arith,
}
use crypto_screener.Base.Eq.{text_eq, ◌==◌}
use crypto_screener.Base.Map.{Map}
use crypto_screener.Base.Text.{Text, text, is_empty}
use crypto_screener.Base.Time.{Time}
use crypto_screener.Decimal.{Decimal, is_zero_decimal, is_positive, greater_than}
use crypto_screener.Domain.Market.{MarketTick, MarketType, market_type_futures}
use crypto_screener.Adapters.{
  TickerPayload, OkxTicker, KucoinTicker, MexcFuturesTicker, BingxBookTicker, without_dashes,
  is_usdt, normalize_okx_symbol, normalize_kucoin_symbol, ask_of, quotes_of, tick_from,
}
use crypto_screener.Adapters.Ticks.{
  bbo_to_tick, binance_tick, bybit_tick, bitget_tick, gateio_spot_tick, gateio_book_tick,
  mexc_spot_tick, okx_tick, okx_tick_of, kucoin_tick, kucoin_quotes, without_timestamp,
  mexc_futures_tick, mexc_futures_of, positive_quotes,
}

module _ {D : Type 0} ⦃dec : Decimal D⦄ where
  abbrev IsOrdered : D × D → Type 0
  IsOrdered (bid, ask) =
      (is_zero_decimal bid ≡ false)
      × ((is_zero_decimal ask ≡ false) × (greater_than bid ask ≡ false))

  -- A tick of that exchange, whose quotes are not zero and in order.
  abbrev pub IsQuoted : Text → MarketTick D → Type 0
  IsQuoted exchange t = (t.exchange ≡ exchange) × IsOrdered (t.best_bid, t.best_ask)

  tick_from-IsQuoted :
      (exchange symbol : Text) (m : MarketType) (ts now : Time) (q : Option (D × D)) (v : Option D)
      → OnSome IsOrdered q
      → OnSome (IsQuoted exchange) (tick_from exchange symbol m ts now q v)
  tick_from-IsQuoted exchange symbol m ts now none v h = tt
  tick_from-IsQuoted exchange symbol m ts now (some q) none h = tt
  tick_from-IsQuoted exchange symbol m ts now (some q) (some v) h = (refl, h)

  positive_nonzero : (a : D) → is_positive a ≡ true → is_zero_decimal a ≡ false
  positive_nonzero a h = ground arith

  IsOrdered-if :
      (bid ask : D)
      → is_zero_decimal bid ≡ false
      → OnSome IsOrdered
          (if is_zero_decimal ask || greater_than bid ask then none else some (bid, ask))
  IsOrdered-if bid ask h = ground arith

  plain-IsOrdered :
      (bid ask : D)
      → is_zero_decimal bid || (is_zero_decimal ask || greater_than bid ask) ≡ false
      → IsOrdered (bid, ask)
  plain-IsOrdered bid ask z = ground arith

  bbo-IsQuoted :
      (b : BingxBookTicker D) (m : MarketType) (ts now : Time) (vol : D)
      → OnSome (IsQuoted (text "BINGX")) (bbo_to_tick b m ts now vol)
  unfolding bbo_to_tick
  bbo-IsQuoted b m ts now vol = OnSome-if (IsQuoted (text "BINGX")) (is_empty b.symbol) _ (λ e.
      OnSome-if (IsQuoted (text "BINGX"))
        (is_zero_decimal b.bid || (is_zero_decimal b.ask || greater_than b.bid b.ask)) _
        (λ z. OnSome-if (IsQuoted (text "BINGX")) (not (is_usdt (without_dashes b.symbol))) _ (λ u.
          tick_from-IsQuoted (text "BINGX") (without_dashes b.symbol) m ts now (some (b.bid, b.ask))
            (some vol) (plain-IsOrdered b.bid b.ask z))))

  module _ (parse : Text → Option D) where
    ask-IsOrdered :
        (bid : D) (o : Option D)
        → is_zero_decimal bid ≡ false
        → OnSome IsOrdered (elim o [
          | none ↦ none
          | some ask ↦ if is_zero_decimal ask || greater_than bid ask then none else some (bid, ask)
        ])
    ask-IsOrdered bid none h = tt
    ask-IsOrdered bid (some ask) h = IsOrdered-if bid ask h

    bid-IsOrdered :
        (o : Option D) (ask_text : Text)
        → OnSome IsOrdered (elim o [
          | none ↦ none
          | some bid ↦ if is_zero_decimal bid then none else ask_of parse bid ask_text
        ])
    bid-IsOrdered none ask_text = tt
    bid-IsOrdered (some bid) ask_text =
        OnSome-if IsOrdered (is_zero_decimal bid) _ (λ z. ask-IsOrdered bid (parse ask_text) z)

    quotes_of-IsOrdered :
        (bid_text ask_text : Text) → OnSome IsOrdered (quotes_of parse bid_text ask_text)
    unfolding quotes_of
    quotes_of-IsOrdered bid_text ask_text = bid-IsOrdered (parse bid_text) ask_text

    binance-IsQuoted :
        (p : TickerPayload) (m : MarketType) (ts now : Time)
        → OnSome (IsQuoted (text "BINANCE")) (binance_tick parse p m ts now)
    unfolding binance_tick
    binance-IsQuoted p m ts now =
        OnSome-if (IsQuoted (text "BINANCE")) (not (is_usdt p.symbol)) _
          (λ e. tick_from-IsQuoted _ _ m ts now _ _ (quotes_of-IsOrdered p.best_bid p.best_ask))

    mexc_spot-IsQuoted :
        (p : TickerPayload) (ts now : Time)
        → OnSome (IsQuoted (text "MEXC")) (mexc_spot_tick parse p ts now)
    unfolding mexc_spot_tick
    mexc_spot-IsQuoted p ts now =
        OnSome-if (IsQuoted (text "MEXC")) (not (is_usdt p.symbol)) _
          (λ e. tick_from-IsQuoted _ _ _ ts now _ _ (quotes_of-IsOrdered p.best_bid p.best_ask))

    okx_of-IsQuoted :
        (d : OkxTicker) (symbol : Text) (m : MarketType) (ts now : Time) (q : Option (D × D))
        → OnSome IsOrdered q
        → OnSome (IsQuoted (text "OKX")) (okx_tick_of parse d symbol m ts now q)
    okx_of-IsQuoted d symbol m ts now none h = tt
    okx_of-IsQuoted d symbol m ts now (some q) h =
        tick_from-IsQuoted (text "OKX") symbol m ts now (some q) _ h

    okx-IsQuoted :
        (d : OkxTicker) (m : MarketType) (ts now : Time)
        → OnSome (IsQuoted (text "OKX")) (okx_tick parse d m ts now)
    unfolding okx_tick
    okx-IsQuoted d m ts now = elim (Option-cases (normalize_okx_symbol d.inst_id m)) [
      | inl e ↦ rw (okx_tick, e) tt
      | inr (symbol, e) ↦
          rw (okx_tick, e)
            (okx_of-IsQuoted d symbol m ts now _ (quotes_of-IsOrdered d.bid_px d.ask_px))
    ]

    without_timestamp-IsQuoted :
        (t : Option (MarketTick D))
        → OnSome (IsQuoted (text "KUCOIN")) t
        → OnSome (IsQuoted (text "KUCOIN")) (without_timestamp parse t)
    without_timestamp-IsQuoted none h = tt
    without_timestamp-IsQuoted (some t) h = h

    IsOrdered-either :
        (b : Bool) (x y : Option (D × D))
        → OnSome IsOrdered x
        → OnSome IsOrdered y
        → OnSome IsOrdered (if b then x else y)
    IsOrdered-either true x y h k = h
    IsOrdered-either false x y h k = k

    kucoin-IsQuoted :
        (d : KucoinTicker) (m : MarketType) (now : Time)
        → OnSome (IsQuoted (text "KUCOIN")) (kucoin_tick parse d m now)
    unfolding kucoin_tick
    kucoin-IsQuoted d m now = elim (Option-cases (normalize_kucoin_symbol d.symbol m)) [
      | inl e ↦ rw (kucoin_tick, e) tt
      | inr (symbol, e) ↦
          rw (kucoin_tick, e)
            (without_timestamp-IsQuoted _ (
              tick_from-IsQuoted (text "KUCOIN") symbol m now now (kucoin_quotes parse d m) _ (
                IsOrdered-either (m == market_type_futures) _ _ (quotes_of-IsOrdered _ _)
                  (quotes_of-IsOrdered _ _))))
    ]

    mexc_of-IsQuoted :
        (d : MexcFuturesTicker) (symbol : Text) (size : Option D) (now : Time) (q : Option (D × D))
        → OnSome IsOrdered q
        → OnSome (IsQuoted (text "MEXC")) (mexc_futures_of parse d symbol size now q)
    mexc_of-IsQuoted d symbol size now none h = tt
    mexc_of-IsQuoted d symbol size now (some q) h =
        tick_from-IsQuoted (text "MEXC") symbol _ now now (some q) _ h

    positive-IsOrdered : (bid ask : Option D) → OnSome IsOrdered (positive_quotes parse bid ask)
    positive-IsOrdered none ask = tt
    positive-IsOrdered (some bid) none = ground arith
    positive-IsOrdered (some bid) (some ask) =
        ground (arith, positive_nonzero bid, positive_nonzero ask)

    mexc_futures-IsQuoted :
        (sizes : Map Text D) (d : MexcFuturesTicker) (now : Time)
        → OnSome (IsQuoted (text "MEXC")) (mexc_futures_tick parse sizes d now)
    unfolding mexc_futures_tick
    mexc_futures-IsQuoted sizes d now =
        OnSome-if (IsQuoted (text "MEXC")) (not (is_usdt _)) _
          (λ e. mexc_of-IsQuoted d _ _ now _ (positive-IsOrdered _ _))

    bybit-IsQuoted :
        (p : TickerPayload) (m : MarketType) (ts now : Time)
        → OnSome (IsQuoted (text "BYBIT")) (bybit_tick parse p m ts now)
    unfolding bybit_tick
    bybit-IsQuoted p m ts now =
        tick_from-IsQuoted _ _ _ ts now _ _ (quotes_of-IsOrdered p.best_bid p.best_ask)

    bitget-IsQuoted :
        (p : TickerPayload) (m : MarketType) (ts now : Time)
        → OnSome (IsQuoted (text "BITGET")) (bitget_tick parse p m ts now)
    unfolding bitget_tick
    bitget-IsQuoted p m ts now =
        tick_from-IsQuoted _ _ _ ts now _ _ (quotes_of-IsOrdered p.best_bid p.best_ask)

    gateio_spot-IsQuoted :
        (p : TickerPayload) (ts now : Time)
        → OnSome (IsQuoted (text "GATEIO")) (gateio_spot_tick parse p ts now)
    unfolding gateio_spot_tick
    gateio_spot-IsQuoted p ts now =
        tick_from-IsQuoted _ _ _ ts now _ _ (quotes_of-IsOrdered p.best_bid p.best_ask)

    gateio_book-IsQuoted :
        (p : TickerPayload) (ts now : Time)
        → OnSome (IsQuoted (text "GATEIO")) (gateio_book_tick parse p ts now)
    unfolding gateio_book_tick
    gateio_book-IsQuoted p ts now =
        tick_from-IsQuoted _ _ _ ts now _ _ (quotes_of-IsOrdered p.best_bid p.best_ask)

-- A message of an exchange, with the function that reads it.
pub data Feed (D : Type 0) : Type 0 where
  binance : TickerPayload → MarketType → Feed D
  bybit : TickerPayload → MarketType → Feed D
  bitget : TickerPayload → MarketType → Feed D
  gateio_spot : TickerPayload → Feed D
  gateio_book : TickerPayload → Feed D
  mexc_spot : TickerPayload → Feed D
  mexc_futures : Map Text D → MexcFuturesTicker → Feed D
  okx : OkxTicker → MarketType → Feed D
  kucoin : KucoinTicker → MarketType → Feed D
  bingx : BingxBookTicker D → MarketType → D → Feed D

module _ {D : Type 0} where
  abbrev pub name_of : Feed D → Text
  name_of (binance p m) = text "BINANCE"
  name_of (bybit p m) = text "BYBIT"
  name_of (bitget p m) = text "BITGET"
  name_of (gateio_spot p) = text "GATEIO"
  name_of (gateio_book p) = text "GATEIO"
  name_of (mexc_spot p) = text "MEXC"
  name_of (mexc_futures sizes d) = text "MEXC"
  name_of (okx d m) = text "OKX"
  name_of (kucoin d m) = text "KUCOIN"
  name_of (bingx b m vol) = text "BINGX"

module _ {D : Type 0} ⦃dec : Decimal D⦄ (parse : Text → Option D) where
  abbrev pub tick_of : Feed D → Time → Time → Option (MarketTick D)
  tick_of (binance p m) ts now = binance_tick parse p m ts now
  tick_of (bybit p m) ts now = bybit_tick parse p m ts now
  tick_of (bitget p m) ts now = bitget_tick parse p m ts now
  tick_of (gateio_spot p) ts now = gateio_spot_tick parse p ts now
  tick_of (gateio_book p) ts now = gateio_book_tick parse p ts now
  tick_of (mexc_spot p) ts now = mexc_spot_tick parse p ts now
  tick_of (mexc_futures sizes d) ts now = mexc_futures_tick parse sizes d now
  tick_of (okx d m) ts now = okx_tick parse d m ts now
  tick_of (kucoin d m) ts now = kucoin_tick parse d m now
  tick_of (bingx b m vol) ts now = bbo_to_tick b m ts now vol

  -- Whatever a message of an exchange holds, a tick that its adapter makes of it names that
  -- exchange, its bid and ask are not zero, and the bid is not above the ask.
  pub tick_of-IsQuoted :
      (f : Feed D) (ts now : Time) → OnSome (IsQuoted (name_of f)) (tick_of f ts now)
  tick_of-IsQuoted (binance p m) ts now = binance-IsQuoted parse p m ts now
  tick_of-IsQuoted (bybit p m) ts now = bybit-IsQuoted parse p m ts now
  tick_of-IsQuoted (bitget p m) ts now = bitget-IsQuoted parse p m ts now
  tick_of-IsQuoted (gateio_spot p) ts now = gateio_spot-IsQuoted parse p ts now
  tick_of-IsQuoted (gateio_book p) ts now = gateio_book-IsQuoted parse p ts now
  tick_of-IsQuoted (mexc_spot p) ts now = mexc_spot-IsQuoted parse p ts now
  tick_of-IsQuoted (mexc_futures sizes d) ts now = mexc_futures-IsQuoted parse sizes d now
  tick_of-IsQuoted (okx d m) ts now = okx-IsQuoted parse d m ts now
  tick_of-IsQuoted (kucoin d m) ts now = kucoin-IsQuoted parse d m now
  tick_of-IsQuoted (bingx b m vol) ts now = bbo-IsQuoted b m ts now vol
