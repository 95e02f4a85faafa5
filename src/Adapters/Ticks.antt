-- ===== src/Adapters/Ticks.antt =====
-- The functions of internal/adapters that turn one message of an exchange into a tick: toMarketTick
-- of binance.go, bitget.go, bybit.go, kucoin.go and okx.go, spotTickerToTick and bookTickerToTick
-- of gateio.go, spotToTick and futuresToTick of mexc.go, and bboToTick of bingx.go. `ts` is the time
-- of the message where there is one.
use crypto_screener.Base.{not, ◌||◌, Option, none, some, if◌then◌else◌}
use crypto_screener.Base.Eq.{text_eq, ◌==◌}
use crypto_screener.Base.Map.{Map, lookup}
use crypto_screener.Base.Text.{Text, text, to_upper, trim_space, is_empty}
use crypto_screener.Base.Time.{Time}
use crypto_screener.Decimal.{
  Decimal, decimal_zero, is_zero_decimal, is_negative, is_positive, greater_than, add, mul, div,
}
use crypto_screener.Domain.Market.{MarketTick, MarketType, market_type_spot, market_type_futures}
use crypto_screener.Adapters.{
  TickerPayload, OkxTicker, KucoinTicker, MexcFuturesTicker, BingxBookTicker, without_dashes,
  without_marks, is_usdt, normalize_okx_symbol, normalize_kucoin_symbol, quotes_of, tick_from,
}

abbrev or_zero_text : Text → Text → Text
or_zero_text s fallback = if is_empty s || (s == text "0") then fallback else s

abbrev or_empty_text : Text → Text → Text
or_empty_text s fallback = if is_empty s then fallback else s

module _ {D : Type 0} ⦃dec : Decimal D⦄ where
  abbrev volume_or_zero : Option D → D
  volume_or_zero none = decimal_zero
  volume_or_zero (some v) = v

  abbrev midpoint : D → D → D
  midpoint bid ask = div (add bid ask) (dec.literal 2 0)

  -- The last price, or the middle of the quotes where it is not a positive number.
  abbrev pub last_or_middle : Option D → D × D → D
  last_or_middle none (bid, ask) = midpoint bid ask
  last_or_middle (some last) (bid, ask) = if is_positive last then last else midpoint bid ask

  abbrev pub not_negative : Option D → Option D
  not_negative none = none
  not_negative (some v) = if is_negative v then none else some v

  -- bingx.go: the quotes are decimals already.
  unfoldable pub bbo_to_tick :
      BingxBookTicker D → MarketType → Time → Time → D → Option (MarketTick D)
  bbo_to_tick b m ts now vol =
      if is_empty b.symbol
      then none
      else if is_zero_decimal b.bid || (is_zero_decimal b.ask || greater_than b.bid b.ask)
      then none
      else (let symbol = without_dashes b.symbol in
          if not (is_usdt symbol)
          then none
          else tick_from (text "BINGX") symbol m ts now (some (b.bid, b.ask)) (some vol))

  module _ (parse : Text → Option D) where
    unfoldable pub binance_tick : TickerPayload → MarketType → Time → Time → Option (MarketTick D)
    binance_tick p m ts now =
        if not (is_usdt p.symbol)
        then none
        else tick_from (text "BINANCE") p.symbol m ts now (quotes_of parse p.best_bid p.best_ask)
            (parse p.q_volume)

    -- A volume that is no number counts as zero.
    unfoldable pub bybit_tick : TickerPayload → MarketType → Time → Time → Option (MarketTick D)
    bybit_tick p m ts now =
        tick_from (text "BYBIT") p.symbol m ts now (quotes_of parse p.best_bid p.best_ask)
          (some (volume_or_zero (parse p.q_volume)))

    unfoldable pub bitget_tick : TickerPayload → MarketType → Time → Time → Option (MarketTick D)
    bitget_tick p m ts now =
        tick_from (text "BITGET") (without_marks p.symbol) m ts now
          (quotes_of parse p.best_bid p.best_ask) (parse p.q_volume)

    unfoldable pub gateio_spot_tick : TickerPayload → Time → Time → Option (MarketTick D)
    gateio_spot_tick p ts now =
        tick_from (text "GATEIO") (without_marks p.symbol) market_type_spot ts now
          (quotes_of parse p.best_bid p.best_ask) (parse p.q_volume)

    -- The caller fills in the volume.
    unfoldable pub gateio_book_tick : TickerPayload → Time → Time → Option (MarketTick D)
    gateio_book_tick p ts now =
        tick_from (text "GATEIO") (without_marks p.symbol) market_type_futures ts now
          (quotes_of parse p.best_bid p.best_ask) (some decimal_zero)

    unfoldable pub mexc_spot_tick : TickerPayload → Time → Time → Option (MarketTick D)
    mexc_spot_tick p ts now =
        if not (is_usdt p.symbol)
        then none
        else tick_from (text "MEXC") p.symbol market_type_spot ts now
            (quotes_of parse p.best_bid p.best_ask) (parse p.q_volume)

    -- The volume of a future is in the base currency.
    abbrev pub okx_volume : MarketType → Text → Option D → D × D → Option D
    okx_volume m last_text none q = none
    okx_volume m last_text (some v) q =
        let last = last_or_middle (parse last_text) q in
        if m == market_type_futures
        then if not (is_positive last) then none else some (mul v last)
        else some v

    abbrev pub okx_tick_of :
        OkxTicker → Text → MarketType → Time → Time → Option (D × D) → Option (MarketTick D)
    okx_tick_of d symbol m ts now none = none
    okx_tick_of d symbol m ts now (some q) =
        tick_from (text "OKX") symbol m ts now (some q)
          (okx_volume m d.last_px (not_negative (parse d.vol_ccy_24h)) q)

    unfoldable pub okx_tick : OkxTicker → MarketType → Time → Time → Option (MarketTick D)
    okx_tick d m ts now = elim (normalize_okx_symbol d.inst_id m) [
      | none ↦ none
      | some symbol ↦ okx_tick_of d symbol m ts now (quotes_of parse d.bid_px d.ask_px)
    ]

    abbrev pub kucoin_volume : KucoinTicker → Option D
    kucoin_volume d =
        let v = or_empty_text (or_empty_text d.vol_value d.turnover_24h) d.turnover in
        if is_empty v then some decimal_zero else parse v

    abbrev pub kucoin_quotes : KucoinTicker → MarketType → Option (D × D)
    kucoin_quotes d m =
        if m == market_type_futures
        then quotes_of parse (or_zero_text d.best_bid d.best_bid_price)
            (or_zero_text d.best_ask d.best_ask_price)
        else quotes_of parse d.best_bid d.best_ask

    abbrev pub without_timestamp : Option (MarketTick D) → Option (MarketTick D)
    without_timestamp none = none
    without_timestamp (some t) = some (record t { timestamp = 0 })

    -- Timestamp is not set.
    unfoldable pub kucoin_tick : KucoinTicker → MarketType → Time → Option (MarketTick D)
    kucoin_tick d m now = elim (normalize_kucoin_symbol d.symbol m) [
      | none ↦ none
      | some symbol ↦
          without_timestamp
            (tick_from (text "KUCOIN") symbol m now now (kucoin_quotes d m) (kucoin_volume d))
    ]

    -- rawDecimal
    unfoldable pub raw_decimal : Text → Option D
    raw_decimal raw =
        let s = trim_space raw in if is_empty s || (s == text "null") then none else parse s

    abbrev pub positive_ask : D → Option D → Option (D × D)
    positive_ask bid none = none
    positive_ask bid (some ask) =
        if not (is_positive ask) || greater_than bid ask then none else some (bid, ask)

    abbrev pub positive_quotes : Option D → Option D → Option (D × D)
    positive_quotes none ask = none
    positive_quotes (some bid) ask = if not (is_positive bid) then none else positive_ask bid ask

    abbrev pub contract_volume : Option D → Option D → D → Option D
    contract_volume none size last = none
    contract_volume (some contracts) none last = none
    contract_volume (some contracts) (some size) last =
        if not (is_positive size) then none else some (mul (mul contracts size) last)

    abbrev pub mexc_futures_of :
        MexcFuturesTicker → Text → Option D → Time → Option (D × D) → Option (MarketTick D)
    mexc_futures_of d symbol size now none = none
    mexc_futures_of d symbol size now (some q) =
        let last = last_or_middle (raw_decimal d.last_price) q in
        tick_from (text "MEXC") symbol market_type_futures now now (some q)
          (contract_volume (not_negative (raw_decimal d.volume)) size last)

    -- The contract sizes are what ensureContractSizes has read.
    unfoldable pub mexc_futures_tick : Map Text D → MexcFuturesTicker → Time → Option (MarketTick D)
    unfolding raw_decimal
    mexc_futures_tick sizes d now =
        let symbol = without_marks d.symbol in
        if not (is_usdt symbol)
        then none
        else mexc_futures_of d symbol (lookup (to_upper (trim_space d.symbol)) sizes) now
            (positive_quotes (raw_decimal d.bid1) (raw_decimal d.ask1))
