-- ===== src/Adapters.antt =====
-- internal/adapters: what the connectors of the exchanges make of one message, and how they cut a
-- list of subscriptions. The messages come as records whose fields are the texts of the JSON.
-- decimal.NewFromString is the argument `parse`, and `now` is time.Now().
pub mod Ticks
pub mod Shards
pub mod Quotes
use crypto_screener.Base.{
  Bool, true, false, not, ◌&&◌, ◌||◌, Option, none, some, if◌then◌else◌, eqb, keep_if, drop, ◌++◌,
  [], length,
}
use crypto_screener.Base.Eq.{text_eq, ◌==◌}
use crypto_screener.Base.Map.{Map, lookup}
use crypto_screener.Base.Text.{
  Text, text, to_upper, trim_space, is_empty, has_prefix, has_suffix, strip_separators, rev_onto,
}
use crypto_screener.Base.Time.{Time}
use crypto_screener.Decimal.{
  Decimal, decimal_zero, is_zero_decimal, is_negative, is_positive, greater_than, add, mul, div,
}
use crypto_screener.Domain.Market.{MarketTick, MarketType, market_type_spot, market_type_futures}

-- strings.ReplaceAll(s, "-", ""), and the replacer of "_" and "-".
abbrev pub without_dashes : Text → Text
without_dashes = keep_if (λ c. not (eqb c b'-'))

abbrev pub without_marks : Text → Text
without_marks = keep_if (λ c. not (eqb c b'_' || eqb c b'-'))

-- strings.TrimSuffix, on the text read backwards.
abbrev pub trim_suffix : Text → Text → Text
trim_suffix s p = if has_suffix s p then rev_onto (drop (length p) (rev_onto s [])) [] else s

abbrev pub is_usdt : Text → Bool
is_usdt s = has_suffix (to_upper s) (text "USDT")

-- A ticker of one symbol, by the names of binance.go: bid, ask and quote volume.
pub record TickerPayload : Type 0 where
  pub symbol : Text
  pub best_bid : Text
  pub best_ask : Text
  pub q_volume : Text

-- okx.go and kucoin.go name more.
pub record OkxTicker : Type 0 where
  pub inst_id : Text
  pub last_px : Text
  pub bid_px : Text
  pub ask_px : Text
  pub vol_ccy_24h : Text

pub record KucoinTicker : Type 0 where
  pub symbol : Text
  pub best_bid : Text
  pub best_ask : Text
  pub best_bid_price : Text
  pub best_ask_price : Text
  pub vol_value : Text
  pub turnover : Text
  pub turnover_24h : Text

-- The fields of a ticker of MEXC futures are raw JSON.
pub record MexcFuturesTicker : Type 0 where
  pub symbol : Text
  pub bid1 : Text
  pub ask1 : Text
  pub last_price : Text
  pub volume : Text

pub record BingxBookTicker (D : Type 0) : Type 0 where
  pub symbol : Text
  pub bid : D
  pub ask : D

-- normalizeSymbol of okx.go.
unfoldable pub normalize_okx_symbol : Text → MarketType → Option Text
normalize_okx_symbol inst_id m =
    if m == market_type_spot
    then if has_suffix inst_id (text "-USDT") then some (without_dashes inst_id) else none
    else if has_suffix inst_id (text "-USDT-SWAP")
    then some (without_dashes (trim_suffix inst_id (text "-SWAP")))
    else none

-- normalizeSymbol of kucoin.go.
unfoldable pub normalize_kucoin_symbol : Text → MarketType → Option Text
normalize_kucoin_symbol s m =
    if m == market_type_spot
    then some (without_dashes s)
    else if not (has_suffix s (text "USDTM")) && not (has_suffix s (text "USDM"))
    then none
    else (let r = trim_suffix s (text "M") in
        some (if has_prefix r (text "XBT") then text "BTC" ++ drop 3 r else r))

module _ {D : Type 0} where
  abbrev pub tick_at : Text → Text → MarketType → D × D → D → Time → Time → MarketTick D
  tick_at exchange symbol m (bid, ask) volume ts now = record {
    exchange = exchange;
    symbol = symbol;
    market_type = m;
    best_bid = bid;
    best_ask = ask;
    quote_volume = volume;
    event_time = ts;
    received_at = now;
    timestamp = ts;
  }

  -- A tick from quotes and a volume, where there are both.
  abbrev pub tick_from :
      Text → Text → MarketType → Time → Time → Option (D × D) → Option D → Option (MarketTick D)
  tick_from exchange symbol m ts now none volume = none
  tick_from exchange symbol m ts now (some q) none = none
  tick_from exchange symbol m ts now (some q) (some v) = some (tick_at exchange symbol m q v ts now)

module _ {D : Type 0} ⦃dec : Decimal D⦄ (parse : Text → Option D) where
  abbrev pub ask_of : D → Text → Option (D × D)
  ask_of bid ask_text = elim (parse ask_text) [
    | none ↦ none
    | some ask ↦ if is_zero_decimal ask || greater_than bid ask then none else some (bid, ask)
  ]

  -- The bid and the ask of a message: both are numbers, neither is zero, and they are in order.
  unfoldable pub quotes_of : Text → Text → Option (D × D)
  quotes_of bid_text ask_text = elim (parse bid_text) [
    | none ↦ none
    | some bid ↦ if is_zero_decimal bid then none else ask_of bid ask_text
  ]
