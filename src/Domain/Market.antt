-- ===== src/Domain/Market.antt =====
-- internal/domain/market.go, volume.go and the events of signal.go. A Go string type is a text.
use crypto_screener.Base.{Bool}
use crypto_screener.Base.Text.{Text, text}
use crypto_screener.Base.Time.{Time}

abbrev pub MarketType : Type 0
MarketType = Text

abbrev pub market_type_spot : MarketType
market_type_spot = text "SPOT"

abbrev pub market_type_futures : MarketType
market_type_futures = text "FUTURES"

pub record MarketTick (D : Type 0) : Type 0 where
  pub exchange : Text
  pub symbol : Text
  pub market_type : MarketType
  pub best_bid : D
  pub best_ask : D
  pub quote_volume : D
  pub event_time : Time
  pub received_at : Time
  pub timestamp : Time

pub record MarketCandle (D : Type 0) : Type 0 where
  pub exchange : Text
  pub symbol : Text
  pub market_type : MarketType
  pub open_time : Time
  pub close_time : Time
  pub quote_volume : D
  pub event_time : Time
  pub closed : Bool

abbrev pub SpreadType : Type 0
SpreadType = Text

abbrev pub cross_exchange : SpreadType
cross_exchange = text "CROSS_EXCHANGE"

abbrev pub intra_exchange : SpreadType
intra_exchange = text "INTRA_EXCHANGE"

-- The values 1, 2 and 3 of the byte, and any other.
pub data SignalLifecycle : Type 0 where
  unset opened updated closed : SignalLifecycle

pub record SpreadEvent (D : Type 0) : Type 0 where
  pub symbol : Text
  pub spread_type : SpreadType
  pub spread : D
  pub buy_exchange : Text
  pub sell_exchange : Text
  pub exchange_a : Text
  pub exchange_b : Text
  pub buy_market : MarketType
  pub sell_market : MarketType
  pub buy_ask : D
  pub sell_bid : D
  pub quote_volume : D
  pub buy_funding_rate : D
  pub sell_funding_rate : D
  pub buy_next_funding : Time
  pub sell_next_funding : Time
  pub timestamp : Time
  pub lifecycle : SignalLifecycle
