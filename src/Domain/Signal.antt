-- ===== src/Domain/Signal.antt =====
-- internal/domain/signal.go: the life of one arbitrage signal. The id that uuid.NewString makes is
-- an argument.
pub mod Lifecycle
use crypto_screener.Base.{
  ℕ, ◌-◌, Bool, true, false, not, ◌||◌, List, [], Option, none, some, if◌then◌else◌,
}
use crypto_screener.Base.Text.{Text, is_empty}
use crypto_screener.Base.Time.{Time, Duration, before}
use crypto_screener.Decimal.{Decimal, decimal_zero, greater_than}
use crypto_screener.Domain.Market.{MarketType, SpreadType, SpreadEvent}

pub record ArbitrageSignal (D : Type 0) : Type 0 where
  pub id : Text
  pub symbol : Text
  pub spread_type : SpreadType
  pub buy_exchange : Text
  pub sell_exchange : Text
  pub exchange_a : Text
  pub exchange_b : Text
  pub buy_market : MarketType
  pub sell_market : MarketType
  pub opened_at : Time
  pub closed_at : Time
  pub is_active : Bool
  pub initial_spread : D
  pub peak_spread : D
  pub final_spread : D
  pub duration : Duration
  pub quote_volume : D
  pub buy_funding_rate : D
  pub sell_funding_rate : D
  pub buy_next_funding : Time
  pub sell_next_funding : Time
  pub notified_chat_ids : List ℕ

-- The legacy alias stands in for a name that is not set.
abbrev pub or_alias : Text → Text → Text
or_alias name alias = if is_empty name then alias else name

module _ {D : Type 0} ⦃dec : Decimal D⦄ where
  unfoldable pub new_arbitrage_signal : Text → SpreadEvent D → Time → ArbitrageSignal D
  new_arbitrage_signal id event ts =
      let buy = or_alias event.buy_exchange event.exchange_a in
      let sell = or_alias event.sell_exchange event.exchange_b in
      record {
        id = id;
        symbol = event.symbol;
        spread_type = event.spread_type;
        buy_exchange = buy;
        sell_exchange = sell;
        exchange_a = buy;
        exchange_b = sell;
        buy_market = event.buy_market;
        sell_market = event.sell_market;
        opened_at = ts;
        closed_at = 0;
        is_active = true;
        initial_spread = event.spread;
        peak_spread = event.spread;
        final_spread = decimal_zero;
        duration = 0;
        quote_volume = event.quote_volume;
        buy_funding_rate = event.buy_funding_rate;
        sell_funding_rate = event.sell_funding_rate;
        buy_next_funding = event.buy_next_funding;
        sell_next_funding = event.sell_next_funding;
        notified_chat_ids = [];
      }

  abbrev pub max_decimal : D → D → D
  max_decimal old new = if greater_than new old then new else old

  unfoldable pub update : ArbitrageSignal D → SpreadEvent D → ArbitrageSignal D
  update s event = if not s.is_active || before event.timestamp s.opened_at then s else record s {
    peak_spread = max_decimal s.peak_spread event.spread;
    quote_volume = max_decimal s.quote_volume event.quote_volume;
    buy_funding_rate = event.buy_funding_rate;
    sell_funding_rate = event.sell_funding_rate;
    buy_next_funding = event.buy_next_funding;
    sell_next_funding = event.sell_next_funding;
  }

  unfoldable pub update_peak : ArbitrageSignal D → D → ArbitrageSignal D
  update_peak s spread =
      if not s.is_active
      then s
      else if greater_than spread s.peak_spread
      then record s { peak_spread = spread }
      else s

  unfoldable pub close : ArbitrageSignal D → Time → D → ArbitrageSignal D
  close s ts final_spread =
      if not s.is_active
      then s
      else let at = if before ts s.opened_at then s.opened_at else ts in
        record s {
          is_active = false;
          closed_at = at;
          final_spread = final_spread;
          duration = at - s.opened_at;
        }
