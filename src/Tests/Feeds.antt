-- ===== src/Tests/Feeds.antt =====
-- Runs of the theorems on the messages of internal/adapters.
use crypto_screener.Base.{Option, none, some, refl, [], ◌∷◌, ◌≡◌, OnSome, All}
use crypto_screener.Base.Eq.{list_beq}
use crypto_screener.Base.Int.{ℤ}
use crypto_screener.Base.Text.{Text, text, has_suffix, has_prefix, rev_onto}
use crypto_screener.Decimal.Fixed.{fixed_decimal}
use crypto_screener.Domain.Market.{MarketTick, market_type_futures}
use crypto_screener.Adapters.{OkxTicker, normalize_okx_symbol, quotes_of}
use crypto_screener.Adapters.Quotes.{Feed, okx, tick_of, IsQuoted, tick_of-IsQuoted}
use crypto_screener.Adapters.Ticks.{okx_tick}
use crypto_screener.Adapters.Shards.{
  shard_from, IsAccepted, joined, limit_of, shard_args_max, shard_args_max-IsAccepted,
}
use crypto_screener.Tests.{t0}
use crypto_screener.Tests.Orders.{parse_code}

abbrev swap : OkxTicker
swap = record {
  inst_id = text "BTC-USDT-SWAP";
  last_px = 101 ∷ [];
  bid_px = 100 ∷ [];
  ask_px = 101 ∷ [];
  vol_ccy_24h = 5 ∷ [];
}

abbrev swap_feed : Feed ℤ
swap_feed = okx swap market_type_futures

abbrev symbol_of : Option (MarketTick ℤ) → Option Text
symbol_of none = none
symbol_of (some t) = some t.symbol

swap_read : symbol_of (tick_of parse_code swap_feed t0 t0) ≡ some (text "BTCUSDT")
unfolding okx_tick normalize_okx_symbol quotes_of list_beq has_suffix has_prefix rev_onto
swap_read = refl

cut_in_two :
    shard_args_max (text "a.b" ∷ text "c" ∷ text "d" ∷ []) 10 2
    ≡ (text "a.b" ∷ text "c" ∷ []) ∷ (text "d" ∷ []) ∷ []
unfolding shard_args_max shard_from
cut_in_two = refl

tick_of-IsQuoted_example : OnSome (IsQuoted (text "OKX")) (tick_of parse_code swap_feed t0 t0)
tick_of-IsQuoted_example = tick_of-IsQuoted parse_code swap_feed t0 t0

shard_args_max-IsAccepted_example :
    (joined (shard_args_max (text "a.b" ∷ text "c" ∷ text "d" ∷ []) 10 2)
      ≡ text "a.b" ∷ text "c" ∷ text "d" ∷ [])
    × All (IsAccepted (limit_of 10) 2) (shard_args_max (text "a.b" ∷ text "c" ∷ text "d" ∷ []) 10 2)
shard_args_max-IsAccepted_example =
    shard_args_max-IsAccepted (text "a.b" ∷ text "c" ∷ text "d" ∷ []) 10 2
