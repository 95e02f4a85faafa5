-- ===== src/Tests/Audience.antt =====
-- A run of the theorem on the two volume tests of sharded_aggregator.go, for a user who wants a day's
-- volume of 1000.
use crypto_screener.Base.{true, [], ◌∷◌, ◌≡◌, refl, some}
use crypto_screener.Base.Eq.{text_eq, list_beq}
use crypto_screener.Base.Map.{lookup}
use crypto_screener.Base.Text.{text, to_upper, trim_space}
use crypto_screener.Base.Int.{ℤ, pos, ◌-ℤ◌}
use crypto_screener.Decimal.{min_decimal}
use crypto_screener.Decimal.Fixed.{fixed_decimal}
use crypto_screener.Domain.User.{User, tf_24h, range_users}
use crypto_screener.Domain.Config.{fee_for, new_screener_config}
use crypto_screener.Aggregator.{Deps, fresh}
use crypto_screener.Aggregator.Candidates.{price_of, net_of_fees}
use crypto_screener.Aggregator.Eligible.{
  symbol_may_pass_volume, route_volume_eligible, route_volume_for,
}
use crypto_screener.Aggregator.Offers.{IsOffer}
use crypto_screener.Aggregator.Prefilter.{prefilter_keeps}
use crypto_screener.Tests.{t0, btc, deps, price, futures_price}
use crypto_screener.Tests.Late.{route}
use crypto_screener.Tests.Emissions.{book}

abbrev user : User ℤ
user = record {
  chat_id = 7;
  username = text "ann";
  min_spread = pos 10000;
  min_volume = price 1000;
  timeframe = tf_24h;
  min_funding_minutes = 0;
  update_step = pos 0;
  bot_id = 0;
}

abbrev watched : Deps ℤ
watched = record deps { users = some ((7, user) ∷ []) }

route-IsOffer : IsOffer watched book btc t0 route
unfolding price_of lookup list_beq fresh net_of_fees fee_for min_decimal ◌-ℤ◌ new_screener_config
    to_upper trim_space
route-IsOffer = record {
  symbol_same = refl;
  dated = refl;
  spread_nonneg = refl;
  buy_leg = (futures_price 100 t0, (refl, refl), refl);
  sell_leg = (futures_price 110 t0, (refl, refl), refl);
  backed = (futures_price 100 t0, futures_price 110 t0, (refl, refl), (refl, refl), refl);
  priced = refl;
  net_positive = refl;
}

route_eligible : route_volume_eligible watched t0 route ≡ true
unfolding route_volume_eligible range_users route_volume_for
route_eligible = refl

prefilter_keeps_example : symbol_may_pass_volume watched t0 book btc t0 ≡ true
prefilter_keeps_example = prefilter_keeps watched t0 book btc t0 route route-IsOffer route_eligible
