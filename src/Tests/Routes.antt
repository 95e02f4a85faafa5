-- ===== src/Tests/Routes.antt =====
-- Runs of the theorems on routes and signals.
use crypto_screener.Base.{ℕ, ◌+◌, List, [], ◌∷◌, refl, arith}
use crypto_screener.Base.Text.{Text}
use crypto_screener.Base.Time.{Time, second}
use crypto_screener.Base.Int.{ℤ}
use crypto_screener.Decimal.Fixed.{fixed_decimal}
use crypto_screener.Base.Map.{lookup}
use crypto_screener.Domain.Market.{MarketTick}
use crypto_screener.Aggregator.{tick_time}
use crypto_screener.Aggregator.Lifecycle.{open_routes}
use crypto_screener.Aggregator.Emitted.{keys_under}
use crypto_screener.Tracker.Table.{open_signals}
use crypto_screener.Pipeline.Frame.{Agree}
use crypto_screener.Pipeline.Mirror.{Mirrors}
use crypto_screener.Pipeline.Session.{deliver, deliver-Mirrors, InOrder}
use crypto_screener.Tests.{
  t0, btc, bybit, mexc, deps, deps-HasFloor, futures_tick, quiet, quiet-IsTable, idle,
}

abbrev ids : ℕ → ℕ → Text
ids n m = (n + m) ∷ []

idle-Mirrors : (now : Time) → Mirrors btc now quiet idle
unfolding lookup
idle-Mirrors now = record { agree = λ k own. refl; opened_before = λ k own. tt }

abbrev two_ticks : List (Time × MarketTick ℤ)
two_ticks =
    (t0, futures_tick mexc 110 t0) ∷ (t0 + second, futures_tick bybit 110 (t0 + second)) ∷ []

two_ticks-InOrder : InOrder btc t0 two_ticks
unfolding tick_time
two_ticks-InOrder = (refl, omega arith, (refl, omega arith, tt))

deliver-Mirrors_example :
    let r = deliver deps ids two_ticks quiet idle in
    Agree (keys_under btc) (open_routes r.0.active) (open_signals r.1.active_signals)
deliver-Mirrors_example =
    deliver-Mirrors deps ids btc t0 two_ticks quiet idle deps-HasFloor refl refl quiet-IsTable
      two_ticks-InOrder (idle-Mirrors t0)
