-- ===== src/Tests/Streaming.antt =====
-- A run of the theorem on internal/ingress/latest.go: a newer tick comes while the older is in hand.
use crypto_screener.Base.{[], ◌∷◌, ◌≡◌, refl}
use crypto_screener.Base.Eq.{text_eq, pair_eq}
use crypto_screener.Base.Map.{insert}
use crypto_screener.Base.Int.{ℤ}
use crypto_screener.Domain.Market.{MarketTick}
use crypto_screener.Ingress.{Coalescer, new_state, key_of, store_tick, take_next}
use crypto_screener.Ingress.Latest.{Run, starts, submits, takes, known, newest, newest_waits}
use crypto_screener.Tests.{t0, bybit, futures_tick}

abbrev older : MarketTick ℤ
older = futures_tick bybit 100 t0

abbrev newer : MarketTick ℤ
newer = futures_tick bybit 101 t0

abbrev in_flight : Coalescer ℤ
in_flight = take_next (store_tick new_state older)

run : Run (newer ∷ older ∷ []) (store_tick in_flight newer)
unfolding store_tick
run =
    submits (store_tick in_flight newer) newer
      (takes in_flight (submits (store_tick new_state older) older starts refl) refl refl) refl

newest_waits_example :
    known (key_of newer) (store_tick in_flight newer) ≡ newest (key_of newer) (newer ∷ older ∷ [])
unfolding store_tick take_next insert
newest_waits_example =
    newest_waits (newer ∷ older ∷ []) (store_tick in_flight newer) run refl (key_of newer)
