-- ===== src/Tests/Candles.antt =====
-- A run of the theorem on the windows of volume_engine.go: two minutes of candles.
use crypto_screener.Base.{◌-◌, [], ◌∷◌, refl, some}
use crypto_screener.Base.Eq.{nat_eq}
use crypto_screener.Base.Map.{lookup}
use crypto_screener.Base.Time.{minute}
use crypto_screener.Base.Int.{ℤ}
use crypto_screener.Decimal.Fixed.{fixed_decimal}
use crypto_screener.Volume.{VolumeSeries, unix}
use crypto_screener.Volume.Estimate.{estimate_series, find_latest, sum_run, project}
use crypto_screener.Volume.Windows.{Covers, estimate_series-Covers}
use crypto_screener.Tests.{t0, price}

abbrev two_minutes : VolumeSeries ℤ
two_minutes = record {
  buckets =
      (unix (t0 - minute), record { start = t0 - minute; quote = price 20 })
      ∷ (unix t0, record { start = t0; quote = price 30 })
      ∷ [];
  last_seen = t0;
}

estimate_series-Covers_example :
    Covers 2 t0 two_minutes.buckets (estimate_series 2 t0 (some two_minutes))
unfolding estimate_series find_latest sum_run project lookup
estimate_series-Covers_example = estimate_series-Covers 2 t0 two_minutes refl
