-- ===== src/Volume.antt =====
-- internal/app/volume_engine.go. The engine's clock is the argument `now`; the lock makes each call
-- one step. A bucket's key, Go's Unix seconds, is counted from Go's zero time: the same key up to a
-- constant. The loops over minutes run a number of rounds that is known before they start.
pub mod Estimate
pub mod Windows
use crypto_screener.Base.{
  ℕ, zero, suc, ◌+◌, ◌-◌, ◌*◌, ◌/◌, ◌%◌, Bool, true, false, not, ◌||◌, ◌&&◌, List, [], ◌∷◌, ◌++◌,
  Option, none, some, ltb, leb, eqb, if◌then◌else◌, keep_if, map,
}
use crypto_screener.Base.Eq.{text_eq, nat_eq}
use crypto_screener.Base.Map.{Map, lookup, insert}
use crypto_screener.Base.Text.{Text, to_upper, is_empty}
use crypto_screener.Base.Time.{Time, Duration, is_zero_time, before, second, minute, hour}
use crypto_screener.Decimal.{Decimal, decimal_zero, is_negative}
use crypto_screener.Domain.Market.{MarketType, MarketCandle}

pub record VolumeBucket (D : Type 0) : Type 0 where
  pub start : Time
  pub quote : D

pub record VolumeSeries (D : Type 0) : Type 0 where
  pub buckets : Map ℕ (VolumeBucket D)
  pub last_seen : Time

pub record VolumeEngine (D : Type 0) : Type 0 where
  pub series : Map Text (VolumeSeries D)
  pub updates : ℕ

abbrev pub retention : Duration
retention = 4 * hour + 2 * minute

unfoldable pub volume_key : Text → Text → MarketType → Text
volume_key exchange symbol market =
    to_upper exchange ++ (b'|' ∷ (to_upper symbol ++ (b'|' ∷ market)))

unfoldable pub minute_start : Time → Time
minute_start t = t - t % minute

abbrev pub unix : Time → ℕ
unix t = t / second

module _ {D : Type 0} ⦃dec : Decimal D⦄ where
  abbrev pub new_volume_engine : VolumeEngine D
  new_volume_engine = record { series = []; updates = 0 }

  abbrev pub or_new_series : Option (VolumeSeries D) → VolumeSeries D
  or_new_series none = record { buckets = []; last_seen = 0 }
  or_new_series (some s) = s

  -- The series after one candle: the bucket replaced, and those before the cut dropped.
  unfoldable pub record_candle : VolumeSeries D → Time → MarketCandle D → VolumeSeries D
  record_candle s now c =
      let start = minute_start c.open_time in
      let bucket : VolumeBucket D = record { start = start; quote = c.quote_volume } in
      record {
        buckets =
            keep_if (λ b. not (ltb b.0 (unix (now - retention))))
              (insert (unix start) bucket s.buckets);
        last_seen = if before s.last_seen now then now else s.last_seen;
      }

  unfoldable pub live_buckets : Time → VolumeSeries D → VolumeSeries D
  live_buckets cut s = record s {
    buckets = keep_if (λ b. not (before (b.0 * second) cut)) s.buckets;
  }

  abbrev pub is_dead : Time → VolumeSeries D → Bool
  is_dead now s = is_zero_time s.last_seen || ltb retention (now - s.last_seen)

  unfoldable pub janitor : VolumeEngine D → Time → VolumeEngine D
  janitor v now = record v {
    series =
        keep_if (λ e. not (is_dead now e.1))
          (map (λ e. (e.0, live_buckets (now - retention) e.1)) v.series);
  }

  unfoldable pub is_bad_candle : MarketCandle D → Bool
  is_bad_candle c =
      is_empty c.exchange
      || (is_empty c.symbol
          || (is_zero_time c.open_time || (is_empty c.market_type || is_negative c.quote_volume)))

  unfoldable pub update_candle : VolumeEngine D → Time → MarketCandle D → VolumeEngine D
  unfolding is_bad_candle
  update_candle v now c =
      let key = volume_key c.exchange c.symbol c.market_type in
      let s = or_new_series (lookup key v.series) in
      let stored : VolumeEngine D = record {
        series = insert key (record_candle s now c) v.series;
        updates = suc v.updates;
      } in
      if is_bad_candle c
      then v
      else if eqb (suc v.updates % 1000) 0
      then janitor stored now
      else stored
