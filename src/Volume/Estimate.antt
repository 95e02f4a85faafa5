-- ===== src/Volume/Estimate.antt =====
-- The windows of volume_engine.go: EstimateMarketVolume and the volume of a route.
use crypto_screener.Base.{
  ℕ, zero, suc, ◌-◌, ◌*◌, ◌/◌, Bool, true, false, not, ◌||◌, ◌&&◌, Option, none, some, ltb, eqb,
  if◌then◌else◌,
}
use crypto_screener.Base.Eq.{text_eq, nat_eq}
use crypto_screener.Base.Map.{Map, lookup}
use crypto_screener.Base.Text.{Text}
use crypto_screener.Base.Time.{Time, Duration, minute, hour}
use crypto_screener.Decimal.{Decimal, decimal_zero, less_than, add, mul, div}
use crypto_screener.Domain.Market.{MarketType}
use crypto_screener.Domain.User.{
  Timeframe, tf_1m, tf_5m, tf_15m, tf_30m, tf_1h, tf_4h, tf_24h, other,
}
use crypto_screener.Volume.{
  VolumeEngine, VolumeSeries, VolumeBucket, volume_key, minute_start, unix,
}

pub record VolumeEstimate (D : Type 0) : Type 0 where
  pub volume : D
  pub complete : Bool
  pub known_minutes : ℕ
  pub window_minutes : ℕ

unfoldable pub timeframe_duration : Timeframe → Option Duration
timeframe_duration tf_1m = some minute
timeframe_duration tf_5m = some (5 * minute)
timeframe_duration tf_15m = some (15 * minute)
timeframe_duration tf_30m = some (30 * minute)
timeframe_duration tf_1h = some hour
timeframe_duration tf_4h = some (4 * hour)
timeframe_duration tf_24h = some (24 * hour)
timeframe_duration (other t) = none

abbrev pub min_int : ℕ → ℕ → ℕ
min_int a b = if ltb a b then a else b

abbrev pub max_int : ℕ → ℕ → ℕ
max_int a b = if ltb b a then a else b

module _ {D : Type 0} ⦃dec : Decimal D⦄ where
  abbrev pub no_estimate : ℕ → VolumeEstimate D
  no_estimate minutes = record {
    volume = decimal_zero;
    complete = false;
    known_minutes = 0;
    window_minutes = minutes;
  }

  -- The newest bucket of the window, looking back from `t` for so many minutes.
  unfoldable pub find_latest : ℕ → Time → Map ℕ (VolumeBucket D) → Option Time
  find_latest zero t buckets = none
  find_latest (suc rounds) t buckets =
      let further = find_latest rounds (t - minute) buckets in
      elim (lookup (unix t) buckets) [ none ↦ further | some b ↦ some b.start ]

  -- The sum of the run of buckets that ends at `t`, and how many there are.
  unfoldable pub sum_run : ℕ → Time → Map ℕ (VolumeBucket D) → D → ℕ → D × ℕ
  sum_run zero t buckets total known = (total, known)
  sum_run (suc rounds) t buckets total known = elim (lookup (unix t) buckets) [
    | none ↦ (total, known)
    | some b ↦ sum_run rounds (t - minute) buckets (add total b.quote) (suc known)
  ]

  unfoldable pub project : ℕ → D × ℕ → VolumeEstimate D
  project minutes (total, known) =
      if eqb known 0
      then no_estimate minutes
      else if eqb known minutes
      then record {
        volume = total;
        complete = true;
        known_minutes = known;
        window_minutes = minutes;
      }
      else record {
        volume = mul (div total (dec.literal known 0)) (dec.literal minutes 0);
        complete = false;
        known_minutes = known;
        window_minutes = minutes;
      }

  -- The estimate once the newest bucket is known.
  abbrev pub estimate_from : ℕ → Time → Map ℕ (VolumeBucket D) → Option Time → VolumeEstimate D
  estimate_from minutes end buckets none = no_estimate minutes
  estimate_from minutes end buckets (some latest) =
      if eqb latest 0 || not (eqb latest end)
      then no_estimate minutes
      else project minutes (sum_run minutes latest buckets decimal_zero 0)

  unfoldable pub estimate_series : ℕ → Time → Option (VolumeSeries D) → VolumeEstimate D
  estimate_series minutes end none = no_estimate minutes
  estimate_series minutes end (some s) =
      estimate_from minutes end s.buckets (find_latest minutes end s.buckets)

  -- A zero `now`, for which Go reads the clock, is `clock`.
  unfoldable pub estimate_market_volume :
      VolumeEngine D → Time → Text → Text → MarketType → Timeframe → Time → VolumeEstimate D
  unfolding timeframe_duration estimate_series
  estimate_market_volume v clock exchange symbol market tf now = elim (timeframe_duration tf) [
    | none ↦ no_estimate 0
    | some d ↦
        let at = if eqb now 0 then clock else now in
        estimate_series (d / minute) (minute_start at)
          (lookup (volume_key exchange symbol market) v.series)
  ]

  unfoldable pub combine_legs : VolumeEstimate D → VolumeEstimate D → VolumeEstimate D
  combine_legs a b =
      if eqb a.known_minutes 0 || eqb b.known_minutes 0
      then no_estimate a.window_minutes
      else record {
        volume = if less_than b.volume a.volume then b.volume else a.volume;
        complete = a.complete && b.complete;
        known_minutes = min_int a.known_minutes b.known_minutes;
        window_minutes = max_int a.window_minutes b.window_minutes;
      }

  unfoldable pub get_route_volume_estimate :
      VolumeEngine D
      → Time
      → Text
      → MarketType
      → Text
      → MarketType
      → Text
      → Timeframe
      → Time
      → VolumeEstimate D
  get_route_volume_estimate v clock buy_ex buy_market sell_ex sell_market symbol tf now =
      combine_legs (estimate_market_volume v clock buy_ex symbol buy_market tf now)
        (estimate_market_volume v clock sell_ex symbol sell_market tf now)

  abbrev pub get_route_volume :
      VolumeEngine D → Time → Text → MarketType → Text → MarketType → Text → Timeframe → Time → D
  get_route_volume v clock buy_ex buy_market sell_ex sell_market symbol tf now =
      (get_route_volume_estimate v clock buy_ex buy_market sell_ex sell_market symbol tf now).volume
