-- ===== src/Funding.antt =====
-- internal/app/funding_manager.go. The clock of the manager is the argument `now` of each call that
-- reads it; the lock makes each call one step. The atomic maps are association lists.
pub mod Evaluate
use crypto_screener.Base.{
  ℕ, ◌-◌, ◌*◌, Bool, true, false, not, ◌||◌, ◌&&◌, List, [], ◌∷◌, Option, none, some, ltb, leb, eqb,
  if◌then◌else◌, keep_if, ◌⊎◌, inl, inr,
}
use crypto_screener.Base.Eq.{text_eq, pair_eq}
use crypto_screener.Base.Map.{Map, lookup, insert}
use crypto_screener.Base.Text.{Text, text, trim_space, to_upper, is_empty, strip_separators}
use crypto_screener.Base.Time.{Time, Duration, is_zero_time, before, second}
use crypto_screener.Decimal.{Decimal, decimal_zero, less_than, is_negative, add, sub}

pub data ArbReason : Type 0 where
  profitable below_min_spread data_stale no_data stream_unhealthy invalid_input : ArbReason
  configuration_unavailable : ArbReason

pub record FundingConfig (D : Type 0) : Type 0 where
  pub min_spread : D
  pub max_data_staleness : Duration
  pub max_data_staleness_by_exchange : Map Text Duration

pub record FundingRecord (D : Type 0) : Type 0 where
  pub exchange : Text
  pub symbol : Text
  pub rate : D
  pub next_funding_time : Time
  pub event_time : Time
  pub local_received_at : Time

pub record ArbResult (D : Type 0) : Type 0 where
  pub is_profitable : Bool
  pub reason : ArbReason
  pub net_spread : D
  pub funding_rate : D
  pub next_funding_time : Time
  pub buy_funding_rate : D
  pub sell_funding_rate : D
  pub buy_next_funding_time : Time
  pub sell_next_funding_time : Time

abbrev pub FundingKey : Type 0
FundingKey = Text × Text

pub record FundingManager (D : Type 0) : Type 0 where
  pub rates : Map FundingKey (FundingRecord D)
  pub config : Option (FundingConfig D)
  pub health : Map Text Bool
  pub last_update : Map Text Time

pub data ConfigError : Type 0 where
  negative_min_spread staleness_not_positive : ConfigError
  exchange_staleness_not_positive : Text → ConfigError

abbrev pub normalize_exchange : Text → Text
normalize_exchange s = to_upper (trim_space s)

unfoldable pub normalize_funding_key : Text → Text → FundingKey
normalize_funding_key exchange symbol =
    (normalize_exchange exchange, to_upper (strip_separators (trim_space symbol)))

unfoldable pub earliest_funding : Time → Time → Time
earliest_funding a b = if is_zero_time a then b else if is_zero_time b || before a b then a else b

-- The first exchange whose budget is not positive.
abbrev bad_staleness : Map Text Duration → Option ConfigError
bad_staleness [] = none
bad_staleness ((ex, d) ∷ m) =
    if eqb d 0 then some (exchange_staleness_not_positive ex) else bad_staleness m

abbrev pub or_duration : Option Duration → Duration → Duration
or_duration none fallback = fallback
or_duration (some d) fallback = if ltb 0 d then d else fallback

abbrev pub or_unhealthy : Option Bool → Bool
or_unhealthy none = false
or_unhealthy (some b) = b

module _ {D : Type 0} ⦃dec : Decimal D⦄ where
  abbrev pub default_funding_config : FundingConfig D
  default_funding_config = record {
    min_spread = decimal_zero;
    max_data_staleness = 60 * second;
    max_data_staleness_by_exchange = (text "OKX", 90 * second) ∷ [];
  }

  unfoldable pub staleness_for : FundingConfig D → Text → Duration
  staleness_for c exchange =
      or_duration (lookup (normalize_exchange exchange) c.max_data_staleness_by_exchange)
        c.max_data_staleness

  unfoldable pub normalize : FundingConfig D → FundingConfig D
  normalize c =
      if eqb c.max_data_staleness 0 then record c { max_data_staleness = 60 * second } else c

  -- `none` is the nil error.
  unfoldable pub validate : FundingConfig D → Option ConfigError
  validate c =
      if is_negative c.min_spread
      then some negative_min_spread
      else if eqb c.max_data_staleness 0
      then some staleness_not_positive
      else bad_staleness c.max_data_staleness_by_exchange

  -- NewFundingManager; the clock is an argument of the calls that read it.
  unfoldable pub new_funding_manager : FundingConfig D → ConfigError ⊎ FundingManager D
  new_funding_manager cfg = elim (validate (normalize cfg)) [
    | none ↦
        inr (record { rates = []; config = some (normalize cfg); health = []; last_update = [] })
    | some e ↦ inl e
  ]

  -- UpdateConfig: the new manager, or the error and the manager as it was.
  unfoldable pub update_config :
      FundingManager D → FundingConfig D → FundingManager D × Option ConfigError
  update_config fm cfg = elim (validate (normalize cfg)) [
    | none ↦ (record fm { config = some (normalize cfg) }, none)
    | some e ↦ (fm, some e)
  ]

  unfoldable pub set_stream_health : FundingManager D → Text → Bool → FundingManager D
  set_stream_health fm name healthy =
      let exchange = normalize_exchange name in
      if is_empty exchange then fm else record fm { health = insert exchange healthy fm.health }

  unfoldable pub is_healthy : FundingManager D → Text → Bool
  is_healthy fm exchange = or_unhealthy (lookup (normalize_exchange exchange) fm.health)

  -- Go's age is negative where the record is newer than `now`, and 0 here: neither exceeds `max`.
  unfoldable pub is_stale : FundingRecord D → Time → Duration → Bool
  is_stale r now max =
      if is_zero_time r.local_received_at || eqb max 0
      then true
      else ltb max (now - r.local_received_at)

  -- Whether an update is older than the record that it would replace.
  abbrev pub is_superseded : Option (FundingRecord D) → Time → Bool
  is_superseded none event = false
  is_superseded (some old) event =
      not (is_zero_time event) && (not (is_zero_time old.event_time) && before event old.event_time)

  -- UpdateFunding: `false` is the error of an empty exchange or symbol.
  unfoldable pub update_funding :
      FundingManager D → Time → Text → Text → D → Time → Time → FundingManager D × Bool
  update_funding fm now exchange symbol rate next event =
      let key = normalize_funding_key exchange symbol in
      if is_empty key.0 || is_empty key.1
      then (fm, false)
      else if is_superseded (lookup key fm.rates) event
      then (fm, true)
      else let record_ : FundingRecord D = record {
        exchange = key.0;
        symbol = key.1;
        rate = rate;
        next_funding_time = next;
        event_time = event;
        local_received_at = now;
      } in
        let stored = record fm { rates = insert key record_ fm.rates } in
        let healthy = set_stream_health stored key.0 true in
        (record healthy { last_update = insert key.0 now fm.last_update }, true)

  unfoldable pub get_funding : FundingManager D → Text → Text → Option (FundingRecord D)
  get_funding fm exchange symbol = lookup (normalize_funding_key exchange symbol) fm.rates

  -- FundingAge: `none` is the -1 of an exchange that sent nothing.
  unfoldable pub funding_age : FundingManager D → Time → Text → Option Duration
  funding_age fm now exchange = elim (lookup (normalize_exchange exchange) fm.last_update) [
    | none ↦ none
    | some ts ↦ if eqb ts 0 then none else some (now - ts)
  ]

  unfoldable pub evict_stale : FundingManager D → Time → FundingManager D
  evict_stale fm now = elim fm.config [
    | none ↦ fm
    | some p ↦ record fm {
      rates = keep_if (λ e. not (is_stale e.1 now (staleness_for p e.0.0))) fm.rates;
    }
  ]
