-- ===== src/Aggregator/Process.antt =====
-- ProcessTick, FlushActive and Janitor of sharded_aggregator.go. Each returns the new state and the
-- events that it hands to sendEvent, in order. A shard's lock makes the work on it one step.
use crypto_screener.Base.{
  ℕ, suc, ◌-◌, ◌*◌, Bool, true, false, not, ◌||◌, ◌&&◌, List, [], ◌∷◌, ◌++◌, Option, none, some,
  ltb, if◌then◌else◌, keep_if, map, set, get_elem?,
}
use crypto_screener.Base.Eq.{text_eq}
use crypto_screener.Base.Map.{Map, lookup, insert}
use crypto_screener.Base.Text.{Text, is_empty}
use crypto_screener.Base.Time.{Time, Duration, is_zero_time, before}
use crypto_screener.Decimal.{Decimal}
use crypto_screener.Domain.Market.{MarketTick, SpreadEvent}
use crypto_screener.Domain.User.{has_users}
use crypto_screener.Domain.Config.{is_pair_enabled}
use crypto_screener.Aggregator.{
  PriceState, RouteState, Markets, Book, Shard, Deps, ShardedAggregator, empty_shard, shard_for,
  valid_tick, normalize_tick, tick_time, stale_active_route_ttl,
}
use crypto_screener.Aggregator.Candidates.{cross_candidates, intra_candidate}
use crypto_screener.Aggregator.Eligible.{symbol_may_pass_volume, route_volume_eligible}
use crypto_screener.Aggregator.Observe.{observe_all, closing, close_missing}

abbrev pub or_empty {ℓ} : {A : Type ℓ} → Option (List A) → List A
or_empty none = []
or_empty (some m) = m

abbrev pub is_not_empty {ℓ} : {A : Type ℓ} → List A → Bool
is_not_empty [] = false
is_not_empty (x ∷ xs) = true

abbrev pub to_list {ℓ} : {A : Type ℓ} → Option A → List A
to_list none = []
to_list (some a) = a ∷ []

module _ {D : Type 0} where
  -- Whether the tick is older than the price that it would replace.
  abbrev pub is_outdated : Option (PriceState D) → Time → Bool
  is_outdated none received = false
  is_outdated (some old) received =
      not (is_zero_time old.received_at) && before received old.received_at

  unfoldable pub price_state : MarketTick D → PriceState D
  price_state t = record {
    bid = t.best_bid;
    ask = t.best_ask;
    received_at = t.received_at;
    quote_volume_24h = t.quote_volume;
  }

  abbrev pub markets_of : Map Text (Book D) → MarketTick D → Markets D
  markets_of prices t = or_empty (lookup t.exchange (or_empty (lookup t.symbol prices)))

  -- The maps that ProcessTick makes where they are missing stay, even if the tick is outdated.
  unfoldable pub with_markets : Map Text (Book D) → MarketTick D → Markets D → Map Text (Book D)
  with_markets prices t markets =
      insert t.symbol (insert t.exchange markets (or_empty (lookup t.symbol prices))) prices

module _ {D : Type 0} ⦃dec : Decimal D⦄ where
  abbrev pub has_audience : Deps D → Bool
  has_audience deps = elim deps.users [ none ↦ true | some users ↦ has_users users ]

  -- The candidates of a tick: none where no user can want the symbol.
  unfoldable pub candidates : Deps D → Time → Book D → MarketTick D → List (SpreadEvent D)
  candidates deps clock book t =
      let now = tick_time t in
      if has_audience deps
        && (is_pair_enabled deps.config t.symbol
            && symbol_may_pass_volume deps clock book t.symbol now)
      then cross_candidates deps book t.symbol now
        ++ to_list (intra_candidate deps book t.exchange t.symbol now)
      else []

  -- The routes of the shard after the observations, and the events of the tick.
  unfoldable pub settle :
      Deps D
      → Time
      → Book D
      → MarketTick D
      → Map Text (RouteState D)
      → Map Text (RouteState D) × List (SpreadEvent D)
  settle deps clock book t active =
      let seen =
        observe_all deps (route_volume_eligible deps clock) (candidates deps clock book t)
          (record { active = active; current = []; events = [] }) in
      let (kept, gone) =
        close_missing (t.symbol ++ (b':' ∷ [])) seen.current (tick_time t) seen.active in
      (kept, seen.events ++ gone)

  -- What ProcessTick does under the lock of a shard, for a tick that is valid and normalized.
  unfoldable pub process_in_shard :
      Deps D → Time → MarketTick D → Shard D → Shard D × List (SpreadEvent D)
  process_in_shard deps clock t shard =
      let markets = markets_of shard.prices t in
      let prices = with_markets shard.prices t (insert t.market_type (price_state t) markets) in
      let (kept, events) = settle deps clock (or_empty (lookup t.symbol prices)) t shard.active in
      if is_outdated (lookup t.market_type markets) t.received_at
      then (record shard { prices = with_markets shard.prices t markets }, [])
      else (record { prices = prices; active = kept }, events)

  abbrev pub shard_at : List (Shard D) → ℕ → Shard D
  shard_at shards i = elim (get_elem? shards i) [ none ↦ empty_shard | some s ↦ s ]

  unfoldable pub process_tick :
      (Text → ℕ)
      → Time
      → ShardedAggregator D
      → MarketTick D
      → ShardedAggregator D × List (SpreadEvent D)
  process_tick crc32 clock sa tick =
      let t = normalize_tick tick in
      let counted = record sa { ticks = suc sa.ticks } in
      let i = shard_for crc32 t.symbol in
      let (shard, events) = process_in_shard sa.deps clock t (shard_at sa.shards i) in
      if not (valid_tick tick)
      then (counted, [])
      else if is_empty t.symbol
      then (counted, [])
      else (record counted { shards = set sa.shards i shard }, events)

  -- FlushActive: `clock` is time.Now, for a zero `now`.
  unfoldable pub flush_shards : Time → List (Shard D) → List (Shard D) × List (SpreadEvent D)
  flush_shards now [] = ([], [])
  flush_shards now (s ∷ rest) =
      let (rest', events) = flush_shards now rest in
      (record s { active = [] } ∷ rest', map (λ e. closing now e.1) s.active ++ events)

  unfoldable pub flush_active :
      Time → Time → ShardedAggregator D → ShardedAggregator D × List (SpreadEvent D)
  flush_active clock now sa =
      let at = if is_zero_time now then clock else now in
      let (shards, events) = flush_shards at sa.shards in (record sa { shards = shards }, events)

  -- Prices received before the cut are dropped, and so are the maps that this empties.
  unfoldable pub prune_book : Time → Book D → Book D
  prune_book cut book =
      keep_if (λ e. is_not_empty e.1)
        (map (λ e. (e.0, keep_if (λ m. not (before m.1.received_at cut)) e.1)) book)

  unfoldable pub prune_prices : Time → Map Text (Book D) → Map Text (Book D)
  unfolding prune_book
  prune_prices cut prices =
      keep_if (λ e. is_not_empty e.1) (map (λ e. (e.0, prune_book cut e.1)) prices)

  unfoldable pub last_seen : RouteState D → Time
  last_seen state =
      if is_zero_time state.last.timestamp then state.opened_at else state.last.timestamp

  unfoldable pub is_abandoned : Time → RouteState D → Bool
  unfolding last_seen
  is_abandoned now state =
      is_zero_time (last_seen state) || ltb stale_active_route_ttl (now - last_seen state)

  unfoldable pub sweep_shard : Time → Duration → Shard D → Shard D × List (SpreadEvent D)
  sweep_shard now ttl s = (
    record {
      prices = prune_prices (now - ttl * 12) s.prices;
      active = keep_if (λ e. not (is_abandoned now e.1)) s.active;
    },
    map (λ e. closing now e.1) (keep_if (λ e. is_abandoned now e.1) s.active),
  )

  unfoldable pub sweep_shards :
      Time → Duration → List (Shard D) → List (Shard D) × List (SpreadEvent D)
  sweep_shards now ttl [] = ([], [])
  sweep_shards now ttl (s ∷ rest) =
      let (s', gone) = sweep_shard now ttl s in
      let (rest', events) = sweep_shards now ttl rest in (s' ∷ rest', gone ++ events)

  unfoldable pub janitor : Time → ShardedAggregator D → ShardedAggregator D × List (SpreadEvent D)
  janitor now sa =
      let (shards, events) = sweep_shards now sa.deps.price_ttl sa.shards in
      (record sa { shards = shards }, events)
