-- ===== src/Aggregator/Shutdown.antt =====
-- FlushActive and Janitor of sharded_aggregator.go over all shards.
use crypto_screener.Base.{
  true, false, not, List, [], ◌∷◌, ◌++◌, ◌≡◌, refl, ap, inl, inr, Bool-cases, All, map, keep_if,
  ◌∙◌, if◌then◌else◌,
}
use crypto_screener.Base.Eq.{text_eq}
use crypto_screener.Base.Map.{Distinct}
use crypto_screener.Base.Time.{Time, Duration, is_zero_time}
use crypto_screener.Decimal.{Decimal}
use crypto_screener.Domain.Market.{SpreadEvent, closed}
use crypto_screener.Aggregator.{Shard, ShardedAggregator, route_key}
use crypto_screener.Aggregator.Observe.{closing}
use crypto_screener.Aggregator.Process.{
  flush_shards, flush_active, sweep_shard, sweep_shards, janitor, is_abandoned,
}
use crypto_screener.Aggregator.Lifecycle.{Routes, IsTable, IsKeyed}
use crypto_screener.Aggregator.Closing.{closing_sound, route_key-closing}
use crypto_screener.Aggregator.Events.{IsSound, ShardRuns}

-- The time of a shutdown: the clock's where none is given.
abbrev pub flush_time : Time → Time → Time
flush_time clock now = if is_zero_time now then clock else now

module _ {D : Type 0} ⦃dec : Decimal D⦄ where
  -- The events fall into one part for each shard, and each part moves the routes of its shard.
  abbrev pub ShardsRun : List (Shard D) → List (Shard D) → List (SpreadEvent D) → Type 0
  ShardsRun [] [] evs = evs ≡ []
  ShardsRun [] (t ∷ ts) evs = ⊥
  ShardsRun (s ∷ ss) [] evs = ⊥
  ShardsRun (s ∷ ss) (t ∷ ts) evs =
      (own : List (SpreadEvent D)) × (rest : List (SpreadEvent D)) × (evs ≡ own ++ rest)
      × ShardRuns s (t, own)
      × ShardsRun ss ts rest

  keep_all : (m : Routes D) → keep_if (λ e. true) m ≡ m
  keep_all [] = refl
  keep_all (e ∷ m) = ap (◌∷◌ e) (keep_all m)

  keep_none : (m : Routes D) → keep_if (λ e. false) m ≡ []
  keep_none [] = refl
  keep_none (e ∷ m) = keep_none m

  flush_shard-ShardRuns :
      (now : Time) (s : Shard D)
      → IsTable s.active
      → ShardRuns s (record s { active = [] }, map (λ e. closing now e.1) s.active)
  flush_shard-ShardRuns now s t =
      let (table, runs) = closing_sound (λ e. true) now s.active t in
      (record { distinct = tt; keyed = tt }, rw (keep_all s.active, keep_none s.active) at runs)

  -- The events are of the routes, one of each in the order of the table, and each closes its route.
  abbrev pub ClosesEach : Time → Routes D → List (SpreadEvent D) → Type 0
  ClosesEach now m evs =
      (map route_key evs ≡ map (λ e. e.0) m)
      × All (λ ev. (ev.lifecycle ≡ closed) × (ev.timestamp ≡ now)) evs

  closing-ClosesEach :
      (now : Time) (m : Routes D) → All IsKeyed m → ClosesEach now m (map (λ e. closing now e.1) m)
  closing-ClosesEach now [] h = (refl, tt)
  closing-ClosesEach now ((key, st) ∷ m) (h, hs) =
      let (keys, all_closed) = closing-ClosesEach now m hs in
      (
        ap (λ k. k ∷ map route_key (map (λ e. closing now e.1) m)) (route_key-closing now st ∙ h.0)
            ∙ ap (◌∷◌ key) keys,
        ((refl, refl), all_closed),
      )

  -- The events fall into one part for each shard. Each part holds one event for each route of the
  -- shard, which closes it, and it leads from the routes of the shard to none.
  abbrev pub ShardsClose : Time → List (Shard D) → List (Shard D) → List (SpreadEvent D) → Type 0
  ShardsClose now [] [] evs = evs ≡ []
  ShardsClose now [] (t ∷ ts) evs = ⊥
  ShardsClose now (s ∷ ss) [] evs = ⊥
  ShardsClose now (s ∷ ss) (t ∷ ts) evs =
      (own : List (SpreadEvent D)) × (rest : List (SpreadEvent D)) × (evs ≡ own ++ rest)
      × ClosesEach now s.active own
      × Distinct s.active
      × (t ≡ record s { active = [] })
      × ShardRuns s (t, own)
      × ShardsClose now ss ts rest

  flush_shards_close :
      (now : Time) (shards : List (Shard D))
      → All (λ s. IsTable s.active) shards
      → let r = flush_shards now shards in
        ShardsClose now shards r.0 r.1 × All (λ s. s.active ≡ []) r.0
  unfolding flush_shards
  flush_shards_close now [] h = (refl, tt)
  flush_shards_close now (s ∷ shards) (h, hs) =
      let (closes, empty) = flush_shards_close now shards hs in
      (
        (
          _,
          _,
          refl,
          closing-ClosesEach now s.active h.keyed,
          h.distinct,
          refl,
          flush_shard-ShardRuns now s h,
          closes,
        ),
        (refl, empty),
      )

  -- A controlled shutdown leaves no active route in any shard. Its events fall into one part for
  -- each shard, which holds exactly one event for each route that was open, in the order of the
  -- table, each with the lifecycle `closed` and the time of the shutdown, and which leads from the
  -- open routes of the shard to none; of the shards nothing else changes. The aggregator satisfies
  -- its invariant.
  pub flush_active_runs :
      (clock now : Time) (sa : ShardedAggregator D)
      → IsSound sa
      → let r = flush_active clock now sa in
        ShardsClose (flush_time clock now) sa.shards r.0.shards r.1
        × All (λ s. s.active ≡ []) r.0.shards
  unfolding flush_active
  flush_active_runs clock now sa h = flush_shards_close (flush_time clock now) sa.shards h.tables

  kept_routes :
      (now : Time) (m : Routes D)
      → All (λ e. is_abandoned now e.1 ≡ false) (keep_if (λ e. not (is_abandoned now e.1)) m)
  kept_routes now [] = tt
  kept_routes now (e ∷ m) = elim (Bool-cases (is_abandoned now e.1)) [
    | inl gone ↦ rw gone (kept_routes now m)
    | inr here ↦ rw here (here, kept_routes now m)
  ]

  abbrev pub NoneAbandoned : Time → Shard D → Type 0
  NoneAbandoned now s = All (λ e. is_abandoned now e.1 ≡ false) s.active

  sweep_shards_run :
      (now : Time) (ttl : Duration) (shards : List (Shard D))
      → All (λ s. IsTable s.active) shards
      → let r = sweep_shards now ttl shards in
        ShardsRun shards r.0 r.1 × All (NoneAbandoned now) r.0
  unfolding sweep_shards sweep_shard
  sweep_shards_run now ttl [] h = (refl, tt)
  sweep_shards_run now ttl (s ∷ shards) (h, hs) =
      let (runs, live) = sweep_shards_run now ttl shards hs in
      (
        (_, _, refl, closing_sound (λ e. is_abandoned now e.1) now s.active h, runs),
        (kept_routes now s.active, live),
      )

  -- The janitor leaves only routes that were seen within their time to live, and its events fall
  -- into one part for each shard, which leads from the routes of the shard before to those after,
  -- closing only routes that are open. The aggregator satisfies its invariant.
  pub janitor_runs :
      (now : Time) (sa : ShardedAggregator D)
      → IsSound sa
      → let r = janitor now sa in
        ShardsRun sa.shards r.0.shards r.1 × All (NoneAbandoned now) r.0.shards
  unfolding janitor
  janitor_runs now sa h = sweep_shards_run now sa.deps.price_ttl sa.shards h.tables
