-- ===== src/Aggregator/Events.antt =====
-- What ProcessTick, FlushActive and Janitor of sharded_aggregator.go emit, in terms of Protocol.
use crypto_screener.Base.{
  OnSome, ℕ, suc, ◌<◌, Bool, true, false, List, [], ◌∷◌, ◌≡◌, refl, arith, if◌then◌else◌, Option,
  none, some, inl, inr, Bool-cases, All, All-set, All-append, length, length-set, set, get_elem?,
  get_elem?-set_self, get_elem?-set_ne, All-get_elem?, All-replicate, length-replicate, ◌∙◌, ◌≢◌,
  Option-cases,
}
use crypto_screener.Base.Eq.{text_eq}
use crypto_screener.Base.Map.{lookup}
use crypto_screener.Base.Text.{Text, is_empty}
use crypto_screener.Base.Time.{Time}
use crypto_screener.Decimal.{Decimal}
use crypto_screener.Domain.Market.{MarketTick, SpreadEvent}
use crypto_screener.Aggregator.{
  Shard, Deps, ShardedAggregator, Book, num_shards, new_sharded_aggregator, shard_for,
  normalize_tick, tick_time, valid_tick, empty_shard,
}
use crypto_screener.Aggregator.Observe.{close_missing}
use crypto_screener.Aggregator.Eligible.{route_volume_eligible}
use crypto_screener.Aggregator.Process.{
  candidates, to_list, settle, process_in_shard, process_tick, shard_at, is_outdated, markets_of,
}
use crypto_screener.Aggregator.Lifecycle.{Routes, IsTable, IsNamed, open_routes, observe_all_sound}
use crypto_screener.Aggregator.Closing.{closing_sound}
use crypto_screener.Aggregator.Crossing.{cross_candidates-Offer}
use crypto_screener.Aggregator.Offers.{HasFloor, IsOffer, intra_candidate-Offer}
use crypto_screener.Aggregator.Candidates.{intra_candidate}
use crypto_screener.Protocol.{Runs, Runs-append}

All-if {ℓ} :
    {A : Type 0} (P : A → Type ℓ) (b : Bool) (xs : List A) → All P xs → All P (if b then xs else [])
All-if P true xs h = h
All-if P false xs h = tt

module _ {D : Type 0} ⦃dec : Decimal D⦄ where
  abbrev pub ShardRuns : Shard D → Shard D × List (SpreadEvent D) → Type 0
  ShardRuns s r = IsTable r.0.active × Runs (open_routes s.active) r.1 (open_routes r.0.active)

  All-to_list :
      (P : SpreadEvent D → Type 0) (o : Option (SpreadEvent D)) → OnSome P o → All P (to_list o)
  All-to_list P none h = tt
  All-to_list P (some ev) h = (h, tt)

  pub candidates_offers :
      (deps : Deps D) (floor : HasFloor deps) (clock : Time) (book : Book D) (t : MarketTick D)
      → All (IsOffer deps book t.symbol (tick_time t)) (candidates deps clock book t)
  unfolding candidates
  candidates_offers deps floor clock book t = All-if _ _ _ (
      All-append _ _ _ (cross_candidates-Offer deps floor book t.symbol (tick_time t)) (
        All-to_list _ (intra_candidate deps book t.exchange t.symbol (tick_time t))
          (intra_candidate-Offer deps floor book t.symbol (tick_time t) t.exchange)))

  pub offers-IsNamed :
      (deps : Deps D) (book : Book D) (symbol : Text) (now : Time) (evs : List (SpreadEvent D))
      → is_empty symbol ≡ false
      → All (IsOffer deps book symbol now) evs
      → All IsNamed evs
  offers-IsNamed deps book symbol now [] n h = tt
  offers-IsNamed deps book symbol now (ev ∷ evs) n (h, hs) =
      (rw h.symbol_same n, offers-IsNamed deps book symbol now evs n hs)

  settle_sound :
      (deps : Deps D) (clock : Time) (book : Book D) (t : MarketTick D) (active : Routes D)
      → HasFloor deps
      → is_empty t.symbol ≡ false
      → IsTable active
      → let r = settle deps clock book t active in
        IsTable r.0 × Runs (open_routes active) r.1 (open_routes r.0)
  unfolding settle close_missing
  settle_sound deps clock book t active floor named h =
      let (t', seen) =
        observe_all_sound deps (route_volume_eligible deps clock) (candidates deps clock book t)
          active (record { active = active; current = []; events = [] })
          (offers-IsNamed deps book t.symbol (tick_time t) _ named
            (candidates_offers deps floor clock book t))
          (h, refl) in
      let (kept, gone) = closing_sound _ (tick_time t) _ t' in
      (kept, Runs-append (open_routes active) _ _ _ _ seen gone)

  -- Under the lock of its shard a tick emits events that lead, each legal where it comes, from the
  -- routes that were active to those that are.
  pub process_in_shard_runs :
      (deps : Deps D) (clock : Time) (t : MarketTick D) (s : Shard D)
      → HasFloor deps
      → is_empty t.symbol ≡ false
      → IsTable s.active
      → ShardRuns s (process_in_shard deps clock t s)
  unfolding process_in_shard
  process_in_shard_runs deps clock t s floor named h =
      elim (Bool-cases (is_outdated (lookup t.market_type (markets_of s.prices t)) t.received_at)) [
        | inl old ↦ rw (old, process_in_shard) (h, refl)
        | inr new ↦ rw (new, process_in_shard) (settle_sound deps clock _ t s.active floor named h)
      ]

  -- The array keeps its size, and every shard a table.
  pub record IsSound (sa : ShardedAggregator D) : Type 0 where
    pub sized : length sa.shards ≡ num_shards
    pub tables : All (λ s. IsTable s.active) sa.shards
    pub floored : HasFloor sa.deps

  empty_IsTable : IsTable {D = D} []
  empty_IsTable = record { distinct = tt; keyed = tt }

  pub new_sharded_aggregator-IsSound :
      (deps : Deps D) → HasFloor deps → IsSound (new_sharded_aggregator deps)
  unfolding new_sharded_aggregator
  new_sharded_aggregator-IsSound deps floor = record {
    sized = length-replicate {A = Shard D} num_shards empty_shard;
    tables = All-replicate (λ (s : Shard D). IsTable s.active) num_shards empty_shard empty_IsTable;
    floored = floor;
  }

  shard_at-IsTable :
      (shards : List (Shard D)) (i : ℕ)
      → All (λ s. IsTable s.active) shards
      → IsTable (shard_at shards i).active
  shard_at-IsTable shards i h = elim (Option-cases (get_elem? shards i)) [
    | inl e ↦ rw (e, shard_at) empty_IsTable
    | inr (s, e) ↦ rw (e, shard_at) (All-get_elem? (λ s. IsTable s.active) shards i h e)
  ]

  -- The index of the shard that a tick goes to.
  abbrev pub shard_of : (Text → ℕ) → MarketTick D → ℕ
  shard_of crc32 tick = shard_for crc32 (normalize_tick tick).symbol

  -- The routes of one shard go from the first state to the second by the events, the other shards
  -- stay as they are, and the second state is sound.
  abbrev pub TickRuns :
      ℕ → ShardedAggregator D → ShardedAggregator D × List (SpreadEvent D) → Type 0
  TickRuns i sa r =
      IsSound r.0
      × Runs (open_routes (shard_at sa.shards i).active) r.1
          (open_routes (shard_at r.0.shards i).active)
      × ((j : ℕ) → i ≢ j → get_elem? r.0.shards j ≡ get_elem? sa.shards j)

  stored_runs :
      (sa : ShardedAggregator D) (i : ℕ) (r : Shard D × List (SpreadEvent D))
      → i < num_shards
      → IsSound sa
      → ShardRuns (shard_at sa.shards i) r
      → TickRuns i sa (record sa { ticks = suc sa.ticks; shards = set sa.shards i r.0 }, r.1)
  stored_runs sa i r lt h (t, runs) = (
    record {
      sized = length-set sa.shards i r.0 ∙ h.sized;
      tables = All-set _ sa.shards i r.0 h.tables t;
      floored = h.floored;
    },
    rw (get_elem?-set_self sa.shards i r.0 (omega (arith, h.sized)), shard_at) runs,
    λ j ne. get_elem?-set_ne sa.shards i j r.0 ne,
  )

  -- A tick moves the routes of the shard of its symbol by exactly the events that it emits: a route
  -- opens only when it is not open, and is updated or closed only when it is. The other shards stay
  -- as they are, and the aggregator keeps its invariant, which it has before: 1024 shards, no key
  -- twice in a table and each naming its route, and no funding configuration that asks for a
  -- negative spread.
  pub process_tick_runs :
      (crc32 : Text → ℕ) (clock : Time) (sa : ShardedAggregator D) (tick : MarketTick D)
      → IsSound sa
      → TickRuns (shard_of crc32 tick) sa (process_tick crc32 clock sa tick)
  unfolding process_tick
  process_tick_runs crc32 clock sa tick h = elim (Bool-cases (valid_tick tick)) [
    | inr bad ↦
        rw bad
          (record { sized = h.sized; tables = h.tables; floored = h.floored }, refl, λ j ne. refl)
    | inl good ↦ elim (Bool-cases (is_empty (normalize_tick tick).symbol)) [
      | inl blank ↦
          rw (good, blank)
            (record { sized = h.sized; tables = h.tables; floored = h.floored }, refl, λ j ne. refl)
      | inr named ↦
          rw (good, named)
            (stored_runs sa (shard_of crc32 tick) _ (omega arith) h (
              process_in_shard_runs sa.deps clock (normalize_tick tick) _ h.floored named
                (shard_at-IsTable sa.shards _ h.tables)))
    ]
  ]
