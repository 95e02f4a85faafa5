-- ===== src/Aggregator/Emitted.antt =====
-- The events of one tick of sharded_aggregator.go: their date, their symbol and their spread.
use crypto_screener.Base.{
  Bool, true, false, List, [], ◌∷◌, ◌++◌, ◌≡◌, refl, sym, ◌∙◌, ap, arith, some, inl, inr,
  Bool-cases, Option-cases, All, All-append, map, keep_if,
}
use crypto_screener.Base.Eq.{text_eq}
use crypto_screener.Base.Map.{lookup}
use crypto_screener.Base.Text.{Text, is_empty, has_prefix, join_colon, has_prefix-middle}
use crypto_screener.Base.Time.{Time}
use crypto_screener.Decimal.{Decimal, decimal_zero, less_than, less_than_or_equal, greater_than, Le}
use crypto_screener.Domain.Market.{MarketTick, SpreadEvent, SignalLifecycle}
use crypto_screener.Domain.Config.{get_close_threshold, get_hard_min_spread}
use crypto_screener.Aggregator.{Shard, Deps, Book, RouteState, route_key, tick_time}
use crypto_screener.Aggregator.Eligible.{route_volume_eligible}
use crypto_screener.Aggregator.Observe.{
  Observed, observe, observe_new, observe_active, observe_one, observe_all, with_lifecycle, closing,
  close_missing, is_missing,
}
use crypto_screener.Aggregator.Process.{
  candidates, settle, process_in_shard, is_outdated, markets_of,
}
use crypto_screener.Aggregator.Lifecycle.{Routes, IsTable, IsKeyed, IsNamed, observe_all_sound}
use crypto_screener.Aggregator.Events.{candidates_offers, offers-IsNamed}
use crypto_screener.Aggregator.Offers.{HasFloor, IsOffer}

-- The keys of the routes of a symbol, as ProcessTick recognises them.
abbrev pub keys_under : Text → Text → Bool
keys_under symbol key = has_prefix key (symbol ++ (b':' ∷ []))

module _ {D : Type 0} ⦃dec : Decimal D⦄ where
  -- An event of the tick's date, about a route of the symbol, with a spread that is not negative.
  pub record IsEmitted (symbol : Text) (now : Time) (ev : SpreadEvent D) : Type 0 where
    pub dated : ev.timestamp ≡ now
    pub named : IsNamed ev
    pub spread_nonneg : Le decimal_zero ev.spread
    pub under_symbol : keys_under symbol (route_key ev) ≡ true

  module _ (symbol : Text) (now : Time) where
    abbrev Emitted : SpreadEvent D → Type 0
    Emitted = IsEmitted symbol now

    with_lifecycle-Emitted :
        (ev : SpreadEvent D) (l : SignalLifecycle) → Emitted ev → Emitted (with_lifecycle ev l)
    unfolding route_key
    with_lifecycle-Emitted ev l h = record {
      dated = h.dated;
      named = h.named;
      spread_nonneg = h.spread_nonneg;
      under_symbol = h.under_symbol;
    }

    observe_new-Emitted :
        (deps : Deps D) (active : Routes D) (ev : SpreadEvent D)
        → Emitted ev
        → All Emitted (observe_new deps active ev).1
    unfolding observe_new
    observe_new-Emitted deps active ev h =
        elim (Bool-cases (less_than ev.spread (get_hard_min_spread (some deps.config)))) [
          | inl low ↦ rw low tt
          | inr high ↦ rw high (with_lifecycle-Emitted ev _ h, tt)
        ]

    observe_active-Emitted :
        (deps : Deps D) (active : Routes D) (ev : SpreadEvent D) (state : RouteState D)
        → Emitted ev
        → All Emitted (observe_active deps active ev state).1
    unfolding observe_active
    observe_active-Emitted deps active ev state h =
        elim (Bool-cases (less_than_or_equal ev.spread (get_close_threshold (some deps.config)))) [
          | inl low ↦ rw low (with_lifecycle-Emitted ev _ h, tt)
          | inr high ↦ elim (Bool-cases (greater_than ev.spread state.peak)) [
            | inl peak ↦ rw (high, peak) (with_lifecycle-Emitted ev _ h, tt)
            | inr flat ↦ rw (high, flat) tt
          ]
        ]

    observe-Emitted :
        (deps : Deps D) (active : Routes D) (ev : SpreadEvent D)
        → Emitted ev
        → All Emitted (observe deps active ev).1
    unfolding observe
    observe-Emitted deps active ev h = elim (Option-cases (lookup (route_key ev) active)) [
      | inl e ↦ rw (e, observe) (observe_new-Emitted deps active ev h)
      | inr (state, e) ↦ rw (e, observe) (observe_active-Emitted deps active ev state h)
    ]

    observe_all-Emitted :
        (deps : Deps D) (eligible : SpreadEvent D → Bool) (evs : List (SpreadEvent D))
        (o : Observed D)
        → All Emitted evs
        → All Emitted o.events
        → All Emitted (observe_all deps eligible evs o).events
    unfolding observe_all observe_one
    observe_all-Emitted deps eligible [] o h k = k
    observe_all-Emitted deps eligible (ev ∷ evs) o (h, hs) k =
        observe_all-Emitted deps eligible evs _ hs (elim (Bool-cases (eligible ev)) [
          | inl wanted ↦
              rw wanted (All-append Emitted o.events _ k (observe-Emitted deps o.active ev h))
          | inr idle ↦ rw idle k
        ])

    closing-Emitted :
        (current : List Text) (m : Routes D)
        → All IsKeyed m
        → All Emitted (
            map
              (λ e. closing now e.1)
              (keep_if (λ e. is_missing (symbol ++ (b':' ∷ [])) current e.0) m))
    unfolding route_key
    closing-Emitted current [] h = tt
    closing-Emitted current ((key, st) ∷ m) (h, hs) =
        elim (Bool-cases (is_missing (symbol ++ (b':' ∷ [])) current key)) [
          | inr here ↦ rw here (closing-Emitted current m hs)
          | inl gone ↦ rw gone (
            record {
              dated = refl;
              named = h.1;
              spread_nonneg = dec.below_irrefl _;
              under_symbol = ap (keys_under symbol) h.0 ∙ ground arith;
            },
            closing-Emitted current m hs,
          )
        ]

  offers-IsEmitted :
      (deps : Deps D) (book : Book D) (symbol : Text) (now : Time) (evs : List (SpreadEvent D))
      → is_empty symbol ≡ false
      → All (IsOffer deps book symbol now) evs
      → All (IsEmitted symbol now) evs
  unfolding route_key join_colon
  offers-IsEmitted deps book symbol now [] n h = tt
  offers-IsEmitted deps book symbol now (ev ∷ evs) n (h, hs) = (
    record {
      dated = h.dated;
      named = rw h.symbol_same n;
      spread_nonneg = h.spread_nonneg;
      under_symbol =
          ap (λ s. keys_under s (route_key ev)) (sym h.symbol_same)
          ∙ has_prefix-middle ev.symbol b':' _;
    },
    offers-IsEmitted deps book symbol now evs n hs,
  )

  settle-IsEmitted :
      (deps : Deps D) (clock : Time) (book : Book D) (t : MarketTick D) (active : Routes D)
      → HasFloor deps
      → is_empty t.symbol ≡ false
      → IsTable active
      → All (IsEmitted t.symbol (tick_time t)) (settle deps clock book t active).1
  unfolding settle close_missing
  settle-IsEmitted deps clock book t active floor named h =
      let offers = candidates_offers deps floor clock book t in
      let (table, runs) =
        observe_all_sound deps (route_volume_eligible deps clock) (candidates deps clock book t)
          active (record { active = active; current = []; events = [] })
          (offers-IsNamed deps book t.symbol (tick_time t) _ named offers) (h, refl) in
      All-append _ _ _
        (observe_all-Emitted t.symbol (tick_time t) deps (route_volume_eligible deps clock)
          (candidates deps clock book t) (record { active = active; current = []; events = [] })
          (offers-IsEmitted deps book t.symbol (tick_time t) _ named offers) tt)
        (closing-Emitted t.symbol (tick_time t) _ _ table.keyed)

  -- Every event of a tick carries the tick's time, is about a route under the tick's symbol, names
  -- a symbol, and has a spread that is not negative. The tick names a symbol, no key of the shard's
  -- routes stands twice and each names its route, and no funding configuration asks for a negative
  -- spread.
  pub process_in_shard-IsEmitted :
      (deps : Deps D) (clock : Time) (t : MarketTick D) (s : Shard D)
      → HasFloor deps
      → is_empty t.symbol ≡ false
      → IsTable s.active
      → All (IsEmitted t.symbol (tick_time t)) (process_in_shard deps clock t s).1
  unfolding process_in_shard
  process_in_shard-IsEmitted deps clock t s floor named h =
      elim (Bool-cases (is_outdated (lookup t.market_type (markets_of s.prices t)) t.received_at)) [
        | inl old ↦ rw (old, process_in_shard) tt
        | inr new ↦
            rw (new, process_in_shard) (settle-IsEmitted deps clock _ t s.active floor named h)
      ]
