-- ===== src/Pipeline/LateClose.antt =====
-- Ticks of one symbol out of order: ProcessTick of sharded_aggregator.go dates the events of a tick
-- by the tick, and HandleEvent of tracker.go drops an event dated before its signal was opened.
use mathlib.Core.Option.{some-injective}
use crypto_screener.Base.{
  ℕ, ◌<◌, Bool, true, false, not, List, [], ◌∷◌, ◌++◌, ◌≡◌, refl, sym, ◌∙◌, ap, subst, arith,
  Option, none, some, inl, inr, Bool-cases, Option-cases, All, map, suc,
}
use crypto_screener.Base.Eq.{text_eq, list_beq}
use crypto_screener.Base.Map.{is_some, insert, lookup, lookup-keep_if}
use crypto_screener.Base.Text.{Text, is_empty}
use crypto_screener.Base.Time.{Time, before}
use crypto_screener.Decimal.{Decimal}
use crypto_screener.Domain.Market.{MarketTick, SpreadEvent, closed}
use crypto_screener.Domain.Signal.{ArbitrageSignal}
use crypto_screener.Aggregator.{Shard, Deps, Book, route_key, tick_time}
use crypto_screener.Aggregator.Observe.{closing, close_missing, is_missing, observe_all}
use crypto_screener.Aggregator.Process.{
  process_in_shard, settle, candidates, is_outdated, markets_of, with_markets, price_state,
  or_empty,
}
use crypto_screener.Aggregator.Lifecycle.{Routes, IsTable, open_routes}
use crypto_screener.Aggregator.Emitted.{keys_under}
use crypto_screener.Aggregator.Events.{process_in_shard_runs}
use crypto_screener.Aggregator.Emitted.{IsEmitted, process_in_shard-IsEmitted}
use crypto_screener.Aggregator.Offers.{HasFloor}
use crypto_screener.Pipeline.Frame.{Agree}
use crypto_screener.Protocol.{Open, Runs, Allows, step}
use crypto_screener.Tracker.{Tracker, signal_key, handle_event, handle_present, is_ignored}
use crypto_screener.Tracker.Table.{open_signals, handle_events, locked_present}

-- The tracker has a signal for each of the open routes of a class, all opened after a date.
abbrev pub Held : {D : Type 0} → (Text → Bool) → Time → Open → Tracker D → Type 0
Held mine now a tr =
    (k : Text) (at : Time)
    → mine k ≡ true
    → a k ≡ some at
    → (open_signals tr.active_signals k ≡ some at) × (now < at)

is_some-value : (o : Option Time) → is_some o ≡ true → (at : Time) × (o ≡ some at)
is_some-value none h = cc
is_some-value (some at) h = (at, refl)

module _ {D : Type 0} ⦃dec : Decimal D⦄ where
  abbrev OpenedAfter : Tracker D → SpreadEvent D → Type 0
  OpenedAfter tr ev =
      (at : Time) × (open_signals tr.active_signals (route_key ev) ≡ some at) × (ev.timestamp < at)

  absent_signal :
      (tr : Tracker D) (ev : SpreadEvent D)
      → lookup (signal_key ev) tr.active_signals ≡ none
      → open_signals tr.active_signals (route_key ev) ≡ none
  unfolding signal_key route_key
  absent_signal tr ev e = rw e refl

  present_signal :
      (tr : Tracker D) (ev : SpreadEvent D) (s : ArbitrageSignal D)
      → lookup (signal_key ev) tr.active_signals ≡ some s
      → open_signals tr.active_signals (route_key ev) ≡ some s.opened_at
  unfolding signal_key route_key
  present_signal tr ev s e = rw e refl

  late_close_dropped :
      (id : Text) (tr : Tracker D) (ev : SpreadEvent D)
      → ev.lifecycle ≡ closed
      → OpenedAfter tr ev
      → (handle_event id tr ev).0 ≡ tr
  unfolding handle_event handle_present
  late_close_dropped id tr ev c (at, held, late) =
      elim (Option-cases (lookup (signal_key ev) tr.active_signals)) [
        | inl e ↦ cc (absent_signal tr ev e, held)
        | inr (s, e) ↦ elim (Bool-cases (is_ignored ev)) [
          | inl ignored ↦ rw ignored refl
          | inr kept ↦
              let same : s.opened_at ≡ at =
                some-injective s.opened_at at (sym (present_signal tr ev s e) ∙ held) in
              let b : before ev.timestamp s.opened_at ≡ true = ground arith in
              rw (kept, locked_present id tr ev s e, c, b) refl
        ]
      ]

  -- A closing event about a route of the class takes the route away and adds none.
  step-Held :
      (mine : Text → Bool) (now : Time) (a : Open) (ev : SpreadEvent D) (tr : Tracker D)
      → ev.lifecycle ≡ closed
      → Held mine now a tr
      → Held mine now (step a ev) tr
  step-Held mine now a ev tr c h k at own e = elim (Bool-cases (list_beq (route_key ev) k)) [
    | inl hit ↦ cc (rw (hit, c) at e)
    | inr miss ↦ h k at own (rw miss at e)
  ]

  closing_dropped :
      (ids : ℕ → Text) (mine : Text → Bool) (now : Time) (a b : Open) (evs : List (SpreadEvent D))
      (tr : Tracker D)
      → Held mine now a tr
      → Runs a evs b
      → All (λ ev. ev.lifecycle ≡ closed) evs
      → All (λ ev. (ev.timestamp ≡ now) × (mine (route_key ev) ≡ true)) evs
      → handle_events ids tr evs ≡ tr
  unfolding handle_events
  closing_dropped ids mine now a b [] tr h r c d = refl
  closing_dropped ids mine now a b (ev ∷ evs) tr h (legal, r) (c, cs) ((dated, own), ds) =
      let (at, e) =
        is_some-value (a (route_key ev)) (subst (λ l. Allows l (a (route_key ev))) c legal) in
      let (held, late) = h (route_key ev) at own e in
      let dropped = late_close_dropped (ids 0) tr ev c (at, held, rw dated late) in
      ap (λ x. handle_events (λ n. ids (suc n)) x evs) dropped
      ∙ closing_dropped (λ n. ids (suc n)) mine now (step a ev) b evs tr
          (step-Held mine now a ev tr c h) r cs ds

  All-closing :
      (now : Time) (m : Routes D) → All (λ ev. ev.lifecycle ≡ closed) (map (λ e. closing now e.1) m)
  All-closing now [] = tt
  All-closing now (e ∷ m) = (refl, All-closing now m)

  -- The price book that a tick leaves.
  abbrev pub book_after : Shard D → MarketTick D → Book D
  book_after s t = or_empty (
      lookup t.symbol
        (with_markets s.prices t (insert t.market_type (price_state t) (markets_of s.prices t))))

  -- A tick that is accepted and has no candidates closes all routes of its symbol.
  closes_every :
      (deps : Deps D) (clock : Time) (t : MarketTick D) (s : Shard D)
      → IsTable s.active
      → is_outdated (lookup t.market_type (markets_of s.prices t)) t.received_at ≡ false
      → candidates deps clock (book_after s t) t ≡ []
      → let r = process_in_shard deps clock t s in
        All (λ ev. ev.lifecycle ≡ closed) r.1
        × ((k : Text) → keys_under t.symbol k ≡ true → open_routes r.0.active k ≡ none)
  unfolding process_in_shard settle observe_all close_missing
  closes_every deps clock t s h new none_ =
      rw (new, process_in_shard, none_)
        (
          All-closing (tick_time t) _,
          λ k own. ground (
            arith,
            lookup-keep_if (λ e. not (is_missing (t.symbol ++ (b':' ∷ [])) [] e.0)) k s.active
                h.distinct,
          ),
        )

  both :
      (symbol : Text) (now : Time) (evs : List (SpreadEvent D))
      → All (IsEmitted symbol now) evs
      → All (λ ev. (ev.timestamp ≡ now) × (keys_under symbol (route_key ev) ≡ true)) evs
  both symbol now [] h = tt
  both symbol now (ev ∷ evs) (h, hs) = ((h.dated, h.under_symbol), both symbol now evs hs)

  -- A tick that is accepted, that has no candidates, and that is dated before the tracker's signals
  -- for the open routes of its symbol were opened, closes all these routes in the aggregator, while
  -- the tracker drops the events and keeps every signal as it is. The tick names a symbol, no key
  -- of the shard's routes stands twice and each names its route, and no funding configuration asks
  -- for a negative spread.
  pub late_tick_parts :
      (deps : Deps D) (clock : Time) (ids : ℕ → Text) (t : MarketTick D) (s : Shard D)
      (tr : Tracker D)
      → HasFloor deps
      → is_empty t.symbol ≡ false
      → IsTable s.active
      → is_outdated (lookup t.market_type (markets_of s.prices t)) t.received_at ≡ false
      → candidates deps clock (book_after s t) t ≡ []
      → Held (keys_under t.symbol) (tick_time t) (open_routes s.active) tr
      → let r = process_in_shard deps clock t s in
        Agree (keys_under t.symbol) (open_routes r.0.active) (λ k. none)
        × (handle_events ids tr r.1 ≡ tr)
  late_tick_parts deps clock ids t s tr floor named h new none_ held =
      let (table, runs) = process_in_shard_runs deps clock t s floor named h in
      let (all_closed, gone) = closes_every deps clock t s h new none_ in
      (
        gone,
        closing_dropped ids (keys_under t.symbol) (tick_time t) (open_routes s.active) _ _ tr held
            runs all_closed
            (both t.symbol (tick_time t) _
              (process_in_shard-IsEmitted deps clock t s floor named h)),
      )
