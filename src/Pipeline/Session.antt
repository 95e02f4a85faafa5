-- ===== src/Pipeline/Session.antt =====
-- A run of ticks of one symbol through sharded_aggregator.go and tracker.go, as the workers of
-- internal/app/app.go connect them.
use crypto_screener.Base.{
  ℕ, ◌≤◌, false, List, [], ◌∷◌, ◌≡◌, sym, subst, arith, Option, none, some, suc,
}
use crypto_screener.Base.Text.{Text, is_empty}
use crypto_screener.Base.Time.{Time, is_zero_time}
use crypto_screener.Decimal.{Decimal}
use crypto_screener.Domain.Market.{MarketTick}
use crypto_screener.Aggregator.{Shard, Deps, tick_time}
use crypto_screener.Aggregator.Process.{process_in_shard}
use crypto_screener.Aggregator.Lifecycle.{IsTable, open_routes}
use crypto_screener.Aggregator.Events.{process_in_shard_runs}
use crypto_screener.Aggregator.Emitted.{keys_under}
use crypto_screener.Aggregator.Offers.{HasFloor}
use crypto_screener.Protocol.{NotBefore}
use crypto_screener.Tracker.{Tracker}
use crypto_screener.Tracker.Table.{open_signals, handle_events}
use crypto_screener.Pipeline.Frame.{Agree}
use crypto_screener.Pipeline.Mirror.{Mirrors, process_in_shard-Mirrors}

later_NotBefore :
    (now then_ : Time) (b : Option Time) → now ≤ then_ → NotBefore now b → NotBefore then_ b
later_NotBefore now then_ none le h = tt
later_NotBefore now then_ (some at) le h = omega arith

module _ {D : Type 0} ⦃dec : Decimal D⦄ where
  -- The tracker handles the events of one tick before the next tick is processed; each tick comes
  -- with what time.Now says, and with the ids for its events.
  unfoldable pub deliver :
      Deps D
      → (ℕ → ℕ → Text)
      → List (Time × MarketTick D)
      → Shard D
      → Tracker D
      → Shard D × Tracker D
  deliver deps ids [] s tr = (s, tr)
  deliver deps ids ((clock, t) ∷ ticks) s tr =
      let (s', events) = process_in_shard deps clock t s in
      deliver deps (λ n. ids (suc n)) ticks s' (handle_events (ids 0) tr events)

  -- Ticks of one symbol whose times do not decrease.
  abbrev pub InOrder : Text → Time → List (Time × MarketTick D) → Type 0
  InOrder symbol now [] = Unit {0}
  InOrder symbol now ((clock, t) ∷ ticks) =
      (t.symbol ≡ symbol) × (now ≤ tick_time t) × InOrder symbol (tick_time t) ticks

  later-Mirrors :
      (symbol : Text) (now then_ : Time) (s : Shard D) (tr : Tracker D)
      → now ≤ then_
      → Mirrors symbol now s tr
      → Mirrors symbol then_ s tr
  later-Mirrors symbol now then_ s tr le m = record {
    agree = m.agree;
    opened_before = λ k own. later_NotBefore now then_ _ le (m.opened_before k own);
  }

  -- After any run of normalized ticks of one symbol whose times do not decrease, each tick's events
  -- handled by the tracker before the next tick comes, the tracker has an active signal exactly for
  -- each open route of the symbol, and both say that it was opened at the same time. The symbol is
  -- not empty, the times are not zero, no funding configuration asks for a negative spread, no key
  -- of the shard's routes stands twice and each names its route, and at the start the tracker
  -- agrees with the shard and no route of the symbol was opened after a time that no tick precedes.
  pub deliver-Mirrors :
      (deps : Deps D) (ids : ℕ → ℕ → Text) (symbol : Text) (now : Time)
      (ticks : List (Time × MarketTick D)) (s : Shard D) (tr : Tracker D)
      → HasFloor deps
      → is_empty symbol ≡ false
      → is_zero_time now ≡ false
      → IsTable s.active
      → InOrder symbol now ticks
      → Mirrors symbol now s tr
      → let r = deliver deps ids ticks s tr in
        Agree (keys_under symbol) (open_routes r.0.active) (open_signals r.1.active_signals)
  unfolding deliver
  deliver-Mirrors deps ids symbol now [] s tr floor named z h order m = m.agree
  deliver-Mirrors deps ids symbol now ((clock, t) ∷ ticks) s tr floor named z h (same, le, order)
        m =
      let named' : is_empty t.symbol ≡ false = rw same named in
      let r = process_in_shard deps clock t s in
      let tr' = handle_events (ids 0) tr r.1 in
      let (m', others) =
        process_in_shard-Mirrors deps clock (ids 0) t s tr floor named' (ground arith) h (
          later-Mirrors t.symbol now (tick_time t) s tr le
            (subst (λ x. Mirrors {D = D} x now s tr) (sym same) m)) in
      deliver-Mirrors deps (λ n. ids (suc n)) symbol (tick_time t) ticks r.0 tr' floor named
        (ground arith) (process_in_shard_runs deps clock t s floor named' h).0 order
        (subst (λ x. Mirrors {D = D} x (tick_time t) r.0 tr') same m')
