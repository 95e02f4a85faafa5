-- ===== src/Tracker.antt =====
-- internal/app/tracker.go. One goroutine feeds the tracker, and its lock makes the work on the
-- table of active signals one step. `id` is what uuid.NewString yields, should a signal be made.
pub mod Table
use crypto_screener.Base.{
  ℕ, Bool, true, false, not, ◌||◌, ◌&&◌, List, [], ◌∷◌, Option, none, some, if◌then◌else◌, map,
  length,
}
use crypto_screener.Base.Eq.{text_eq}
use crypto_screener.Base.Map.{Map, lookup, insert, delete}
use crypto_screener.Base.Text.{Text, is_empty, join_colon}
use crypto_screener.Base.Time.{Time, is_zero_time, before}
use crypto_screener.Decimal.{Decimal, greater_than, less_than_or_equal, is_negative}
use crypto_screener.Domain.Market.{SpreadEvent, SignalLifecycle, unset, opened, updated, closed}
use crypto_screener.Domain.Signal.{ArbitrageSignal, new_arbitrage_signal, update, close, or_alias}
use crypto_screener.Domain.Config.{ScreenerConfig, get_close_threshold}

abbrev pub Signals : Type 0 → Type 0
Signals D = Map Text (ArbitrageSignal D)

pub record Tracker (D : Type 0) : Type 0 where
  pub active_signals : Signals D
  pub config : Option (ScreenerConfig D)

-- What HandleEvent computes under the lock: the table, the snapshot to persist, and the snapshot to
-- notify about with whether it was opened.
pub record Handled (D : Type 0) : Type 0 where
  pub signals : Signals D
  pub persist : Option (ArbitrageSignal D)
  pub notify : Option (ArbitrageSignal D × Bool)

module _ {D : Type 0} where
  unfoldable pub signal_key : SpreadEvent D → Text
  signal_key e = join_colon (
      e.symbol
      ∷ e.spread_type
      ∷ or_alias e.buy_exchange e.exchange_a
      ∷ or_alias e.sell_exchange e.exchange_b
      ∷ e.buy_market
      ∷ e.sell_market
      ∷ [])

  abbrev pub unchanged : Signals D → Handled D
  unchanged signals = record { signals = signals; persist = none; notify = none }

  -- ActiveSnapshot and ActiveCount.
  abbrev pub active_snapshot : Tracker D → List (ArbitrageSignal D)
  active_snapshot t = map (λ e. e.1) t.active_signals

  abbrev pub active_count : Tracker D → ℕ
  active_count t = length t.active_signals

module _ {D : Type 0} ⦃dec : Decimal D⦄ where
  unfoldable pub open_signal : Text → SpreadEvent D → Signals D → Handled D
  open_signal id event signals =
      let signal = new_arbitrage_signal id event event.timestamp in
      record {
        signals = insert (signal_key event) signal signals;
        persist = some signal;
        notify = some (signal, true);
      }

  -- The signal takes the event in, and is persisted if its peak rose.
  unfoldable pub raise_signal : SpreadEvent D → ArbitrageSignal D → Signals D → Handled D
  raise_signal event signal signals =
      let signal' = update signal event in
      record {
        signals = insert (signal_key event) signal' signals;
        persist =
            if greater_than signal'.peak_spread signal.peak_spread then some signal' else none;
        notify = none;
      }

  unfoldable pub close_signal : SpreadEvent D → ArbitrageSignal D → Signals D → Handled D
  close_signal event signal signals =
      let signal' = close (update signal event) event.timestamp event.spread in
      record {
        signals = delete (signal_key event) signals;
        persist = some signal';
        notify = some (signal', false);
      }

  -- The switch on the lifecycle, for an event with and without a signal under its key.
  unfoldable pub handle_absent : Text → SpreadEvent D → Signals D → SignalLifecycle → Handled D
  unfolding open_signal
  handle_absent id event signals opened = open_signal id event signals
  handle_absent id event signals updated = unchanged signals
  handle_absent id event signals closed = unchanged signals
  handle_absent id event signals unset = open_signal id event signals

  unfoldable pub handle_present :
      Option (ScreenerConfig D)
      → SpreadEvent D
      → ArbitrageSignal D
      → Signals D
      → SignalLifecycle
      → Handled D
  unfolding raise_signal close_signal
  handle_present cfg event signal signals opened = unchanged signals
  handle_present cfg event signal signals updated =
      if before event.timestamp signal.opened_at
      then unchanged signals
      else raise_signal event signal signals
  handle_present cfg event signal signals closed =
      if before event.timestamp signal.opened_at
      then unchanged signals
      else close_signal event signal signals
  handle_present cfg event signal signals unset =
      if before event.timestamp signal.opened_at
      then unchanged signals
      else if less_than_or_equal event.spread (get_close_threshold cfg)
      then close_signal event signal signals
      else raise_signal event signal signals

  unfoldable pub is_ignored : SpreadEvent D → Bool
  is_ignored event =
      is_zero_time event.timestamp || (is_empty event.symbol || is_negative event.spread)

  unfoldable pub handle_locked : Text → Tracker D → SpreadEvent D → Handled D
  handle_locked id t event = elim (lookup (signal_key event) t.active_signals) [
    | none ↦ handle_absent id event t.active_signals event.lifecycle
    | some signal ↦ handle_present t.config event signal t.active_signals event.lifecycle
  ]

  unfoldable pub handle_event : Text → Tracker D → SpreadEvent D → Tracker D × Handled D
  handle_event id t event =
      let done = handle_locked id t event in
      if is_ignored event
      then (t, unchanged t.active_signals)
      else (record t { active_signals = done.signals }, done)
