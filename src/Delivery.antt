-- ===== src/Delivery.antt =====
-- What HandleEvent of internal/app/tracker.go does after the unlock: the snapshot goes to the sink, which
-- is the persistence buffer, and the signal to the notification router. `clock` and `now` are the
-- clocks of the volume engine and of the router. The counters of the metrics are left out.
pub mod Settled
pub mod Closing
pub mod Current
use crypto_screener.Base.{
  ℕ, Bool, true, false, ◌&&◌, List, [], ◌∷◌, ◌++◌, Option, none, some, if◌then◌else◌,
}
use crypto_screener.Base.Eq.{text_eq}
use crypto_screener.Base.Map.{Map, lookup, insert}
use crypto_screener.Base.Text.{Text}
use crypto_screener.Base.Time.{Time}
use crypto_screener.Decimal.{Decimal}
use crypto_screener.Domain.Market.{SpreadEvent, SignalLifecycle, unset, opened, updated, closed}
use crypto_screener.Domain.Signal.{ArbitrageSignal}
use crypto_screener.Tracker.{Tracker, Signals, Handled, signal_key, handle_event}
use crypto_screener.Buffer.{Buffer, put}
use crypto_screener.Router.{
  Router, update_kind, has_chats, invalidate_signal, drop_pending, clear_signal_updates,
}
use crypto_screener.Router.Notify.{process_signal, process_signal_update}

-- The tracker, and the sink and the router that it was given.
pub record World (D : Type 0) : Type 0 where
  pub tracker : Tracker D
  pub persistence : Option (Buffer D)
  pub router : Option (Router D)

abbrev pub is_updated : SignalLifecycle → Bool
is_updated updated = true
is_updated opened = false
is_updated closed = false
is_updated unset = false

module _ {D : Type 0} where
  -- An error of the sink is only logged.
  abbrev pub persist_snapshot : Option (ArbitrageSignal D) → Option (Buffer D) → Option (Buffer D)
  persist_snapshot none sink = sink
  persist_snapshot (some s) none = none
  persist_snapshot (some s) (some b) = some (put b s).0

  abbrev pub is_active_snapshot : Option (ArbitrageSignal D) → Bool
  is_active_snapshot none = false
  is_active_snapshot (some s) = s.is_active

  -- The chats that were told, on the active signal.
  abbrev pub set_notified : Text → List ℕ → Signals D → Signals D
  set_notified key ids signals = elim (lookup key signals) [
    | none ↦ signals
    | some current ↦ insert key (record current { notified_chat_ids = ids }) signals
  ]

module _ {D : Type 0} ⦃dec : Decimal D⦄ where
  unfoldable pub announce_opened :
      Router D
      → Time
      → Time
      → Text
      → Option (ArbitrageSignal D)
      → ArbitrageSignal D
      → Signals D
      → Router D × Signals D
  announce_opened nr clock now key persist s signals =
      let (nr', ids) = process_signal nr clock now s true in
      (
        nr',
        if has_chats ids && is_active_snapshot persist
            then set_notified key ids signals
            else signals,
      )

  unfoldable pub settle_closed : Router D → Time → Time → ArbitrageSignal D → Router D
  settle_closed nr clock now s =
      let invalid = drop_pending (invalidate_signal nr s.id) (s.id ++ update_kind) in
      clear_signal_updates (process_signal invalid clock now s false).0 s.id

  unfoldable pub notify_router :
      Router D
      → Time
      → Time
      → SpreadEvent D
      → Option (ArbitrageSignal D)
      → Option (ArbitrageSignal D × Bool)
      → Signals D
      → Router D × Signals D
  notify_router nr clock now event persist (some (s, true)) signals =
      announce_opened nr clock now (signal_key event) persist s signals
  notify_router nr clock now event persist (some (s, false)) signals =
      (settle_closed nr clock now s, signals)
  notify_router nr clock now event (some p) none signals =
      (if is_updated event.lifecycle then (process_signal_update nr clock now p).0 else nr, signals)
  notify_router nr clock now event none none signals = (nr, signals)

  -- The part after the unlock.
  unfoldable pub deliver_handled :
      Time
      → Time
      → SpreadEvent D
      → Option (Buffer D)
      → Option (Router D)
      → Tracker D × Handled D
      → World D
  deliver_handled clock now event sink none (t, h) = record {
    tracker = t;
    persistence = persist_snapshot h.persist sink;
    router = none;
  }
  deliver_handled clock now event sink (some nr) (t, h) =
      let (nr', signals) = notify_router nr clock now event h.persist h.notify h.signals in
      record {
        tracker = record t { active_signals = signals };
        persistence = persist_snapshot h.persist sink;
        router = some nr';
      }

  unfoldable pub handle_and_deliver : Text → Time → Time → World D → SpreadEvent D → World D
  handle_and_deliver id clock now w event =
      deliver_handled clock now event w.persistence w.router (handle_event id w.tracker event)
