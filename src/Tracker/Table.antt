-- ===== src/Tracker/Table.antt =====
-- The table of tracker.go follows the contract of Protocol.
use crypto_screener.Base.{
  ℕ, false, List, [], ◌∷◌, ◌≡◌, refl, sym, ◌∙◌, arith, subst, none, some, inl, inr, Option-cases,
  ap, All, suc, ◌≤◌,
}
use crypto_screener.Base.Eq.{text_eq}
use crypto_screener.Base.Map.{lookup}
use crypto_screener.Base.Text.{Text}
use crypto_screener.Base.Time.{before}
use crypto_screener.Decimal.{Decimal}
use crypto_screener.Domain.Market.{SpreadEvent, SignalLifecycle, unset, opened, updated, closed}
use crypto_screener.Domain.Signal.{ArbitrageSignal, new_arbitrage_signal, update}
use crypto_screener.Aggregator.{route_key}
use crypto_screener.Protocol.{
  Open, table, Runs, Timely, Legal, Allows, NotBefore, step, moved, with_key, with_key-insert,
  with_key-same, with_key-delete,
}
use crypto_screener.Tracker.{
  Tracker, Signals, signal_key, handle_absent, handle_present, handle_locked, handle_event,
  is_ignored,
}

abbrev pub open_signals : {D : Type 0} → Signals D → Open
open_signals = table (λ s. s.opened_at)

module _ {D : Type 0} ⦃dec : Decimal D⦄ where
  pub signal_key-eq-route_key : (ev : SpreadEvent D) → signal_key ev ≡ route_key ev
  unfolding signal_key route_key
  signal_key-eq-route_key ev = refl

  opened_at-update :
      (s : ArbitrageSignal D) (ev : SpreadEvent D) → (update s ev).opened_at ≡ s.opened_at
  unfolding update
  opened_at-update s ev = ground arith

  -- The step of Protocol on the key of an event.
  abbrev moves : SignalLifecycle → SpreadEvent D → Signals D → Open
  moves l ev m =
      with_key (open_signals m) (signal_key ev)
        (moved l ev.timestamp (open_signals m (signal_key ev)))

  absent_moves :
      (id : Text) (ev : SpreadEvent D) (m : Signals D) (l : SignalLifecycle)
      → lookup (signal_key ev) m ≡ none
      → Allows l (open_signals m (signal_key ev))
      → moves l ev m ≡ open_signals (handle_absent id ev m l).signals
  unfolding handle_absent new_arbitrage_signal
  absent_moves id ev m opened h a = with_key-insert _ (signal_key ev) _ m
  absent_moves id ev m updated h a = cc (rw h at a)
  absent_moves id ev m closed h a = cc (rw h at a)
  absent_moves id ev m unset h a = absurd a

  in_time :
      (ev : SpreadEvent D) (s : ArbitrageSignal D) (m : Signals D)
      → lookup (signal_key ev) m ≡ some s
      → NotBefore ev.timestamp (open_signals m (signal_key ev))
      → before ev.timestamp s.opened_at ≡ false
  in_time ev s m h n = let le : s.opened_at ≤ ev.timestamp = rw h at n in ground arith

  present_moves :
      (t : Tracker D) (ev : SpreadEvent D) (s : ArbitrageSignal D) (l : SignalLifecycle)
      → lookup (signal_key ev) t.active_signals ≡ some s
      → Allows l (open_signals t.active_signals (signal_key ev))
      → NotBefore ev.timestamp (open_signals t.active_signals (signal_key ev))
      → moves l ev t.active_signals
        ≡ open_signals (handle_present t.config ev s t.active_signals l).signals
  unfolding handle_present
  present_moves t ev s opened h a n = cc (rw h at a)
  present_moves t ev s updated h a n =
      rw (in_time ev s t.active_signals h n)
        (with_key-same _ (signal_key ev) s t.active_signals h _ (opened_at-update s ev))
  present_moves t ev s closed h a n =
      rw (in_time ev s t.active_signals h n) (with_key-delete _ (signal_key ev) t.active_signals)
  present_moves t ev s unset h a n = absurd a

  locked_absent :
      (id : Text) (t : Tracker D) (ev : SpreadEvent D)
      → lookup (signal_key ev) t.active_signals ≡ none
      → handle_locked id t ev ≡ handle_absent id ev t.active_signals ev.lifecycle
  unfolding handle_locked
  locked_absent id t ev h = rw (h, handle_locked)

  pub locked_present :
      (id : Text) (t : Tracker D) (ev : SpreadEvent D) (s : ArbitrageSignal D)
      → lookup (signal_key ev) t.active_signals ≡ some s
      → handle_locked id t ev ≡ handle_present t.config ev s t.active_signals ev.lifecycle
  unfolding handle_locked
  locked_present id t ev s h = rw (h, handle_locked)

  locked_moves :
      (id : Text) (t : Tracker D) (ev : SpreadEvent D)
      → Legal (open_signals t.active_signals) ev
      → NotBefore ev.timestamp (open_signals t.active_signals (route_key ev))
      → step (open_signals t.active_signals) ev ≡ open_signals (handle_locked id t ev).signals
  unfolding handle_locked signal_key route_key
  locked_moves id t ev a n = elim (Option-cases (lookup (signal_key ev) t.active_signals)) [
    | inl h ↦
        absent_moves id ev t.active_signals ev.lifecycle h a
        ∙ ap (λ r. open_signals r.signals) (sym (locked_absent id t ev h))
    | inr (s, h) ↦
        present_moves t ev s ev.lifecycle h a n
        ∙ ap (λ r. open_signals r.signals) (sym (locked_present id t ev s h))
  ]

  -- An event that the contract allows, that is in time and that is not ignored moves the table as
  -- the contract says.
  handle_event_moves :
      (id : Text) (t : Tracker D) (ev : SpreadEvent D)
      → is_ignored ev ≡ false
      → Legal (open_signals t.active_signals) ev
      → NotBefore ev.timestamp (open_signals t.active_signals (route_key ev))
      → step (open_signals t.active_signals) ev
        ≡ open_signals (handle_event id t ev).0.active_signals
  unfolding handle_event
  handle_event_moves id t ev kept a n = rw kept (locked_moves id t ev a n)

  -- The tracker's loop over its queue, with the ids that uuid.NewString yields.
  unfoldable pub handle_events : (ℕ → Text) → Tracker D → List (SpreadEvent D) → Tracker D
  handle_events ids t [] = t
  handle_events ids t (ev ∷ evs) =
      handle_events (λ n. ids (suc n)) (handle_event (ids 0) t ev).0 evs

  -- Fed with a stream of events that opens a route only when it is not open and updates or closes
  -- it only when it is, none of which is ignored or dated before its route was opened, the
  -- tracker's table of active signals ends with exactly the open routes that the stream leaves,
  -- with the times at which they were opened.
  pub handle_events_follow :
      (ids : ℕ → Text) (t : Tracker D) (a b : Open) (evs : List (SpreadEvent D))
      → open_signals t.active_signals ≡ a
      → Runs a evs b
      → Timely a evs
      → All (λ ev. is_ignored ev ≡ false) evs
      → open_signals (handle_events ids t evs).active_signals ≡ b
  unfolding handle_events
  handle_events_follow ids t a b [] e r n k = e ∙ r
  handle_events_follow ids t a b (ev ∷ evs) e (legal, r) (now, n) (kept, k) =
      handle_events_follow (λ i. ids (suc i)) (handle_event (ids 0) t ev).0 (step a ev) b evs
        (sym (
            handle_event_moves (ids 0) t ev kept (subst (λ x. Legal x ev) (sym e) legal)
              (subst (λ x. NotBefore ev.timestamp (x (route_key ev))) (sym e) now))
          ∙ ap (λ x. step x ev) e)
        r n k
