-- ===== src/Delivery/Closing.antt =====
-- The whole way of a closing event through tracker.go, to the router.
use crypto_screener.Base.{false, none, some, if◌then◌else◌, ◌≡◌, refl, sym, ◌∙◌, ap, arith, subst}
use crypto_screener.Base.Eq.{text_eq, nat_eq, ==_refl}
use crypto_screener.Base.Map.{lookup, lookup-delete}
use crypto_screener.Base.Text.{Text, is_empty}
use crypto_screener.Base.Time.{Time, before}
use crypto_screener.Decimal.{Decimal}
use crypto_screener.Domain.Market.{SpreadEvent, closed}
use crypto_screener.Domain.Signal.{ArbitrageSignal, update, close}
use crypto_screener.Tracker.{
  Tracker, unchanged, signal_key, handle_event, handle_locked, handle_present, close_signal,
  is_ignored,
}
use crypto_screener.Router.{Router}
use crypto_screener.Delivery.{
  World, settle_closed, notify_router, deliver_handled, handle_and_deliver,
}
use crypto_screener.Delivery.Settled.{IsSettled, settle_closed-IsSettled}

module _ {D : Type 0} ⦃dec : Decimal D⦄ where
  -- What the tracker makes of an event that closes a signal.
  handle_locked-closed :
      (id : Text) (t : Tracker D) (event : SpreadEvent D) (s : ArbitrageSignal D)
      → lookup (signal_key event) t.active_signals ≡ some s
      → event.lifecycle ≡ closed
      → before event.timestamp s.opened_at ≡ false
      → handle_locked id t event ≡ close_signal event s t.active_signals
  unfolding handle_locked handle_present
  handle_locked-closed id t event s found closing late =
      rw (handle_locked, found)
        (ap (handle_present t.config event s t.active_signals) closing
          ∙ ap
              (λ b. if b then unchanged t.active_signals else close_signal event s t.active_signals)
              late)

  handle_event-closed :
      (id : Text) (t : Tracker D) (event : SpreadEvent D) (s : ArbitrageSignal D)
      → is_ignored event ≡ false
      → lookup (signal_key event) t.active_signals ≡ some s
      → event.lifecycle ≡ closed
      → before event.timestamp s.opened_at ≡ false
      → let h = close_signal event s t.active_signals in
        handle_event id t event ≡ (record t { active_signals = h.signals }, h)
  unfolding handle_event
  handle_event-closed id t event s heard found closing late =
      let h = handle_locked id t event in
      ap
        (λ b.
          if b
          then (t, unchanged t.active_signals)
          else (record t { active_signals = h.signals }, h))
        heard
      ∙ ap (λ h. (record t { active_signals = h.signals }, h))
          (handle_locked-closed id t event s found closing late)

  update-id : (s : ArbitrageSignal D) (event : SpreadEvent D) → (update s event).id ≡ s.id
  unfolding update
  update-id s event = ground arith

  close-id : (s : ArbitrageSignal D) (at : Time) (spread : D) → (close s at spread).id ≡ s.id
  unfolding close
  close-id s at spread = ground arith

  -- When the tracker takes in the event that closes an active signal, then afterwards the signal is
  -- no longer active, the router holds it invalidated, no update of it waits in the queue, and no
  -- threshold of it is remembered. The event is not ignored and not dated before the signal was
  -- opened, the signal has an id, and the tracker has a router.
  pub closing_delivered :
      (id : Text) (clock now : Time) (w : World D) (nr : Router D) (event : SpreadEvent D)
      (s : ArbitrageSignal D)
      → w.router ≡ some nr
      → is_ignored event ≡ false
      → lookup (signal_key event) w.tracker.active_signals ≡ some s
      → event.lifecycle ≡ closed
      → before event.timestamp s.opened_at ≡ false
      → is_empty s.id ≡ false
      → (nr' : Router D) × (((handle_and_deliver id clock now w event).router ≡ some nr')
          × (IsSettled s.id nr'
              × (lookup
                    (signal_key event)
                    (handle_and_deliver id clock now w event).tracker.active_signals
                  ≡ none)))
  unfolding handle_and_deliver deliver_handled notify_router close_signal
  closing_delivered id clock now w nr event s routed heard found closing late named =
      let h = close_signal event s w.tracker.active_signals in
      let s' = close (update s event) event.timestamp event.spread in
      let same : s'.id ≡ s.id =
        close-id (update s event) event.timestamp event.spread ∙ update-id s event in
      let out : World D =
        deliver_handled clock now event w.persistence (some nr)
          (record w.tracker { active_signals = h.signals }, h) in
      let whole : handle_and_deliver id clock now w event ≡ out =
        ap (λ o. deliver_handled clock now event w.persistence o (handle_event id w.tracker event))
          routed
        ∙ ap (deliver_handled clock now event w.persistence (some nr))
            (handle_event-closed id w.tracker event s heard found closing late) in
      (
        settle_closed nr clock now s',
        (
          ap (λ x. x.router) whole,
          (
            subst (λ i. IsSettled i (settle_closed nr clock now s')) same
                (settle_closed-IsSettled nr clock now s'
                  (subst (λ i. is_empty i ≡ false) (sym same) named)),
            ap (λ x. lookup (signal_key event) x.tracker.active_signals) whole
                ∙ rw
                    (
                      lookup-delete (signal_key event) (signal_key event) w.tracker.active_signals,
                      ==_refl {A = Text} (signal_key event),
                    )
                    refl,
          ),
        ),
      )
