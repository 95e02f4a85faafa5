-- ===== src/Router/Send.antt =====
-- sendJob of notification_router.go, in the two parts between which the router may change: the
-- check of the job against the current market, and the call of the transport under the lifecycle
-- lock. The revalidator is an argument: none, or a function of the signal.
use crypto_screener.Base.{ℕ, Bool, false, not, ◌&&◌, List, Option, none, some, if◌then◌else◌}
use crypto_screener.Base.Eq.{text_eq}
use crypto_screener.Base.Map.{has_key}
use crypto_screener.Base.Text.{Text, has_suffix}
use crypto_screener.Base.Time.{Time}
use crypto_screener.Decimal.{Decimal, less_than}
use crypto_screener.Domain.Signal.{ArbitrageSignal}
use crypto_screener.Domain.Config.{ScreenerConfig, get_hard_min_spread}
use crypto_screener.Router.{
  Router, NotificationJob, Message, signal_opened, signal_closed, signal_update, has_chats,
  close_kind, update_kind,
}
use crypto_screener.Router.Audience.{current_eligible_chat_ids}

abbrev pub Revalidator : Type 0 → Type 0
Revalidator D = Option (ArbitrageSignal D → Option (ArbitrageSignal D))

-- What the second part does: nothing, wait for a sender, or send.
pub data Outcome (D : Type 0) : Type 0 where
  dropped waiting : Outcome D
  sent : Message D → List ℕ → Outcome D

abbrev pub is_close : Text → Bool
is_close key = has_suffix key close_kind

module _ {D : Type 0} where
  abbrev pub is_invalid : Router D → NotificationJob D → Bool
  is_invalid nr job = not (is_close job.key) && has_key job.signal.id nr.invalidated

  -- renderSignalNotification.
  abbrev pub render : ArbitrageSignal D → Bool → Bool → Message D
  render s opened update =
      if update
      then signal_update s s.opened_at
      else if opened
      then signal_opened s
      else signal_closed s

  unfoldable pub transmit : Router D → NotificationJob D → Outcome D
  transmit nr job =
      if nr.has_telegram
      then (if is_invalid nr job then dropped else sent job.message job.chat_ids)
      else if nr.closed
      then dropped
      else waiting

module _ {D : Type 0} ⦃dec : Decimal D⦄ where
  abbrev pub below_floor : Option (ScreenerConfig D) → ArbitrageSignal D → Bool
  below_floor none s = false
  below_floor (some c) s = less_than s.peak_spread (get_hard_min_spread (some c))

  -- The job about the signal as it is now, if someone is still to be told.
  unfoldable pub renew :
      Router D
      → Time
      → Time
      → NotificationJob D
      → Option (ArbitrageSignal D)
      → Option (NotificationJob D)
  renew nr clock now job none = none
  renew nr clock now job (some current) =
      let chats = current_eligible_chat_ids nr.users nr.volume clock current job.chat_ids now in
      if below_floor nr.config current
      then none
      else if not (has_chats chats)
      then none
      else some (record job {
        chat_ids = chats;
        message = render current (not (is_close job.key)) (has_suffix job.key update_kind);
      })

  unfoldable pub prepare :
      Revalidator D → Router D → Time → Time → NotificationJob D → Option (NotificationJob D)
  prepare none nr clock now job = if is_invalid nr job then none else some job
  prepare (some f) nr clock now job =
      if is_invalid nr job
      then none
      else if job.revalidate
      then renew nr clock now job (f job.signal)
      else some job
