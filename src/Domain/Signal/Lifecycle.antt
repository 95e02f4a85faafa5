-- ===== src/Domain/Signal/Lifecycle.antt =====
-- What holds of a signal of internal/domain/signal.go all its life.
use crypto_screener.Base.{◌+◌, false, ◌≡◌, arith}
use crypto_screener.Decimal.{Decimal, Le, Le_refl, Le_trans, below_asym}
use crypto_screener.Base.Text.{Text}
use crypto_screener.Base.Time.{Time}
use crypto_screener.Domain.Market.{SpreadEvent}
use crypto_screener.Domain.Signal.{ArbitrageSignal, new_arbitrage_signal, update, close}

-- A signal's peak is never below its first spread, and a closed one lasted from its opening to its
-- closing time.
pub record IsSound {D : Type 0} ⦃dec : Decimal D⦄ (s : ArbitrageSignal D) : Type 0 where
  pub peaked : Le s.initial_spread s.peak_spread
  pub timed : s.is_active ≡ false → s.closed_at ≡ s.opened_at + s.duration

module _ {D : Type 0} ⦃dec : Decimal D⦄ where
  pub new_arbitrage_signal-IsSound :
      (id : Text) (ev : SpreadEvent D) (ts : Time) → IsSound (new_arbitrage_signal id ev ts)
  unfolding new_arbitrage_signal
  new_arbitrage_signal-IsSound id ev ts = record { peaked = Le_refl ev.spread; timed = λ e. cc }

  -- An update keeps a signal sound: its peak is never below its first spread, and if it is closed,
  -- its duration leads from its opening to its closing.
  pub update-IsSound :
      (s : ArbitrageSignal D) (ev : SpreadEvent D) → IsSound s → IsSound (update s ev)
  unfolding update
  update-IsSound s ev v =
      ground (
        arith,
        below_asym s.peak_spread ev.spread,
        Le_trans s.initial_spread s.peak_spread ev.spread,
      )

  -- Closing keeps a signal sound: its peak is never below its first spread, and if it is closed,
  -- its duration leads from its opening to its closing, which is never before its opening.
  pub close-IsSound :
      (s : ArbitrageSignal D) (ts : Time) (final : D) → IsSound s → IsSound (close s ts final)
  unfolding close
  close-IsSound s ts final v = ground arith
