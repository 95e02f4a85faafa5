-- ===== src/Tests/Streams.antt =====
-- Runs of the theorems on streams of events and on single signals.
use crypto_screener.Base.{◌+◌, List, [], ◌∷◌, ◌≡◌, refl, arith, none}
use crypto_screener.Base.Eq.{text_eq, list_beq}
use crypto_screener.Base.Map.{lookup}
use crypto_screener.Base.Text.{join_colon}
use crypto_screener.Base.Time.{second}
use crypto_screener.Base.Int.{ℤ, pos}
use crypto_screener.Decimal.Fixed.{fixed_decimal}
use crypto_screener.Domain.Market.{SpreadEvent, closed}
use crypto_screener.Aggregator.{route_key}
use crypto_screener.Protocol.{Open}
use crypto_screener.Pipeline.Frame.{after}
use crypto_screener.Tracker.{is_ignored}
use crypto_screener.Tracker.Table.{open_signals, handle_events, handle_events_follow}
use crypto_screener.Tests.{t0, idle}
use crypto_screener.Tests.Late.{route}

-- The route opens, and closes a second later.
abbrev stream : List (SpreadEvent ℤ)
stream = route ∷ record route { spread = pos 0; timestamp = t0 + second; lifecycle = closed } ∷ []

abbrev none_open : Open
none_open k = none

handle_events_follow_example :
    open_signals (handle_events (λ n. n ∷ []) idle stream).active_signals ≡ after none_open stream
unfolding lookup is_ignored list_beq route_key join_colon
handle_events_follow_example =
    handle_events_follow (λ n. n ∷ []) idle none_open (after none_open stream) stream refl
      (refl, (refl, refl)) (tt, (omega arith, tt)) (refl, (refl, tt))
