-- ===== src/Tests/Deliveries.antt =====
-- Runs of the theorems on what follows HandleEvent in tracker.go, and on RevalidateSignal of
-- sharded_aggregator.go.
use crypto_screener.Base.{ℕ, ◌+◌, [], ◌∷◌, ◌≡◌, refl, ap, ◌∙◌, some, none, true, false}
use crypto_screener.Base.Eq.{text_eq, list_beq}
use crypto_screener.Base.Map.{lookup}
use crypto_screener.Base.Text.{Text, text}
use crypto_screener.Base.Time.{second}
use crypto_screener.Base.Int.{ℤ, pos}
use crypto_screener.Decimal.Fixed.{fixed_decimal}
use crypto_screener.Domain.Market.{SpreadEvent, closed}
use crypto_screener.Domain.Signal.{ArbitrageSignal, new_arbitrage_signal}
use crypto_screener.Funding.Evaluate.{evaluate_futures_pair}
use crypto_screener.Aggregator.{Book, ShardedAggregator, normalize_symbol, shard_for}
use crypto_screener.Aggregator.Process.{shard_at}
use crypto_screener.Aggregator.Candidates.{net_of_fees}
use crypto_screener.Aggregator.Revalidate.{revalidate_signal, renewed}
use crypto_screener.Aggregator.Revalidate.Sound.{revalidate_signal_sound, IsCurrent}
use crypto_screener.Tracker.{signal_key}
use crypto_screener.Router.{Router, NotificationJob, invalidate_signal}
use crypto_screener.Router.Notify.{open_job}
use crypto_screener.Router.Send.{prepare, renew}
use crypto_screener.Delivery.{World, handle_and_deliver}
use crypto_screener.Delivery.Settled.{IsSettled}
use crypto_screener.Delivery.Closing.{closing_delivered}
use crypto_screener.Delivery.Current.{IsFresh, prepare-IsFresh}
use crypto_screener.Tests.{t0, btc, bybit, mexc, deps, deps-HasFloor, funding, futures_price}
use crypto_screener.Tests.Late.{route, signal, watching}
use crypto_screener.Tests.Notices.{router, users}
use crypto_screener.Tests.Emissions.{book}

abbrev world : World ℤ
world = record { tracker = watching; persistence = none; router = some router }

abbrev ending : SpreadEvent ℤ
ending = record route { lifecycle = closed; timestamp = t0 + second; spread = pos 0 }

closing_delivered_example :
    (nr' : Router ℤ) × (((handle_and_deliver (text "new") t0 t0 world ending).router ≡ some nr')
      × (IsSettled signal.id nr'
          × (lookup
                (signal_key ending)
                (handle_and_deliver (text "new") t0 t0 world ending).tracker.active_signals
              ≡ none)))
unfolding crypto_screener.Tracker.is_ignored lookup list_beq crypto_screener.Aggregator.route_key
    crypto_screener.Base.Text.join_colon signal_key new_arbitrage_signal
closing_delivered_example =
    closing_delivered (text "new") t0 t0 world router ending signal refl refl refl refl refl refl

abbrev market : ShardedAggregator ℤ
market = record {
  deps = deps;
  shards = record { prices = (btc, book) ∷ []; active = [] } ∷ [];
  ticks = 0;
}

abbrev one_shard : Text → ℕ
one_shard s = 0

abbrev now_signal : ArbitrageSignal ℤ
now_signal = renewed signal (futures_price 100 t0) (futures_price 110 t0) (
    evaluate_futures_pair funding bybit btc mexc btc
      (net_of_fees deps.config bybit (futures_price 100 t0).ask mexc (futures_price 110 t0).bid) t0)

current : revalidate_signal one_shard t0 market signal ≡ some now_signal
unfolding revalidate_signal crypto_screener.Aggregator.Revalidate.revalidate_in normalize_symbol
    crypto_screener.Base.Text.strip_separators crypto_screener.Aggregator.Candidates.price_of
    crypto_screener.Aggregator.fresh crypto_screener.Aggregator.Revalidate.cross_now lookup list_beq
    new_arbitrage_signal net_of_fees crypto_screener.Base.Int.◌-ℤ◌
    crypto_screener.Domain.Config.fee_for crypto_screener.Domain.Config.new_screener_config
    crypto_screener.Base.Text.to_upper crypto_screener.Base.Text.trim_space evaluate_futures_pair
    crypto_screener.Funding.Evaluate.calc_net_spread crypto_screener.Funding.Evaluate.check_record
    crypto_screener.Funding.Evaluate.evaluate_legs crypto_screener.Funding.Evaluate.valid_record
    crypto_screener.Funding.earliest_funding crypto_screener.Funding.get_funding
    crypto_screener.Funding.is_healthy crypto_screener.Funding.is_stale
    crypto_screener.Funding.normalize_funding_key crypto_screener.Funding.staleness_for
    crypto_screener.Base.Text.trim_left crypto_screener.Base.Text.trim_right
    crypto_screener.Base.Text.upper_byte crypto_screener.Decimal.min_decimal
    crypto_screener.Base.Int.◌+ℤ◌
current = refl

revalidate_signal_sound_example :
    (b : Book ℤ) × ((lookup
          (normalize_symbol signal.symbol)
          (shard_at market.shards (shard_for one_shard signal.symbol)).prices
        ≡ some b)
      × IsCurrent deps b t0 signal now_signal)
revalidate_signal_sound_example =
    revalidate_signal_sound one_shard t0 market signal now_signal deps-HasFloor current

abbrev waiting_job : NotificationJob ℤ
waiting_job = open_job signal (8 ∷ 9 ∷ [])

abbrev current_job : NotificationJob ℤ
current_job = record (open_job now_signal (8 ∷ [])) { signal = signal }

renewed_job : renew router t0 t0 waiting_job (some now_signal) ≡ some current_job
unfolding renew crypto_screener.Router.Audience.current_eligible_chat_ids
    crypto_screener.Domain.User.range_users crypto_screener.Router.Audience.is_eligible
    crypto_screener.Router.Audience.funding_allowed crypto_screener.Router.Audience.min_funding_time
    crypto_screener.Router.Audience.signal_volume crypto_screener.Base.Text.has_suffix
    crypto_screener.Base.Text.has_prefix crypto_screener.Base.Text.rev_onto lookup list_beq
    new_arbitrage_signal net_of_fees crypto_screener.Base.Int.◌-ℤ◌
    crypto_screener.Domain.Config.fee_for crypto_screener.Domain.Config.new_screener_config
    crypto_screener.Base.Text.to_upper crypto_screener.Base.Text.trim_space evaluate_futures_pair
    crypto_screener.Funding.Evaluate.calc_net_spread crypto_screener.Funding.Evaluate.check_record
    crypto_screener.Funding.Evaluate.evaluate_legs crypto_screener.Funding.Evaluate.valid_record
    crypto_screener.Funding.earliest_funding crypto_screener.Funding.get_funding
    crypto_screener.Funding.is_healthy crypto_screener.Funding.is_stale
    crypto_screener.Funding.normalize_funding_key crypto_screener.Funding.staleness_for
    crypto_screener.Base.Text.trim_left crypto_screener.Base.Text.trim_right
    crypto_screener.Base.Text.upper_byte crypto_screener.Decimal.min_decimal
    crypto_screener.Base.Int.◌+ℤ◌ crypto_screener.Base.Text.strip_separators
renewed_job = refl

prepared :
    prepare (some (revalidate_signal one_shard t0 market)) router t0 t0 waiting_job
    ≡ some current_job
unfolding prepare lookup crypto_screener.Base.Text.has_suffix crypto_screener.Base.Text.has_prefix
    crypto_screener.Base.Text.rev_onto new_arbitrage_signal renew
prepared = ap (renew router t0 t0 waiting_job) current ∙ renewed_job

prepare-IsFresh_example : IsFresh one_shard market router users t0 t0 waiting_job current_job
prepare-IsFresh_example =
    prepare-IsFresh one_shard market router users t0 t0 waiting_job current_job deps-HasFloor refl
      refl prepared
