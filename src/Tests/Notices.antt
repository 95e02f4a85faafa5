-- ===== src/Tests/Notices.antt =====
-- Runs of the theorems on notification_router.go: two users who want an update at every 1.0% and
-- every 1.5% of spread, and a signal that opened at 5.0%.
use crypto_screener.Base.{true, false, [], ◌∷◌, ◌≡◌, ◌≢◌, refl, none, some, inr}
use crypto_screener.Base.Eq.{text_eq, nat_eq, pair_eq, list_beq}
use crypto_screener.Base.Map.{lookup, insert}
use crypto_screener.Base.Text.{text, has_suffix, has_prefix, rev_onto}
use crypto_screener.Base.Int.{ℤ, pos, ◌-ℤ◌, ◌+ℤ◌, ◌*ℤ◌}
use crypto_screener.Decimal.Fixed.{fixed_decimal}
use crypto_screener.Domain.Signal.{ArbitrageSignal, new_arbitrage_signal}
use crypto_screener.Domain.User.{User, UserManager, tf_24h, range_users}
use crypto_screener.Router.{Router, NotificationJob, enqueue, invalidate_signal, close_router}
use crypto_screener.Router.Audience.{
  current_eligible_chat_ids, is_eligible, funding_allowed, min_funding_time, signal_volume,
}
use crypto_screener.Router.Notify.{
  process_signal, process_signal_update, open_job, update_job, visit_updates, visit_update, crosses,
  wants_update, steps_of, threshold_of,
}
use crypto_screener.Router.Send.{sent, transmit, prepare, renew, is_invalid}
use crypto_screener.Router.Recipients.{IsRenewed, prepare_sound}
use crypto_screener.Router.Opening.{Chosen, IsWanted, IsQueued, process_signal_targets}
use crypto_screener.Router.Repeats.{Grow, update_repeats}
use crypto_screener.Router.Overwrite.{Silent, lost_update}
use crypto_screener.Router.Invalidated.{here, next, closes, invalidated_silent}
use crypto_screener.Tests.{t0, price}
use crypto_screener.Tests.Late.{signal}

abbrev ann : User ℤ
ann = record {
  chat_id = 7;
  username = text "ann";
  min_spread = pos 10000;
  min_volume = price 1000;
  timeframe = tf_24h;
  min_funding_minutes = 0;
  update_step = pos 10000;
  bot_id = 0;
}

abbrev pub bob : User ℤ
bob = record ann { chat_id = 8; update_step = pos 15000 }

abbrev pub users : UserManager ℤ
users = (7, ann) ∷ (8, bob) ∷ []

abbrev first_peak : ArbitrageSignal ℤ
first_peak = record signal { initial_spread = pos 50000; peak_spread = pos 60000 }

abbrev second_peak : ArbitrageSignal ℤ
second_peak = record signal { initial_spread = pos 50000; peak_spread = pos 65000 }

abbrev pub router : Router ℤ
router = record {
  users = some users;
  volume = none;
  config = none;
  has_telegram = true;
  pending = [];
  closed = false;
  last_update = [];
  invalidated = [];
}

process_signal_targets_example :
    let r = process_signal router t0 t0 first_peak true in
    Chosen (IsWanted none t0 t0 first_peak) users r.1 × IsQueued router first_peak r.0 r.1
process_signal_targets_example = process_signal_targets router t0 t0 first_peak users refl refl

abbrev renewed : NotificationJob ℤ
renewed = record (open_job second_peak (8 ∷ [])) { signal = first_peak }

prepare_sound_example :
    (is_invalid router (open_job first_peak (8 ∷ [])) ≡ false)
    × IsRenewed (λ s. some second_peak) router users t0 t0 (open_job first_peak (8 ∷ [])) renewed
unfolding prepare has_suffix has_prefix rev_onto new_arbitrage_signal lookup renew
    current_eligible_chat_ids range_users is_eligible funding_allowed list_beq signal_volume
prepare_sound_example =
    prepare_sound (λ s. some second_peak) router users t0 t0 (open_job first_peak (8 ∷ [])) renewed
      refl refl refl

update_repeats_example :
    Grow router.last_update (process_signal_update router t0 t0 first_peak).0.last_update
    × ((process_signal_update (process_signal_update router t0 t0 first_peak).0 t0 t0 first_peak).1
        ≡ [])
unfolding new_arbitrage_signal
update_repeats_example = update_repeats router t0 t0 first_peak users refl refl refl

lost_update_example :
    Silent 7
      (process_signal_update (process_signal_update router t0 t0 first_peak).0 t0 t0 second_peak).0
unfolding process_signal_update new_arbitrage_signal visit_updates range_users visit_update crosses
    wants_update funding_allowed list_beq signal_volume steps_of ◌-ℤ◌ lookup threshold_of ◌+ℤ◌ ◌*ℤ◌
    enqueue insert min_funding_time
lost_update_example =
    lost_update router t0 t0 t0 t0 first_peak second_peak users 7 refl refl refl refl refl tt refl
      refl

invalidated_silent_example :
    transmit (close_router (invalidate_signal router signal.id)) (update_job first_peak t0 (7 ∷ []))
    ≢ sent (update_job first_peak t0 (7 ∷ [])).message (7 ∷ [])
unfolding lookup invalidate_signal new_arbitrage_signal insert list_beq close_router
invalidated_silent_example =
    invalidated_silent signal.id (invalidate_signal router signal.id)
      (close_router (invalidate_signal router signal.id)) (update_job first_peak t0 (7 ∷ [])) refl
      (next here (closes refl)) (refl, inr refl) (update_job first_peak t0 (7 ∷ [])).message
      (7 ∷ [])
