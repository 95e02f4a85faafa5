-- ===== src/Commands/Edit.antt =====
-- The commands of HandleCommand in internal/app/app.go that change the settings of one subscriber:
-- what they make of the user, before it is stored. decimal.NewFromString is the argument `parse`.
use crypto_screener.Base.{
  ℕ, Bool, true, false, ◌||◌, List, [], ◌∷◌, Option, none, some, if◌then◌else◌, leb,
}
use crypto_screener.Base.Eq.{text_eq, ◌==◌}
use crypto_screener.Base.Int.{ℤ, pos, negsuc}
use crypto_screener.Base.Parse.{to_lower, atoi}
use crypto_screener.Base.Text.{Text, text}
use crypto_screener.Decimal.{
  Decimal, is_negative, greater_than, less_than, div, is_zero_decimal, decimal_zero,
}
use crypto_screener.Domain.Config.{ScreenerConfig, get_hard_min_spread}
use crypto_screener.Domain.User.{
  User, Timeframe, tf_1m, tf_5m, tf_15m, tf_30m, tf_1h, tf_4h, tf_24h, other,
}
use crypto_screener.Commands.{
  Reply, usage, invalid_value, too_large, cross_spread, volume_set, updates_off, updates_every,
  minutes_set, timeframe_set,
}

-- A reply without a change, or the copy of the user that is to be stored and the reply when it is.
pub data Edit (D : Type 0) : Type 0 where
  declined : Reply D → Edit D
  changed : User D → Reply D → Edit D

abbrev pub max_minutes : ℕ
max_minutes = 10080

-- The minutes that are in range.
abbrev pub minutes_of : Option ℤ → Option ℕ
minutes_of none = none
minutes_of (some (negsuc n)) = none
minutes_of (some (pos n)) = if leb n max_minutes then some n else none

-- domain.Timeframe(s), by the constants of internal/domain/config.go.
unfoldable pub timeframe_of : Text → Timeframe
timeframe_of s =
    if s == text "1m"
    then tf_1m
    else if s == text "5m"
    then tf_5m
    else if s == text "15m"
    then tf_15m
    else if s == text "30m"
    then tf_30m
    else if s == text "1h"
    then tf_1h
    else if s == text "4h"
    then tf_4h
    else if s == text "24h"
    then tf_24h
    else other s

abbrev pub is_known : Timeframe → Bool
is_known (other s) = false
is_known t = true

module _ {D : Type 0} ⦃dec : Decimal D⦄ where
  abbrev pub percent : D → D
  percent v = div v (dec.literal 100 0)

  abbrev pub new_user : ScreenerConfig D → ℕ → ℕ → Text → User D
  new_user config bot_id chat_id username = record {
    chat_id = chat_id;
    username = username;
    min_spread = get_hard_min_spread (some config);
    min_volume = decimal_zero;
    timeframe = tf_15m;
    min_funding_minutes = 30;
    update_step = decimal_zero;
    bot_id = bot_id;
  }

  unfoldable pub set_cross : (Text → Option D) → ScreenerConfig D → List Text → User D → Edit D
  set_cross parse config [] user = declined usage
  set_cross parse config (arg ∷ args) user = elim (parse arg) [
    | none ↦ declined invalid_value
    | some v ↦
        if is_negative v
        then declined invalid_value
        else if greater_than v (dec.literal 100 0)
        then declined too_large
        else (let floor = get_hard_min_spread (some config) in
            let spread = if less_than (percent v) floor then floor else percent v in
            changed (record user { min_spread = spread }) (cross_spread spread))
  ]

  unfoldable pub set_vol : (Text → Option D) → List Text → User D → Edit D
  set_vol parse [] user = declined usage
  set_vol parse (arg ∷ args) user = elim (parse arg) [
    | none ↦ declined invalid_value
    | some v ↦
        if is_negative v
        then declined invalid_value
        else if greater_than v (dec.literal 1000000000 0)
        then declined too_large
        else changed (record user { min_volume = v }) (volume_set v)
  ]

  unfoldable pub set_updates : (Text → Option D) → List Text → User D → Edit D
  set_updates parse [] user = declined usage
  set_updates parse (arg ∷ args) user = elim (parse arg) [
    | none ↦ declined invalid_value
    | some v ↦
        if is_negative v || greater_than v (dec.literal 100 0)
        then declined invalid_value
        else changed (record user { update_step = percent v })
            (if is_zero_decimal (percent v) then updates_off else updates_every v)
  ]

module _ {D : Type 0} where
  unfoldable pub set_funding_time : List Text → User D → Edit D
  set_funding_time [] user = declined usage
  set_funding_time (arg ∷ args) user = elim (minutes_of (atoi arg)) [
    | none ↦ declined invalid_value
    | some mins ↦ changed (record user { min_funding_minutes = mins }) (minutes_set mins)
  ]

  unfoldable pub set_timeframe : List Text → User D → Edit D
  set_timeframe [] user = declined usage
  set_timeframe (arg ∷ args) user =
      let tf = timeframe_of (to_lower arg) in
      if is_known tf
      then changed (record user { timeframe = tf }) (timeframe_set tf)
      else declined invalid_value
