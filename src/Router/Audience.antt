-- ===== src/Router/Audience.antt =====
-- Who is told of a signal: minFundingTime, fundingAllowed and the filters of
-- notification_router.go. `clock` is what the volume engine's clock says.
use crypto_screener.Base.{
  ℕ, ◌+◌, ◌*◌, Bool, true, false, not, ◌||◌, ◌&&◌, List, [], ◌∷◌, ◌++◌, Option, none, some, leb,
  if◌then◌else◌,
}
use crypto_screener.Base.Eq.{text_eq, nat_eq, ◌==◌}
use crypto_screener.Base.Time.{Time, minute, is_zero_time, before}
use crypto_screener.Decimal.{Decimal, less_than, greater_than_or_equal}
use crypto_screener.Domain.Market.{market_type_futures}
use crypto_screener.Domain.Signal.{ArbitrageSignal}
use crypto_screener.Domain.User.{User, UserManager, is_24h, range_users}
use crypto_screener.Volume.{VolumeEngine}
use crypto_screener.Volume.Estimate.{get_route_volume}

-- One round of the loop over the two times.
abbrev pub earlier_funding : Time → Time → Time
earlier_funding t x = if not (is_zero_time x) && (is_zero_time t || before x t) then x else t

abbrev pub chosen : List ℕ → ℕ → Bool
chosen [] id = false
chosen (j ∷ ids) id = (j == id) || chosen ids id

module _ {D : Type 0} where
  unfoldable pub min_funding_time : ArbitrageSignal D → Time
  min_funding_time s = earlier_funding (earlier_funding 0 s.buy_next_funding) s.sell_next_funding

  unfoldable pub funding_allowed : ArbitrageSignal D → User D → Time → Bool
  unfolding min_funding_time
  funding_allowed s u now =
      if not (s.buy_market == market_type_futures) && not (s.sell_market == market_type_futures)
      then true
      else if is_zero_time (min_funding_time s)
      then false
      else leb (now + u.min_funding_minutes * minute) (min_funding_time s)

  -- The callback that collects the chats of the users who pass a test.
  abbrev pub collect : (User D → Bool) → User D → List ℕ → List ℕ × Bool
  collect test u out = if test u then (out ++ (u.chat_id ∷ []), true) else (out, true)

module _ {D : Type 0} ⦃dec : Decimal D⦄ where
  -- The volume of the signal's route in a user's time frame.
  unfoldable pub signal_volume : Option (VolumeEngine D) → Time → ArbitrageSignal D → User D → D
  signal_volume volume clock s u = if is_24h u.timeframe then s.quote_volume else elim volume [
    | none ↦ s.quote_volume
    | some v ↦
        get_route_volume v clock s.buy_exchange s.buy_market s.sell_exchange s.sell_market s.symbol
          u.timeframe s.opened_at
  ]

  -- The conditions of ProcessSignal on a user, for a signal that opens.
  unfoldable pub is_eligible :
      Option (VolumeEngine D) → Time → Time → ArbitrageSignal D → User D → Bool
  is_eligible volume clock now s u =
      if less_than s.peak_spread u.min_spread || not (funding_allowed s u now)
      then false
      else greater_than_or_equal (signal_volume volume clock s u) u.min_volume

  unfoldable pub eligible_chats :
      Option (VolumeEngine D) → Time → Time → ArbitrageSignal D → UserManager D → List ℕ
  eligible_chats volume clock now s users =
      range_users (collect (is_eligible volume clock now s)) users []

  unfoldable pub current_eligible_chat_ids :
      Option (UserManager D)
      → Option (VolumeEngine D)
      → Time
      → ArbitrageSignal D
      → List ℕ
      → Time
      → List ℕ
  current_eligible_chat_ids none volume clock s wanted now = []
  current_eligible_chat_ids (some users) volume clock s wanted now =
      range_users (collect (λ u. chosen wanted u.chat_id && is_eligible volume clock now s u)) users
        []
