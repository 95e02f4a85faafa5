-- ===== src/Commands/Sound.antt =====
-- The state of internal/app/app.go that its commands keep: the subscribers, the configuration and
-- the funding manager.
pub mod Kept
use crypto_screener.Base.{
  suc, ℕ, Bool, true, false, List, [], ◌∷◌, Option, none, some, ◌≡◌, refl, sym, subst, inl, inr,
  All, ap, Option-cases, ◌≤◌, arith, ◌∙◌,
}
use crypto_screener.Base.Eq.{nat_eq, text_eq}
use crypto_screener.Base.Map.{Map, lookup, All-insert, All-delete, All-lookup}
use crypto_screener.Base.Text.{Text}
use crypto_screener.Decimal.{Decimal, Le, Le_refl, Le_trans, decimal_zero, below_asym}
use crypto_screener.Domain.Config.{
  ScreenerConfig, default_hard_min_spread, get_hard_min_spread, set_fee,
}
use crypto_screener.Domain.Config.Thresholds.{IsValid, set_fee-IsValid}
use crypto_screener.Domain.User.{User, UserManager, get_user, set_user, remove_user}
use crypto_screener.Commands.{Application, Outcomes}
use crypto_screener.Commands.Edit.{is_known, max_minutes}
use crypto_screener.Commands.Admin.{set_each, funding_floor}
use crypto_screener.Commands.Handle.{Request, handle_command}
use crypto_screener.Commands.Steps.{
  IsEdited, joined, spread, volume, step, minutes, frame, Step, stay, entered, left, floored,
  priced, plugged, unplugged,
}
use crypto_screener.Commands.Steps.Whole.{handle_command-Step}

module _ {D : Type 0} where
  abbrev pub IsEntryOf : (User D → Type 0) → ℕ × User D → Type 0
  IsEntryOf P p = (p.1.chat_id ≡ p.0) × P p.1

  abbrev pub OnSomeUser : (User D → Type 0) → Option (User D) → Type 0
  OnSomeUser P none = Unit {0}
  OnSomeUser P (some u) = P u

zero_le : (D : Type 0) ⦃dec : Decimal D⦄ (n k : ℕ) → Le {D = D} decimal_zero (dec.literal (suc n) k)
zero_le D ⦃dec⦄ n k = below_asym {D = D} decimal_zero (dec.literal (suc n) k) (dec.literal_pos n k)

module _ {D : Type 0} ⦃dec : Decimal D⦄ where
  -- What the notification filters expect of a subscriber.
  pub record IsUser (u : User D) : Type 0 where
    pub spread_floor : Le default_hard_min_spread u.min_spread
    pub volume_sign : Le decimal_zero u.min_volume
    pub step_sign : Le decimal_zero u.update_step
    pub known : is_known u.timeframe ≡ true

  -- What the commands let a subscriber ask for at most.
  pub record IsBounded (u : User D) : Type 0 where
    pub volume_max : Le u.min_volume (dec.literal 1000000000 0)
    pub step_max : Le u.update_step (dec.literal 1 0)
    pub minutes_max : u.min_funding_minutes ≤ max_minutes

  -- The floor of the funding manager is the configured one.
  abbrev pub IsAgreed : Application D → Type 0
  IsAgreed a = a.funding_mgr.config ≡ some (funding_floor a.config.hard_min_spread)

  pub record IsSound (a : Application D) : Type 0 where
    pub subscribed : All (IsEntryOf IsUser) a.user_mgr
    pub configured : IsValid a.config
    pub agreed : IsAgreed a

  pub IsEdited-IsUser :
      {config : ScreenerConfig D} {chat : ℕ} {old : Option (User D)} {u : User D}
      → IsValid config
      → IsEdited config chat old u
      → OnSomeUser IsUser old
      → IsUser u
  unfolding get_hard_min_spread
  IsEdited-IsUser c (joined bot name) h = record {
    spread_floor = c.floored;
    volume_sign = Le_refl {D = D} decimal_zero;
    step_sign = Le_refl {D = D} decimal_zero;
    known = refl;
  }
  IsEdited-IsUser c (spread u s high) h = record {
    spread_floor = Le_trans default_hard_min_spread _ s c.floored high;
    volume_sign = h.volume_sign;
    step_sign = h.step_sign;
    known = h.known;
  }
  IsEdited-IsUser c (volume u v low high) h = record {
    spread_floor = h.spread_floor;
    volume_sign = low;
    step_sign = h.step_sign;
    known = h.known;
  }
  IsEdited-IsUser c (step u s low high) h = record {
    spread_floor = h.spread_floor;
    volume_sign = h.volume_sign;
    step_sign = low;
    known = h.known;
  }
  IsEdited-IsUser c (minutes u n low) h = record {
    spread_floor = h.spread_floor;
    volume_sign = h.volume_sign;
    step_sign = h.step_sign;
    known = h.known;
  }
  IsEdited-IsUser c (frame u t k) h = record {
    spread_floor = h.spread_floor;
    volume_sign = h.volume_sign;
    step_sign = h.step_sign;
    known = k;
  }

  pub IsEdited-IsBounded :
      {config : ScreenerConfig D} {chat : ℕ} {old : Option (User D)} {u : User D}
      → IsEdited config chat old u
      → OnSomeUser IsBounded old
      → IsBounded u
  IsEdited-IsBounded (joined bot name) h = record {
    volume_max = zero_le D 999999999 0;
    step_max = zero_le D 0 0;
    minutes_max = omega arith;
  }
  IsEdited-IsBounded (spread u s high) h = record {
    volume_max = h.volume_max;
    step_max = h.step_max;
    minutes_max = h.minutes_max;
  }
  IsEdited-IsBounded (volume u v low high) h = record {
    volume_max = high;
    step_max = h.step_max;
    minutes_max = h.minutes_max;
  }
  IsEdited-IsBounded (step u s low high) h = record {
    volume_max = h.volume_max;
    step_max = high;
    minutes_max = h.minutes_max;
  }
  IsEdited-IsBounded (minutes u n low) h = record {
    volume_max = h.volume_max;
    step_max = h.step_max;
    minutes_max = low;
  }
  IsEdited-IsBounded (frame u t k) h = record {
    volume_max = h.volume_max;
    step_max = h.step_max;
    minutes_max = h.minutes_max;
  }

  -- The entry is the chat's own.
  pub IsEdited-keyed :
      {config : ScreenerConfig D} {chat : ℕ} {old : Option (User D)} {u : User D}
      → IsEdited config chat old u
      → OnSomeUser (λ w. w.chat_id ≡ chat) old
      → u.chat_id ≡ chat
  IsEdited-keyed (joined bot name) h = refl
  IsEdited-keyed (spread u s high) h = h
  IsEdited-keyed (volume u v low high) h = h
  IsEdited-keyed (step u s low high) h = h
  IsEdited-keyed (minutes u n low) h = h
  IsEdited-keyed (frame u t k) h = h
