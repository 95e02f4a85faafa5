-- ===== src/Commands.antt =====
-- HandleCommand of internal/app/app.go and what it calls, on the state of the application that the
-- commands read and write. The texts of the replies are told apart by constructors with the values
-- that they print. The calls of the repositories are an interface: `calls` is not kept by the
-- program, it is what the repositories were asked to store and did, the last call first.
pub mod Edit
pub mod Admin
pub mod Handle
pub mod Steps
pub mod Sound
pub mod Access
pub mod Interleaved
use crypto_screener.Base.{
  ℕ, Bool, true, false, List, [], ◌∷◌, Option, none, some, if◌then◌else◌, eqb,
}
use crypto_screener.Base.Text.{Text, text}
use crypto_screener.Base.Time.{Time, Duration}
use crypto_screener.Domain.Config.{ScreenerConfig}
use crypto_screener.Domain.Signal.{ArbitrageSignal}
use crypto_screener.Domain.User.{User, UserManager, Timeframe, get_user}
use crypto_screener.Funding.{FundingManager, ConfigError}
use crypto_screener.Connectors.{ConnectorManager, ManagerError}

pub data RepoCall (D : Type 0) : Type 0 where
  user_saved : User D → RepoCall D
  user_deleted : ℕ → RepoCall D
  setting_saved : Text → Text → RepoCall D

pub record Application (D : Type 0) : Type 0 where
  pub accepting : Bool
  pub admin_ids : List ℕ
  pub user_mgr : UserManager D
  pub config : ScreenerConfig D
  pub funding_mgr : FundingManager D
  pub conn_manager : ConnectorManager
  -- ConnectorFactory by the names that it provides; `none` is a nil factory.
  pub connector_factory : Option (Text → Bool)
  -- Whether the repositories are there.
  pub has_user_repo : Bool
  pub has_settings_repo : Bool
  pub calls : List (RepoCall D)

-- SignalStats and SignalSummary of internal/domain/ports.go.
pub record SignalStats (D : Type 0) : Type 0 where
  pub opened_24h : ℕ
  pub closed_24h : ℕ
  pub avg_peak_spread : D
  pub avg_duration : Duration

pub record SignalSummary (D : Type 0) : Type 0 where
  pub symbol : Text
  pub spread_type : Text
  pub buy_exchange : Text
  pub sell_exchange : Text
  pub peak_spread : D
  pub opened_at : Time
  pub closed_at : Time
  pub duration : Duration

-- How the calls of one command end: `saved` for the repository, `in_time` for the wait of a
-- connector to stop. The two reports are `none` without the repository, and `some none` for an
-- error of it.
pub record Outcomes (D : Type 0) : Type 0 where
  pub saved : Bool
  pub in_time : Bool
  pub stats : Option (Option (SignalStats D))
  pub recent : Option (Option (List (SignalSummary D)))
  pub active : List (ArbitrageSignal D)

pub data Reply (D : Type 0) : Type 0 where
  engine_stopped access_denied not_subscribed already_subscribed : Reply D
  subscription_not_saved unsubscription_not_saved settings_not_saved : Reply D
  welcome : Text → Reply D
  farewell usage invalid_value too_large below_admin_minimum updates_off : Reply D
  funding_rejected : ConfigError → Reply D
  floor_not_saved fees_not_saved : Reply D
  hard_floor cross_spread volume_set updates_every : D → Reply D
  minutes_set : ℕ → Reply D
  timeframe_set : Timeframe → Reply D
  fees_listed fees_updated bad_fees : Text → Reply D
  stats_unavailable stats_failed signals_unavailable signals_failed : Reply D
  -- The average peak and the average duration are left out where they are zero.
  stats_report : ℕ → ℕ → Option D → Option ℕ → ℕ → Reply D
  signals_report : ℕ → List (ArbitrageSignal D) → List (SignalSummary D) → Reply D
  help_text no_factory unknown_command : Reply D
  not_supported exchange_added exchange_removed : Text → Reply D
  add_failed remove_failed : Text → ManagerError → Reply D

-- The cases of the switch.
pub data Command : Type 0 where
  start stop set_hard_spread set_cross set_vol set_updates set_funding_time : Command
  set_timeframe set_fees stats signals help add_ex rm_ex unknown : Command

abbrev pub is_admin_cmd : Command → Bool
is_admin_cmd add_ex = true
is_admin_cmd rm_ex = true
is_admin_cmd set_hard_spread = true
is_admin_cmd set_fees = true
is_admin_cmd stats = true
is_admin_cmd c = false

-- cmd == "start", the one command of those who are not subscribed.
abbrev pub is_start : Command → Bool
is_start start = true
is_start c = false

abbrev is_listed : ℕ → List ℕ → Bool
is_listed chat_id [] = false
is_listed chat_id (id ∷ ids) = if eqb chat_id id then true else is_listed chat_id ids

module _ {D : Type 0} where
  unfoldable pub is_admin : Application D → ℕ → Bool
  is_admin a chat_id = is_listed chat_id a.admin_ids

  abbrev pub set_admin_ids : List ℕ → Application D → Application D
  set_admin_ids ids a = record a { admin_ids = ids }

  abbrev pub set_connector_factory : Option (Text → Bool) → Application D → Application D
  set_connector_factory none a = a
  set_connector_factory (some f) a = record a { connector_factory = some f }

  abbrev bot_id_of : Option (User D) → ℕ
  bot_id_of none = 0
  bot_id_of (some u) = u.bot_id

  unfoldable pub route_bot : Application D → ℕ → ℕ
  route_bot a chat_id = bot_id_of (get_user chat_id a.user_mgr)

  abbrev done : RepoCall D → Application D → Application D
  done c a = record a { calls = c ∷ a.calls }

  -- The application after the call, and whether there is no error.
  unfoldable pub persist_user : Outcomes D → Option (User D) → Application D → Application D × Bool
  persist_user o none a = (a, false)
  persist_user o (some u) a =
      if a.has_user_repo
      then if o.saved then (done (user_saved u) a, true) else (a, false)
      else (a, false)

  unfoldable pub delete_user : Outcomes D → ℕ → Application D → Application D × Bool
  delete_user o chat_id a =
      if a.has_user_repo
      then if o.saved then (done (user_deleted chat_id) a, true) else (a, false)
      else (a, false)

  -- Without a repository the setting holds until the next start.
  unfoldable pub persist_setting : Outcomes D → Text → Text → Application D → Application D × Bool
  persist_setting o key value a =
      if a.has_settings_repo
      then if o.saved then (done (setting_saved key value) a, true) else (a, false)
      else (a, true)

abbrev pub settings_key_hard_spread : Text
settings_key_hard_spread = text "hard_min_spread"

abbrev pub settings_key_fees : Text
settings_key_fees = text "fees"
