-- ===== src/Startup.antt =====
-- NewApplication, loadOperatorSettings and Run of internal/app/app.go, up to the point where Run
-- waits for the end. The repositories are arguments: what GetSetting, ReconcileActiveSignals and
-- GetAllUsers return. The goroutines that Run starts are those of the other components.
pub mod Run
pub mod Sound
pub mod Complete
pub mod Whole
pub mod Begun
pub mod Life
pub mod Restart
use crypto_screener.Base.{
  ℕ, ◌*◌, Bool, true, false, not, List, [], ◌∷◌, Option, none, some, if◌then◌else◌, ltb, ◌⊎◌, inl,
  inr,
}
use crypto_screener.Base.Int.{ℤ, pos, negsuc}
use crypto_screener.Base.Text.{Text, text}
use crypto_screener.Decimal.{Decimal, decimal_zero, less_than, is_negative}
use crypto_screener.Domain.Config.{
  ScreenerConfig, ok, bad_fee_part, new_screener_config, get_hard_min_spread, set_hard_min_spread,
  apply_fees,
}
use crypto_screener.Domain.User.{User, UserManager, tf_15m, set_user}
use crypto_screener.Funding.{FundingManager, ConfigError, new_funding_manager, update_config}
use crypto_screener.Connectors.{ManagerError, new_connector_manager}
use crypto_screener.Commands.{Application, settings_key_hard_spread, settings_key_fees}
use crypto_screener.Commands.Edit.{is_known}
use crypto_screener.Commands.Admin.{funding_floor}

-- What GetSetting returns.
pub data Setting : Type 0 where
  absent unreadable : Setting
  present : Text → Setting

pub data RunError : Type 0 where
  already_started repo_is_nil reconcile_failed users_not_loaded : RunError
  not_provided : Text → RunError
  not_started : Text → ManagerError → RunError

-- A row of the table of users: its minutes are an int, and may be negative.
pub record StoredUser (D : Type 0) : Type 0 where
  pub user : User D
  pub minutes : ℤ

-- What Run is given: whether the repository is nil, what ReconcileActiveSignals returns if there is
-- one (true is no error), the settings if the repository keeps some, and what GetAllUsers returns.
pub record Boot (D : Type 0) : Type 0 where
  pub has_repo : Bool
  pub reconciled : Option Bool
  pub settings : Option (Text → Setting)
  pub users : Option (List (Option (StoredUser D)))

abbrev pub supported_exchanges : List Text
supported_exchanges =
    text "BINANCE"
    ∷ text "BINGX"
    ∷ text "BITGET"
    ∷ text "BYBIT"
    ∷ text "GATEIO"
    ∷ text "KUCOIN"
    ∷ text "MEXC"
    ∷ text "OKX"
    ∷ []

-- The number of ingestion workers on a machine with that many processors.
unfoldable pub worker_count : ℕ → ℕ
worker_count cpus =
    let workers = cpus * 2 in
    let enough = if ltb workers 8 then 8 else workers in if ltb 128 enough then 128 else enough

abbrev pub or_zero_minutes : ℤ → ℕ
or_zero_minutes (pos n) = n
or_zero_minutes (negsuc n) = 0

module _ {D : Type 0} ⦃dec : Decimal D⦄ where
  abbrev built :
      Bool → Bool → ScreenerConfig D → ConfigError ⊎ FundingManager D → ConfigError ⊎ Application D
  built user_repo settings_repo config (inl e) = inl e
  built user_repo settings_repo config (inr fm) = inr (record {
    accepting = false;
    admin_ids = [];
    user_mgr = [];
    config = config;
    funding_mgr = fm;
    conn_manager = new_connector_manager;
    connector_factory = none;
    has_user_repo = user_repo;
    has_settings_repo = settings_repo;
    calls = [];
  })

  abbrev or_default : Option (ScreenerConfig D) → ScreenerConfig D
  or_default none = new_screener_config (dec.literal 1 2)
  or_default (some cfg) = cfg

  unfoldable pub new_application :
      Option (ScreenerConfig D) → Bool → Bool → ConfigError ⊎ Application D
  new_application cfg user_repo settings_repo =
      let config = or_default cfg in
      built user_repo settings_repo config
        (new_funding_manager (funding_floor (get_hard_min_spread (some config))))

  -- A row of the table, as it enters the user manager.
  unfoldable pub loaded_user : ScreenerConfig D → StoredUser D → User D
  loaded_user config s =
      let floor = get_hard_min_spread (some config) in
      let u = s.user in
      record u {
        min_spread = if less_than u.min_spread floor then floor else u.min_spread;
        min_volume = if is_negative u.min_volume then decimal_zero else u.min_volume;
        min_funding_minutes = or_zero_minutes s.minutes;
        update_step = if is_negative u.update_step then decimal_zero else u.update_step;
        timeframe = if is_known u.timeframe then u.timeframe else tf_15m;
      }

  unfoldable pub load_users :
      ScreenerConfig D → List (Option (StoredUser D)) → UserManager D → UserManager D
  load_users config [] um = um
  load_users config (none ∷ rows) um = load_users config rows um
  load_users config (some s ∷ rows) um =
      load_users config rows (set_user (some (loaded_user config s)) um)

  abbrev pub floor_applied :
      D → Application D → FundingManager D × Option ConfigError → Application D
  floor_applied d a (fm, some e) = a
  floor_applied d a (fm, none) = record a {
    funding_mgr = fm;
    config = (set_hard_min_spread a.config d).0;
  }

  module _ (parse : Text → Option D) where
    unfoldable pub restore_floor : Setting → Application D → Application D
    restore_floor absent a = a
    restore_floor unreadable a = a
    restore_floor (present v) a = elim (parse v) [
      | none ↦ a
      | some d ↦
          if not (less_than d (dec.literal 1 2))
          then floor_applied d a (update_config a.funding_mgr (funding_floor d))
          else a
    ]

    unfoldable pub restore_fees : Setting → Application D → Application D
    restore_fees absent a = a
    restore_fees unreadable a = a
    restore_fees (present v) a = elim (apply_fees parse a.config v) [
      | ok config ↦ record a { config = config }
      | bad_fee_part part ↦ a
    ]

    unfoldable pub load_operator_settings : Option (Text → Setting) → Application D → Application D
    load_operator_settings none a = a
    load_operator_settings (some get) a =
        restore_fees (get settings_key_fees) (restore_floor (get settings_key_hard_spread) a)

    abbrev with_settings : Option (Text → Setting) → Application D → Application D
    with_settings none a = a
    with_settings (some get) a = record a { has_settings_repo = true }

    -- What Run does to the state before the users are read.
    unfoldable pub with_stored : Boot D → Application D → Application D
    with_stored b a = load_operator_settings b.settings (with_settings b.settings a)
