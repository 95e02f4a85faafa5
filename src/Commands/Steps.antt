-- ===== src/Commands/Steps.antt =====
-- What a command of HandleCommand in internal/app/app.go may do to the application, as a relation
-- that names no command: its cases say which parts move, and how far.
pub mod Refines
pub mod Ruled
pub mod Whole
use crypto_screener.Base.{ℕ, Bool, true, false, ◌&&◌, List, ◌∷◌, Option, none, some, ◌≡◌, ◌≤◌, ◌⊎◌}
use crypto_screener.Base.Map.{Map}
use crypto_screener.Base.Text.{Text}
use crypto_screener.Decimal.{Decimal, Le, decimal_zero}
use crypto_screener.Domain.Config.{default_hard_min_spread, get_hard_min_spread, ScreenerConfig}
use crypto_screener.Domain.Config.Fees.{IsEntry}
use crypto_screener.Domain.Config.Listing.{fees_string}
use crypto_screener.Domain.User.{User, Timeframe, get_user, set_user, remove_user}
use crypto_screener.Base.{All}
use crypto_screener.Funding.{FundingConfig}
use crypto_screener.Connectors.{add_connector, remove_connector}
use crypto_screener.Commands.{
  Application, Outcomes, RepoCall, user_saved, user_deleted, setting_saved,
  settings_key_hard_spread, settings_key_fees, is_admin,
}
use crypto_screener.Commands.Edit.{new_user, is_known, max_minutes}
use crypto_screener.Commands.Admin.{set_each, funding_floor}

module _ {D : Type 0} where
  -- A setting is stored where there is a repository and it has no error.
  abbrev pub logged : Bool → Text → Text → List (RepoCall D) → List (RepoCall D)
  logged true key value old = setting_saved key value ∷ old
  logged false key value old = old

module _ {D : Type 0} ⦃dec : Decimal D⦄ where
  -- How the entry of a chat comes from the one before, if there was one.
  pub data IsEdited (config : ScreenerConfig D) (chat : ℕ) : Option (User D) → User D → Type 0 where
    joined : (bot : ℕ) (name : Text) → IsEdited config chat none (new_user config bot chat name)
    spread :
        (u : User D) (s : D)
        → Le (get_hard_min_spread (some config)) s
        → IsEdited config chat (some u) (record u { min_spread = s })
    volume :
        (u : User D) (v : D)
        → Le decimal_zero v
        → Le v (dec.literal 1000000000 0)
        → IsEdited config chat (some u) (record u { min_volume = v })
    step :
        (u : User D) (s : D)
        → Le decimal_zero s
        → Le s (dec.literal 1 0)
        → IsEdited config chat (some u) (record u { update_step = s })
    minutes :
        (u : User D) (n : ℕ)
        → n ≤ max_minutes
        → IsEdited config chat (some u) (record u { min_funding_minutes = n })
    frame :
        (u : User D) (t : Timeframe)
        → is_known t ≡ true
        → IsEdited config chat (some u) (record u { timeframe = t })

  pub data Step (print : D → Text) (o : Outcomes D) (chat : ℕ) (a b : Application D) : Type 0 where
    stay : b ≡ a → Step print o chat a b
    entered :
        (u : User D)
        → IsEdited a.config chat (get_user chat a.user_mgr) u
        → o.saved ≡ true
        → b ≡ record a { user_mgr = set_user (some u) a.user_mgr; calls = user_saved u ∷ a.calls }
        → Step print o chat a b
    left :
        o.saved ≡ true
        → b
          ≡ record a { user_mgr = remove_user chat a.user_mgr; calls = user_deleted chat ∷ a.calls }
        → Step print o chat a b
    floored :
        (v : D)
        → is_admin a chat ≡ true
        → Le default_hard_min_spread v
        → b ≡ record a {
          config = record a.config { hard_min_spread = v };
          funding_mgr = record a.funding_mgr { config = some (funding_floor v) };
          calls =
              logged (a.has_settings_repo && o.saved) settings_key_hard_spread (print v) a.calls;
        }
        → Step print o chat a b
    priced :
        (parsed : Map Text D)
        → is_admin a chat ≡ true
        → All IsEntry parsed
        → b ≡ record a {
          config = set_each a.config parsed;
          calls =
              logged
                (a.has_settings_repo && o.saved)
                settings_key_fees
                (fees_string print (some (set_each a.config parsed)))
                a.calls;
        }
        → Step print o chat a b
    plugged :
        (name : Text) (in_time : Bool)
        → is_admin a chat ≡ true
        → b ≡ record a { conn_manager = (add_connector a.conn_manager name true in_time).0 }
        → Step print o chat a b
    unplugged :
        (name : Text) (in_time : Bool)
        → is_admin a chat ≡ true
        → b ≡ record a { conn_manager = (remove_connector a.conn_manager name in_time).0 }
        → Step print o chat a b
