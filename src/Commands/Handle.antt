-- ===== src/Commands/Handle.antt =====
-- HandleCommand of internal/app/app.go: who may give which command, and what it does. The record of
-- a request holds its arguments.
-- A command is one step here. The workers of internal/adapters/telegram/bot.go take no lock around
-- it, so commands may overlap in the program.
use crypto_screener.Base.{
  ℕ, Bool, true, false, not, ◌&&◌, List, [], ◌∷◌, Option, none, some, if◌then◌else◌,
}
use crypto_screener.Base.Eq.{text_eq}
use crypto_screener.Base.Map.{Map, lookup}
use crypto_screener.Base.Text.{Text, text}
use crypto_screener.Decimal.{Decimal}
use crypto_screener.Domain.User.{User, get_user, set_user, remove_user}
use crypto_screener.Commands.{
  Application, Outcomes, Reply, Command, start, stop, set_hard_spread, set_cross, set_vol,
  set_updates, set_funding_time, set_timeframe, set_fees, stats, signals, help, add_ex, rm_ex,
  unknown, is_admin_cmd, is_start, is_admin, persist_user, delete_user, engine_stopped,
  access_denied, not_subscribed, already_subscribed, subscription_not_saved,
  unsubscription_not_saved, settings_not_saved, welcome, farewell, help_text, unknown_command,
}
use crypto_screener.Commands.Edit.{Edit, declined, changed, new_user}
use crypto_screener.Commands.Edit
use crypto_screener.Commands.Admin.{
  Answer, add_exchange, remove_exchange, report_signals, report_stats, set_hard_spread_cmd,
  set_fees_cmd,
}

pub record Request : Type 0 where
  pub bot_id : ℕ
  pub chat_id : ℕ
  pub username : Text
  pub args : List Text

abbrev command_names : Map Text Command
command_names =
    (text "start", start)
    ∷ (text "stop", stop)
    ∷ (text "sethardspread", set_hard_spread)
    ∷ (text "setcross", set_cross)
    ∷ (text "setvol", set_vol)
    ∷ (text "setupdates", set_updates)
    ∷ (text "setfundingtime", set_funding_time)
    ∷ (text "settimeframe", set_timeframe)
    ∷ (text "setfees", set_fees)
    ∷ (text "stats", stats)
    ∷ (text "signals", signals)
    ∷ (text "help", help)
    ∷ (text "addex", add_ex)
    ∷ (text "rmex", rm_ex)
    ∷ []

abbrev or_unknown : Option Command → Command
or_unknown none = unknown
or_unknown (some c) = c

unfoldable pub command_of : Text → Command
command_of cmd = or_unknown (lookup cmd command_names)

module _ {D : Type 0} where
  -- SetUser or RemoveUser when the repository has answered.
  abbrev pub store_user : User D → Reply D → Reply D → Application D × Bool → Answer D
  store_user u good bad (a, true) = (record a { user_mgr = set_user (some u) a.user_mgr }, good)
  store_user u good bad (a, false) = (a, bad)

  abbrev pub drop_user : ℕ → Application D × Bool → Answer D
  drop_user chat_id (a, true) = (record a { user_mgr = remove_user chat_id a.user_mgr }, farewell)
  drop_user chat_id (a, false) = (a, unsubscription_not_saved)

  unfoldable pub unsubscribe : Outcomes D → ℕ → Application D → Answer D
  unsubscribe o chat_id a = drop_user chat_id (delete_user o chat_id a)

  unfoldable pub store_edit : Outcomes D → Edit D → Application D → Answer D
  store_edit o (declined r) a = (a, r)
  store_edit o (changed u r) a = store_user u r settings_not_saved (persist_user o (some u) a)

module _ {D : Type 0} ⦃dec : Decimal D⦄ where
  unfoldable pub subscribe : Outcomes D → Request → Application D → Answer D
  subscribe o q a =
      let u = new_user a.config q.bot_id q.chat_id q.username in
      store_user u (welcome q.username) subscription_not_saved (persist_user o (some u) a)

  module _ (parse : Text → Option D) (print : D → Text) (o : Outcomes D) where
    unfoldable pub admin_command : Command → Request → Application D → Answer D
    admin_command set_hard_spread q a =
        if is_admin a q.chat_id
        then set_hard_spread_cmd parse print o q.args a
        else (a, access_denied)
    admin_command set_fees q a =
        if is_admin a q.chat_id then set_fees_cmd parse print o q.args a else (a, access_denied)
    admin_command stats q a = if is_admin a q.chat_id then report_stats o a else (a, access_denied)
    admin_command add_ex q a = add_exchange o q.args a
    admin_command rm_ex q a = remove_exchange o q.args a
    admin_command c q a = (a, unknown_command)

    -- The switch, for a subscriber.
    unfoldable pub user_command : Command → Request → User D → Application D → Answer D
    user_command start q u a = (a, already_subscribed)
    user_command stop q u a = unsubscribe o q.chat_id a
    user_command set_cross q u a = store_edit o (Edit.set_cross parse a.config q.args u) a
    user_command set_vol q u a = store_edit o (Edit.set_vol parse q.args u) a
    user_command set_updates q u a = store_edit o (Edit.set_updates parse q.args u) a
    user_command set_funding_time q u a = store_edit o (Edit.set_funding_time q.args u) a
    user_command set_timeframe q u a = store_edit o (Edit.set_timeframe q.args u) a
    user_command signals q u a = report_signals o a
    user_command help q u a = (a, help_text)
    user_command c q u a = admin_command c q a

    -- The switch, for a chat that is not subscribed.
    unfoldable pub new_command : Command → Request → Application D → Answer D
    new_command c q a =
        if is_start c
        then subscribe o q a
        else if is_admin_cmd c
        then admin_command c q a
        else (a, not_subscribed)

    unfoldable pub run_command : Command → Request → Application D → Answer D
    run_command c q a = elim (get_user q.chat_id a.user_mgr) [
      | none ↦ new_command c q a
      | some u ↦ user_command c q u a
    ]

    unfoldable pub handle_command : Text → Request → Application D → Answer D
    handle_command cmd q a =
        let c = command_of cmd in
        if not a.accepting
        then (a, engine_stopped)
        else if is_admin_cmd c && not (is_admin a q.chat_id)
        then (a, access_denied)
        else run_command c q a
