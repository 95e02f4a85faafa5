-- ===== src/Commands/Steps/Ruled.antt =====
-- The administrator's commands of HandleCommand in internal/app/app.go against the steps, and with
-- them the whole of HandleCommand.
use crypto_screener.Base.{
  ℕ, Bool, true, false, ◌||◌, ◌&&◌, List, [], ◌∷◌, Option, none, some, if◌then◌else◌, ◌≡◌, refl,
  inl, inr, Bool-cases, Option-cases, ap, subst, ◌∙◌, All, ◌⊎◌,
}
use crypto_screener.Base.Parse.{join_comma}
use crypto_screener.Base.Map.{Map}
use crypto_screener.Base.Text.{Text, to_upper}
use crypto_screener.Decimal.{
  Decimal, Le, decimal_zero, is_negative, greater_than, less_than, below_asym, Le_trans,
}
use crypto_screener.Domain.Config.{
  ScreenerConfig, ParseResult, default_hard_min_spread, set_hard_min_spread, parse_fees, ok,
  bad_fee_part,
}
use crypto_screener.Domain.Config.Fees.{Yields, parse_fees-Yields, IsEntry}
use crypto_screener.Domain.Config.Listing.{fees_string}
use crypto_screener.Funding.{FundingManager, update_config, validate, normalize}
use crypto_screener.Connectors.{add_connector, remove_connector, ConnectorManager, ManagerError}
use crypto_screener.Commands.{
  Application, Outcomes, Reply, is_admin, persist_setting, RepoCall, hard_floor, floor_not_saved,
  fees_updated, fees_not_saved, settings_key_hard_spread, settings_key_fees, setting_saved,
}
use crypto_screener.Commands.Edit.{percent}
use crypto_screener.Commands.Admin.{
  answer_saved, keep_floor, set_each, funding_floor, apply_floor, change_floor, set_hard_spread_cmd,
  set_fees_cmd, added_or, removed_or, made_by, add_exchange, remove_exchange, report_signals,
  report_stats,
}
use crypto_screener.Commands.Steps.{Step, stay, floored, priced, plugged, unplugged, logged}

pub ParseResult-cases :
    {A : Type 0} (r : ParseResult A)
    → ((a : A) × (r ≡ ok a)) ⊎ ((part : Text) × (r ≡ bad_fee_part part))
ParseResult-cases (ok a) = inl (a, refl)
ParseResult-cases (bad_fee_part part) = inr (part, refl)

logged_if :
    {D : Type 0} (pass fail : Reply D) (c : RepoCall D) (a : Application D) (there saved : Bool)
    (key value : Text)
    → c ≡ setting_saved key value
    → (answer_saved pass fail (
        if there
        then if saved then (record a { calls = c ∷ a.calls }, true) else (a, false)
        else (a, true))).0
      ≡ record a { calls = logged (there && saved) key value a.calls }
logged_if pass fail c a true true key value e = ap (λ d. record a { calls = d ∷ a.calls }) e
logged_if pass fail c a true false key value e = refl
logged_if pass fail c a false saved key value e = refl

module _ {D : Type 0} ⦃dec : Decimal D⦄ where
  pub floor_from_zero : (v : D) → Le default_hard_min_spread v → Le decimal_zero v
  floor_from_zero v h =
      Le_trans decimal_zero default_hard_min_spread v
        (below_asym {D = D} decimal_zero default_hard_min_spread (dec.literal_pos 0 2)) h

  -- The new floor is a configuration that the funding manager accepts as it is.
  pub floor_accepted :
      (fm : FundingManager D) (v : D)
      → Le default_hard_min_spread v
      → update_config fm (funding_floor v) ≡ (record fm { config = some (funding_floor v) }, none)
  unfolding update_config validate normalize
  floor_accepted fm v h = rw (update_config, validate, floor_from_zero v h) refl

  pub set_floor_to :
      (c : ScreenerConfig D) (v : D)
      → Le default_hard_min_spread v
      → set_hard_min_spread c v ≡ (record c { hard_min_spread = v }, v)
  unfolding set_hard_min_spread
  set_floor_to c v h = rw (set_hard_min_spread, h) refl

  module _ (parse : Text → Option D) (print : D → Text) (o : Outcomes D) (chat : ℕ) where
    -- What a write of a setting leaves: everything, but perhaps one more call.
    logged_state :
        (key value : Text) (pass fail : Reply D) (a : Application D)
        → (answer_saved pass fail (persist_setting o key value a)).0
          ≡ record a { calls = logged (a.has_settings_repo && o.saved) key value a.calls }
    unfolding persist_setting
    logged_state key value pass fail a =
        logged_if pass fail (setting_saved key value) a a.has_settings_repo o.saved key value refl

    change_floor-Step :
        (v : D) (a : Application D)
        → is_admin a chat ≡ true
        → Le default_hard_min_spread v
        → Step print o chat a (change_floor parse print o v a).0
    unfolding change_floor
    change_floor-Step v a adm h =
        let fm = record a.funding_mgr { config = some (funding_floor v) } in
        let config = record a.config { hard_min_spread = v } in
        floored v adm h (
          ap (λ r. (apply_floor parse print o v a r).0) (floor_accepted a.funding_mgr v h)
          ∙ ap (λ r. (keep_floor parse print o (record a { funding_mgr = fm }) r).0)
              (set_floor_to a.config v h)
          ∙ logged_state settings_key_hard_spread (print v) (hard_floor v) floor_not_saved
              (record a { funding_mgr = fm; config = config }))

    pub set_hard_spread-Step :
        (args : List Text) (a : Application D)
        → is_admin a chat ≡ true
        → Step print o chat a (set_hard_spread_cmd parse print o args a).0
    unfolding set_hard_spread_cmd
    set_hard_spread-Step [] a adm = stay refl
    set_hard_spread-Step (arg ∷ args) a adm = elim (Option-cases (parse arg)) [
      | inl bad ↦ rw (set_hard_spread_cmd, bad) (stay refl)
      | inr (v, read) ↦ elim (Bool-cases (is_negative v || greater_than v (dec.literal 100 0))) [
        | inl out_of ↦ rw (set_hard_spread_cmd, read, out_of) (stay refl)
        | inr within ↦ elim (Bool-cases (less_than (percent v) (dec.literal 1 2))) [
          | inl low ↦ rw (set_hard_spread_cmd, read, within, low) (stay refl)
          | inr high ↦
              rw (set_hard_spread_cmd, read, within, high)
                (change_floor-Step (percent v) a adm high)
        ]
      ]
    ]

    entries_of :
        (raw : Text) (parsed : Map Text D) → parse_fees parse raw ≡ ok parsed → All IsEntry parsed
    entries_of raw parsed e = subst (Yields (All IsEntry)) e (parse_fees-Yields parse raw)

    pub set_fees-Step :
        (args : List Text) (a : Application D)
        → is_admin a chat ≡ true
        → Step print o chat a (set_fees_cmd parse print o args a).0
    unfolding set_fees_cmd
    set_fees-Step [] a adm = stay refl
    set_fees-Step (arg ∷ args) a adm =
        elim (ParseResult-cases (parse_fees parse (join_comma (arg ∷ args)))) [
          | inr (part, bad) ↦ rw (set_fees_cmd, bad) (stay refl)
          | inl (parsed, good) ↦
              let config = set_each a.config parsed in
              let fees = fees_string print (some config) in
              rw (set_fees_cmd, good)
                (priced parsed adm (entries_of _ parsed good) (
                  logged_state settings_key_fees fees (fees_updated fees) fees_not_saved
                    (record a { config = config })))
        ]

added_state :
    {D : Type 0} (name : Text) (a : Application D) (r : ConnectorManager × Option ManagerError)
    → (added_or name a r).0 ≡ record a { conn_manager = r.0 }
added_state name a (cm, none) = refl
added_state name a (cm, some e) = refl

removed_state :
    {D : Type 0} (name : Text) (a : Application D) (r : ConnectorManager × Option ManagerError)
    → (removed_or name a r).0 ≡ record a { conn_manager = r.0 }
removed_state name a (cm, none) = refl
removed_state name a (cm, some e) = refl

module _ {D : Type 0} ⦃dec : Decimal D⦄ (print : D → Text) (o : Outcomes D) (chat : ℕ) where
  pub add_exchange-Step :
      (args : List Text) (a : Application D)
      → is_admin a chat ≡ true
      → Step print o chat a (add_exchange o args a).0
  unfolding add_exchange
  add_exchange-Step [] a adm = stay refl
  add_exchange-Step (arg ∷ args) a adm =
      let name = to_upper arg in
      elim (Option-cases (made_by a.connector_factory name)) [
        | inl missing ↦ rw (add_exchange, missing) (stay refl)
        | inr (true, found) ↦
            rw (add_exchange, found)
              (plugged name o.in_time adm
                (added_state name a (add_connector a.conn_manager name true o.in_time)))
        | inr (false, found) ↦ rw (add_exchange, found) (stay refl)
      ]

  pub remove_exchange-Step :
      (args : List Text) (a : Application D)
      → is_admin a chat ≡ true
      → Step print o chat a (remove_exchange o args a).0
  unfolding remove_exchange
  remove_exchange-Step [] a adm = stay refl
  remove_exchange-Step (arg ∷ args) a adm =
      let name = to_upper arg in
      unplugged name o.in_time adm
        (removed_state name a (remove_connector a.conn_manager name o.in_time))

  pub report_stats-Step : (a : Application D) → Step print o chat a (report_stats o a).0
  unfolding report_stats
  report_stats-Step a = elim (Option-cases o.stats) [
    | inl e ↦ rw (report_stats, e) (stay refl)
    | inr (none, e) ↦ rw (report_stats, e) (stay refl)
    | inr (some st, e) ↦ rw (report_stats, e) (stay refl)
  ]

  pub report_signals-Step : (a : Application D) → Step print o chat a (report_signals o a).0
  unfolding report_signals
  report_signals-Step a = elim (Option-cases o.recent) [
    | inl e ↦ rw (report_signals, e) (stay refl)
    | inr (none, e) ↦ rw (report_signals, e) (stay refl)
    | inr (some closed, e) ↦ rw (report_signals, e) (stay refl)
  ]
