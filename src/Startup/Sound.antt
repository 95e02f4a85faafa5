-- ===== src/Startup/Sound.antt =====
-- The state that NewApplication and Run of internal/app/app.go leave, before any command.
use crypto_screener.Base.{
  List, [], ◌∷◌, Option, none, some, if◌then◌else◌, ◌≡◌, refl, inl, inr, All, sym, subst,
  Bool-cases, Option-cases, arith, ap, ◌∙◌,
}
use crypto_screener.Base.Map.{Map}
use crypto_screener.Base.Text.{Text}
use crypto_screener.Decimal.{Decimal, Le, Le_trans, decimal_zero, less_than}
use crypto_screener.Domain.Config.{
  ScreenerConfig, ParseResult, ok, bad_fee_part, default_hard_min_spread, get_hard_min_spread,
  apply_fees, replace_fees, parse_fees,
}
use crypto_screener.Domain.Config.Fees.{Yields, >>=-Yields}
use crypto_screener.Domain.Config.Thresholds.{IsValid, apply_fees-IsValid}
use crypto_screener.Domain.User.{UserManager}
use crypto_screener.Funding.{update_config}
use crypto_screener.Commands.{Application}
use crypto_screener.Commands.Admin.{funding_floor}
use crypto_screener.Commands.Sound.{IsUser, IsSound, IsEntryOf}
use crypto_screener.Commands.Sound.Kept.{set_user-All}
use crypto_screener.Commands.Steps.Ruled.{floor_accepted, set_floor_to, ParseResult-cases}
use crypto_screener.Startup.{
  Setting, absent, unreadable, present, StoredUser, loaded_user, load_users, restore_floor,
  floor_applied, restore_fees, load_operator_settings,
}

anything : {A : Type 0} (r : ParseResult A) → Yields (λ a. Unit {0}) r
anything (ok a) = tt
anything (bad_fee_part part) = tt

module _ {D : Type 0} ⦃dec : Decimal D⦄ where
  at_least : (low v : D) → Le low (if less_than v low then low else v)
  at_least low v = ground (arith, dec.below_irrefl low)

  loaded_user-IsUser :
      (config : ScreenerConfig D) (s : StoredUser D)
      → IsValid config
      → IsUser (loaded_user config s)
  unfolding loaded_user get_hard_min_spread
  loaded_user-IsUser config s h = record {
    spread_floor =
        Le_trans default_hard_min_spread config.hard_min_spread _ h.floored
          (at_least config.hard_min_spread s.user.min_spread);
    volume_sign = at_least decimal_zero s.user.min_volume;
    step_sign = at_least decimal_zero s.user.update_step;
    known = ground arith;
  }

  pub load_users-All :
      (config : ScreenerConfig D) (rows : List (Option (StoredUser D))) (um : UserManager D)
      → IsValid config
      → All (IsEntryOf IsUser) um
      → All (IsEntryOf IsUser) (load_users config rows um)
  unfolding load_users
  load_users-All config [] um c h = h
  load_users-All config (none ∷ rows) um c h = load_users-All config rows um c h
  load_users-All config (some s ∷ rows) um c h =
      load_users-All config rows _ c
        (set_user-All IsUser (loaded_user config s) um h (loaded_user-IsUser config s c))

  -- A floor that is applied is the floor of both.
  floor_applied-eq :
      (d : D) (a : Application D)
      → Le default_hard_min_spread d
      → floor_applied d a (update_config a.funding_mgr (funding_floor d)) ≡ record a {
        funding_mgr = record a.funding_mgr { config = some (funding_floor d) };
        config = record a.config { hard_min_spread = d };
      }
  floor_applied-eq d a h =
      let fm = record a.funding_mgr { config = some (funding_floor d) } in
      ap (floor_applied d a) (floor_accepted a.funding_mgr d h)
      ∙ ap (λ (r : ScreenerConfig D × D). record a { funding_mgr = fm; config = r.0 })
          (set_floor_to a.config d h)

  module _ (parse : Text → Option D) where
    -- Reading back a stored floor.
    pub restore_floor-eq :
        (v : Text) (d : D) (a : Application D)
        → parse v ≡ some d
        → Le default_hard_min_spread d
        → restore_floor parse (present v) a ≡ record a {
          funding_mgr = record a.funding_mgr { config = some (funding_floor d) };
          config = record a.config { hard_min_spread = d };
        }
    unfolding restore_floor
    restore_floor-eq v d a e h = rw (restore_floor, e, h) (floor_applied-eq d a h)

    restore_floor-IsSound :
        (s : Setting) (a : Application D) → IsSound a → IsSound (restore_floor parse s a)
    unfolding restore_floor
    restore_floor-IsSound absent a h = h
    restore_floor-IsSound unreadable a h = h
    restore_floor-IsSound (present v) a h = elim (Option-cases (parse v)) [
      | inl e ↦ rw (restore_floor, e) h
      | inr (d, e) ↦ elim (Bool-cases (less_than d default_hard_min_spread)) [
        | inl low ↦ rw (restore_floor, e, low) h
        | inr high ↦ subst IsSound (sym (restore_floor-eq v d a e high)) (record {
          subscribed = h.subscribed;
          configured = record { floored = high; priced = h.configured.priced };
          agreed = refl;
        })
      ]
    ]

    replace_floor :
        (c : ScreenerConfig D) (m : Map Text D)
        → (replace_fees parse c m).hard_min_spread ≡ c.hard_min_spread
    replace_floor c [] = refl
    replace_floor c (p ∷ m) = refl

    apply_fees_floor :
        (c : ScreenerConfig D) (raw : Text)
        → Yields
            (λ (c' : ScreenerConfig D). c'.hard_min_spread ≡ c.hard_min_spread)
            (apply_fees parse c raw)
    unfolding apply_fees
    apply_fees_floor c raw =
        >>=-Yields (λ m. Unit {0})
          (λ (c' : ScreenerConfig D). c'.hard_min_spread ≡ c.hard_min_spread) (parse_fees parse raw)
          _ (anything (parse_fees parse raw)) (λ m k. replace_floor c m)

    floor_of :
        (c : ScreenerConfig D) (raw : Text) (c' : ScreenerConfig D)
        → apply_fees parse c raw ≡ ok c'
        → c'.hard_min_spread ≡ c.hard_min_spread
    floor_of c raw c' e =
        subst (Yields (λ (r : ScreenerConfig D). r.hard_min_spread ≡ c.hard_min_spread)) e
          (apply_fees_floor c raw)

    restore_fees-IsSound :
        (s : Setting) (a : Application D) → IsSound a → IsSound (restore_fees parse s a)
    unfolding restore_fees
    restore_fees-IsSound absent a h = h
    restore_fees-IsSound unreadable a h = h
    restore_fees-IsSound (present v) a h = elim (ParseResult-cases (apply_fees parse a.config v)) [
      | inl (c, e) ↦
          rw (restore_fees, e)
            (record {
              subscribed = h.subscribed;
              configured =
                  subst (Yields IsValid) e (apply_fees-IsValid parse a.config v h.configured);
              agreed = rw (floor_of a.config v c e) h.agreed;
            })
      | inr (part, e) ↦ rw (restore_fees, e) h
    ]

    pub load_operator_settings-IsSound :
        (get : Option (Text → Setting)) (a : Application D)
        → IsSound a
        → IsSound (load_operator_settings parse get a)
    unfolding load_operator_settings
    load_operator_settings-IsSound none a h = h
    load_operator_settings-IsSound (some get) a h =
        restore_fees-IsSound _ _ (restore_floor-IsSound _ a h)
