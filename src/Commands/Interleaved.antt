-- ===== src/Commands/Interleaved.antt =====
-- Two changes of the floor in HandleCommand of internal/app/app.go that overlap, as two of the
-- workers of internal/adapters/telegram/bot.go may run them: each is the calls of UpdateConfig,
-- SetHardMinSpread and persistSetting in this order, and those of the other may come between.
use crypto_screener.Base.{
  Bool, true, false, List, [], ◌∷◌, Option, some, if◌then◌else◌, ◌≡◌, ◌≢◌, refl, sym, ◌∙◌, ap,
}
use mathlib.Core.Option.{some-injective}
use crypto_screener.Base.Text.{Text}
use crypto_screener.Decimal.{Decimal, Le}
use crypto_screener.Domain.Config.{ScreenerConfig, default_hard_min_spread, set_hard_min_spread}
use crypto_screener.Funding.{FundingManager, update_config}
use crypto_screener.Commands.{
  Application, Outcomes, Reply, RepoCall, hard_floor, floor_not_saved, persist_setting,
  settings_key_hard_spread, setting_saved,
}
use crypto_screener.Commands.Admin.{
  funding_floor, change_floor, answer_saved, apply_floor, keep_floor,
}
use crypto_screener.Commands.Sound.{IsAgreed}
use crypto_screener.Commands.Steps.Ruled.{floor_accepted, set_floor_to}

-- A call of the handler.
pub data FloorStep (D : Type 0) : Type 0 where
  require configure save : D → FloorStep D

abbrev pub floor_steps : {D : Type 0} → D → List (FloorStep D)
floor_steps v = require v ∷ configure v ∷ save v ∷ []

-- The calls of two handlers in an order that keeps that of each.
pub data Merge {A : Type 0} : List A → List A → List A → Type 0 where
  merged : Merge [] [] []
  from_left : {a : A} {xs ys zs : List A} → Merge xs ys zs → Merge (a ∷ xs) ys (a ∷ zs)
  from_right : {a : A} {xs ys zs : List A} → Merge xs ys zs → Merge xs (a ∷ ys) (a ∷ zs)

module _ {D : Type 0} ⦃dec : Decimal D⦄ (print : D → Text) (o : Outcomes D) where
  abbrev pub take_step : FloorStep D → Application D → Application D
  take_step (require v) a = record a {
    funding_mgr = (update_config a.funding_mgr (funding_floor v)).0;
  }
  take_step (configure v) a = record a { config = (set_hard_min_spread a.config v).0 }
  take_step (save v) a = (persist_setting o settings_key_hard_spread (print v) a).0

  abbrev pub take_steps : List (FloorStep D) → Application D → Application D
  take_steps [] a = a
  take_steps (s ∷ steps) a = take_steps steps (take_step s a)

  abbrev Requires : D → Application D → Type 0
  Requires v a = a.funding_mgr.config ≡ some (funding_floor v)

  abbrev Configures : D → Application D → Type 0
  Configures v a = a.config.hard_min_spread ≡ v

  required :
      (v : D) (a : Application D)
      → Le default_hard_min_spread v
      → Requires v (take_step (require v) a)
  required v a h = ap (λ r. r.0.config) (floor_accepted a.funding_mgr v h)

  configured :
      (v : D) (a : Application D)
      → Le default_hard_min_spread v
      → Configures v (take_step (configure v) a)
  configured v a h = ap (λ r. r.0.hard_min_spread) (set_floor_to a.config v h)

  saved_if :
      (there saved : Bool) (c : RepoCall D) (a : Application D)
      → let r : Application D × Bool =
          if there
          then if saved then (record a { calls = c ∷ a.calls }, true) else (a, false)
          else (a, true) in
        (r.0.funding_mgr ≡ a.funding_mgr) × (r.0.config ≡ a.config)
  saved_if true true c a = (refl, refl)
  saved_if true false c a = (refl, refl)
  saved_if false saved c a = (refl, refl)

  -- A save changes neither.
  save-same :
      (v : D) (a : Application D)
      → let b = take_step (save v) a in (b.funding_mgr ≡ a.funding_mgr) × (b.config ≡ a.config)
  unfolding persist_setting
  save-same v a =
      saved_if a.has_settings_repo o.saved (setting_saved settings_key_hard_spread (print v)) a

  -- The order in which the second change overtakes the first between its two calls.
  abbrev overtaken : D → D → List (FloorStep D)
  overtaken v w = require v ∷ require w ∷ configure w ∷ save w ∷ configure v ∷ save v ∷ []

  overtaken-Merge : (v w : D) → Merge (floor_steps v) (floor_steps w) (overtaken v w)
  overtaken-Merge v w =
      from_left (from_right (from_right (from_right (from_left (from_left merged)))))

  overtaken-Requires :
      (v w : D) (a : Application D)
      → Le default_hard_min_spread w
      → Requires w (take_steps (overtaken v w) a)
  overtaken-Requires v w a h =
      let a1 = take_step (require v) a in
      let a2 = take_step (require w) a1 in
      let a3 = take_step (configure w) a2 in
      let a4 = take_step (save w) a3 in
      let a5 = take_step (configure v) a4 in
      ap (λ fm. fm.config) ((save-same v a5).0 ∙ (save-same w a3).0) ∙ required w a1 h

  overtaken-Configures :
      (v w : D) (a : Application D)
      → Le default_hard_min_spread v
      → Configures v (take_steps (overtaken v w) a)
  overtaken-Configures v w a h =
      let a3 = take_steps (require v ∷ require w ∷ configure w ∷ save w ∷ []) a in
      ap (λ c. c.hard_min_spread) (save-same v (take_step (configure v) a3)).1 ∙ configured v a3 h

  disagreed : (v w : D) (a : Application D) → v ≢ w → Requires w a → Configures v a → ¬ IsAgreed a
  disagreed v w a apart r c agreed =
      apart (sym c ∙ ap (λ p. p.min_spread) (some-injective _ (funding_floor w) (sym agreed ∙ r)))

  -- Of any two changes to floors of at least 0.01 that differ, the calls can come in an order after
  -- which the funding manager requires one and the configuration holds the other.
  pub floors_disagree :
      (v w : D) (a : Application D)
      → Le default_hard_min_spread v
      → Le default_hard_min_spread w
      → v ≢ w
      → (steps : List (FloorStep D)) × Merge (floor_steps v) (floor_steps w) steps
        × (¬ IsAgreed (take_steps steps a))
  floors_disagree v w a hv hw apart = (
    overtaken v w,
    overtaken-Merge v w,
    disagreed v w (take_steps (overtaken v w) a) apart (overtaken-Requires v w a hw)
        (overtaken-Configures v w a hv),
  )

  answered :
      (saved failed : Reply D) (r : Application D × Bool) → (answer_saved saved failed r).0 ≡ r.0
  answered saved failed (a, true) = refl
  answered saved failed (a, false) = refl

  -- The calls of one handler alone are the handler, for a floor of at least 0.01.
  pub floor_steps-change_floor :
      (parse : Text → Option D) (v : D) (a : Application D)
      → Le default_hard_min_spread v
      → take_steps (floor_steps v) a ≡ (change_floor parse print o v a).0
  unfolding change_floor
  floor_steps-change_floor parse v a h =
      let kept : FundingManager D → ScreenerConfig D → Application D = λ fm config.
        (persist_setting o settings_key_hard_spread (print v)
          (record a { funding_mgr = fm; config = config })).0 in
      let fm = record a.funding_mgr { config = some (funding_floor v) } in
      let accepted = floor_accepted a.funding_mgr v h in
      let set = set_floor_to a.config v h in
      ap (λ r. kept r.0 (set_hard_min_spread a.config v).0) accepted
      ∙ ap (λ r. kept fm r.0) set
      ∙ sym (
          ap (λ r. (apply_floor parse print o v a r).0) accepted
          ∙ ap (λ r. (keep_floor parse print o (record a { funding_mgr = fm }) r).0) set
          ∙ answered (hard_floor v) floor_not_saved _)
