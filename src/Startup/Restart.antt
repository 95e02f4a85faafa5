-- ===== src/Startup/Restart.antt =====
-- What the operator's settings of internal/app/app.go are worth after a restart: sethardspread and
-- setfees store them, and loadOperatorSettings reads them back.
use crypto_screener.Base.{
  ℕ, Bool, true, false, List, [], ◌∷◌, Option, some, ◌≡◌, refl, sym, subst, ap, ◌∙◌, ◌⊎◌, ◌&&◌, inl,
  inr,
}
use crypto_screener.Base.Eq.{text_eq, ◌==◌, ==_refl, list_beq}
use crypto_screener.Base.Text.{Text}
use crypto_screener.Decimal.{Decimal, Le, Le_trans, Le_refl}
use crypto_screener.Domain.Config.{default_hard_min_spread}
use crypto_screener.Commands.{
  Application, Outcomes, RepoCall, user_saved, user_deleted, setting_saved,
  settings_key_hard_spread, settings_key_fees,
}
use crypto_screener.Commands.Access.Stored.{Session, begin, command, admins}
use crypto_screener.Commands.Sound.{IsSound}
use crypto_screener.Commands.Steps.{
  Step, stay, entered, left, floored, priced, plugged, unplugged, logged,
}
use crypto_screener.Commands.Steps.Whole.{handle_command-Step}
use crypto_screener.Startup.{Setting, absent, present, restore_floor}
use crypto_screener.Startup.Life.{session-IsSound}
use crypto_screener.Commands.Sound.Kept.{set_each_floor}
use crypto_screener.Startup.Sound.{restore_floor-eq}

-- GetSetting on a table that holds, for each key, what was saved last.
abbrev or_earlier : Bool → Text → Setting → Setting
or_earlier true value s = present value
or_earlier false value s = s

abbrev pub setting_of : {D : Type 0} → List (RepoCall D) → Text → Setting
setting_of [] key = absent
setting_of (user_saved u ∷ calls) key = setting_of calls key
setting_of (user_deleted chat ∷ calls) key = setting_of calls key
setting_of (setting_saved k value ∷ calls) key = or_earlier (k == key) value (setting_of calls key)

other_key : (settings_key_fees == settings_key_hard_spread) ≡ false
unfolding list_beq
other_key = refl

module _ {D : Type 0} where
  logged_own :
      (there saved : Bool) (key value : Text) (calls : List (RepoCall D))
      → there ≡ true
      → saved ≡ true
      → setting_of (logged (there && saved) key value calls) key ≡ present value
  logged_own true true key value calls t w =
      ap (λ b. or_earlier b value (setting_of calls key)) (==_refl {A = Text} key)
  logged_own true false key value calls t w = cc
  logged_own false saved key value calls t w = cc

  logged_other :
      (b : Bool) (value : Text) (calls : List (RepoCall D))
      → setting_of (logged b settings_key_fees value calls) settings_key_hard_spread
        ≡ setting_of calls settings_key_hard_spread
  logged_other true value calls =
      ap (λ b. or_earlier b value (setting_of calls settings_key_hard_spread)) other_key
  logged_other false value calls = refl

module _ {D : Type 0} ⦃dec : Decimal D⦄ where
  -- Equal by value.
  abbrev pub Same : D → D → Type 0
  Same x y = Le x y × Le y x

  module _ (parse : Text → Option D) (print : D → Text) where
    -- No call of the repository fails.
    abbrev pub AllSaved : {a b : Application D} → Session parse print a b → Type 0
    AllSaved begin = Unit {0}
    AllSaved (command o cmd q s) = (o.saved ≡ true) × AllSaved s
    AllSaved (admins ids s) = AllSaved s

    -- What is stored for the floor is the floor, or nothing is and the floor is the first one.
    abbrev IsRemembered : D → Application D → Type 0
    IsRemembered first a =
        (a.has_settings_repo ≡ true)
        × (((setting_of a.calls settings_key_hard_spread ≡ absent)
              × (a.config.hard_min_spread ≡ first))
            ⊎ (setting_of a.calls settings_key_hard_spread
                ≡ present (print a.config.hard_min_spread)))

    Step-IsRemembered :
        {o : Outcomes D} {chat : ℕ} {a b : Application D} (first : D)
        → Step print o chat a b
        → o.saved ≡ true
        → IsRemembered first a
        → IsRemembered first b
    Step-IsRemembered first (stay e) w h = subst (IsRemembered first) (sym e) h
    Step-IsRemembered first (entered u ed saved e) w h = subst (IsRemembered first) (sym e) h
    Step-IsRemembered first (left saved e) w h = subst (IsRemembered first) (sym e) h
    Step-IsRemembered {o = o} {a = a} first (floored v adm high e) w h =
        subst (IsRemembered first) (sym e) (
          h.0,
          inr (
              logged_own a.has_settings_repo o.saved settings_key_hard_spread (print v) a.calls h.0
                w),
        )
    Step-IsRemembered {o = o} {a = a} first (priced parsed adm entries e) w h =
        subst (IsRemembered first) (sym e) (
          h.0,
          elim h.1 [
            | inl (gone_, same) ↦ inl (
              logged_other (a.has_settings_repo && o.saved) _ a.calls ∙ gone_,
              set_each_floor a.config parsed ∙ same,
            )
            | inr kept ↦ inr (
                logged_other (a.has_settings_repo && o.saved) _ a.calls
                ∙ kept
                ∙ ap (λ d. present (print d)) (sym (set_each_floor a.config parsed)))
          ],
        )
    Step-IsRemembered first (plugged name in_time adm e) w h = subst (IsRemembered first) (sym e) h
    Step-IsRemembered first (unplugged name in_time adm e) w h =
        subst (IsRemembered first) (sym e) h

    session-IsRemembered :
        {a b : Application D} (first : D) (s : Session parse print a b)
        → AllSaved s
        → IsRemembered first a
        → IsRemembered first b
    session-IsRemembered first begin w h = h
    session-IsRemembered first (command {b = b} o cmd q s) w h =
        Step-IsRemembered first (handle_command-Step parse print o q b cmd) w.0
          (session-IsRemembered first s w.1 h)
    session-IsRemembered first (admins ids s) w h = session-IsRemembered first s w h

    -- What a decimal is printed as reads back as an equal one.
    abbrev pub ReadsBack : Type 0
    ReadsBack = (d : D) → (d' : D) × ((parse (print d) ≡ some d') × Same d d')

    restored :
        (reads : ReadsBack) (v : D) (c : Application D)
        → Le default_hard_min_spread v
        → Same v (restore_floor parse (present (print v)) c).config.hard_min_spread
    restored reads v c h =
        let (d, (e, same)) = reads v in
        let high = Le_trans default_hard_min_spread v d h same.0 in
        subst (λ (r : Application D). Same v r.config.hard_min_spread)
          (sym (restore_floor-eq parse (print v) d c e high)) same

    -- After any commands, each handled before the next one begins, in which no call of the
    -- repository fails, the floor that a new application restores from the stored settings is equal
    -- by value to the floor that the old one had at the end. The repository keeps settings and held
    -- none before, the old application was sound, the new one begins with the floor of the old one,
    -- and what a decimal is printed as reads back as an equal one. Commands that overlap are left
    -- out.
    pub restore_floor-session :
        (reads : ReadsBack) {a b : Application D} (c : Application D) (s : Session parse print a b)
        → AllSaved s
        → a.has_settings_repo ≡ true
        → a.calls ≡ []
        → IsSound a
        → c.config.hard_min_spread ≡ a.config.hard_min_spread
        → Same b.config.hard_min_spread
            (restore_floor parse
              (setting_of b.calls settings_key_hard_spread)
              c).config.hard_min_spread
    unfolding restore_floor
    restore_floor-session reads {a = a} {b = b} c s w there none_ sound same =
        let nothing = ap (λ (l : List (RepoCall D)). setting_of l settings_key_hard_spread) none_ in
        let first = a.config.hard_min_spread in
        let sound' = session-IsSound parse print s sound in
        let P : Setting → Type 0 =
          λ t. Same b.config.hard_min_spread (restore_floor parse t c).config.hard_min_spread in
        elim (session-IsRemembered first s w (there, inl (nothing, refl))).1 [
          | inl (never, kept) ↦ subst P (sym never) (
              subst (λ v. Same v c.config.hard_min_spread) (same ∙ sym kept)
                (Le_refl c.config.hard_min_spread, Le_refl c.config.hard_min_spread))
          | inr now ↦
              subst P (sym now)
                (restored reads b.config.hard_min_spread c sound'.configured.floored)
        ]
